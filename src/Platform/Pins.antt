-- ===== src/Platform/Pins.antt =====
-- How a device of `platform_driver.c` takes its pins and its interrupt: `configure_pins` with the
-- driver's own `pin_config`.
pub mod Same
use linux_kernel_programing.Prelude.{
  ℕ, Bool, true, false, not, ◌||◌, Option, none, some, List, [], ◌∷◌, if◌then◌else◌,
}
use linux_kernel_programing.Gpio.{Gpio, Log, freed}
use linux_kernel_programing.Hcsr.Device.{Device}
use linux_kernel_programing.Hcsr.Pins.{PinConfig, Kernel, free_opt, is_pin, assign_role}
use linux_kernel_programing.Platform.Device.{pin_config}

-- `pin_config` of a pin that may be missing.
unfoldable pub config_opt : Gpio → Option ℕ → Bool → Bool → Bool → Log → Bool × Log
config_opt g none io_flag val configure log = (false, log)
config_opt g (some pin) io_flag val configure log = pin_config g pin io_flag val configure log

-- An entry that is configured already: its two first pins are updated.
unfoldable pub update_entry : Gpio → Bool → PinConfig → Log → Bool × Log
update_entry g io_flag e log =
    let (failed, log₁) = pin_config g e.linux_gpio_pin io_flag false false log in
    let (failed_shifter, log₂) = config_opt g e.level_shifter_pin io_flag false false log₁ in
    if failed
    then (false, log₁)
    else (if failed_shifter then (false, freed e.linux_gpio_pin ∷ log₂) else (true, log₂))

-- An entry that is not configured: a failure frees the pins that were requested before it.
unfoldable pub configure_entry : Gpio → ℕ → Bool → PinConfig → Log → Bool × PinConfig × Log
configure_entry g minor io_flag e log =
    let (failed, log₁) = pin_config g e.linux_gpio_pin io_flag false true log in
    let (failed_shifter, log₂) = config_opt g e.level_shifter_pin io_flag false true log₁ in
    let (failed_1, log₃) = config_opt g e.pinmux_1 true e.pinmux_1_level true log₂ in
    let (failed_2, log₄) = config_opt g e.pinmux_2 true e.pinmux_2_level true log₃ in
    let undo_2 = free_opt e.level_shifter_pin (freed e.linux_gpio_pin ∷ log₃) in
    let undo_3 =
      free_opt e.pinmux_1 (free_opt e.level_shifter_pin (freed e.linux_gpio_pin ∷ log₄)) in
    let taken = record e { is_pin_configured = true; owner = some minor } in
    if failed
    then (false, e, log₁)
    else (if failed_shifter
        then (false, e, freed e.linux_gpio_pin ∷ log₂)
        else (if failed_1
            then (false, e, undo_2)
            else (if failed_2 then (false, e, undo_3) else (true, taken, log₄))))

-- The body of the loop in `configure_pins`: whether it goes on.
unfoldable pub configure_one : Kernel → Device → PinConfig → Log → Bool × Device × PinConfig × Log
configure_one k d e log =
    let io_flag = not (is_pin d.echo_pin e.galileo_pin) in
    let (updated, log₁) = update_entry k.gpio io_flag e log in
    let (fresh, e', log₂) = configure_entry k.gpio d.minor io_flag e log in
    let old = e.is_pin_configured in
    let e'' = if old then e else e' in
    let log' = if old then log₁ else log₂ in
    let (assigned, d', log'') = assign_role k io_flag e.linux_gpio_pin d log' in
    if is_pin d.trigger_pin e.galileo_pin || is_pin d.echo_pin e.galileo_pin
    then (if (if old then updated else fresh)
        then (assigned, d', e'', log'')
        else (false, d, e'', log'))
    else (true, d, e, log)

-- `configure_pins`: whether it succeeded. A failure ends the loop.
unfoldable pub configure_pins :
    Kernel → Device → List PinConfig → Log → Bool × Device × List PinConfig × Log
configure_pins k d [] log = (true, d, [], log)
configure_pins k d (e ∷ pins) log =
    let (goes_on, d', e', log') = configure_one k d e log in
    let (done, d'', pins', log'') = configure_pins k d' pins log' in
    if goes_on then (done, d'', e' ∷ pins', log'') else (false, d', e' ∷ pins, log')
