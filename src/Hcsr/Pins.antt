-- ===== src/Hcsr/Pins.antt =====
-- The pins of the Galileo board in `user-space device interface for HC-SR04/HCSR_Driver.c`: the
-- table of the shield's pins with the GPIOs behind each, and how a device takes and releases them.
pub mod Balance
use linux_kernel_programing.Prelude.{
  ℕ, ◌+◌, Bool, true, false, not, ◌&&◌, ◌||◌, Option, none, some, List, [], ◌∷◌, ltb, ◌==◌,
  if◌then◌else◌,
}
use linux_kernel_programing.Prelude.Int.{ℤ, pos, negsuc, ltb_ℤ}
use linux_kernel_programing.Gpio.{Gpio, Log, freed, unexported, irq_requested}
use linux_kernel_programing.Hcsr.Device.{Device, pin_config}

-- `struct gen2_pin_config`; `none` is `NO_PIN`. The levels are what the `int` gives as a `bool`.
-- `owner` is `device_minor_number`, with `none` for `NO_VALUE`.
pub record PinConfig : Type 0 where
  pub galileo_pin : ℕ
  pub linux_gpio_pin : ℕ
  pub level_shifter_pin : Option ℕ
  pub pinmux_1 : Option ℕ
  pub pinmux_1_level : Bool
  pub pinmux_2 : Option ℕ
  pub pinmux_2_level : Bool
  pub is_pin_configured : Bool
  pub owner : Option ℕ

-- `populate_pin_data`: a new entry in front of the list.
unfoldable pub populate_pin_data :
    ℕ → ℕ → Option ℕ → Option ℕ → Bool → Option ℕ → Bool → List PinConfig → List PinConfig
populate_pin_data galileo linux shifter mux_1 level_1 mux_2 level_2 pins =
    record {
      galileo_pin = galileo;
      linux_gpio_pin = linux;
      level_shifter_pin = shifter;
      pinmux_1 = mux_1;
      pinmux_1_level = level_1;
      pinmux_2 = mux_2;
      pinmux_2_level = level_2;
      is_pin_configured = false;
      owner = none;
    }
    ∷ pins

-- A level of -1 (`NO_VALUE`) is `true` as a `bool`; it belongs to no pin.
unfoldable pub populate_gen2_pins_data : List PinConfig → List PinConfig
unfolding populate_pin_data
populate_gen2_pins_data pins₀ =
    let pins₁ = populate_pin_data 0 11 (some 32) none true none true pins₀ in
    let pins₂ = populate_pin_data 1 12 (some 28) (some 45) false none true pins₁ in
    let pins₃ = populate_pin_data 2 61 none (some 77) false none true pins₂ in
    let pins₄ = populate_pin_data 3 62 none (some 76) false (some 64) false pins₃ in
    let pins₅ = populate_pin_data 4 6 (some 36) none true none true pins₄ in
    let pins₆ = populate_pin_data 5 0 (some 18) (some 66) false none true pins₅ in
    let pins₇ = populate_pin_data 6 1 (some 20) (some 68) false none true pins₆ in
    let pins₈ = populate_pin_data 7 38 none none true none true pins₇ in
    let pins₉ = populate_pin_data 8 40 none none true none true pins₈ in
    let pins₁₀ = populate_pin_data 9 4 (some 22) (some 70) false none true pins₉ in
    let pins₁₁ = populate_pin_data 10 10 (some 26) (some 74) false none true pins₁₀ in
    let pins₁₂ = populate_pin_data 11 5 (some 24) (some 44) false (some 72) false pins₁₁ in
    let pins₁₃ = populate_pin_data 12 15 (some 42) none true none true pins₁₂ in
    populate_pin_data 13 7 (some 30) (some 46) false none true pins₁₃

-- What the kernel answers about GPIOs and interrupts: `gpio_to_irq(pin)`, and whether
-- `request_irq` succeeds after the calls of a log.
pub record Kernel : Type 0 where
  pub gpio : Gpio
  pub gpio_to_irq : ℕ → ℤ
  pub grants_irq : Log → ℤ → Bool

unfoldable pub release_pin : ℕ → Log → Log
release_pin pin log = unexported pin ∷ freed pin ∷ log

abbrev pub release_opt : Option ℕ → Log → Log
release_opt none log = log
release_opt (some pin) log = release_pin pin log

-- Whether a caller releases an entry: any at the module's end, else those that it owns.
abbrev pub owns : Option ℕ → Option ℕ → Bool
owns none owner = true
owns (some minor) none = false
owns (some minor) (some k) = minor == k

-- The body of the loop in `release_gpio_pins`: `none` as the device is the call at the module's
-- end, which also frees the memory of a configured entry and then reads the next link from it. Here
-- the link reads as before; a configured entry at that call is what `hcsr04_exit` of the platform
-- driver makes of it with other memory.
unfoldable pub release_entry : Option ℕ → PinConfig → Log → PinConfig × Log
unfolding release_pin
release_entry minor e log =
    let log₁ = release_pin e.linux_gpio_pin log in
    let log₂ = release_opt e.level_shifter_pin log₁ in
    let log₃ = release_opt e.pinmux_1 log₂ in
    let log₄ = release_opt e.pinmux_2 log₃ in
    if e.is_pin_configured && owns minor e.owner
    then (record e { is_pin_configured = false; owner = none }, log₄)
    else (e, log)

unfoldable pub release_gpio_pins : Option ℕ → List PinConfig → Log → List PinConfig × Log
release_gpio_pins minor [] log = ([], log)
release_gpio_pins minor (e ∷ pins) log =
    let (e', log') = release_entry minor e log in
    let (pins', log'') = release_gpio_pins minor pins log' in (e' ∷ pins', log'')

-- `pin_config` of a pin that may be missing.
unfoldable pub config_opt : Gpio → Option ℕ → Bool → Bool → Bool → Log → Bool × Log
config_opt g none io_flag val configure log = (false, log)
config_opt g (some pin) io_flag val configure log = pin_config g pin io_flag val configure log

abbrev pub free_opt : Option ℕ → Log → Log
free_opt none log = log
free_opt (some pin) log = freed pin ∷ log

-- An entry that is configured already: its two first pins are updated.
unfoldable pub update_entry : Gpio → Bool → PinConfig → Log → Bool × Log
update_entry g io_flag e log =
    let (failed, log₁) = pin_config g e.linux_gpio_pin io_flag false false log in
    let (failed_shifter, log₂) = config_opt g e.level_shifter_pin io_flag false false log₁ in
    if failed
    then (false, log₁)
    else (if failed_shifter then (false, freed e.linux_gpio_pin ∷ log₂) else (true, log₂))

-- An entry that is not configured: its up to four pins are requested in turn, and a failure frees
-- those before it.
unfoldable pub configure_entry : Gpio → ℕ → Bool → PinConfig → Log → Bool × PinConfig × Log
configure_entry g minor io_flag e log =
    let (failed, log₁) = pin_config g e.linux_gpio_pin io_flag false true log in
    let (failed_shifter, log₂) = config_opt g e.level_shifter_pin io_flag false true log₁ in
    let (failed_1, log₃) = config_opt g e.pinmux_1 true e.pinmux_1_level true log₂ in
    let (failed_2, log₄) = config_opt g e.pinmux_2 true e.pinmux_2_level true log₃ in
    if failed
    then (false, e, log₁)
    else (if failed_shifter
        then (false, e, freed e.linux_gpio_pin ∷ log₂)
        else (if failed_1
            then (false, e, free_opt e.level_shifter_pin (freed e.linux_gpio_pin ∷ log₃))
            else (if failed_2
                then (
                  false,
                  e,
                  free_opt e.pinmux_1
                      (free_opt e.level_shifter_pin (freed e.linux_gpio_pin ∷ log₄)),
                )
                else (true, record e { is_pin_configured = true; owner = some minor }, log₄))))

-- `configure_interrupt`: whether it succeeded.
unfoldable pub configure_interrupt : Kernel → ℕ → Device → Log → Bool × Device × Log
configure_interrupt k pin d log =
    let irq = k.gpio_to_irq pin in
    if ltb_ℤ irq (pos 0)
    then (false, d, log)
    else (if k.grants_irq log irq
        then (
          true,
          record d { irq_data = record (d.irq_data) { irq_no = irq; irq_echo_pin = some pin } },
          irq_requested irq ∷ log,
        )
        else (false, d, log))

abbrev pub is_pin : Option ℕ → ℕ → Bool
is_pin none q = false
is_pin (some p) q = p == q

-- The echo pin gets its interrupt, the trigger pin is noted.
unfoldable pub assign_role : Kernel → Bool → ℕ → Device → Log → Bool × Device × Log
assign_role k io_flag pin d log =
    if io_flag
    then (true, record d { irq_data = record (d.irq_data) { irq_trigger_pin = some pin } }, log)
    else configure_interrupt k pin d log

-- The body of the loop in `configure_pins`: whether it goes on.
unfoldable pub configure_one : Kernel → Device → PinConfig → Log → Bool × Device × PinConfig × Log
configure_one k d e log =
    let io_flag = not (is_pin d.echo_pin e.galileo_pin) in
    let (updated, log₁) = update_entry k.gpio io_flag e log in
    let (fresh, e', log₂) = configure_entry k.gpio d.minor io_flag e log in
    let old = e.is_pin_configured in
    let e'' = if old then e else e' in
    let log' = if old then log₁ else log₂ in
    let (assigned, d', log'') = assign_role k io_flag e.linux_gpio_pin d log' in
    if is_pin d.trigger_pin e.galileo_pin || is_pin d.echo_pin e.galileo_pin
    then (if (if old then updated else fresh)
        then (assigned, d', e'', log'')
        else (false, d, e'', log'))
    else (true, d, e, log)

-- `configure_pins`: whether it succeeded. A failure ends the loop.
unfoldable pub configure_pins :
    Kernel → Device → List PinConfig → Log → Bool × Device × List PinConfig × Log
configure_pins k d [] log = (true, d, [], log)
configure_pins k d (e ∷ pins) log =
    let (goes_on, d', e', log') = configure_one k d e log in
    let (done, d'', pins', log'') = configure_pins k d' pins log' in
    if goes_on then (done, d'', e' ∷ pins', log'') else (false, d', e' ∷ pins, log')
