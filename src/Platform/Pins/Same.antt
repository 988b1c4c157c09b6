-- ===== src/Platform/Pins/Same.antt =====
-- The two HC-SR04 drivers take the same pins, as long as the pins that may be inputs are below 64.
use linux_kernel_programing.Prelude.{
  ℕ, ◌≡◌, refl, Bool, true, false, not, ◌&&◌, ◌||◌, Option, none, some, List, [], ◌∷◌, arith, ltb,
}
use linux_kernel_programing.Gpio.{Gpio, Log}
use linux_kernel_programing.Hcsr.Device
use linux_kernel_programing.Hcsr.Device.{Device}
use linux_kernel_programing.Hcsr.Pins
use linux_kernel_programing.Hcsr.Pins.{
  PinConfig, Kernel, is_pin, assign_role, populate_gen2_pins_data, populate_pin_data,
}
use linux_kernel_programing.Platform.Device.{pin_config}
use linux_kernel_programing.Platform.Pins.{
  config_opt, update_entry, configure_entry, configure_one, configure_pins,
}

abbrev is_low : Option ℕ → Bool
is_low none = true
is_low (some pin) = ltb pin 64

-- The GPIO and the level shifter of an entry are below 64.
abbrev pub IsLow : PinConfig → Type 0
IsLow e = (ltb e.linux_gpio_pin 64 && is_low e.level_shifter_pin) ≡ true

abbrev pub AllLow : List PinConfig → Type 0
AllLow [] = Unit
AllLow (e ∷ pins) = IsLow e × AllLow pins

pin_config-eq :
    (g : Gpio) (pin : ℕ) (io_flag val configure : Bool) (log : Log)
    → (io_flag || ltb pin 64) ≡ true
    → pin_config g pin io_flag val configure log ≡ Device.pin_config g pin io_flag val configure log
unfolding pin_config Device.pin_config
pin_config-eq g pin io_flag val configure log h = ground arith

config_opt-eq :
    (g : Gpio) (pin : Option ℕ) (io_flag val configure : Bool) (log : Log)
    → (io_flag || is_low pin) ≡ true
    → config_opt g pin io_flag val configure log ≡ Pins.config_opt g pin io_flag val configure log
unfolding config_opt Pins.config_opt
config_opt-eq g none io_flag val configure log h = refl
config_opt-eq g (some pin) io_flag val configure log h =
    pin_config-eq g pin io_flag val configure log h

update_entry-eq :
    (g : Gpio) (io_flag : Bool) (e : PinConfig) (log : Log)
    → IsLow e
    → update_entry g io_flag e log ≡ Pins.update_entry g io_flag e log
unfolding update_entry Pins.update_entry
update_entry-eq g io_flag e log h =
    let log₁ = (Device.pin_config g e.linux_gpio_pin io_flag false false log).1 in
    ground (
      arith,
      pin_config-eq g e.linux_gpio_pin io_flag false false log,
      config_opt-eq g e.level_shifter_pin io_flag false false log₁,
    )

configure_entry-eq :
    (g : Gpio) (minor : ℕ) (io_flag : Bool) (e : PinConfig) (log : Log)
    → IsLow e
    → configure_entry g minor io_flag e log ≡ Pins.configure_entry g minor io_flag e log
unfolding configure_entry Pins.configure_entry
configure_entry-eq g minor io_flag e log h =
    let log₁ = (Device.pin_config g e.linux_gpio_pin io_flag false true log).1 in
    let log₂ = (Pins.config_opt g e.level_shifter_pin io_flag false true log₁).1 in
    let log₃ = (Pins.config_opt g e.pinmux_1 true e.pinmux_1_level true log₂).1 in
    ground (
      arith,
      pin_config-eq g e.linux_gpio_pin io_flag false true log,
      config_opt-eq g e.level_shifter_pin io_flag false true log₁,
      config_opt-eq g e.pinmux_1 true e.pinmux_1_level true log₂,
      config_opt-eq g e.pinmux_2 true e.pinmux_2_level true log₃,
    )

configure_one-eq :
    (k : Kernel) (d : Device) (e : PinConfig) (log : Log)
    → IsLow e
    → configure_one k d e log ≡ Pins.configure_one k d e log
unfolding configure_one Pins.configure_one
configure_one-eq k d e log h =
    let io_flag = not (is_pin d.echo_pin e.galileo_pin) in
    rw (update_entry-eq k.gpio io_flag e log h, configure_entry-eq k.gpio d.minor io_flag e log h)

-- On a table whose GPIOs and level shifters are all below 64, as the board's are, the two HC-SR04
-- drivers configure a device's pins in the same way: the same result, device and table, and the
-- same calls of the kernel in the same order.
pub configure_pins-eq :
    (k : Kernel) (d : Device) (pins : List PinConfig) (log : Log)
    → AllLow pins
    → configure_pins k d pins log ≡ Pins.configure_pins k d pins log
unfolding configure_pins Pins.configure_pins
configure_pins-eq k d [] log h = refl
configure_pins-eq k d (e ∷ pins) log (low, h) =
    let (goes_on, d', e', log') = Pins.configure_one k d e log in
    rw (configure_one-eq k d e log low, configure_pins-eq k d' pins log' h)

pub board-AllLow : AllLow (populate_gen2_pins_data [])
unfolding populate_gen2_pins_data populate_pin_data
board-AllLow = ground arith
