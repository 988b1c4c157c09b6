-- ===== src/Hcsr/Irqs.antt =====
-- The interrupts that a device of `HCSR_Driver.c` holds: at most one, that of its echo pin.
pub mod Calls
pub mod Session
use linux_kernel_programing.Prelude.{
  ℕ, zero, suc, ◌+◌, ◌≤◌, ◌≡◌, ◌≢◌, ◌∙◌, refl, sym, ap, Bool, true, false, not, ◌&&◌, ◌||◌, Option,
  none, some, List, [], ◌∷◌, arith, ◌==◌, if◌then◌else◌, map, Bool-cases, inl, inr,
}
use linux_kernel_programing.Prelude.Int.{ℤ, pos, negsuc, ltb_ℤ, ◌==ℤ◌}
use linux_kernel_programing.Gpio.{Gpio, GpioCall, Log, freed, irq_requested, irq_freed}
use linux_kernel_programing.Hcsr.Device.{Device, IrqData, pin_config, no_value}
use linux_kernel_programing.Hcsr.Pins.{
  PinConfig, Kernel, config_opt, update_entry, configure_entry, configure_interrupt, assign_role,
  configure_one, configure_pins, is_pin, free_opt,
}

-- The calls of a log that concern interrupts.
abbrev pub irq_calls : Log → Log
irq_calls [] = []
irq_calls (irq_requested i ∷ log) = irq_requested i ∷ irq_calls log
irq_calls (irq_freed i ∷ log) = irq_freed i ∷ irq_calls log
irq_calls (_ ∷ log) = irq_calls log

abbrev pub irq_requests : ℤ → Log → ℕ
irq_requests i [] = 0
irq_requests i (irq_requested j ∷ log) = (if j ==ℤ i then 1 else 0) + irq_requests i log
irq_requests i (_ ∷ log) = irq_requests i log

abbrev pub irq_frees : ℤ → Log → ℕ
irq_frees i [] = 0
irq_frees i (irq_freed j ∷ log) = (if j ==ℤ i then 1 else 0) + irq_frees i log
irq_frees i (_ ∷ log) = irq_frees i log

-- How often the device with this `irq_no` holds interrupt `i`.
abbrev pub held_irq : ℤ → ℤ → ℕ
held_irq i irq_no = if irq_no ==ℤ no_value then 0 else (if irq_no ==ℤ i then 1 else 0)

-- Interrupt `i` was requested so many times more than freed as the device holds it.
abbrev pub IsIrqHeld : ℤ → Device → Log → Type 0
IsIrqHeld i d log =
    irq_requests i (irq_calls log) ≡ irq_frees i (irq_calls log) + held_irq i d.irq_data.irq_no

pin_config-irq_calls :
    (g : Gpio) (pin : ℕ) (io_flag val configure : Bool) (log : Log)
    → irq_calls (pin_config g pin io_flag val configure log).1 ≡ irq_calls log
unfolding pin_config
pin_config-irq_calls g pin io_flag val configure log = ground arith

config_opt-irq_calls :
    (g : Gpio) (pin : Option ℕ) (io_flag val configure : Bool) (log : Log)
    → irq_calls (config_opt g pin io_flag val configure log).1 ≡ irq_calls log
unfolding config_opt
config_opt-irq_calls g none io_flag val configure log = refl
config_opt-irq_calls g (some pin) io_flag val configure log =
    pin_config-irq_calls g pin io_flag val configure log

free_opt-irq_calls : (pin : Option ℕ) (log : Log) → irq_calls (free_opt pin log) ≡ irq_calls log
free_opt-irq_calls none log = refl
free_opt-irq_calls (some pin) log = refl

update_entry-irq_calls :
    (g : Gpio) (io_flag : Bool) (e : PinConfig) (log : Log)
    → irq_calls (update_entry g io_flag e log).1 ≡ irq_calls log
unfolding update_entry
update_entry-irq_calls g io_flag e log =
    let log₁ = (pin_config g e.linux_gpio_pin io_flag false false log).1 in
    ground (
      arith,
      pin_config-irq_calls g e.linux_gpio_pin io_flag false false log,
      config_opt-irq_calls g e.level_shifter_pin io_flag false false log₁,
    )

configure_entry-irq_calls :
    (g : Gpio) (minor : ℕ) (io_flag : Bool) (e : PinConfig) (log : Log)
    → let (ok, e', log') = configure_entry g minor io_flag e log in
      (irq_calls log' ≡ irq_calls log) × (e'.galileo_pin ≡ e.galileo_pin)
unfolding configure_entry
configure_entry-irq_calls g minor io_flag e log =
    let log₁ = (pin_config g e.linux_gpio_pin io_flag false true log).1 in
    let log₂ = (config_opt g e.level_shifter_pin io_flag false true log₁).1 in
    let log₃ = (config_opt g e.pinmux_1 true e.pinmux_1_level true log₂).1 in
    let log₄ = (config_opt g e.pinmux_2 true e.pinmux_2_level true log₃).1 in
    let r₁ = pin_config-irq_calls g e.linux_gpio_pin io_flag false true log in
    let r₂ = config_opt-irq_calls g e.level_shifter_pin io_flag false true log₁ in
    let r₃ = config_opt-irq_calls g e.pinmux_1 true e.pinmux_1_level true log₂ in
    let r₄ = config_opt-irq_calls g e.pinmux_2 true e.pinmux_2_level true log₃ in
    let f₃ = freed e.linux_gpio_pin ∷ log₃ in
    let f₄ = freed e.linux_gpio_pin ∷ log₄ in
    let u₁ = free_opt-irq_calls e.level_shifter_pin f₃ in
    let u₂ = free_opt-irq_calls e.level_shifter_pin f₄ in
    let u₃ = free_opt-irq_calls e.pinmux_1 (free_opt e.level_shifter_pin f₄) in
    (ground (arith, r₁, r₂, r₃, r₄, u₁, u₂, u₃), ground arith)

-- An entry's number stays, and so does the device's echo pin.
configure_one-frame :
    (k : Kernel) (d : Device) (e : PinConfig) (log : Log)
    → let (goes_on, d', e', log') = configure_one k d e log in
      (e'.galileo_pin ≡ e.galileo_pin) × (d'.echo_pin ≡ d.echo_pin)
unfolding configure_one assign_role configure_interrupt
configure_one-frame k d e log =
    let io_flag = not (is_pin d.echo_pin e.galileo_pin) in
    let kept = (configure_entry-irq_calls k.gpio d.minor io_flag e log).1 in
    (ground (arith, kept), ground arith)

configure_one-other :
    (k : Kernel) (d : Device) (e : PinConfig) (log : Log)
    → is_pin d.echo_pin e.galileo_pin ≡ false
    → let (goes_on, d', e', log') = configure_one k d e log in
      (d'.irq_data.irq_no ≡ d.irq_data.irq_no) × (irq_calls log' ≡ irq_calls log)
unfolding configure_one assign_role
configure_one-other k d e log h =
    let u = update_entry-irq_calls k.gpio true e log in
    let c = (configure_entry-irq_calls k.gpio d.minor true e log).0 in
    (ground (arith, h), ground (arith, h, u, c))

configure_one-IsIrqHeld :
    (i : ℤ) (k : Kernel) (d : Device) (e : PinConfig) (log : Log)
    → d.irq_data.irq_no ≡ no_value
    → IsIrqHeld i d log
    → let (goes_on, d', e', log') = configure_one k d e log in IsIrqHeld i d' log'
unfolding configure_one assign_role configure_interrupt
configure_one-IsIrqHeld i k d e log n h =
    let io_flag = not (is_pin d.echo_pin e.galileo_pin) in
    let u = update_entry-irq_calls k.gpio io_flag e log in
    let c = (configure_entry-irq_calls k.gpio d.minor io_flag e log).0 in ground (arith, n, h, u, c)
