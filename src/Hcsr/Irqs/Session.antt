-- ===== src/Hcsr/Irqs/Session.antt =====
-- A session with one device of `HCSR_Driver.c`: commands after an open, then the release.
use linux_kernel_programing.Prelude.{
  ℕ, ◌+◌, ◌≤◌, ◌≡◌, refl, true, false, ◌&&◌, Option, none, some, List, [], ◌∷◌, arith,
  if◌then◌else◌,
}
use linux_kernel_programing.Prelude.Int.{ℤ, pos_part}
use linux_kernel_programing.Gpio.{
  Log, requested, refused, freed, exported, unexported, direction_output, direction_input,
  value_set, value_set_cansleep, irq_requested, irq_freed,
}
use linux_kernel_programing.Hcsr.Device.{Device, initialize_device}
use linux_kernel_programing.Hcsr.Pins.{
  PinConfig, Kernel, release_gpio_pins, release_entry, release_pin, release_opt,
  populate_gen2_pins_data, populate_pin_data,
}
use linux_kernel_programing.Hcsr.Irqs.{irq_calls, irq_requests, irq_frees, held_irq, IsIrqHeld}
use linux_kernel_programing.Hcsr.Irqs.Calls.{entries, IsSound, take_pins-IsSound}
use linux_kernel_programing.Hcsr.Files.{
  Command, config_pins, set_parameters, unknown, einval, free_irq, hcsr04_release, take_pins,
  hcsr04_ioctl, in_range, is_edge_interruptible, non_echo_pins,
}

hcsr04_ioctl-IsSound :
    (i : ℤ) (k : Kernel) (c : Command) (d : Device) (pins : List PinConfig) (log : Log)
    → IsSound i d pins log
    → let (r, d', pins', log') = hcsr04_ioctl k c d pins log in IsSound i d' pins' log'
unfolding hcsr04_ioctl
hcsr04_ioctl-IsSound i k (config_pins trigger echo) d pins log s =
    let taken = take_pins-IsSound i k (pos_part trigger) (pos_part echo) d pins log s in
    let accepted = in_range trigger && in_range echo && is_edge_interruptible non_echo_pins echo in
    elim accepted
      as (λ b.
        let (r, d', pins', log') =
          if b
          then take_pins k (pos_part trigger) (pos_part echo) d pins log
          else (einval, d, pins, log) in
        IsSound i d' pins' log') [ true ↦ taken | false ↦ s ]
hcsr04_ioctl-IsSound i k (set_parameters m delta) d pins log s = record {
  held = ground (arith, s.held);
  with_pin = λ h. ground (arith, s.with_pin, h);
  once = λ pin. ground (arith, s.once pin);
}
hcsr04_ioctl-IsSound i k unknown d pins log s = s

unfoldable pub commands :
    Kernel → List Command → Device → List PinConfig → Log → Device × List PinConfig × Log
commands k [] d pins log = (d, pins, log)
commands k (c ∷ cs) d pins log =
    let (r, d', pins', log') = hcsr04_ioctl k c d pins log in commands k cs d' pins' log'

commands-IsSound :
    (i : ℤ) (k : Kernel) (cs : List Command) (d : Device) (pins : List PinConfig) (log : Log)
    → IsSound i d pins log
    → let (d', pins', log') = commands k cs d pins log in IsSound i d' pins' log'
unfolding commands
commands-IsSound i k [] d pins log s = s
commands-IsSound i k (c ∷ cs) d pins log s =
    let (r, d', pins', log') = hcsr04_ioctl k c d pins log in
    commands-IsSound i k cs d' pins' log' (hcsr04_ioctl-IsSound i k c d pins log s)

release_opt-irq_calls :
    (pin : Option ℕ) (log : Log) → irq_calls (release_opt pin log) ≡ irq_calls log
unfolding release_pin
release_opt-irq_calls none log = refl
release_opt-irq_calls (some pin) log = refl

release_gpio_pins-irq_calls :
    (minor : Option ℕ) (pins : List PinConfig) (log : Log)
    → irq_calls (release_gpio_pins minor pins log).1 ≡ irq_calls log
unfolding release_gpio_pins release_entry release_pin
release_gpio_pins-irq_calls minor [] log = refl
release_gpio_pins-irq_calls minor (e ∷ pins) log =
    let log₁ = release_pin e.linux_gpio_pin log in
    let log₂ = release_opt e.level_shifter_pin log₁ in
    let log₃ = release_opt e.pinmux_1 log₂ in
    ground (
      arith,
      release_opt-irq_calls e.level_shifter_pin log₁,
      release_opt-irq_calls e.pinmux_1 log₂,
      release_opt-irq_calls e.pinmux_2 log₃,
      release_gpio_pins-irq_calls minor pins (release_entry minor e log).1,
    )

counts-irq_calls :
    (i : ℤ) (log : Log)
    → (irq_requests i (irq_calls log) ≡ irq_requests i log)
      × (irq_frees i (irq_calls log) ≡ irq_frees i log)
counts-irq_calls i [] = (refl, refl)
counts-irq_calls i (requested p ∷ log) = counts-irq_calls i log
counts-irq_calls i (refused p ∷ log) = counts-irq_calls i log
counts-irq_calls i (freed p ∷ log) = counts-irq_calls i log
counts-irq_calls i (exported p ∷ log) = counts-irq_calls i log
counts-irq_calls i (unexported p ∷ log) = counts-irq_calls i log
counts-irq_calls i (direction_output p v ∷ log) = counts-irq_calls i log
counts-irq_calls i (direction_input p ∷ log) = counts-irq_calls i log
counts-irq_calls i (value_set p v ∷ log) = counts-irq_calls i log
counts-irq_calls i (value_set_cansleep p v ∷ log) = counts-irq_calls i log
counts-irq_calls i (irq_requested j ∷ log) =
    let (a, b) = counts-irq_calls i log in (omega (arith, a), b)
counts-irq_calls i (irq_freed j ∷ log) =
    let (a, b) = counts-irq_calls i log in (a, omega (arith, b))

hcsr04_release-irqs :
    (i : ℤ) (d : Device) (pins : List PinConfig) (log : Log)
    → IsIrqHeld i d log
    → let (d', pins', log') = hcsr04_release d pins log in irq_requests i log' ≡ irq_frees i log'
unfolding hcsr04_release free_irq
hcsr04_release-irqs i d pins log h =
    let log' = free_irq d log in
    let after = release_gpio_pins (some d.minor) pins log' in
    ground (
      arith,
      h,
      release_gpio_pins-irq_calls (some d.minor) pins log',
      (counts-irq_calls i after.1).0,
      (counts-irq_calls i after.1).1,
    )

opened-IsSound :
    (i : ℤ) (d : Device) → IsSound i (initialize_device d) (populate_gen2_pins_data []) []
unfolding initialize_device populate_gen2_pins_data populate_pin_data
opened-IsSound i d = record { held = refl; with_pin = λ h. refl; once = λ pin. at_most_one pin }
  where
    at_most_one : (pin : Option ℕ) → entries pin (populate_gen2_pins_data []) ≤ 1
    at_most_one none = omega arith
    at_most_one (some p) = ground arith

-- Whatever commands a device gets after it was opened, and whatever the kernel answers: it holds
-- at most one interrupt, the one in `irq_no`, and after the release every interrupt was freed as
-- often as it was requested.
pub commands-irqs :
    (k : Kernel) (cs : List Command) (d : Device) (i : ℤ)
    → let (d', pins, log) = commands k cs (initialize_device d) (populate_gen2_pins_data []) [] in
      let (d'', pins', log') = hcsr04_release d' pins log in
      (irq_requests i log ≡ irq_frees i log + held_irq i d'.irq_data.irq_no)
      × (irq_requests i log' ≡ irq_frees i log')
commands-irqs k cs d i =
    let table = populate_gen2_pins_data [] in
    let (d', pins, log) = commands k cs (initialize_device d) table [] in
    let s = commands-IsSound i k cs (initialize_device d) table [] (opened-IsSound i d) in
    (
      ground (arith, s.held, (counts-irq_calls i log).0, (counts-irq_calls i log).1),
      hcsr04_release-irqs i d' pins log s.held,
    )
