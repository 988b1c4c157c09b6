-- ===== src/Hcsr/Irqs/Calls.antt =====
-- The interrupt of one device of `HCSR_Driver.c` through its commands, up to its release.
use linux_kernel_programing.Prelude.{
  ℕ, ◌+◌, ◌≤◌, ◌≡◌, ◌∙◌, refl, false, Option, none, some, List, [], ◌∷◌, arith, if◌then◌else◌,
  Bool-cases, inl, inr,
}
use linux_kernel_programing.Prelude.Int.{ℤ}
use linux_kernel_programing.Gpio.{Log}
use linux_kernel_programing.Hcsr.Device.{Device, no_value}
use linux_kernel_programing.Hcsr.Pins.{PinConfig, Kernel, is_pin, configure_one, configure_pins}
use linux_kernel_programing.Hcsr.Irqs.{
  irq_calls, IsIrqHeld, configure_one-frame, configure_one-other, configure_one-IsIrqHeld,
}
use linux_kernel_programing.Hcsr.Files.{has_pin, free_old_irq, take_pins}

-- How many entries have the number of a pin.
abbrev pub entries : Option ℕ → List PinConfig → ℕ
entries pin [] = 0
entries pin (e ∷ pins) = (if is_pin pin e.galileo_pin then 1 else 0) + entries pin pins

configure_pins-entries :
    (pin : Option ℕ) (k : Kernel) (d : Device) (pins : List PinConfig) (log : Log)
    → let (done, d', pins', log') = configure_pins k d pins log in
      (entries pin pins' ≡ entries pin pins) × (d'.echo_pin ≡ d.echo_pin)
unfolding configure_pins
configure_pins-entries pin k d [] log = (refl, refl)
configure_pins-entries pin k d (e ∷ pins) log =
    let (goes_on, d', e', log') = configure_one k d e log in
    let frame = configure_one-frame k d e log in
    let rest = configure_pins-entries pin k d' pins log' in
    (ground (arith, frame.0, rest.0), ground (arith, frame.1, rest.1))

configure_pins-other :
    (k : Kernel) (d : Device) (pins : List PinConfig) (log : Log)
    → entries d.echo_pin pins ≡ 0
    → let (done, d', pins', log') = configure_pins k d pins log in
      (d'.irq_data.irq_no ≡ d.irq_data.irq_no) × (irq_calls log' ≡ irq_calls log)
unfolding configure_pins
configure_pins-other k d [] log h = (refl, refl)
configure_pins-other k d (e ∷ pins) log h =
    let (goes_on, d', e', log') = configure_one k d e log in
    let one = configure_one-other k d e log (ground (arith, h)) in
    let rest =
      configure_pins-other k d' pins log' (ground (arith, h, (configure_one-frame k d e log).1)) in
    (ground (arith, one.0, rest.0), ground (arith, one.1, rest.1))

configure_pins-IsIrqHeld :
    (i : ℤ) (k : Kernel) (d : Device) (pins : List PinConfig) (log : Log)
    → entries d.echo_pin pins ≤ 1
    → d.irq_data.irq_no ≡ no_value
    → IsIrqHeld i d log
    → let (done, d', pins', log') = configure_pins k d pins log in IsIrqHeld i d' log'
unfolding configure_pins
configure_pins-IsIrqHeld i k d [] log u n h = h
configure_pins-IsIrqHeld i k d (e ∷ pins) log u n h =
    let (goes_on, d', e', log') = configure_one k d e log in
    let kept = (configure_one-frame k d e log).1 in
    let held = configure_one-IsIrqHeld i k d e log n h in
    elim (Bool-cases (is_pin d.echo_pin e.galileo_pin)) [
      | inl echo ↦
          let rest = configure_pins-other k d' pins log' (ground (arith, echo, u, kept)) in
          ground (arith, held, rest.0, rest.1)
      | inr other ↦
          let one = configure_one-other k d e log other in
          let rest =
            configure_pins-IsIrqHeld i k d' pins log' (ground (arith, other, u, kept)) (one.0 ∙ n)
              held in
          ground (arith, held, rest)
    ]

-- A device between two calls: it holds what it says, an interrupt only with an echo pin, and no
-- pin has two entries.
pub record IsSound (i : ℤ) (d : Device) (pins : List PinConfig) (log : Log) : Type 0 where
  pub held : IsIrqHeld i d log
  pub with_pin : has_pin d.echo_pin ≡ false → d.irq_data.irq_no ≡ no_value
  pub once : (pin : Option ℕ) → entries pin pins ≤ 1

free_old_irq-IsIrqHeld :
    (i : ℤ) (d : Device) (log : Log)
    → IsIrqHeld i d log
    → (has_pin d.echo_pin ≡ false → d.irq_data.irq_no ≡ no_value)
    → let (d', log') = free_old_irq d log in IsIrqHeld i d' log' × (d'.irq_data.irq_no ≡ no_value)
unfolding free_old_irq
free_old_irq-IsIrqHeld i d log h w = elim (Bool-cases (has_pin d.echo_pin)) [
  | inl pin ↦ (ground (arith, h, pin), ground (arith, pin))
  | inr no_pin ↦ (ground (arith, h, no_pin), ground (arith, no_pin, w no_pin))
]

pub take_pins-IsSound :
    (i : ℤ) (k : Kernel) (trigger echo : ℕ) (d : Device) (pins : List PinConfig) (log : Log)
    → IsSound i d pins log
    → let (r, d', pins', log') = take_pins k trigger echo d pins log in IsSound i d' pins' log'
unfolding take_pins
take_pins-IsSound i k trigger echo d pins log s =
    let (d₁, log₁) = free_old_irq d log in
    let (h₁, n₁) = free_old_irq-IsIrqHeld i d log s.held s.with_pin in
    let ready = record d₁ { trigger_pin = some trigger; echo_pin = some echo } in
    let h₂ = configure_pins-IsIrqHeld i k ready pins log₁ (s.once (some echo)) n₁ h₁ in
    let kept = (configure_pins-entries none k ready pins log₁).1 in
    record {
      held = ground (arith, h₂);
      with_pin = λ h. ground (arith, kept, h);
      once = λ pin. ground (arith, (configure_pins-entries pin k ready pins log₁).0, s.once pin);
    }
