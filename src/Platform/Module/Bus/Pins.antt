-- ===== src/Platform/Module/Bus/Pins.antt =====
-- The pins of the platform driver's devices, while devices come and go and are used.
use mathlib.Core.Path.{subst}
use linux_kernel_programing.Prelude.{
  ℕ, zero, suc, ◌+◌, ◌%◌, ◌^◌, ◌≡◌, ◌∙◌, ap, sym, refl, Bool, true, false, Option, none, some, List,
  [], ◌∷◌, arith, Bool-cases, inl, inr,
}
use linux_kernel_programing.Prelude.Int.{ℤ}
use linux_kernel_programing.Gpio.{Log, requests, frees, Held}
use linux_kernel_programing.Hcsr.Device.{Device}
use linux_kernel_programing.Hcsr.Pins.{
  PinConfig, Kernel, release_entry, release_gpio_pins, populate_gen2_pins_data,
}
use linux_kernel_programing.Hcsr.Pins.Balance.{
  IsBalanced, configured, release_gpio_pins-IsBalanced, released_all,
}
use linux_kernel_programing.Hcsr.Files.{hcsr04_release, free_irq}
use linux_kernel_programing.Hcsr.Files.Commands.{
  hcsr04_ioctl-IsBalanced, hcsr04_release-IsBalanced, populated-IsBalanced,
}
use linux_kernel_programing.Platform.Pins.Same.{IsLow, AllLow, board-AllLow}
use linux_kernel_programing.Platform.Files.Same.{hcsr04_ioctl-AllLow, hcsr04_ioctl-eq}
use linux_kernel_programing.Platform.Module.{
  any_configured, Driver, Entry, Answers, set_up, hcsr04_init, hcsr04_exit, pdriver_probe,
  pdriver_remove, remove_in_memory,
}
use linux_kernel_programing.Platform.Module.Bus.{
  Operation, open_op, ioctl_op, release_op, operate, operate_at, use_device, count, System, probe,
  unbind, operation, Reach, start, later,
}
use linux_kernel_programing.Platform.Module.Bus.Counts.{others, delete_devices-others}
use linux_kernel_programing.Platform.Module.Bus.Invariant.{
  Inv, Reach-Inv, pdriver_probe-old, pdriver_probe-first, pdriver_probe-refused, count-[],
}

release_entry-IsLow :
    (minor : Option ℕ) (e : PinConfig) (log : Log) → IsLow e → IsLow (release_entry minor e log).0
unfolding release_entry
release_entry-IsLow minor e log h = ground (arith, h)

release_gpio_pins-AllLow :
    (minor : Option ℕ) (pins : List PinConfig) (log : Log)
    → AllLow pins
    → AllLow (release_gpio_pins minor pins log).0
unfolding release_gpio_pins
release_gpio_pins-AllLow minor [] log h = h
release_gpio_pins-AllLow minor (e ∷ pins) log (low, h) = (
  release_entry-IsLow minor e log low,
  release_gpio_pins-AllLow minor pins (release_entry minor e log).1 h,
)

-- The GPIOs are balanced, on a table on which the two HC-SR04 drivers agree.
abbrev pub IsSane : List PinConfig → Log → Type 0
IsSane pins log = IsBalanced pins log × AllLow pins

operate-IsSane :
    (k : Kernel) (op : Operation) (d : Device) (pins : List PinConfig) (log : Log)
    → IsSane pins log
    → let (d', pins', log') = operate k op d pins log in IsSane pins' log'
operate-IsSane k open_op d pins log s = s
operate-IsSane k (ioctl_op c) d pins log (balanced, low) =
    rw (hcsr04_ioctl-eq k c d pins log low)
      (hcsr04_ioctl-IsBalanced k c d pins log balanced, hcsr04_ioctl-AllLow k c d pins log low)
operate-IsSane k release_op d pins log (balanced, low) = (
  hcsr04_release-IsBalanced d pins log balanced,
  unfold hcsr04_release in release_gpio_pins-AllLow (some d.minor) pins (free_irq d log) low,
)

operate_at-IsSane :
    (k : Kernel) (op : Operation) (i : ℕ) (es : List Entry) (pins : List PinConfig) (log : Log)
    → IsSane pins log
    → let (es', pins', log') = operate_at k op i es pins log in IsSane pins' log'
unfolding operate_at
operate_at-IsSane k op i [] pins log s = s
operate_at-IsSane k op zero (e ∷ es) pins log s = operate-IsSane k op e.device pins log s
operate_at-IsSane k op (suc i) (e ∷ es) pins log s = operate_at-IsSane k op i es pins log s

board-IsSane :
    (pins : List PinConfig) (log : Log)
    → pins ≡ []
    → IsBalanced pins log
    → IsSane (populate_gen2_pins_data []) log
board-IsSane pins log e h = (
  λ p.
      let none_held : Held p 0 log = rw (e) at (h p) in
      omega (arith, none_held, populated-IsBalanced p),
  board-AllLow,
)

pub record Pinned (s : Driver) : Type 0 where
  pub sane : IsSane s.pins s.log
  pub empty : s.first ≡ true → (s.devices ≡ []) × (s.pins ≡ [])

hcsr04_init-frame :
    (a : Answers) (garbage : Device) (name : ℕ) (s : Driver)
    → let s' = (hcsr04_init a garbage name s).1 in
      (s'.first ≡ s.first) × (s'.pins ≡ s.pins) × (s'.log ≡ s.log)
unfolding hcsr04_init
hcsr04_init-frame a garbage name s = ground arith

hcsr04_init-Pinned :
    (a : Answers) (garbage : Device) (name : ℕ) (s : Driver)
    → s.first ≡ false
    → IsSane s.pins s.log
    → Pinned (hcsr04_init a garbage name s).1
hcsr04_init-Pinned a garbage name s old h =
    let (first, pins, log) = hcsr04_init-frame a garbage name s in
    record { sane = rw (pins, log) h; empty = λ e. absurd (cc (e, first, old)) }

pdriver_probe-Pinned :
    (a : Answers) (garbage : Device) (name : ℕ) (s : Driver)
    → Pinned s
    → Pinned (pdriver_probe a garbage name s).1
pdriver_probe-Pinned a garbage name s h =
    let device_found = (s.device_found + 1) % 2 ^ 32 in
    elim (Bool-cases s.first) [
      | inr old ↦
          rw (pdriver_probe-old a garbage name s old) (
            hcsr04_init-Pinned a garbage name (record s { device_found = device_found }) old h.sane)
      | inl first ↦ elim (Bool-cases (a.grants_class s.calls)) [
        | inl granted ↦ rw (pdriver_probe-first a garbage name s first granted) (
            hcsr04_init-Pinned a garbage name (record (set_up s) { device_found = device_found })
              refl (board-IsSane s.pins s.log (h.empty first).1 h.sane.0))
        | inr refused ↦
            rw (pdriver_probe-refused a garbage name s first refused)
              (record { sane = h.sane; empty = h.empty })
      ]
    ]

use_device-Pinned :
    (k : Kernel) (op : Operation) (i : ℕ) (s : Driver) → Pinned s → Pinned (use_device k op i s)
unfolding use_device operate_at
use_device-Pinned k op i s h = record {
  sane = operate_at-IsSane k op i s.devices s.pins s.log h.sane;
  empty = λ e. rw ((h.empty e).0, (h.empty e).1) (refl, refl);
}

pdriver_remove-Pinned :
    (name : ℕ) (s : Driver) → s.first ≡ false → Pinned s → Pinned (pdriver_remove name s).1
unfolding pdriver_remove hcsr04_exit
pdriver_remove-Pinned name s old h = record {
  sane = (
    (release_gpio_pins-IsBalanced none s.pins s.log h.sane.0).0,
    release_gpio_pins-AllLow none s.pins s.log h.sane.1,
  );
  empty = λ e. absurd (cc (e, old));
}

-- A removal comes after the class was created.
pub bound-not_first :
    {n : ℕ} {bound : List ℕ} {s : Driver} (name : ℕ)
    → Inv n bound s
    → count name bound ≡ 1
    → s.first ≡ false
bound-not_first {n} {bound} {s} name i there = elim (Bool-cases s.first) [
  | inl h ↦ absurd (omega (arith, count-[] name bound (i.unset h)))
  | inr h ↦ h
]

pub Reach-Pinned : (a : Answers) {n : ℕ} {s : System} → Reach a n s → Pinned s.driver
Reach-Pinned a start = record { sane = (λ p. refl, tt); empty = λ e. (refl, refl) }
Reach-Pinned a (later {n} {s} r (probe garbage name new)) =
    pdriver_probe-Pinned a garbage name s.driver (Reach-Pinned a r)
Reach-Pinned a (later {n} {s} r (unbind name there)) =
    pdriver_remove-Pinned name s.driver (bound-not_first name (Reach-Inv a r) there)
      (Reach-Pinned a r)
Reach-Pinned a (later {n} {s} r (operation k op j)) =
    use_device-Pinned k op j s.driver (Reach-Pinned a r)

Reach-IsBalanced :
    (a : Answers) {n : ℕ} {s : System} → Reach a n s → IsBalanced s.driver.pins s.driver.log
Reach-IsBalanced a r = (Reach-Pinned a r).sane.0

-- In every state that is reached on the bus, with devices opened, configured and released in any
-- order, and before any entry of the table of the pins was freed: each GPIO is requested as often
-- more than freed as it stands in the configured entries. If the removal of a device comes to its
-- end, which with a configured entry it does only if the entry that it has freed still reads as
-- before, then it leaves each other listed device as it was, so one whose pins are configured still
-- counts as configured; but the pins of all devices are given back: no entry is configured any more,
-- each GPIO was freed as often as it was requested, and if an entry was configured, freed entries are
-- left in the list.
pub pdriver_remove-frees_all :
    (a : Answers) (n : ℕ) (s : System) (intact : Bool) (name : ℕ) {result : ℤ} {s' : Driver}
    → Reach a n s
    → s.driver.dangling ≡ false
    → remove_in_memory intact name s.driver ≡ some (result, s')
    → IsBalanced s.driver.pins s.driver.log
      × (s'.devices ≡ others name s.driver.devices)
      × ((p : ℕ) → (configured p s'.pins ≡ 0) × (requests p s'.log ≡ frees p s'.log))
      × (s'.dangling ≡ any_configured s.driver.pins)
      × ((any_configured s.driver.pins ≡ true) → intact ≡ true)
unfolding remove_in_memory pdriver_remove hcsr04_exit
pdriver_remove-frees_all a n s intact name {result} {s'} r kept ended =
    let d = s.driver in
    let gone : s' ≡ (pdriver_remove name d).1 = ground (arith, ended) in
    let all : (p : ℕ)
        → (configured p (pdriver_remove name d).1.pins ≡ 0)
          × (requests p (pdriver_remove name d).1.log ≡ frees p (pdriver_remove name d).1.log) =
      λ p.
        let released = released_all p d.pins d.log in
        let (held, _) = release_gpio_pins-IsBalanced none d.pins d.log (Reach-IsBalanced a r) in
        (released, omega (arith, held p, released)) in
    (
      Reach-IsBalanced a r,
      ap (λ (x : Driver). x.devices) gone ∙ delete_devices-others name d.devices d.calls,
      subst
          (λ (x : Driver). (p : ℕ) → (configured p x.pins ≡ 0) × (requests p x.log ≡ frees p x.log))
          (sym gone) all,
      ap (λ (x : Driver). x.dangling) gone ∙ rw kept refl,
      λ any. ground (arith, any, ended),
    )
