-- ===== src/Hcsr/Pins/Balance.antt =====
-- The pins that the HC-SR04 driver holds are those of its configured entries.
use linux_kernel_programing.Prelude.{
  ℕ, ◌+◌, ◌≡◌, refl, Bool, true, false, not, ◌&&◌, Option, none, some, List, [], ◌∷◌, arith, ◌==◌,
  if◌then◌else◌, Bool-cases, inl, inr,
}
use linux_kernel_programing.Gpio.{Gpio, Log, freed, requests, frees, Held}
use linux_kernel_programing.Hcsr.Device.{Device, pin_config}
use linux_kernel_programing.Hcsr.Pins.{
  PinConfig, Kernel, release_entry, release_gpio_pins, config_opt, update_entry, configure_entry,
  is_pin, free_opt, release_opt, release_pin, configure_interrupt, assign_role, configure_one,
  configure_pins,
}

abbrev pub is_gpio : ℕ → ℕ → ℕ
is_gpio p q = if q == p then 1 else 0

abbrev pub uses_opt : ℕ → Option ℕ → ℕ
uses_opt p none = 0
uses_opt p (some q) = is_gpio p q

-- How often a GPIO stands in an entry.
abbrev pub uses : ℕ → PinConfig → ℕ
uses p e =
    is_gpio p e.linux_gpio_pin
    + uses_opt p e.level_shifter_pin
    + uses_opt p e.pinmux_1
    + uses_opt p e.pinmux_2

-- How often a GPIO stands in the configured entries.
abbrev pub configured : ℕ → List PinConfig → ℕ
configured p [] = 0
configured p (e ∷ pins) = (if e.is_pin_configured then uses p e else 0) + configured p pins

pin_config-requests :
    (g : Gpio) (p pin : ℕ) (io_flag val configure : Bool) (log : Log)
    → let (failed, log') = pin_config g pin io_flag val configure log in
      (requests p log' ≡ requests p log + (if configure && not failed then is_gpio p pin else 0))
      × (frees p log' ≡ frees p log)
unfolding pin_config
pin_config-requests g p pin io_flag val configure log = (ground arith, ground arith)

pin_config-updates :
    (g : Gpio) (pin : ℕ) (io_flag val : Bool) (log : Log)
    → (pin_config g pin io_flag val false log).0 ≡ false
unfolding pin_config
pin_config-updates g pin io_flag val log = refl

config_opt-requests :
    (g : Gpio) (p : ℕ) (pin : Option ℕ) (io_flag val configure : Bool) (log : Log)
    → let (failed, log') = config_opt g pin io_flag val configure log in
      (requests p log' ≡ requests p log + (if configure && not failed then uses_opt p pin else 0))
      × (frees p log' ≡ frees p log)
unfolding config_opt
config_opt-requests g p none io_flag val configure log = (ground arith, ground arith)
config_opt-requests g p (some pin) io_flag val configure log =
    pin_config-requests g p pin io_flag val configure log

config_opt-updates :
    (g : Gpio) (pin : Option ℕ) (io_flag val : Bool) (log : Log)
    → (config_opt g pin io_flag val false log).0 ≡ false
unfolding config_opt
config_opt-updates g none io_flag val log = refl
config_opt-updates g (some pin) io_flag val log = pin_config-updates g pin io_flag val log

free_opt-frees :
    (p : ℕ) (pin : Option ℕ) (log : Log)
    → (requests p (free_opt pin log) ≡ requests p log)
      × (frees p (free_opt pin log) ≡ frees p log + uses_opt p pin)
free_opt-frees p none log = (refl, omega arith)
free_opt-frees p (some q) log = (refl, omega arith)

release_opt-frees :
    (p : ℕ) (pin : Option ℕ) (log : Log)
    → (requests p (release_opt pin log) ≡ requests p log)
      × (frees p (release_opt pin log) ≡ frees p log + uses_opt p pin)
unfolding release_pin
release_opt-frees p none log = (refl, omega arith)
release_opt-frees p (some q) log = (refl, omega arith)

-- How often a GPIO is held for an entry.
abbrev pub taken : ℕ → PinConfig → ℕ
taken p e = if e.is_pin_configured then uses p e else 0

module _ (p n : ℕ) where
  update_entry-Held :
      (g : Gpio) (io_flag : Bool) (e : PinConfig) (log : Log)
      → Held p n log
      → let (ok, log') = update_entry g io_flag e log in (ok ≡ true) × Held p n log'
  unfolding update_entry
  update_entry-Held g io_flag e log h =
      let log₁ = (pin_config g e.linux_gpio_pin io_flag false false log).1 in
      let r = pin_config-requests g p e.linux_gpio_pin io_flag false false log in
      let s = config_opt-requests g p e.level_shifter_pin io_flag false false log₁ in
      let a = pin_config-updates g e.linux_gpio_pin io_flag false log in
      let b = config_opt-updates g e.level_shifter_pin io_flag false log₁ in
      ground (arith, r.0, r.1, s.0, s.1, a, b)

  configure_entry-Held :
      (g : Gpio) (minor : ℕ) (io_flag : Bool) (e : PinConfig) (log : Log)
      → e.is_pin_configured ≡ false
      → Held p n log
      → let (ok, e', log') = configure_entry g minor io_flag e log in
        (e'.is_pin_configured ≡ ok) × Held p (n + taken p e') log'
  unfolding configure_entry
  configure_entry-Held g minor io_flag e log off h =
      let log₁ = (pin_config g e.linux_gpio_pin io_flag false true log).1 in
      let log₂ = (config_opt g e.level_shifter_pin io_flag false true log₁).1 in
      let log₃ = (config_opt g e.pinmux_1 true e.pinmux_1_level true log₂).1 in
      let log₄ = (config_opt g e.pinmux_2 true e.pinmux_2_level true log₃).1 in
      let r₁ = pin_config-requests g p e.linux_gpio_pin io_flag false true log in
      let r₂ = config_opt-requests g p e.level_shifter_pin io_flag false true log₁ in
      let r₃ = config_opt-requests g p e.pinmux_1 true e.pinmux_1_level true log₂ in
      let r₄ = config_opt-requests g p e.pinmux_2 true e.pinmux_2_level true log₃ in
      let f₃ = freed e.linux_gpio_pin ∷ log₃ in
      let f₄ = freed e.linux_gpio_pin ∷ log₄ in
      let u₁ = free_opt-frees p e.level_shifter_pin f₃ in
      let u₂ = free_opt-frees p e.level_shifter_pin f₄ in
      let u₃ = free_opt-frees p e.pinmux_1 (free_opt e.level_shifter_pin f₄) in
      ground
        (arith, r₁.0, r₁.1, r₂.0, r₂.1, r₃.0, r₃.1, r₄.0, r₄.1, u₁.0, u₁.1, u₂.0, u₂.1, u₃.0, u₃.1)

  assign_role-Held :
      (k : Kernel) (io_flag : Bool) (pin : ℕ) (d : Device) (log : Log)
      → Held p n log
      → Held p n (assign_role k io_flag pin d log).2
  unfolding assign_role configure_interrupt
  assign_role-Held k io_flag pin d log h = ground arith

configure_one-Held :
    (p n : ℕ) (k : Kernel) (d : Device) (e : PinConfig) (log : Log)
    → Held p (n + taken p e) log
    → let (goes_on, d', e', log') = configure_one k d e log in Held p (n + taken p e') log'
unfolding configure_one
configure_one-Held p n k d e log h =
    let io_flag = not (is_pin d.echo_pin e.galileo_pin) in
    let (updated, log₁) = update_entry k.gpio io_flag e log in
    let (fresh, e', log₂) = configure_entry k.gpio d.minor io_flag e log in
    elim (Bool-cases e.is_pin_configured) [
      | inl old ↦
          let (_, held) = update_entry-Held p (n + taken p e) k.gpio io_flag e log h in
          ground (
            arith,
            old,
            h,
            held,
            assign_role-Held p (n + taken p e) k io_flag e.linux_gpio_pin d log₁ held,
          )
      | inr off ↦
          let (_, held) =
            configure_entry-Held p n k.gpio d.minor io_flag e log off (ground (arith, off, h)) in
          ground (
            arith,
            off,
            h,
            held,
            assign_role-Held p (n + taken p e') k io_flag e.linux_gpio_pin d log₂ held,
          )
    ]

configure_pins-Held :
    (p n : ℕ) (k : Kernel) (d : Device) (pins : List PinConfig) (log : Log)
    → Held p (n + configured p pins) log
    → let (done, d', pins', log') = configure_pins k d pins log in
      Held p (n + configured p pins') log'
unfolding configure_pins
configure_pins-Held p n k d [] log h = h
configure_pins-Held p n k d (e ∷ pins) log h =
    let (goes_on, d', e', log') = configure_one k d e log in
    let held = configure_one-Held p (n + configured p pins) k d e log (omega arith) in
    let rest = configure_pins-Held p (n + taken p e') k d' pins log' (omega arith) in
    ground (arith, held, rest)

release_entry-Held :
    (p n : ℕ) (minor : Option ℕ) (e : PinConfig) (log : Log)
    → Held p (n + taken p e) log
    → let (e', log') = release_entry minor e log in Held p (n + taken p e') log'
unfolding release_entry
release_entry-Held p n minor e log h =
    let log₁ = release_pin e.linux_gpio_pin log in
    let log₂ = release_opt e.level_shifter_pin log₁ in
    let log₃ = release_opt e.pinmux_1 log₂ in
    let r₂ = release_opt-frees p e.level_shifter_pin log₁ in
    let r₃ = release_opt-frees p e.pinmux_1 log₂ in
    let r₄ = release_opt-frees p e.pinmux_2 log₃ in
    ground (arith, r₂.0, r₂.1, r₃.0, r₃.1, r₄.0, r₄.1)

pub release_gpio_pins-Held :
    (p n : ℕ) (minor : Option ℕ) (pins : List PinConfig) (log : Log)
    → Held p (n + configured p pins) log
    → let (pins', log') = release_gpio_pins minor pins log in Held p (n + configured p pins') log'
unfolding release_gpio_pins
release_gpio_pins-Held p n minor [] log h = h
release_gpio_pins-Held p n minor (e ∷ pins) log h =
    let (e', log') = release_entry minor e log in
    let held = release_entry-Held p (n + configured p pins) minor e log (omega arith) in
    let rest = release_gpio_pins-Held p (n + taken p e') minor pins log' (omega arith) in
    ground (arith, held, rest)

pub released_all :
    (p : ℕ) (pins : List PinConfig) (log : Log)
    → configured p (release_gpio_pins none pins log).0 ≡ 0
unfolding release_gpio_pins release_entry
released_all p [] log = refl
released_all p (e ∷ pins) log = ground (arith, released_all p pins (release_entry none e log).1)

-- A GPIO is held exactly as often as it stands in the configured entries: nothing is leaked, and
-- nothing that is in use is given away.
abbrev pub IsBalanced : List PinConfig → Log → Type 0
IsBalanced pins log = (p : ℕ) → Held p (configured p pins) log

-- Configuring a device's pins keeps the balance of the GPIOs, whatever the kernel refuses and
-- wherever the configuration stops.
pub configure_pins-IsBalanced :
    (k : Kernel) (d : Device) (pins : List PinConfig) (log : Log)
    → IsBalanced pins log
    → let (done, d', pins', log') = configure_pins k d pins log in IsBalanced pins' log'
configure_pins-IsBalanced k d pins log h =
    λ p. omega (arith, configure_pins-Held p 0 k d pins log (omega (arith, h p)))

-- Releasing the pins of a device, or of all of them at the module's end, keeps the balance; at the
-- module's end no entry is configured any more.
pub release_gpio_pins-IsBalanced :
    (minor : Option ℕ) (pins : List PinConfig) (log : Log)
    → IsBalanced pins log
    → let (pins', log') = release_gpio_pins minor pins log in
      IsBalanced pins' log' × ((p : ℕ) → configured p (release_gpio_pins none pins log).0 ≡ 0)
release_gpio_pins-IsBalanced minor pins log h = (
  λ p. omega (arith, release_gpio_pins-Held p 0 minor pins log (omega (arith, h p))),
  λ p. released_all p pins log,
)
