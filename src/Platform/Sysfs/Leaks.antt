-- ===== src/Platform/Sysfs/Leaks.antt =====
-- The GPIOs that a store to `trigger_pin` or `echo_pin` requests, and who gives them back.
use linux_kernel_programing.Prelude.{
  ℕ, zero, suc, ◌+◌, ◌<◌, ◌≡◌, refl, true, Option, none, some, List, [], ◌∷◌, arith, length,
  get_elem?,
}
use linux_kernel_programing.Prelude.Int.{ℤ, pos}
use linux_kernel_programing.Gpio.{Gpio, Log, Held}
use linux_kernel_programing.Hcsr.Device.{Device}
use linux_kernel_programing.Hcsr.Pins.{PinConfig, release_gpio_pins}
use linux_kernel_programing.Hcsr.Pins.Balance.{
  IsBalanced, configured, uses_opt, release_gpio_pins-Held, released_all,
}
use linux_kernel_programing.Platform.Device.{pin_config2}
use linux_kernel_programing.Platform.Sysfs.{
  linux_gpios, gpio_ctrl, at_pin, store_gpio, store_rows, trigger_pin_store,
}

-- How often a GPIO stands in a pin's column.
abbrev pub column_uses : ℕ → ℤ → List (List (Option ℕ)) → ℕ
column_uses p pin [] = 0
column_uses p pin (row ∷ rows) =
    (elim (at_pin row pin) [ none ↦ 0 | some gpio ↦ uses_opt p gpio ]) + column_uses p pin rows

-- Every row reaches beyond pin `n`.
abbrev AllWider : ℕ → List (List (Option ℕ)) → Type 0
AllWider n [] = Unit
AllWider n (row ∷ rows) = (n < length row) × AllWider n rows

get_elem?-some :
    (row : List (Option ℕ)) (n : ℕ)
    → n < length row
    → (gpio : Option ℕ) × (get_elem? row n ≡ some gpio)
get_elem?-some [] n h = absurd (omega arith)
get_elem?-some (x ∷ row) zero h = (x, refl)
get_elem?-some (x ∷ row) (suc n) h = get_elem?-some row n (omega arith)

module _ (g : Gpio) (granted : (log : Log) (pin : ℕ) → g.grants log pin ≡ true) where
  store_gpio-Held :
      (p n io_flag : ℕ) (gpio : Option ℕ) (log : Log)
      → Held p n log
      → Held p (n + uses_opt p gpio) (store_gpio g io_flag gpio log)
  unfolding store_gpio pin_config2
  store_gpio-Held p n io_flag none log h = omega arith
  store_gpio-Held p n io_flag (some q) log h = ground (arith, granted log q)

  store_rows-Held :
      (io_flag n : ℕ) (rows : List (List (Option ℕ))) (log : Log)
      → AllWider n rows
      → (log' : Log) × (store_rows g io_flag (pos n) rows log ≡ some log')
        × ((p k : ℕ) → Held p k log → Held p (k + column_uses p (pos n) rows) log')
  unfolding store_rows
  store_rows-Held io_flag n [] log w = (log, refl, λ p k h. omega arith)
  store_rows-Held io_flag n (row ∷ rows) log (wide, w) =
      let (gpio, e) = get_elem?-some row n wide in
      let (log', run, held) = store_rows-Held io_flag n rows (store_gpio g io_flag gpio log) w in
      (
        log',
        rw (e, store_rows) run,
        λ p k h.
            ground (arith, e, store_gpio-Held p k io_flag gpio log h, held p (k + uses_opt p gpio)),
      )

  -- A store of a pin from 0 to 13 to `trigger_pin`, when the kernel grants all requests, succeeds.
  -- Its GPIOs are not given back: if all others are in balance, then after the release of all pins
  -- at a device's removal each is still requested as often more than freed as it stands in the
  -- pin's column of `gpio_ctrl`, the pin's own GPIO at least once.
  pub trigger_pin_store-leaks :
      (n : ℕ) (count : ℤ) (d : Device) (pins : List PinConfig) (log : Log)
      → n < 14
      → IsBalanced pins log
      → (log' : Log) × (trigger_pin_store g (some (pos n)) count d log
          ≡ some (count, record d { trigger_pin = some n }, log'))
        × ((p : ℕ)
            → Held p (column_uses p (pos n) gpio_ctrl) (release_gpio_pins none pins log').1
              × (get_elem? linux_gpios n ≡ some (some p) → 0 < column_uses p (pos n) gpio_ctrl))
  unfolding trigger_pin_store
  trigger_pin_store-leaks n count d pins log h balanced =
      let (log', run, held) = store_rows-Held 1 n gpio_ctrl log (omega arith) in
      (
        log',
        rw (run, trigger_pin_store) refl,
        λ p.
            let k = column_uses p (pos n) gpio_ctrl in
            let before : Held p (k + configured p pins) log' =
              omega (arith, held p (configured p pins) (balanced p)) in
            let after = release_gpio_pins-Held p k none pins log' before in
            (ground (arith, after, released_all p pins log'), λ e. ground (arith, e)),
      )
