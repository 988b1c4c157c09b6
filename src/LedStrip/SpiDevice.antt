-- ===== src/LedStrip/SpiDevice.antt =====
-- `SPI based driver for WS2812 LED Strip/spi_device.c`: the device on the SPI bus that the driver is
-- bound to. The calls of the SPI core are entries of a log, the newest first.
use linux_kernel_programing.Prelude.{
  ℕ, suc, ◌≡◌, Bool, true, false, not, Option, none, some, List, [], ◌∷◌, arith, if◌then◌else◌,
}
use linux_kernel_programing.Prelude.Int.{ℤ, pos, negsuc, ◌==ℤ◌}

pub data Call : Type 0 where
  spi_busnum_to_master : Call
  spi_new_device : Call
  spi_setup : ℕ → Call
  spi_unregister_device : Call

-- What the kernel answers: whether there is a master of the bus, whether the device is created, and
-- what `spi_setup` returns.
pub record Answers : Type 0 where
  pub has_master : Bool
  pub creates : Bool
  pub setup_error : ℤ

-- `spi`, `none` if null, with its `bits_per_word`, and the calls made.
pub record State : Type 0 where
  pub spi : Option ℕ
  pub calls : List Call

abbrev pub enodev : ℤ
enodev = negsuc 18

abbrev pub bits_per_word : ℕ
bits_per_word = 16

unfoldable pub spi_init : Answers → State → ℤ × State
spi_init a s =
    let calls₁ = spi_busnum_to_master ∷ s.calls in
    let calls₂ = spi_new_device ∷ calls₁ in
    let calls₃ = spi_setup bits_per_word ∷ calls₂ in
    let created : State = record { spi = some bits_per_word; calls = calls₃ } in
    if not a.has_master
    then (enodev, record s { calls = calls₁ })
    else (if not a.creates
        then (enodev, record { spi = none; calls = calls₂ })
        else (if a.setup_error ==ℤ pos 0
            then (pos 0, created)
            else (enodev, record created { calls = spi_unregister_device ∷ calls₃ })))

unfoldable pub spi_exit : State → State
spi_exit s = elim s.spi [
  | none ↦ s
  | some bits ↦ record s { calls = spi_unregister_device ∷ s.calls }
]

abbrev pub unregistrations : List Call → ℕ
unregistrations [] = 0
unregistrations (spi_unregister_device ∷ calls) = suc (unregistrations calls)
unregistrations (_ ∷ calls) = unregistrations calls

-- Whatever the SPI core answers: `spi_init` returns 0 exactly when there is a master, the device is
-- created and its setup succeeds. Then the device is still registered, and `spi_exit` unregisters
-- it, once. If the module does not start, a device that was created was unregistered, once.
pub spi_exit-spi_init :
    (a : Answers)
    → let (r, s) = spi_init a (record { spi = none; calls = [] }) in
      let started = r ==ℤ pos 0 in
      let created = if a.has_master then a.creates else false in
      let set_up = if created then a.setup_error ==ℤ pos 0 else false in
      (started ≡ set_up)
      × (unregistrations s.calls ≡ (if started then 0 else (if created then 1 else 0)))
      × (started ≡ true → unregistrations (spi_exit s).calls ≡ 1)
unfolding spi_init spi_exit
spi_exit-spi_init a = ground arith
