-- ===== src/LedStrip/BitBang/Pins.antt =====
-- The GPIO pins of `ws2812.c`: 12 (the line), 28 (level shifter) and 45 (multiplexer).
use linux_kernel_programing.Prelude.{ℕ, ◌⊎◌, inl, inr, arith, if◌then◌else◌, Bool-cases}
use linux_kernel_programing.Gpio.{Gpio, Log, Held}
use linux_kernel_programing.LedStrip.BitBang.{configure_all, reset_gpios, release_pin}

-- All three pins are held `n` times.
pub record AllHeld (n : ℕ) (log : Log) : Type 0 where
  pub io : Held 12 n log
  pub shifter : Held 28 n log
  pub mux : Held 45 n log

pub configure_all-AllHeld :
    (g : Gpio) (log : Log)
    → AllHeld 0 log
    → AllHeld (if (configure_all g log).0 then 1 else 0) (configure_all g log).1
unfolding configure_all
configure_all-AllHeld g log h = ground arith

-- A reset of pins that the driver holds once leaves all three held once, or none of them, whatever
-- requests the kernel refuses.
pub reset_gpios-AllHeld :
    (g : Gpio) (log : Log)
    → AllHeld 1 log
    → AllHeld 1 (reset_gpios g log) ⊎ AllHeld 0 (reset_gpios g log)
unfolding reset_gpios
reset_gpios-AllHeld g log h =
    let released = release_pin 45 (release_pin 28 (release_pin 12 log)) in
    let c = configure_all-AllHeld g released (ground arith) in
    elim (Bool-cases (configure_all g released).0) [
      | inl e ↦ inl (rw e at c)
      | inr e ↦ inr (rw e at c)
    ]
