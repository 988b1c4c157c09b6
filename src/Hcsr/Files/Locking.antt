-- ===== src/Hcsr/Files/Locking.antt =====
-- The results of `hcsr04_write` of the HC-SR04 driver, and the lock that it may leave taken.
use linux_kernel_programing.Prelude.{ℕ, ◌≡◌, Bool, true, false, none, some, arith, if◌then◌else◌}
use linux_kernel_programing.Prelude.Int.{ℤ, pos, ◌==ℤ◌}
use linux_kernel_programing.Hcsr.Fifo.{clear}
use linux_kernel_programing.Hcsr.Device.{Device}
use linux_kernel_programing.Hcsr.Files.{
  success, einval, lock, unlock, initiate_measurement, write_result, hcsr04_write, hcsr04_read,
  locked_read, are_configured,
}

-- A write that returns 0 has not started a measurement, and while no other thread gives the lock
-- of the buffer back, every later read spins.
pub hcsr04_write-blocks :
    (others : Device → Device) (started : Bool) (operation : ℤ) (d d' : Device)
    → hcsr04_write others started operation d ≡ some (success, d')
    → (started ≡ false)
      × ((others' : ℕ → Device → Device) (started' : Bool)
          → (others' 0 d').buffer_lock ≡ true
          → hcsr04_read others' started' d' ≡ none)
unfolding hcsr04_write write_result initiate_measurement lock unlock hcsr04_read locked_read
hcsr04_write-blocks others started operation d d' e =
    (ground arith, λ others' started' h. ground arith)

-- With the parameters set and no measurement going on, a write whose lock is free and whose thread
-- is created returns `EINVAL`, though it has started the measurement: it is marked as in progress,
-- the lock is free, and the buffer is kept for operation 0 and cleared for any other.
pub hcsr04_write-started :
    (operation : ℤ) (d : Device)
    → are_configured d ≡ true
    → d.measurement_in_progress ≡ false
    → d.buffer_lock ≡ false
    → hcsr04_write (λ x. x) true operation d
      ≡ some (
        einval,
        record d {
          measurement_in_progress = true;
          fifo = if operation ==ℤ pos 0 then d.fifo else clear d.fifo;
        },
      )
unfolding hcsr04_write write_result initiate_measurement lock unlock
hcsr04_write-started operation d c m l = ground arith
