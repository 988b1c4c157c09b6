-- ===== src/Platform/Files/Clearing.antt =====
-- The clearing of the measurement buffer in `platform_driver.c`, which sets its index alone.
use linux_kernel_programing.Prelude.{
  ℕ, zero, suc, ◌<◌, ◌≡◌, ◌∙◌, ap, Bool, true, false, some, List, [], ◌∷◌, ◌++◌, arith, length,
  take, drop,
}
use linux_kernel_programing.Prelude.Int.{ℤ, pos, ◌==ℤ◌}
use linux_kernel_programing.Hcsr.Fifo.{FifoBuffer, Fifo}
use linux_kernel_programing.Hcsr.Fifo.Stack.{IsValid, contents}
use linux_kernel_programing.Hcsr.Device.{Device}
use linux_kernel_programing.Hcsr.Files.{
  are_configured, initiate_measurement, write_result, lock, unlock,
}
use linux_kernel_programing.Platform.Files.{hcsr04_write}

abbrev at : List FifoBuffer → ℕ → Fifo
at slots i = record { slots = slots; index = i }

-- The five positions of the index.
rotated_at :
    (slots : List FifoBuffer) (i : ℕ)
    → length slots ≡ 5
    → i < 5
    → length (contents (at slots i)) ≡ 5
    → contents (at slots 0) ≡ drop i (contents (at slots i)) ++ take i (contents (at slots i))
rotated_at (a ∷ b ∷ c ∷ d ∷ e ∷ []) zero k l h = ground arith
rotated_at (a ∷ b ∷ c ∷ d ∷ e ∷ []) (suc zero) k l h = ground arith
rotated_at (a ∷ b ∷ c ∷ d ∷ e ∷ []) (suc (suc zero)) k l h = ground arith
rotated_at (a ∷ b ∷ c ∷ d ∷ e ∷ []) (suc (suc (suc zero))) k l h = ground arith
rotated_at (a ∷ b ∷ c ∷ d ∷ e ∷ []) (suc (suc (suc (suc zero)))) k l h = ground arith
rotated_at (a ∷ b ∷ c ∷ d ∷ e ∷ []) (suc (suc (suc (suc (suc i))))) k l h = absurd (omega arith)
rotated_at _ i k l h = absurd (omega arith)

-- On a configured device whose valid buffer is full, a write that is to clear it loses none of the
-- five measurements, whether it returns with a measurement under way or starts one (no other thread
-- comes in between): they are in the buffer still, and only the order changes, those from slot 0
-- backwards being read first.
pub hcsr04_write-rotates :
    (started : Bool) (operation : ℤ) (d : Device) (r : ℤ) (d' : Device)
    → (operation ==ℤ pos 0) ≡ false
    → are_configured d ≡ true
    → IsValid d.fifo
    → length (contents d.fifo) ≡ 5
    → hcsr04_write (λ x. x) started operation d ≡ some (r, d')
    → contents d'.fifo ≡ drop d.fifo.index (contents d.fifo) ++ take d.fifo.index (contents d.fifo)
unfolding hcsr04_write write_result initiate_measurement lock unlock
hcsr04_write-rotates started operation d r d' clears configured v full e =
    let emptied : d'.fifo ≡ at d.fifo.slots 0 = ground (arith, e, clears, configured) in
    ap contents emptied ∙ rotated_at d.fifo.slots d.fifo.index v.five v.within full
