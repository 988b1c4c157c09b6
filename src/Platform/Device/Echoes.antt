-- ===== src/Platform/Device/Echoes.antt =====
-- The samples that the interrupt handler of `platform_driver.c` takes.
use linux_kernel_programing.Prelude.{
  ℕ, ◌+◌, ◌-◌, ◌*◌, ◌%◌, ◌^◌, ◌≤◌, ◌<◌, ◌≡◌, refl, List, [], ◌∷◌, arith, length, ◌==◌,
  if◌then◌else◌,
}
use linux_kernel_programing.Prelude.Int.{pos, ◌+ℤ◌, wrap32, wrap32-pos}
use linux_kernel_programing.Hcsr.Device.{IrqData, Device, record_sample}
use linux_kernel_programing.Hcsr.Device.Interrupts.{Counted, +ℤ-pos, record_sample-counts}
use linux_kernel_programing.Platform.Device.{distance_at, irq_handler, interrupts}

-- What the driver takes for the distance of an echo: the rest by 23200 of what is missing to
-- 2 ^ 64.
abbrev pub rest_of : ℕ → ℕ → ℕ
rest_of start stop = (start + 2 ^ 64 - stop) % 2 ^ 64 % 23200

abbrev pub risen : ℕ → IrqData → IrqData
risen start q = record q { rising_edge_time = start; irq_edge = 1 }

abbrev pub fallen : ℕ → IrqData → IrqData
fallen stop q = record q { falling_edge_time = stop; irq_edge = 0 }

interrupts-echo-eq :
    (d : Device) (start stop : ℕ)
    → d.irq_data.irq_edge ≡ 0
    → interrupts (start ∷ stop ∷ []) d ≡ record d {
      irq_data = record_sample (pos (rest_of start stop)) (fallen stop (risen start d.irq_data));
    }
unfolding interrupts irq_handler distance_at
interrupts-echo-eq d start stop e = simp e (ground arith)

-- An echo between two echoes is counted, whatever its length; what is added to the sum is the rest
-- by 23200 of 2 ^ 64 less the length, below 23200. Nothing but the interrupt's data changes.
pub interrupts-echo :
    (d : Device) (start stop samples total : ℕ)
    → Counted d samples total
    → samples + 1 < 2 ^ 31
    → total + 23200 < 2 ^ 31
    → let d' = interrupts (start ∷ stop ∷ []) d in
      Counted d' (samples + 1) (total + rest_of start stop)
      × (rest_of start stop < 23200)
      × (d' ≡ record d { irq_data = d'.irq_data })
interrupts-echo d start stop samples total c p q =
    let e = interrupts-echo-eq d start stop c.between in
    let (number, summed, edge) =
      record_sample-counts (fallen stop (risen start d.irq_data)) samples total (rest_of start stop)
        c.number c.summed p (omega arith) in
    let far : rest_of start stop < 23200 = omega arith in
    rw e (record { between = edge; number = number; summed = summed }, far, refl)

-- Two echoes whose lengths differ by whole centimetres (23200 ticks) give the same sample: all data
-- but the time of the falling edge are the same.
pub interrupts-periodic :
    (d : Device) (start stop k : ℕ)
    → d.irq_data.irq_edge ≡ 0
    → start < stop
    → stop + 23200 * k < 2 ^ 64
    → let d' = interrupts (start ∷ stop ∷ []) d in
      interrupts (start ∷ (stop + 23200 * k) ∷ []) d
      ≡ record d' { irq_data = record (d'.irq_data) { falling_edge_time = stop + 23200 * k } }
unfolding record_sample
interrupts-periodic d start stop k e h l =
    let same : rest_of start (stop + 23200 * k) ≡ rest_of start stop = omega arith in
    rw (interrupts-echo-eq d start stop e, interrupts-echo-eq d start (stop + 23200 * k) e, same)
      refl

irq_handler-bounds :
    (time : ℕ) (d : Device) (n : ℕ)
    → d.irq_data.total_samples ≡ pos n
    → n + 1 < 2 ^ 31
    → (n' : ℕ) × ((irq_handler time d).irq_data.total_samples ≡ pos n') × (n ≤ n') × (n' ≤ n + 1)
unfolding irq_handler record_sample
irq_handler-bounds time d n e h =
    let counted : wrap32 (d.irq_data.total_samples +ℤ pos 1) ≡ pos (n + 1) =
      rw (e, +ℤ-pos) (wrap32-pos (n + 1) h) in
    (
      (if d.irq_data.irq_edge == 1 then n + 1 else n),
      ground (arith, e, counted),
      ground arith,
      ground arith,
    )

irq_handler-frame :
    (time : ℕ) (d : Device)
    → irq_handler time d ≡ record d { irq_data = (irq_handler time d).irq_data }
unfolding irq_handler
irq_handler-frame time d = ground arith

pub interrupts-frame :
    (times : List ℕ) (d : Device)
    → interrupts times d ≡ record d { irq_data = (interrupts times d).irq_data }
unfolding interrupts
interrupts-frame [] d = refl
interrupts-frame (time ∷ times) d =
    ground (arith, irq_handler-frame time d, interrupts-frame times (irq_handler time d))

-- Interrupts at any times raise the counter of the samples by at most one each.
pub interrupts-bounds :
    (times : List ℕ) (d : Device) (n : ℕ)
    → d.irq_data.total_samples ≡ pos n
    → n + length times < 2 ^ 31
    → (n' : ℕ) × ((interrupts times d).irq_data.total_samples ≡ pos n')
      × (n ≤ n')
      × (n' ≤ n + length times)
unfolding interrupts
interrupts-bounds [] d n e h = (n, e, omega arith, omega arith)
interrupts-bounds (time ∷ times) d n e h =
    let (n₁, e₁, low, high) = irq_handler-bounds time d n e (omega arith) in
    let (n₂, e₂, low', high') = interrupts-bounds times (irq_handler time d) n₁ e₁ (omega arith) in
    (n₂, e₂, omega arith, omega arith)
