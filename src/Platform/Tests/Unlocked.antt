-- ===== src/Platform/Tests/Unlocked.antt =====
-- The theorem about reads without the lock of the buffer at a concrete input.
use linux_kernel_programing.Prelude.{ℕ, ◌≡◌, refl, some, [], ◌∷◌, arith}
use linux_kernel_programing.Prelude.Int.{pos}
use linux_kernel_programing.Hcsr.Fifo.{FifoBuffer, Fifo, cleared}
use linux_kernel_programing.Hcsr.Fifo.Stack.{IsValid, contents}
use linux_kernel_programing.Platform.Sysfs.Unlocked.{
  interleave, overlapping, testing, got, slots_of, interleave-torn,
}

abbrev seen : ℕ → FifoBuffer
seen time = record { distance = pos 30; tsc = time }

-- Three measurements, the newest in slot 2.
abbrev three_measurements : Fifo
three_measurements = record { slots = seen 3 ∷ seen 4 ∷ seen 5 ∷ cleared ∷ cleared ∷ []; index = 2 }

three_measurements-IsValid : IsValid three_measurements
three_measurements-IsValid = record { five = refl; within = omega arith }

interleave-torn_example :
    (f' : Fifo) × (interleave overlapping testing testing (slots_of three_measurements)
      ≡ some (got (seen 5), got (seen 5), slots_of f'))
    × (contents f' ≡ seen 3 ∷ [])
interleave-torn_example =
    interleave-torn three_measurements (seen 5) (seen 4) (seen 3 ∷ []) three_measurements-IsValid
      refl
