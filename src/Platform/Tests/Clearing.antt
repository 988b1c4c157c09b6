-- ===== src/Platform/Tests/Clearing.antt =====
-- The theorem about clearing the platform driver's buffer at a concrete input.
use linux_kernel_programing.Prelude.{ℕ, ◌≡◌, refl, true, [], ◌∷◌, ◌++◌, arith, take, drop}
use linux_kernel_programing.Prelude.Int.{pos}
use linux_kernel_programing.Hcsr.Fifo.{FifoBuffer, Fifo}
use linux_kernel_programing.Hcsr.Fifo.Stack.{IsValid, contents}
use linux_kernel_programing.Hcsr.Device.{Device}
use linux_kernel_programing.Hcsr.Files.{einval}
use linux_kernel_programing.Platform.Files.{hcsr04_write}
use linux_kernel_programing.Platform.Files.Clearing.{hcsr04_write-rotates}
use linux_kernel_programing.Platform.Tests.{ready}

abbrev seen : ℕ → FifoBuffer
seen time = record { distance = pos 30; tsc = time }

-- Five measurements, the newest in slot 2.
abbrev five_measurements : Fifo
five_measurements = record { slots = seen 3 ∷ seen 4 ∷ seen 5 ∷ seen 1 ∷ seen 2 ∷ []; index = 2 }

abbrev full : Device
full = record ready { fifo = five_measurements; measurement_in_progress = true }

five_measurements-IsValid : IsValid five_measurements
five_measurements-IsValid = record { five = refl; within = omega arith }

abbrev emptied : Device
emptied = record full { fifo = record five_measurements { index = 0 } }

hcsr04_write-rotates_example :
    contents emptied.fifo ≡ drop 2 (contents full.fifo) ++ take 2 (contents full.fifo)
unfolding hcsr04_write
hcsr04_write-rotates_example =
    hcsr04_write-rotates true (pos 1) full einval emptied refl refl five_measurements-IsValid refl
      refl
