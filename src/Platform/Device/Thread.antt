-- ===== src/Platform/Device/Thread.antt =====
-- The measuring thread of `platform_driver.c`: that it ends, and what it stores.
use linux_kernel_programing.Prelude.{
  ℕ, zero, suc, ◌+◌, ◌^◌, ◌≤◌, ◌<◌, ◌≡◌, ◌∙◌, refl, true, false, List, arith, length,
}
use linux_kernel_programing.Prelude.Int.{ℤ, pos, ◌+ℤ◌, wrap32, wrap32-pos}
use linux_kernel_programing.Gpio.{Gpio, Log}
use linux_kernel_programing.Hcsr.Fifo.{fifo_write}
use linux_kernel_programing.Hcsr.Device.{Device, quot_ℤ}
use linux_kernel_programing.Hcsr.Device.Interrupts.{+ℤ-pos}
use linux_kernel_programing.Platform.Device.{
  finished, interrupts, pulse, sample_round, sample_rounds, store_mean, thread_write,
}
use linux_kernel_programing.Platform.Device.Echoes.{interrupts-frame, interrupts-bounds}

-- The device that a thread leaves which stores the distance `cm`.
abbrev pub stored : ℕ → ℤ → Device → Device
stored tsc cm d = record d {
  fifo = fifo_write d.fifo (record { distance = cm; tsc = tsc });
  measurement_in_progress = false;
  buffer_lock = false;
  read_lock = d.read_lock + 1;
}

pub store_mean-eq :
    (tsc n : ℕ) (d : Device) (log : Log)
    → d.irq_data.total_samples ≡ pos n
    → 0 < n
    → store_mean tsc d log ≡ finished (stored tsc (quot_ℤ d.irq_data.sample_sum (pos n)) d) log
unfolding store_mean
store_mean-eq tsc n d log e h = simp e (ground arith)

-- A thread that gets the lock, with `m` samples asked for, goes on after `m` + 3 rounds.
pub thread_write-rounds :
    (g : Gpio) (before after : ℕ → List ℕ) (m tsc : ℕ) (d : Device) (log : Log)
    → d.buffer_lock ≡ false
    → d.m ≡ pos m
    → m + 3 < 2 ^ 31
    → let (d', log') =
        sample_rounds g before after (m + 3) 0 (record d { buffer_lock = true }) log in
      thread_write g before after tsc d log ≡ store_mean tsc d' log'
unfolding thread_write
thread_write-rounds g before after m tsc d log free e h =
    let last : wrap32 (d.m +ℤ pos 2) ≡ pos (m + 2) =
      rw (e, +ℤ-pos) (wrap32-pos (m + 2) (omega arith)) in
    let rounds : m + 2 + 1 ≡ m + 3 = omega arith in simp (free, last) (ground (arith, rounds))

module _ (g : Gpio) (before after : ℕ → List ℕ) where
  sample_round-frame :
      (i : ℕ) (d : Device)
      → sample_round before after i d
        ≡ record d { irq_data = (sample_round before after i d).irq_data }
  unfolding sample_round
  sample_round-frame i d =
      let d₁ = interrupts (before i) d in
      let d₂ = record d₁ {
        irq_data = record (d₁.irq_data) { total_samples = wrap32 (pos (i + 1)) };
      } in
      ground (arith, interrupts-frame (before i) d, interrupts-frame (after i) d₂)

  pub sample_rounds-frame :
      (n i : ℕ) (d : Device) (log : Log)
      → let (d', log') = sample_rounds g before after n i d log in
        d' ≡ record d { irq_data = d'.irq_data }
  unfolding sample_rounds
  sample_rounds-frame zero i d log = refl
  sample_rounds-frame (suc n) i d log =
      let log' = pulse g d.irq_data.irq_trigger_pin log in
      ground (
        arith,
        sample_round-frame i d,
        sample_rounds-frame n (i + 1) (sample_round before after i d) log',
      )

  pub sample_rounds-bounds :
      (n i last : ℕ) (d : Device) (log : Log)
      → i + n ≡ last
      → last + 1 + length (after last) < 2 ^ 31
      → let (d', log') = sample_rounds g before after (suc n) i d log in
        (t : ℕ) × (d'.irq_data.total_samples ≡ pos t)
        × (last + 1 ≤ t)
        × (t ≤ last + 1 + length (after last))
  unfolding sample_rounds sample_round
  sample_rounds-bounds zero i last d log e h =
      let here : i ≡ last = omega arith in
      let d₁ = interrupts (before last) d in
      let d₂ = record d₁ {
        irq_data = record (d₁.irq_data) { total_samples = wrap32 (pos (last + 1)) };
      } in
      rw here (interrupts-bounds (after last) d₂ (last + 1) (wrap32-pos (last + 1) (omega arith)) h)
  sample_rounds-bounds (suc n) i last d log e h =
      sample_rounds-bounds n (i + 1) last (sample_round before after i d)
        (pulse g d.irq_data.irq_trigger_pin log) (omega arith) h

  -- Whatever interrupts come and whenever: a thread that finds the lock free, with `m` samples
  -- asked for, ends, if the counter of the samples cannot overflow. It stores the sum of the
  -- samples, the lowest and the highest not left out, divided by a counter that is `m` + 3 or, at most by the interrupts after its last
  -- update, more; so it never divides by zero. It gives the lock back, clears the flag of a
  -- measurement under way, raises the semaphore once, and changes nothing else outside the
  -- interrupt's data.
  pub thread_write-finishes :
      (m tsc : ℕ) (d : Device) (log : Log)
      → d.buffer_lock ≡ false
      → d.m ≡ pos m
      → m + 3 + length (after (m + 2)) < 2 ^ 31
      → (d' : Device) × (log' : Log) × (t : ℕ) × (thread_write g before after tsc d log
          ≡ finished (stored tsc (quot_ℤ d'.irq_data.sample_sum (pos t)) d') log')
        × (d' ≡ record d { irq_data = d'.irq_data; buffer_lock = true })
        × (m + 3 ≤ t)
        × (t ≤ m + 3 + length (after (m + 2)))
  thread_write-finishes m tsc d log free e h =
      let locked = record d { buffer_lock = true } in
      let (d', log') = sample_rounds g before after (m + 3) 0 locked log in
      let count : m + 3 ≡ suc (m + 2) = omega arith in
      let (t, total, low, high) =
        rw (← count) at
          (sample_rounds-bounds (m + 2) 0 (m + 2) locked log (omega arith) (omega arith)) in
      (
        d',
        log',
        t,
        thread_write-rounds g before after m tsc d log free e (omega arith)
            ∙ store_mean-eq tsc t d' log' total (omega arith),
        sample_rounds-frame (m + 3) 0 locked log,
        omega arith,
        omega arith,
      )
