-- ===== src/Hcsr/Device/Thread.antt =====
-- The measuring thread of `HCSR_Driver.c`.
use linux_kernel_programing.Prelude.{
  ℕ, zero, suc, ◌+◌, ◌*◌, ◌/◌, ◌^◌, ◌≤◌, ◌<◌, ◌≡◌, ◌∙◌, refl, ap, Bool, true, false, Option, none,
  some, List, [], ◌∷◌, arith, ltb, ◌==◌, if◌then◌else◌,
}
use linux_kernel_programing.Prelude.Int.{pos, pos_part, ◌+ℤ◌, wrap32, wrap32-pos}
use linux_kernel_programing.Gpio.{Gpio, Log, value_set, value_set_cansleep, direction_output}
use linux_kernel_programing.Hcsr.Fifo.{Fifo, FifoBuffer, fifo_write}
use linux_kernel_programing.Hcsr.Device.{
  IrqData, Device, finished, divide_error, pin_config, interrupts, pulse, sample_rounds, store_mean,
  thread_write,
}
use linux_kernel_programing.Hcsr.Device.Interrupts.{Counted, centimetres, interrupts-echo, +ℤ-pos}

Counted-cast : {d : Device} {a b s t : ℕ} → Counted d a s → a ≡ b → s ≡ t → Counted d b t
Counted-cast c e f = record {
  between = c.between;
  number = c.number ∙ ap pos e;
  summed = c.summed ∙ ap pos f;
}

store_mean-eq :
    (tsc samples total : ℕ) (d : Device) (log : Log)
    → Counted d samples total
    → 0 < samples
    → store_mean tsc d log
      ≡ finished
          (record d {
            fifo = fifo_write d.fifo (record { distance = pos (total / samples); tsc = tsc });
            measurement_in_progress = false;
            buffer_lock = false;
          })
          log
unfolding store_mean
store_mean-eq tsc samples total d log c h = simp (c.number, c.summed) (ground arith)

-- A thread whose loop ends goes on to store the mean.
thread_write-rounds :
    (g : Gpio) (echoes : ℕ → List ℕ) (tsc n : ℕ) (d : Device) (log : Log) {d' : Device} {log' : Log}
    → d.buffer_lock ≡ false
    → pos_part (wrap32 (d.m +ℤ pos 2)) ≡ n
    → sample_rounds g echoes n 0 (record d { buffer_lock = true }) log ≡ some (d', log')
    → thread_write g echoes tsc d log ≡ store_mean tsc d' log'
unfolding thread_write
thread_write-rounds g echoes tsc n d log free e run = simp (free, e, run)

module _ (start stop : ℕ → ℕ) where
  -- One echo in each round.
  abbrev pub echoes : ℕ → List ℕ
  echoes i = start i ∷ stop i ∷ []

  -- The sum of the distances of `n` rounds from round `i` on.
  abbrev pub sum_cm : ℕ → ℕ → ℕ
  sum_cm zero i = 0
  sum_cm (suc n) i = centimetres (start i) (stop i) + sum_cm n (i + 1)

  -- Every echo ends after it began and lasts no longer than that of 400 cm.
  pub record Near : Type 0 where
    pub order : (i : ℕ) → start i ≤ stop i
    pub stamp : (i : ℕ) → stop i < 2 ^ 64
    pub range : (i : ℕ) → centimetres (start i) (stop i) ≤ 400

  sample_rounds-Counted :
      (g : Gpio) (n i : ℕ) (d : Device) (log : Log) (samples total : ℕ)
      → Near
      → Counted d samples total
      → samples + n < 2 ^ 31
      → total + 400 * n < 2 ^ 31
      → (d' : Device) × (log' : Log) × (sample_rounds g echoes n i d log ≡ some (d', log'))
        × (d' ≡ record d { irq_data = d'.irq_data })
        × Counted d' (samples + n) (total + sum_cm n i)
  unfolding sample_rounds
  sample_rounds-Counted g zero i d log samples total near c p q =
      (d, log, refl, refl, Counted-cast c (omega arith) (omega arith))
  sample_rounds-Counted g (suc n) i d log samples total near c p q =
      let up = record d { read_lock = d.read_lock + 1 } in
      let (d₁, run, frame, _, c₁) =
        interrupts-echo up (start i) (stop i) samples total
          (record { between = c.between; number = c.number; summed = c.summed }) (omega arith)
          (near.order i) (near.stamp i) (omega (arith, near.range i)) (omega arith) (omega arith) in
      let cm = centimetres (start i) (stop i) in
      let close : ltb 400 cm ≡ false = ground (arith, near.range i) in
      let (d', log', run', frame', c') =
        sample_rounds-Counted g n (i + 1) d₁ (pulse g d.irq_data.irq_trigger_pin log) (samples + 1)
          (total + cm) near (rw close at c₁) (omega arith) (omega (arith, near.range i)) in
      (
        d',
        log',
        rw (run, sample_rounds) run',
        ground (arith, frame, frame'),
        Counted-cast c' (omega arith) (omega arith),
      )

  -- From unlocked, with `samples` samples of the sum `total` counted before, a thread of `m` + 2
  -- rounds with one echo of at most 400 cm in each ends: it stores the mean of all samples so far
  -- (rounded down; the lowest and the highest are not left out) with its time stamp, and clears the lock and the flag of a measurement under
  -- way.
  pub thread_write-mean :
      (g : Gpio) (m tsc samples total : ℕ) (d : Device) (log : Log)
      → Near
      → Counted d samples total
      → d.m ≡ pos m
      → d.buffer_lock ≡ false
      → samples + m + 2 < 2 ^ 31
      → total + 400 * (m + 2) < 2 ^ 31
      → let mean = (total + sum_cm (m + 2) 0) / (samples + m + 2) in
        (d' : Device) × (log' : Log) × (thread_write g echoes tsc d log ≡ finished d' log')
        × (d'.fifo ≡ fifo_write d.fifo (record { distance = pos mean; tsc = tsc }))
        × (d'.measurement_in_progress ≡ false)
        × (d'.buffer_lock ≡ false)
        × Counted d' (samples + m + 2) (total + sum_cm (m + 2) 0)
  thread_write-mean g m tsc samples total d log near c e free p q =
      let locked = record d { buffer_lock = true } in
      let (d₁, log₁, run, frame, c₁) =
        sample_rounds-Counted g (m + 2) 0 locked log samples total near
          (record { between = c.between; number = c.number; summed = c.summed }) (omega arith)
          (omega arith) in
      let rounds : pos_part (wrap32 (d.m +ℤ pos 2)) ≡ m + 2 =
        rw (e, +ℤ-pos, wrap32-pos (m + 2) (omega arith)) refl in
      let mean : FifoBuffer = record {
        distance = pos ((total + sum_cm (m + 2) 0) / (samples + m + 2));
        tsc = tsc;
      } in
      let ended = record d₁ {
        fifo = fifo_write d₁.fifo mean;
        measurement_in_progress = false;
        buffer_lock = false;
      } in
      (
        ended,
        log₁,
        thread_write-rounds g echoes tsc (m + 2) d log free rounds run
            ∙ store_mean-eq tsc (samples + m + 2) (total + sum_cm (m + 2) 0) d₁ log₁
                (Counted-cast c₁ (omega arith) refl) (omega arith),
        ap (λ (f : Fifo). fifo_write f mean) (ap (λ (x : Device). x.fifo) frame),
        refl,
        refl,
        Counted-cast (record { between = c₁.between; number = c₁.number; summed = c₁.summed })
            (omega arith) refl,
      )

sample_rounds-silent :
    (g : Gpio) (n i : ℕ) (d : Device) (log : Log)
    → (d' : Device) × (log' : Log) × (sample_rounds g (λ i. []) n i d log ≡ some (d', log'))
      × (d'.irq_data ≡ d.irq_data)
unfolding sample_rounds interrupts
sample_rounds-silent g zero i d log = (d, log, refl, refl)
sample_rounds-silent g (suc n) i d log =
    sample_rounds-silent g n (i + 1) (record d { read_lock = d.read_lock + 1 })
      (pulse g d.irq_data.irq_trigger_pin log)

store_mean-divide_error :
    (tsc : ℕ) (d : Device) (log : Log)
    → d.irq_data.total_samples ≡ pos 0
    → store_mean tsc d log ≡ divide_error
unfolding store_mean
store_mean-divide_error tsc d log e = simp e

-- A thread that no interrupt reaches, with no sample counted before, divides by zero, whatever the
-- number of rounds.
pub thread_write-divide_error :
    (g : Gpio) (tsc : ℕ) (d : Device) (log : Log)
    → d.buffer_lock ≡ false
    → d.irq_data.total_samples ≡ pos 0
    → thread_write g (λ i. []) tsc d log ≡ divide_error
thread_write-divide_error g tsc d log free e =
    let n = pos_part (wrap32 (d.m +ℤ pos 2)) in
    let (d', log', run, kept) = sample_rounds-silent g n 0 (record d { buffer_lock = true }) log in
    thread_write-rounds g (λ i. []) tsc n d log free refl run
    ∙ store_mean-divide_error tsc d' log' (ap (λ (q : IrqData). q.total_samples) kept ∙ e)

-- The level that the calls of a log give a pin: that of the last call that sets one.
unfoldable pub level : ℕ → Log → Option Bool
level p [] = none
level p (value_set q v ∷ log) = if q == p then some v else level p log
level p (value_set_cansleep q v ∷ log) = if q == p then some v else level p log
level p (direction_output q v ∷ log) = if q == p then some v else level p log
level p (_ ∷ log) = level p log

pin_config-level :
    (g : Gpio) (pin : ℕ) (io_flag val configure : Bool) (log : Log)
    → (pin_config g pin io_flag val configure log).0 ≡ false
    → level pin (pin_config g pin io_flag val configure log).1 ≡ some false
unfolding pin_config level
pin_config-level g pin io_flag val configure log h = ground arith

-- The trigger pin is low after the call that is to raise it, so also during the wait that follows,
-- and low after the pulse.
pub pulse-level :
    (g : Gpio) (pin : ℕ) (log : Log)
    → (level pin (pin_config g pin true true false log).1 ≡ some false)
      × (level pin (pulse g (some pin) log) ≡ some false)
unfolding pulse
pulse-level g pin log =
    let raised = (pin_config g pin true true false log).1 in
    (
      pin_config-level g pin true true false log (never_fails pin true log),
      pin_config-level g pin true false false raised (never_fails pin false raised),
    )
  where
    never_fails :
        (pin : ℕ) (val : Bool) (log : Log) → (pin_config g pin true val false log).0 ≡ false
    never_fails pin val log = unfold pin_config in refl
