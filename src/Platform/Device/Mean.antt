-- ===== src/Platform/Device/Mean.antt =====
-- What the measuring thread of `platform_driver.c` stores when an echo comes in each round, and
-- when none comes.
use linux_kernel_programing.Prelude.{
  ℕ, zero, suc, ◌+◌, ◌*◌, ◌/◌, ◌^◌, ◌<◌, ◌≡◌, ◌∙◌, refl, ap, true, false, none, List, [], ◌∷◌,
  arith,
}
use linux_kernel_programing.Prelude.Int.{ℤ, pos, wrap32-pos}
use linux_kernel_programing.Gpio.{Gpio, Log}
use linux_kernel_programing.Hcsr.Device.{Device, quot_ℤ}
use linux_kernel_programing.Hcsr.Device.Interrupts.{Counted}
use linux_kernel_programing.Platform.Device.{
  finished, interrupts, pulse, sample_round, sample_rounds, thread_write,
}
use linux_kernel_programing.Platform.Device.Echoes.{rest_of, interrupts-echo}
use linux_kernel_programing.Platform.Device.Thread.{
  stored, store_mean-eq, thread_write-rounds, sample_rounds-frame,
}

abbrev pub silence : ℕ → List ℕ
silence i = []

module _ (start stop : ℕ → ℕ) where
  -- One echo in each round, while the trigger pin is driven.
  abbrev pub echoes : ℕ → List ℕ
  echoes i = start i ∷ stop i ∷ []

  -- The sum of what is added in `n` rounds from round `i` on.
  abbrev pub sum_rests : ℕ → ℕ → ℕ
  sum_rests zero i = 0
  sum_rests (suc n) i = rest_of (start i) (stop i) + sum_rests n (i + 1)

  sample_round-Counted :
      (i : ℕ) (d : Device) (samples total : ℕ)
      → Counted d samples total
      → samples + 1 < 2 ^ 31
      → i + 1 < 2 ^ 31
      → total + 23200 < 2 ^ 31
      → Counted (sample_round echoes silence i d) (suc i) (total + rest_of (start i) (stop i))
  unfolding sample_round interrupts
  sample_round-Counted i d samples total c p r q =
      let (counted, _, _) = interrupts-echo d (start i) (stop i) samples total c p q in
      record {
        between = counted.between;
        number = wrap32-pos (i + 1) r ∙ ap pos (omega arith);
        summed = counted.summed;
      }

  sample_rounds-Counted :
      (g : Gpio) (n i last : ℕ) (d : Device) (log : Log) (samples total : ℕ)
      → Counted d samples total
      → i + n ≡ last
      → samples + 1 < 2 ^ 31
      → last + 1 < 2 ^ 31
      → total + 23200 * suc n < 2 ^ 31
      → let (d', log') = sample_rounds g echoes silence (suc n) i d log in
        Counted d' (suc last) (total + sum_rests (suc n) i)
  unfolding sample_rounds
  sample_rounds-Counted g zero i last d log samples total c e p r q =
      let here : i ≡ last = omega arith in
      let one = sample_round-Counted last d samples total c p r (omega arith) in
      let none_left : total + (rest_of (start last) (stop last) + 0)
          ≡ total + rest_of (start last) (stop last) =
        omega arith in
      rw (here, none_left) one
  sample_rounds-Counted g (suc n) i last d log samples total c e p r q =
      let small : rest_of (start i) (stop i) < 23200 = omega arith in
      let one = sample_round-Counted i d samples total c p (omega arith) (omega arith) in
      let rest =
        sample_rounds-Counted g n (i + 1) last (sample_round echoes silence i d)
          (pulse g d.irq_data.irq_trigger_pin log) (suc i) (total + rest_of (start i) (stop i)) one
          (omega arith) (omega arith) r (omega arith) in
      record {
        between = rest.between;
        number = rest.number;
        summed = rest.summed ∙ ap pos (omega arith);
      }

  -- A thread that finds the lock free, with `m` samples asked for and one echo in each of its
  -- `m` + 3 rounds, stores the sum of these samples and of all that were taken before, none left out, divided
  -- (rounding down) by `m` + 3 alone: the counter starts anew with each measurement, the sum does
  -- not.
  pub thread_write-running_mean :
      (g : Gpio) (m tsc samples total : ℕ) (d : Device) (log : Log)
      → Counted d samples total
      → d.buffer_lock ≡ false
      → d.m ≡ pos m
      → samples + 1 < 2 ^ 31
      → m + 3 < 2 ^ 31
      → total + 23200 * (m + 3) < 2 ^ 31
      → let sum = total + sum_rests (m + 3) 0 in
        (d' : Device) × (log' : Log) × (thread_write g echoes silence tsc d log
          ≡ finished (stored tsc (pos (sum / (m + 3))) d') log')
        × (d' ≡ record d { irq_data = d'.irq_data; buffer_lock = true })
        × Counted d' (m + 3) sum
  thread_write-running_mean g m tsc samples total d log c free e p r q =
      let locked = record d { buffer_lock = true } in
      let (d', log') = sample_rounds g echoes silence (m + 3) 0 locked log in
      let count : m + 3 ≡ suc (m + 2) = omega arith in
      let counted : Counted d' (m + 3) (total + sum_rests (m + 3) 0) = rw count (
        sample_rounds-Counted g (m + 2) 0 (m + 2) locked log samples total
          (record { between = c.between; number = c.number; summed = c.summed }) (omega arith) p
          (omega arith) (omega arith)) in
      (
        d',
        log',
        thread_write-rounds g echoes silence m tsc d log free e r
            ∙ store_mean-eq tsc (m + 3) d' log' counted.number (omega arith)
            ∙ ap (λ (z : ℤ). finished (stored tsc (quot_ℤ z (pos (m + 3))) d') log') counted.summed,
        sample_rounds-frame g echoes silence (m + 3) 0 locked log,
        counted,
      )

-- So many pulses without a trigger pin.
abbrev pub missing_pulses : Gpio → ℕ → Log → Log
missing_pulses g zero log = log
missing_pulses g (suc n) log = missing_pulses g n (pulse g none log)

-- With no interrupt and no trigger pin the rounds do not change the sum, and send all pulses to the
-- GPIO -1.
pub sample_rounds-silent :
    (g : Gpio) (n i : ℕ) (d : Device) (log : Log)
    → d.irq_data.irq_trigger_pin ≡ none
    → let (d', log') = sample_rounds g silence silence n i d log in
      (d'.irq_data.sample_sum ≡ d.irq_data.sample_sum) × (log' ≡ missing_pulses g n log)
unfolding sample_rounds sample_round interrupts
sample_rounds-silent g zero i d log h = (refl, refl)
sample_rounds-silent g (suc n) i d log h =
    let log' = pulse g d.irq_data.irq_trigger_pin log in
    let same : log' ≡ pulse g none log = rw h refl in
    let (sum, quiet) = sample_rounds-silent g n (i + 1) (sample_round silence silence i d) log' h in
    (sum, quiet ∙ ap (missing_pulses g n) same)
