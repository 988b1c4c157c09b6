-- ===== src/Platform/Device.antt =====
-- Pins, interrupt handler and measuring thread of `platform_driver.c`.
pub mod Echoes
pub mod Thread
pub mod Mean
use linux_kernel_programing.Prelude.{
  ℕ, zero, suc, ◌+◌, ◌-◌, ◌%◌, ◌^◌, Bool, true, false, not, ◌&&◌, Option, none, some, List, [], ◌∷◌,
  ◌==◌, ltb, leb, if◌then◌else◌,
}
use linux_kernel_programing.Prelude.Int.{ℤ, pos, negsuc, pos_part, ◌+ℤ◌, ltb_ℤ, ◌==ℤ◌, wrap32}
use linux_kernel_programing.Gpio.{
  Gpio, Log, requested, refused, exported, direction_output, direction_input, value_set,
  value_set_cansleep,
}
use linux_kernel_programing.Platform.Shared.{fifo_write}
use linux_kernel_programing.Hcsr.Fifo.{FifoBuffer}
use linux_kernel_programing.Hcsr.Device.{IrqData, Device, record_sample, quot_ℤ, update_missing}

-- `pin_config`: whether the request failed, and the calls made. Pins from 64 on have no direction.
unfoldable pub pin_config : Gpio → ℕ → Bool → Bool → Bool → Log → Bool × Log
pin_config g pin io_flag val configure log =
    let ready = if configure then exported pin ∷ requested pin ∷ log else log in
    let out = if ltb pin 64 then direction_output pin val ∷ ready else ready in
    let inp = if ltb pin 64 then direction_input pin ∷ ready else ready in
    let directed = if io_flag then out else inp in
    let done =
      if g.cansleep pin
      then value_set_cansleep pin false ∷ directed
      else value_set pin false ∷ directed in
    if configure && not (g.grants log pin) then (true, refused pin ∷ log) else (false, done)

-- `pin_config2`: 0 or -1, and the calls made.
unfoldable pub pin_config2 : Gpio → ℕ → ℕ → Bool → ℕ → Log → ℤ × Log
pin_config2 g pin io_flag val first log =
    let ready = if first == 1 then exported pin ∷ requested pin ∷ log else log in
    let done =
      if io_flag == 0
      then direction_input pin ∷ ready
      else (if io_flag == 1
          then direction_output pin val ∷ ready
          else (if io_flag == 2 then value_set_cansleep pin val ∷ ready else ready)) in
    if first == 1 && not (g.grants log pin) then (negsuc 0, refused pin ∷ log) else (pos 0, done)

-- The distance of a falling edge at `time`: `do_div` returns the remainder, and the times are
-- subtracted the other way round.
unfoldable pub distance_at : IrqData → ℕ → ℕ
distance_at q time = (q.rising_edge_time + 2 ^ 64 - time) % 2 ^ 64 % 23200

-- The interrupt at time `time`.
unfoldable pub irq_handler : ℕ → Device → Device
irq_handler time d =
    let q = d.irq_data in
    let fallen = record q { falling_edge_time = time; irq_edge = 0 } in
    if q.irq_edge == 0
    then record d { irq_data = record q { rising_edge_time = time; irq_edge = 1 } }
    else (if q.irq_edge == 1
        then record d { irq_data = record_sample (pos (distance_at q time)) fallen }
        else d)

-- The interrupts of a stretch of time, in order.
unfoldable pub interrupts : List ℕ → Device → Device
interrupts [] d = d
interrupts (time ∷ times) d = interrupts times (irq_handler time d)

-- How the measuring thread ends; `endless` is a loop whose counter never passes its bound.
pub data Ending : Type 0 where
  finished : Device → Log → Ending
  divide_error : Ending
  spinning : Ending
  endless : Ending

-- One pulse on the trigger pin: high, then low. Without a trigger pin the same calls are made for
-- -1.
unfoldable pub pulse : Gpio → Option ℕ → Log → Log
pulse g none log = update_missing g false (update_missing g true log)
pulse g (some pin) log =
    (pin_config g pin true false false (pin_config g pin true true false log).1).1

-- Round `i`: the interrupts that come before the counter of the samples is set to `i + 1`, and
-- those that come after it.
unfoldable pub sample_round : (ℕ → List ℕ) → (ℕ → List ℕ) → ℕ → Device → Device
sample_round before after i d =
    let d₁ = interrupts (before i) d in
    interrupts (after i)
      (record d₁ { irq_data = record (d₁.irq_data) { total_samples = wrap32 (pos (i + 1)) } })

-- The loop of the thread, with `rounds` left.
unfoldable pub sample_rounds :
    Gpio → (ℕ → List ℕ) → (ℕ → List ℕ) → ℕ → ℕ → Device → Log → Device × Log
sample_rounds g before after zero i d log = (d, log)
sample_rounds g before after (suc rounds) i d log =
    sample_rounds g before after rounds (i + 1) (sample_round before after i d)
      (pulse g d.irq_data.irq_trigger_pin log)

-- After the loop: the quotient is stored with the time stamp, the locks are given back.
unfoldable pub store_mean : ℕ → Device → Log → Ending
store_mean tsc d log =
    let q = d.irq_data in
    let mean : FifoBuffer = record { distance = quot_ℤ q.sample_sum q.total_samples; tsc = tsc } in
    if q.total_samples ==ℤ pos 0
    then divide_error
    else finished
        (record d {
          fifo = fifo_write d.fifo mean;
          measurement_in_progress = false;
          buffer_lock = false;
          read_lock = d.read_lock + 1;
        })
        log

-- The last value of `samples_collected` at which the loop goes on: `m + 2` as an `int`.
abbrev pub last_sample : Device → ℤ
last_sample d = wrap32 (d.m +ℤ pos 2)

unfoldable pub thread_write : Gpio → (ℕ → List ℕ) → (ℕ → List ℕ) → ℕ → Device → Log → Ending
thread_write g before after tsc d log =
    let rounds = if ltb_ℤ (last_sample d) (pos 0) then 0 else pos_part (last_sample d) + 1 in
    let (d', log') = sample_rounds g before after rounds 0 (record d { buffer_lock = true }) log in
    if d.buffer_lock
    then spinning
    else (if last_sample d ==ℤ pos (2 ^ 31 - 1) then endless else store_mean tsc d' log')
