-- ===== src/Hcsr/Threads/Races.antt =====
-- What the lock of the buffer and the flag `measurement_in_progress` of the HC-SR04 driver do not
-- prevent.
use linux_kernel_programing.Prelude.{ℕ, ◌+◌, ◌≡◌, refl, true, false, List, [], ◌∷◌, ◌++◌, arith}
use linux_kernel_programing.Prelude.Int.{pos}
use linux_kernel_programing.Prelude.Counting.{total}
use linux_kernel_programing.Gpio.{Log}
use linux_kernel_programing.Hcsr.Device.{Device, initialize_device}
use linux_kernel_programing.Hcsr.Pins.{PinConfig, Kernel}
use linux_kernel_programing.Hcsr.Files.{einval, are_configured}
use linux_kernel_programing.Hcsr.Threads.Mutex.{holds, Reaches-holds}
use linux_kernel_programing.Hcsr.Sensor.{Sensor, with_device}
use linux_kernel_programing.Hcsr.Threads.{
  Board, blocked, Place, measure_wait, write_start, write_mark, returned, write_go, write_free,
  write_set, start_lock, start_run, start_unlock, read_lock, Crowd, act, calls_read, opened,
  Reaches, stays, turns,
}

-- The device is opened again: `hcsr04_open` sets it anew.
abbrev pub reopened : Crowd → Crowd
reopened c = record c { sensor = with_device c.sensor (initialize_device c.sensor.device) }

-- On a kernel whose spin locks keep the others out: if the device is opened again while the lock of
-- its buffer is taken, two threads can come to have the lock at once.
pub reopened-holds :
    (g : Board) (k : Kernel) (d : Device) (pins : List PinConfig) (log : Log) (c : Crowd)
    → g.excludes ≡ true
    → Reaches g k (opened d pins log) c
    → c.sensor.device.buffer_lock ≡ true
    → (c' : Crowd) × Reaches g k (reopened c) c' × (total holds c'.threads ≡ 2)
unfolding initialize_device
reopened-holds g k d pins log c x r busy =
    let r' = turns (turns stays calls_read) (act [] c.threads refl (read_lock refl)) in
    (_, r', ground (arith, Reaches-holds g k d pins log c x r, busy))

abbrev pub measures : Place → ℕ
measures measure_wait = 1
measures p = 0

-- A write of operation 0 that has not begun goes past its test of the flag.
passes :
    {g : Board} {k : Kernel} {c : Crowd} (s : Sensor) (before after : List Place)
    → are_configured s.device ≡ true
    → s.device.measurement_in_progress ≡ false
    → Reaches g k c (record { sensor = s; threads = before ++ (write_start (pos 0) ∷ after) })
    → Reaches g k c (record { sensor = s; threads = before ++ (write_mark ∷ after) })
passes s before after configured idle r =
    turns (turns r (act before after refl (write_go configured)))
      (act before after refl (write_free idle))

unblocked : (g : Board) (s : Sensor) → s.device.buffer_lock ≡ false → blocked g s ≡ false
unblocked g s free = rw free refl

-- From there it starts a measurement.
started : Sensor → Sensor
started s =
    with_device s (record (s.device) { measurement_in_progress = true; buffer_lock = false })

starts :
    {g : Board} {k : Kernel} {c : Crowd} (s : Sensor) (before after : List Place)
    → s.device.buffer_lock ≡ false
    → Reaches g k c (record { sensor = s; threads = before ++ (write_mark ∷ after) })
    → Reaches g k c (record {
      sensor = started s;
      threads = before ++ (returned einval ∷ measure_wait ∷ after);
    })
unfolding started
starts {g} s before after free r =
    let marked = turns r (act before after refl write_set) in
    let locked = turns marked (
      act before after refl (
        start_lock (
          unblocked g (with_device s (record (s.device) { measurement_in_progress = true }))
            free))) in
    let created = turns locked (act before after refl start_run) in
    turns created (act before (measure_wait ∷ after) refl start_unlock)

-- The test of `measurement_in_progress` and its setting are two steps: of a configured device with
-- no measurement under way and a free lock, two writes of operation 0 can each start one.
pub two_writes-measures :
    (g : Board) (k : Kernel) (s : Sensor) (others : List Place)
    → are_configured s.device ≡ true
    → s.device.measurement_in_progress ≡ false
    → s.device.buffer_lock ≡ false
    → (c : Crowd) × Reaches g k
        (record { sensor = s; threads = write_start (pos 0) ∷ write_start (pos 0) ∷ others })
        c
      × (total measures c.threads ≡ 2 + total measures others)
unfolding started
two_writes-measures g k s others configured idle free =
    let first = passes s [] (write_start (pos 0) ∷ others) configured idle stays in
    let both = passes s (write_mark ∷ []) others configured idle first in
    let one = starts s [] (write_mark ∷ others) free both in
    (_, starts (started s) (returned einval ∷ measure_wait ∷ []) others refl one, omega arith)
