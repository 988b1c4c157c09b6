-- ===== src/Hcsr/Tests/Sessions.antt =====
-- The theorems about the threads of one HC-SR04 device at concrete inputs.
use mathlib.Core.List.{filter_map, Perm}
use linux_kernel_programing.Prelude.{◌+◌, ◌≡◌, refl, true, false, List, [], ◌∷◌, ◌++◌, arith}
use linux_kernel_programing.Prelude.Int.{pos, wrap32, ◌+ℤ◌}
use linux_kernel_programing.Prelude.Counting.{total}
use linux_kernel_programing.Hcsr.Fifo.{FifoBuffer, fifo_read, fifo_write}
use linux_kernel_programing.Hcsr.Fifo.Stack.{contents, pop}
use linux_kernel_programing.Hcsr.Device.{initialize_device, irq_handler, record_sample, distance_at}
use linux_kernel_programing.Hcsr.Pins.{configure_pins}
use linux_kernel_programing.Hcsr.Files.{
  config_pins, set_parameters, einval, hcsr04_ioctl, take_pins, free_old_irq, is_edge_interruptible,
}
use linux_kernel_programing.Hcsr.Sensor.{Event, taken, measure_round, measure_store, take_newest}
use linux_kernel_programing.Hcsr.Threads.{
  Board, measure_exit, Crowd, Reaches, stays, turns, opened, act, calls_write, calls_read,
  calls_ioctl, interrupted, measure_wait, returned, write_start, measure_lock, measure_pulse,
  measure_mean, measure_unlock, write_go, write_free, write_set, start_lock, start_run, start_fail,
  start_unlock, read_lock, read_take, read_unlock, read_full,
}
use linux_kernel_programing.Hcsr.Threads.Mutex.{holds, Reaches-holds}
use linux_kernel_programing.Hcsr.Threads.Stuck.{served, Reaches-stuck}
use linux_kernel_programing.Hcsr.Threads.Stack.{replay, Serves, Reaches-stack}
use linux_kernel_programing.Hcsr.Threads.Ends.{Runs, begins, acts}
use linux_kernel_programing.Hcsr.Threads.Races.{
  reopened, measures, reopened-holds, two_writes-measures,
}
use linux_kernel_programing.Hcsr.Threads.Replies.{Reaches-replied}
use linux_kernel_programing.Hcsr.Threads.Details.{Reaches-printed}
use linux_kernel_programing.Hcsr.Details.{
  Line, slot_line, buffer_data, print_parameters, print_device_data,
}
use linux_kernel_programing.Hcsr.Tests.{ready, generous, kernel}

abbrev locking : Board
locking = record { gpio = generous; excludes = true }

-- A kernel for one processor.
abbrev single : Board
single = record { gpio = generous; excludes = false }

abbrev Session : Type 0
Session = (c : Crowd) × Reaches locking kernel (opened ready [] []) c

-- A device opened, with its pins and parameters set: one sample more than two in a measurement.
abbrev configured : Session
unfolding initialize_device hcsr04_ioctl take_pins free_old_irq is_edge_interruptible configure_pins
configured = (
  _,
  turns (turns stays (calls_ioctl (config_pins (pos 3) (pos 2)) refl))
      (calls_ioctl (set_parameters (pos 1) (pos 60)) refl),
)

-- A user has called a write, which has taken the lock.
abbrev writing : Session
unfolding initialize_device configured
writing =
    let called = turns (configured.1) (calls_write (pos 0)) in
    let tested =
      turns (turns called (act [] [] refl (write_go refl))) (act [] [] refl (write_free refl)) in
    (_, turns (turns tested (act [] [] refl write_set)) (act [] [] refl (start_lock refl)))

Reaches-holds_example : total holds writing.0.threads ≡ 1
unfolding writing
Reaches-holds_example = Reaches-holds locking kernel ready [] [] writing.0 refl writing.1

-- No measuring thread can be created, and a read comes.
abbrev failed : Session
unfolding writing
failed = (_, turns writing.1 (act [] [] refl start_fail))

abbrev after_failure : (c : Crowd) × Reaches locking kernel failed.0 c
unfolding failed
after_failure = (_, turns stays calls_read)

Reaches-stuck_example :
    (after_failure.0.sensor.device.buffer_lock ≡ true)
    × (served after_failure.0.sensor.events ≡ served failed.0.sensor.events)
unfolding failed after_failure
Reaches-stuck_example =
    Reaches-stuck locking kernel ready [] [] failed.0 after_failure.0 refl failed.1 (omega arith)
      after_failure.1

reopened-holds_example :
    (c : Crowd) × Reaches locking kernel (reopened failed.0) c × (total holds c.threads ≡ 2)
unfolding failed
reopened-holds_example = reopened-holds locking kernel ready [] [] failed.0 refl failed.1 refl

-- The measuring thread is created, and an echo of 50 cm comes in its first round.
abbrev measuring : Session
unfolding writing measure_round irq_handler record_sample distance_at wrap32 ◌+ℤ◌
measuring =
    let created =
      turns (turns writing.1 (act [] [] refl start_run))
        (act [] (measure_wait ∷ []) refl start_unlock) in
    let others = returned einval ∷ [] in
    let first =
      turns (turns created (act others [] refl (measure_lock refl)))
        (act others [] refl measure_pulse) in
    (_, turns (turns first (interrupted 1000000 refl)) (interrupted 2160000 refl))

-- The thread makes its two last rounds, stores the mean and gives the lock back.
abbrev ending : (c : Crowd) × Runs locking kernel measuring.0 4 c
unfolding measuring measure_round measure_store
ending =
    let others = returned einval ∷ [] in
    let second = acts begins (act others [] refl measure_pulse) tt in
    let third = acts second (act others [] refl measure_pulse) tt in
    let stored = acts third (act others [] refl (measure_mean 2200000 (omega arith) refl)) tt in
    (_, acts stored (act others [] refl measure_unlock) tt)

-- From there the thread goes on to its end.
abbrev storing : Session
unfolding measuring measure_round measure_store fifo_write
storing =
    let others = returned einval ∷ [] in
    let rounds₂ =
      turns (turns measuring.1 (act others [] refl measure_pulse))
        (act others [] refl measure_pulse) in
    let stored = turns rounds₂ (act others [] refl (measure_mean 2200000 (omega arith) refl)) in
    (_, turns stored (act others [] refl measure_unlock))

-- After that a user reads.
abbrev reading : Session
unfolding storing take_newest fifo_read
reading =
    let rest = returned einval ∷ measure_exit ∷ [] in
    let called = turns storing.1 calls_read in
    let took =
      turns (turns called (act [] rest refl (read_lock refl))) (act [] rest refl read_take) in
    let got = turns took (act [] rest refl read_unlock) in
    (_, turns got (act [] rest refl (read_full refl)))

-- The mean of one echo of 50 cm.
abbrev found : FifoBuffer
found = record { distance = pos 50; tsc = 2200000 }

Reaches-stack_example :
    let s = reading.0.sensor in (contents s.device.fifo ≡ replay s.events) × Serves s.events
unfolding reading
Reaches-stack_example = Reaches-stack locking kernel ready [] [] reading.0 reading.1 refl

Reaches-replied_example :
    (later earlier : List Event) × (reading.0.sensor.events ≡ later ++ (taken found ∷ earlier))
    × (found ≡ (pop (replay earlier)).0)
unfolding reading
Reaches-replied_example =
    Reaches-replied locking kernel ready [] [] reading.0 [] (returned einval ∷ measure_exit ∷ [])
      found reading.1 refl refl

Reaches-printed_example :
    let d = storing.0.sensor.device in
    (shown : List Line) × (print_device_data d ≡ print_parameters d ++ (buffer_data ∷ shown))
    × Perm shown (filter_map slot_line (replay storing.0.sensor.events))
unfolding storing
Reaches-printed_example = Reaches-printed locking kernel ready [] [] storing.0 storing.1 refl refl

two_writes-measures_example :
    let s = configured.0.sensor in
    (c : Crowd) × Reaches locking kernel
      (record { sensor = s; threads = write_start (pos 0) ∷ write_start (pos 0) ∷ [] })
      c
    × (total measures c.threads ≡ 2 + 0)
unfolding configured
two_writes-measures_example =
    two_writes-measures locking kernel configured.0.sensor [] refl refl refl
