-- ===== src/Hcsr/Threads.antt =====
-- The threads that share one device of `user-space device interface for HC-SR04/HCSR_Driver.c`:
-- users in `hcsr04_write` and `hcsr04_read`, and the measuring threads that these create. A step is
-- one access to what they share; what is done to the buffer between taking its lock and giving it
-- back, `fifoRead` or `fifoWrite`, is one step. Interrupts and ioctls come at any time.
pub mod Frames
pub mod Mutex
pub mod Stuck
pub mod Stack
pub mod Ends
pub mod Progress
pub mod Races
pub mod Replies
pub mod Details
use linux_kernel_programing.Prelude.{
  ℕ, zero, suc, ◌+◌, ◌≤◌, ◌<◌, ◌≡◌, ◌≢◌, Bool, true, false, ◌&&◌, none, some, List, [], ◌∷◌, ◌++◌,
  set, ◌==◌, if◌then◌else◌,
}
use linux_kernel_programing.Prelude.Int.{ℤ, pos, negsuc, pos_part, ◌+ℤ◌, wrap32, ◌==ℤ◌}
use linux_kernel_programing.Gpio.{Gpio, Log}
use linux_kernel_programing.Hcsr.Fifo.{
  FifoBuffer, Fifo, fifo_size, no_tsc, cleared, fifo_read, fifo_write,
}
use linux_kernel_programing.Hcsr.Sensor.{
  Event, stored, taken, wiped, Sensor, with_device, locked, unlocked, rounds, measure_round, mean,
  measure_store, take_newest, wipe_slot, wipe_index,
}
use linux_kernel_programing.Hcsr.Device.{Device, irq_handler, initialize_device, pulse, quot_ℤ}
use linux_kernel_programing.Hcsr.Pins.{PinConfig, Kernel}
use linux_kernel_programing.Hcsr.Files.{Command, success, einval, are_configured, hcsr04_ioctl}

-- Who called `initiate_measurement`: a write, or a read with its first buffer.
pub data Caller : Type 0 where
  writer : Caller
  reader : FifoBuffer → Caller

-- Where a thread is. Of `hcsr04_thread_write`: before the lock; with so many rounds left; after the
-- mean is stored; ended; ended by a division by 0.
pub data Place : Type 0 where
  measure_wait : Place
  measure_loop : ℕ → Place
  measure_stored : Place
  measure_exit : Place
  measure_died : Place
  -- Of `hcsr04_write` with an operation: at its beginning; in the loop that clears the buffer; before
  -- and after the test of `measurement_in_progress`.
  write_start : ℤ → Place
  write_clear : ℕ → Place
  write_test : Place
  write_mark : Place
  -- Of `initiate_measurement`: before the lock, before and after `kthread_run`.
  start_wait : Caller → Place
  start_hold : Caller → Place
  start_created : Caller → Place
  -- Of `hcsr04_read`: before the lock, before and after `fifoRead`, after the lock is given back; the
  -- same again for the second `fifoRead`. The last but one has not given back a lock of its own.
  read_wait : Place
  read_hold : Place
  read_got : FifoBuffer → Place
  read_test : FifoBuffer → Place
  again_wait : FifoBuffer → Place
  again_hold : FifoBuffer → Place
  again_got : FifoBuffer → Place
  again_locked : FifoBuffer → Place
  -- Back in user space: with a result of a write or a rejected read; with a result and the lock of
  -- the buffer; with what a read gave.
  returned : ℤ → Place
  returned_locked : ℤ → Place
  replied : FifoBuffer → Place
  -- Interrupted at a place by a handler that went to sleep, and hung.
  asleep : Place → Place

-- The kernel's answers for the pins, and whether its spin locks keep the others out. They do if it
-- runs on several processors; on one, `spin_lock_irqsave` only turns the interrupts off, and while
-- its caller sleeps the others run.
pub record Board : Type 0 where
  pub gpio : Gpio
  pub excludes : Bool

abbrev pub blocked : Board → Sensor → Bool
blocked g s = s.device.buffer_lock && g.excludes

-- What a failed `kthread_run` leads to: the lock is kept.
abbrev pub start_failed : Caller → Place
start_failed writer = returned_locked success
start_failed (reader b) = again_locked b

-- A step of a thread, with the threads that it creates.
pub data Action (g : Board) (s : Sensor) : Place → Sensor → Place → List Place → Type 0 where
  measure_lock :
      blocked g s ≡ false → Action g s measure_wait (locked s) (measure_loop (rounds s.device)) []
  measure_pulse :
      {n : ℕ} → Action g s (measure_loop (suc n)) (measure_round g.gpio s) (measure_loop n) []
  measure_mean :
      (tsc : ℕ)
      → tsc ≢ no_tsc
      → (s.device.irq_data.total_samples ==ℤ pos 0) ≡ false
      → Action g s (measure_loop zero) (measure_store (mean s.device tsc) s) measure_stored []
  measure_divide :
      (s.device.irq_data.total_samples ==ℤ pos 0) ≡ true
      → Action g s (measure_loop zero) s measure_died []
  measure_unlock : Action g s measure_stored (unlocked s) measure_exit []
  write_refuse :
      {operation : ℤ}
      → are_configured s.device ≡ false
      → Action g s (write_start operation) s (returned einval) []
  write_go :
      {operation : ℤ}
      → are_configured s.device ≡ true
      → Action g s
          (write_start operation)
          s
          (if operation ==ℤ pos 0 then write_test else write_clear 0)
          []
  write_clear_slot :
      {i : ℕ} → i < fifo_size → Action g s (write_clear i) (wipe_slot i s) (write_clear (suc i)) []
  write_clear_index :
      {i : ℕ} → fifo_size ≤ i → Action g s (write_clear i) (wipe_index s) write_test []
  write_busy :
      s.device.measurement_in_progress ≡ true → Action g s write_test s (returned einval) []
  write_free : s.device.measurement_in_progress ≡ false → Action g s write_test s write_mark []
  write_set :
      Action g s write_mark
        (with_device s (record (s.device) { measurement_in_progress = true }))
        (start_wait writer)
        []
  start_lock :
      {c : Caller} → blocked g s ≡ false → Action g s (start_wait c) (locked s) (start_hold c) []
  start_run : {c : Caller} → Action g s (start_hold c) s (start_created c) (measure_wait ∷ [])
  start_fail : {c : Caller} → Action g s (start_hold c) s (start_failed c) []
  start_unlock : {c : Caller} → Action g s (start_created c) (unlocked s) (returned einval) []
  read_lock : blocked g s ≡ false → Action g s read_wait (locked s) read_hold []
  read_take : Action g s read_hold (take_newest s).1 (read_got (take_newest s).0) []
  read_unlock : {b : FifoBuffer} → Action g s (read_got b) (unlocked s) (read_test b) []
  read_full :
      {b : FifoBuffer}
      → (b.distance ==ℤ negsuc 0) ≡ false
      → Action g s (read_test b) s (replied b) []
  read_refuse :
      {b : FifoBuffer}
      → (b.distance ==ℤ negsuc 0) ≡ true
      → are_configured s.device ≡ false
      → Action g s (read_test b) s (returned einval) []
  read_empty :
      {b : FifoBuffer}
      → (b.distance ==ℤ negsuc 0) ≡ true
      → are_configured s.device ≡ true
      → Action g s
          (read_test b)
          s
          (if s.device.measurement_in_progress then again_wait b else start_wait (reader b))
          []
  again_lock :
      {b : FifoBuffer}
      → blocked g s ≡ false
      → Action g s (again_wait b) (locked s) (again_hold b) []
  again_relock :
      {b : FifoBuffer}
      → blocked g s ≡ false
      → Action g s (again_locked b) (locked s) (again_hold b) []
  again_take : {b : FifoBuffer} → Action g s (again_hold b) (take_newest s).1 (again_got b) []
  again_unlock : {b : FifoBuffer} → Action g s (again_got b) (unlocked s) (replied b) []

pub record Crowd : Type 0 where
  pub sensor : Sensor
  pub threads : List Place

-- Any thread moves, a user calls, an interrupt is handled, the handler of an interrupt goes to sleep
-- in `down_interruptible` and hangs the thread that it interrupted, or an ioctl is made.
pub data Turn (g : Board) (k : Kernel) (c : Crowd) : Crowd → Type 0 where
  act :
      (before after : List Place) {p p' : Place} {s : Sensor} {born : List Place}
      → c.threads ≡ before ++ (p ∷ after)
      → Action g c.sensor p s p' born
      → Turn g k c (record { sensor = s; threads = before ++ (p' ∷ (born ++ after)) })
  calls_write :
      (operation : ℤ) → Turn g k c (record c { threads = write_start operation ∷ c.threads })
  calls_read : Turn g k c (record c { threads = read_wait ∷ c.threads })
  interrupted :
      (time : ℕ) {d : Device}
      → irq_handler time c.sensor.device ≡ some d
      → Turn g k c (record c { sensor = with_device c.sensor d })
  sleeps :
      (time : ℕ) (before after : List Place) (p : Place)
      → c.threads ≡ before ++ (p ∷ after)
      → irq_handler time c.sensor.device ≡ none
      → Turn g k c (record c { threads = before ++ (asleep p ∷ after) })
  calls_ioctl :
      (command : Command) {result : ℤ} {d : Device} {pins : List PinConfig} {log : Log}
      → hcsr04_ioctl k command c.sensor.device c.sensor.pins c.sensor.log ≡ (result, d, pins, log)
      → Turn g k c (record c { sensor = record (c.sensor) { device = d; pins = pins; log = log } })

-- The device after it is opened.
abbrev pub opened : Device → List PinConfig → Log → Crowd
opened d pins log = record {
  sensor = record { device = initialize_device d; pins = pins; log = log; events = [] };
  threads = [];
}

-- What follows in any number of turns.
pub data Reaches (g : Board) (k : Kernel) (c : Crowd) : Crowd → Type 0 where
  stays : Reaches g k c c
  turns : {d e : Crowd} → Reaches g k c d → Turn g k d e → Reaches g k c e
