-- ===== src/Hcsr/Threads/Mutex.antt =====
-- The lock of the buffer and the threads of one device of the HC-SR04 driver.
use linux_kernel_programing.Prelude.{
  ℕ, ◌+◌, ◌≤◌, ◌≡◌, ◌∙◌, refl, sym, ap, Bool, true, List, ◌∷◌, ◌++◌, arith, if◌then◌else◌,
}
use linux_kernel_programing.Prelude.Counting.{total, total-split, total-append}
use linux_kernel_programing.Gpio.{Log}
use linux_kernel_programing.Hcsr.Device.{Device, initialize_device}
use linux_kernel_programing.Hcsr.Pins.{PinConfig, Kernel}
use linux_kernel_programing.Hcsr.Threads.Frames.{irq_handler-Keeps, hcsr04_ioctl-Keeps}
use linux_kernel_programing.Hcsr.Sensor.{
  Sensor, measure_round, measure_store, take_newest, wipe_slot, wipe_index,
}
use linux_kernel_programing.Hcsr.Threads.{
  writer, reader, Place, measure_loop, measure_stored, measure_died, start_hold, start_created,
  read_hold, read_got, again_hold, again_got, again_locked, returned_locked, asleep, Board, Action,
  measure_lock, start_lock, start_fail, read_lock, again_lock, again_relock, Crowd, Turn, act,
  calls_write, calls_read, interrupted, sleeps, calls_ioctl, opened, Reaches, stays, turns,
}

-- A thread that took the lock and did not give it back yet.
abbrev pub holds : Place → ℕ
holds (measure_loop n) = 1
holds measure_stored = 1
holds measure_died = 1
holds (start_hold c) = 1
holds (start_created c) = 1
holds read_hold = 1
holds (read_got b) = 1
holds (again_hold b) = 1
holds (again_got b) = 1
holds (again_locked b) = 1
holds (returned_locked r) = 1
holds (asleep p) = holds p
holds p = 0

-- A thread that never gives it back: it died with it, returned with it, hangs with it, or waits for
-- itself.
abbrev pub keeps : Place → ℕ
keeps measure_died = 1
keeps (again_locked b) = 1
keeps (returned_locked r) = 1
keeps (asleep p) = holds p
keeps p = 0

abbrev pub one_if : Bool → ℕ
one_if b = if b then 1 else 0

pub keeps-le-holds : (p : Place) → keeps p ≤ holds p
keeps-le-holds p = ground arith

-- The threads but the one that moves hold the lock `rest` times.
Action-holds :
    {g : Board} {s s' : Sensor} {p p' : Place} {born : List Place} (rest : ℕ)
    → g.excludes ≡ true
    → Action g s p s' p' born
    → holds p + rest ≡ one_if s.device.buffer_lock
    → holds p' + (total holds born + rest) ≡ one_if s'.device.buffer_lock
unfolding measure_round measure_store take_newest wipe_slot wipe_index
Action-holds rest x (measure_lock free) h = ground (arith, free, x)
Action-holds rest x (start_lock free) h = ground (arith, free, x)
Action-holds rest x (start_fail {c = writer}) h = ground arith
Action-holds rest x (start_fail {c = reader b}) h = ground arith
Action-holds rest x (read_lock free) h = ground (arith, free, x)
Action-holds rest x (again_lock free) h = ground (arith, free, x)
Action-holds rest x (again_relock free) h = ground (arith, free, x)
Action-holds rest x _ h = ground arith

module _ (f : Place → ℕ) (before after : List Place) where
  -- A sum before a move, and after it.
  abbrev pub rest : ℕ
  rest = total f before + total f after

  pub total-moved :
      (p : Place) (born : List Place)
      → total f (before ++ (p ∷ (born ++ after))) ≡ f p + (total f born + rest)
  total-moved p born =
      omega (arith, total-split f before p (born ++ after), total-append f born after)

pub Turn-holds :
    {g : Board} {k : Kernel} {c c' : Crowd}
    → g.excludes ≡ true
    → Turn g k c c'
    → total holds c.threads ≡ one_if c.sensor.device.buffer_lock
    → total holds c'.threads ≡ one_if c'.sensor.device.buffer_lock
Turn-holds {c = c} x (act before after {p} {p'} {s} {born} here a) h =
    let split : holds p + rest holds before after ≡ one_if c.sensor.device.buffer_lock =
      omega (arith, h, ap (total holds) here, total-split holds before p after) in
    omega (arith, Action-holds _ x a split, total-moved holds before after p' born)
Turn-holds x (calls_write operation) h = omega (arith, h)
Turn-holds x calls_read h = omega (arith, h)
Turn-holds {c = c} x (interrupted time e) h =
    h ∙ ap one_if (sym (irq_handler-Keeps time c.sensor.device e).buffer_lock)
Turn-holds x (sleeps time before after p here e) h = omega (
  arith,
  h,
  ap (total holds) here,
  total-split holds before p after,
  total-split holds before (asleep p) after,
)
Turn-holds {k = k} {c = c} x (calls_ioctl command e) h =
    let s = c.sensor in
    h ∙ ap one_if (sym (hcsr04_ioctl-Keeps k command s.device s.pins s.log e).buffer_lock)

-- On a kernel whose spin locks keep the others out, from a device just opened, and as long as it is
-- not opened or closed again, however users and measuring threads are interleaved: while the lock of
-- the buffer is taken exactly one thread took it and has not given it back, and while it is free
-- none has.
pub Reaches-holds :
    (g : Board) (k : Kernel) (d : Device) (pins : List PinConfig) (log : Log) (c : Crowd)
    → g.excludes ≡ true
    → Reaches g k (opened d pins log) c
    → total holds c.threads ≡ (if c.sensor.device.buffer_lock then 1 else 0)
unfolding initialize_device
Reaches-holds g k d pins log c x stays = refl
Reaches-holds g k d pins log c x (turns r t) = Turn-holds x t (Reaches-holds g k d pins log _ x r)
