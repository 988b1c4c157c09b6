-- ===== src/Hcsr/Threads/Stack.antt =====
-- The buffer that the threads of the HC-SR04 driver share, against a stack.
use mathlib.Core.Path.{subst}
use linux_kernel_programing.Prelude.{
  ℕ, ◌≡◌, ◌≢◌, ◌∙◌, refl, sym, ap, Bool, true, false, List, [], ◌∷◌, arith, length-set, set,
}
use linux_kernel_programing.Gpio.{Log}
use linux_kernel_programing.Hcsr.Fifo.{FifoBuffer, Fifo, no_tsc, cleared, fifo_read, fifo_write}
use linux_kernel_programing.Hcsr.Fifo.Stack.{
  IsValid, contents, push, pop, fifo_write-push, fifo_read-pop, fifo_write-IsValid,
  fifo_read-IsValid,
}
use linux_kernel_programing.Hcsr.Device.{Device, initialize_device}
use linux_kernel_programing.Hcsr.Pins.{PinConfig, Kernel}
use linux_kernel_programing.Hcsr.Threads.Frames.{irq_handler-Keeps, hcsr04_ioctl-Keeps}
use linux_kernel_programing.Hcsr.Sensor.{
  Event, stored, taken, wiped, Sensor, mean, measure_round, measure_store, take_newest, wipe_slot,
  wipe_index,
}
use linux_kernel_programing.Hcsr.Threads.{
  Place, Board, Action, measure_mean, read_take, again_take, write_clear_slot, write_clear_index,
  Crowd, Turn, act, calls_write, calls_read, interrupted, sleeps, calls_ioctl, opened, Reaches,
  stays, turns,
}

-- The stack after the events.
abbrev pub replay : List Event → List FifoBuffer
replay [] = []
replay (stored b ∷ es) = push b (replay es)
replay (taken b ∷ es) = (pop (replay es)).1
replay (wiped ∷ es) = replay es

-- Each `fifoRead` gave what was on top of the stack.
abbrev pub Serves : List Event → Type 0
Serves [] = Unit
Serves (stored b ∷ es) = Serves es
Serves (taken b ∷ es) = (b ≡ (pop (replay es)).0) × Serves es
Serves (wiped ∷ es) = Serves es

-- No write cleared the buffer.
abbrev pub unwiped : List Event → Bool
unwiped [] = true
unwiped (stored b ∷ es) = unwiped es
unwiped (taken b ∷ es) = unwiped es
unwiped (wiped ∷ es) = false

record Agrees (f : Fifo) (es : List Event) : Type 0 where
  valid : IsValid f
  replayed : unwiped es ≡ true → (contents f ≡ replay es) × Serves es

store-Agrees :
    (f : Fifo) (es : List Event) (b : FifoBuffer)
    → b.tsc ≢ no_tsc
    → Agrees f es
    → Agrees (fifo_write f b) (stored b ∷ es)
store-Agrees f es b h a = record {
  valid = fifo_write-IsValid f b a.valid;
  replayed = λ u. (fifo_write-push f b a.valid h ∙ ap (push b) (a.replayed u).0, (a.replayed u).1);
}

take-Agrees :
    (f : Fifo) (es : List Event) → Agrees f es → Agrees (fifo_read f).1 (taken (fifo_read f).0 ∷ es)
take-Agrees f es a =
    let popped = fifo_read-pop f a.valid in
    record {
      valid = fifo_read-IsValid f a.valid;
      replayed = λ u.
          let top = popped ∙ ap pop (a.replayed u).0 in
          (ap (λ x. x.1) top, (ap (λ x. x.0) top, (a.replayed u).1));
    }

wipe_slot-Agrees :
    (f : Fifo) (es : List Event) (i : ℕ)
    → Agrees f es
    → Agrees (record f { slots = set f.slots i cleared }) (wiped ∷ es)
wipe_slot-Agrees f es i a = record {
  valid = record { five = length-set f.slots i cleared ∙ a.valid.five; within = a.valid.within };
  replayed = λ u. cc;
}

wipe_index-Agrees :
    (f : Fifo) (es : List Event) → Agrees f es → Agrees (record f { index = 0 }) (wiped ∷ es)
wipe_index-Agrees f es a = record {
  valid = record { five = a.valid.five; within = omega arith };
  replayed = λ u. cc;
}

Action-Agrees :
    {g : Board} {s s' : Sensor} {p p' : Place} {born : List Place}
    → Action g s p s' p' born
    → Agrees s.device.fifo s.events
    → Agrees s'.device.fifo s'.events
unfolding measure_round measure_store take_newest wipe_slot wipe_index
Action-Agrees {s = s} (measure_mean tsc h _) a =
    store-Agrees s.device.fifo s.events (mean s.device tsc) h a
Action-Agrees {s = s} read_take a = take-Agrees s.device.fifo s.events a
Action-Agrees {s = s} again_take a = take-Agrees s.device.fifo s.events a
Action-Agrees {s = s} (write_clear_slot {i} _) a = wipe_slot-Agrees s.device.fifo s.events i a
Action-Agrees {s = s} (write_clear_index _) a = wipe_index-Agrees s.device.fifo s.events a
Action-Agrees _ a = a

Turn-Agrees :
    {g : Board} {k : Kernel} {c c' : Crowd}
    → Turn g k c c'
    → Agrees c.sensor.device.fifo c.sensor.events
    → Agrees c'.sensor.device.fifo c'.sensor.events
Turn-Agrees (act before after here mv) a = Action-Agrees mv a
Turn-Agrees (calls_write operation) a = a
Turn-Agrees calls_read a = a
Turn-Agrees {c = c} (interrupted time e) a =
    subst (λ f. Agrees f c.sensor.events) (sym (irq_handler-Keeps time c.sensor.device e).fifo) a
Turn-Agrees (sleeps time before after p here e) a = a
Turn-Agrees {k = k} {c = c} (calls_ioctl command e) a =
    let s = c.sensor in
    subst (λ f. Agrees f s.events) (sym (hcsr04_ioctl-Keeps k command s.device s.pins s.log e).fifo)
      a

opened-Agrees :
    (d : Device) (pins : List PinConfig) (log : Log)
    → let s = (opened d pins log).sensor in Agrees s.device.fifo s.events
unfolding initialize_device
opened-Agrees d pins log = record {
  valid = record { five = refl; within = omega arith };
  replayed = λ u. (refl, tt);
}

Reaches-Agrees :
    {g : Board} {k : Kernel} {c c' : Crowd}
    → Reaches g k c c'
    → Agrees c.sensor.device.fifo c.sensor.events
    → Agrees c'.sensor.device.fifo c'.sensor.events
Reaches-Agrees stays a = a
Reaches-Agrees (turns r t) a = Turn-Agrees t (Reaches-Agrees r a)

-- From a device just opened, however users, measuring threads, interrupts and ioctls are interleaved,
-- where `fifoRead` and `fifoWrite` are one step each and no write cleared the buffer: it holds what a
-- stack of at most five holds after the same stores and reads in the order in which they were made,
-- and each `fifoRead` gave what was then on top of that stack.
pub Reaches-stack :
    (g : Board) (k : Kernel) (d : Device) (pins : List PinConfig) (log : Log) (c : Crowd)
    → Reaches g k (opened d pins log) c
    → unwiped c.sensor.events ≡ true
    → (contents c.sensor.device.fifo ≡ replay c.sensor.events) × Serves c.sensor.events
Reaches-stack g k d pins log c r = (Reaches-Agrees r (opened-Agrees d pins log)).replayed

-- The buffer keeps its five slots and an index among them, also when writes clear it without its
-- lock between the steps of the other threads.
pub Reaches-IsValid :
    (g : Board) (k : Kernel) (d : Device) (pins : List PinConfig) (log : Log) (c : Crowd)
    → Reaches g k (opened d pins log) c
    → IsValid c.sensor.device.fifo
Reaches-IsValid g k d pins log c r = (Reaches-Agrees r (opened-Agrees d pins log)).valid
