-- ===== src/Hcsr/Threads/Details.antt =====
-- What `print_device_data` of the HC-SR04 driver shows of a buffer that threads share.
use mathlib.Core.List.{filter_map, Perm}
use mathlib.Core.Path.{subst}
use linux_kernel_programing.Prelude.{◌≡◌, refl, sym, true, List, ◌∷◌, ◌++◌, arith}
use linux_kernel_programing.Gpio.{Log}
use linux_kernel_programing.Hcsr.Fifo.{Fifo}
use linux_kernel_programing.Hcsr.Device.{Device, initialize_device}
use linux_kernel_programing.Hcsr.Pins.{PinConfig, Kernel}
use linux_kernel_programing.Hcsr.Details.{
  Line, slot_line, buffer_data, print_parameters, print_device_data,
}
use linux_kernel_programing.Hcsr.Details.Contents.{
  IsPacked, fifo_write-IsPacked, fifo_read-IsPacked, slots-Perm,
}
use linux_kernel_programing.Hcsr.Sensor.{
  Event, Sensor, mean, measure_round, measure_store, take_newest, wipe_slot, wipe_index,
}
use linux_kernel_programing.Hcsr.Threads.{
  Place, Board, Action, measure_mean, read_take, again_take, write_clear_slot, write_clear_index,
  Crowd, Turn, act, calls_write, calls_read, interrupted, sleeps, calls_ioctl, opened, Reaches,
  stays, turns,
}
use linux_kernel_programing.Hcsr.Threads.Frames.{irq_handler-Keeps, hcsr04_ioctl-Keeps}
use linux_kernel_programing.Hcsr.Threads.Stack.{replay, unwiped, Reaches-stack}

-- Until a write clears the buffer, its measurements stay together.
abbrev Together : Fifo → List Event → Type 0
Together f es = unwiped es ≡ true → IsPacked f

Action-Together :
    {g : Board} {s s' : Sensor} {p p' : Place} {born : List Place}
    → Action g s p s' p' born
    → Together s.device.fifo s.events
    → Together s'.device.fifo s'.events
unfolding measure_round measure_store take_newest wipe_slot wipe_index
Action-Together {s = s} (measure_mean tsc h _) a =
    λ u. fifo_write-IsPacked s.device.fifo (mean s.device tsc) h (a u)
Action-Together {s = s} read_take a = λ u. fifo_read-IsPacked s.device.fifo (a u)
Action-Together {s = s} again_take a = λ u. fifo_read-IsPacked s.device.fifo (a u)
Action-Together (write_clear_slot _) a = λ u. cc
Action-Together (write_clear_index _) a = λ u. cc
Action-Together _ a = a

Turn-Together :
    {g : Board} {k : Kernel} {c c' : Crowd}
    → Turn g k c c'
    → Together c.sensor.device.fifo c.sensor.events
    → Together c'.sensor.device.fifo c'.sensor.events
Turn-Together (act before after here mv) a = Action-Together mv a
Turn-Together (calls_write operation) a = a
Turn-Together calls_read a = a
Turn-Together {c = c} (interrupted time e) a =
    subst (λ f. Together f c.sensor.events) (sym (irq_handler-Keeps time c.sensor.device e).fifo) a
Turn-Together (sleeps time before after p here e) a = a
Turn-Together {k = k} {c = c} (calls_ioctl command e) a =
    let s = c.sensor in
    subst (λ f. Together f s.events)
      (sym (hcsr04_ioctl-Keeps k command s.device s.pins s.log e).fifo) a

opened-IsPacked :
    (d : Device) (pins : List PinConfig) (log : Log)
    → IsPacked (opened d pins log).sensor.device.fifo
unfolding initialize_device
opened-IsPacked d pins log = record {
  valid = record { five = refl; within = omega arith };
  together = refl;
}

Reaches-Together :
    {g : Board} {k : Kernel} {c c' : Crowd}
    → Reaches g k c c'
    → Together c.sensor.device.fifo c.sensor.events
    → Together c'.sensor.device.fifo c'.sensor.events
Reaches-Together stays a = a
Reaches-Together (turns r t) a = Turn-Together t (Reaches-Together r a)

-- From a device just opened, however users, measuring threads, interrupts and ioctls are
-- interleaved, where `fifoRead` and `fifoWrite` are one step each and no write cleared the buffer:
-- once the device has pins, `print_device_data`, run in one step, prints its parameters, the
-- heading of the buffer and then, in some order, a line for each measurement that a stack of at
-- most five holds after the same stores and reads, those of the distance -1 left out, and nothing
-- else.
pub Reaches-printed :
    (g : Board) (k : Kernel) (d : Device) (pins : List PinConfig) (log : Log) (c : Crowd)
    → Reaches g k (opened d pins log) c
    → unwiped c.sensor.events ≡ true
    → c.sensor.device.are_pins_configured ≡ true
    → let d' = c.sensor.device in
      (shown : List Line) × (print_device_data d' ≡ print_parameters d' ++ (buffer_data ∷ shown))
      × Perm shown (filter_map slot_line (replay c.sensor.events))
unfolding print_device_data
Reaches-printed g k d pins log c r u h =
    let f = c.sensor.device.fifo in
    let packed = Reaches-Together r (λ _. opened-IsPacked d pins log) u in
    (
      filter_map slot_line f.slots,
      rw h refl,
      subst (λ held. Perm (filter_map slot_line f.slots) (filter_map slot_line held))
          (Reaches-stack g k d pins log c r u).0 (slots-Perm f packed),
    )
