-- ===== src/Hcsr/Sensor.antt =====
-- What the threads on one device of `user-space device interface for HC-SR04/HCSR_Driver.c` share,
-- and the pieces of `hcsr04_thread_write`, `hcsr04_read` and `hcsr04_write` that access it in one step.
use linux_kernel_programing.Prelude.{ℕ, ◌+◌, true, false, List, ◌∷◌, set}
use linux_kernel_programing.Prelude.Int.{pos, pos_part, ◌+ℤ◌, wrap32}
use linux_kernel_programing.Gpio.{Gpio, Log}
use linux_kernel_programing.Hcsr.Fifo.{FifoBuffer, cleared, fifo_read, fifo_write}
use linux_kernel_programing.Hcsr.Device.{Device, pulse, quot_ℤ}
use linux_kernel_programing.Hcsr.Pins.{PinConfig}

-- What was done to the buffer, the newest first: a measurement stored, the result of a `fifoRead`,
-- an assignment of the loop that clears it.
pub data Event : Type 0 where
  stored : FifoBuffer → Event
  taken : FifoBuffer → Event
  wiped : Event

-- What the threads share: the device and the pins with the log of the kernel's calls. The events
-- are only recorded.
pub record Sensor : Type 0 where
  pub device : Device
  pub pins : List PinConfig
  pub log : Log
  pub events : List Event

abbrev pub with_device : Sensor → Device → Sensor
with_device s d = record s { device = d }

abbrev pub locked : Sensor → Sensor
locked s = with_device s (record (s.device) { buffer_lock = true })

abbrev pub unlocked : Sensor → Sensor
unlocked s = with_device s (record (s.device) { buffer_lock = false })

-- The rounds of the loop in `hcsr04_thread_write`.
abbrev pub rounds : Device → ℕ
rounds d = pos_part (wrap32 (d.m +ℤ pos 2))

-- One round: `up`, and a pulse on the trigger pin.
unfoldable pub measure_round : Gpio → Sensor → Sensor
measure_round g s = record s {
  device = record (s.device) { read_lock = s.device.read_lock + 1 };
  log = pulse g s.device.irq_data.irq_trigger_pin s.log;
}

abbrev pub mean : Device → ℕ → FifoBuffer
mean d tsc = record { distance = quot_ℤ d.irq_data.sample_sum d.irq_data.total_samples; tsc = tsc }

-- The end of `hcsr04_thread_write` before the lock is given back.
unfoldable pub measure_store : FifoBuffer → Sensor → Sensor
measure_store b s = record s {
  device = record (s.device) { fifo = fifo_write s.device.fifo b; measurement_in_progress = false };
  events = stored b ∷ s.events;
}

-- A `fifoRead`.
unfoldable pub take_newest : Sensor → FifoBuffer × Sensor
take_newest s =
    let (b, f) = fifo_read s.device.fifo in
    (b, record s { device = record (s.device) { fifo = f }; events = taken b ∷ s.events })

-- A round of the loop in `hcsr04_write` that clears the buffer, and the assignment after it.
unfoldable pub wipe_slot : ℕ → Sensor → Sensor
wipe_slot i s = record s {
  device = record (s.device) {
    fifo = record (s.device.fifo) { slots = set s.device.fifo.slots i cleared };
  };
  events = wiped ∷ s.events;
}

unfoldable pub wipe_index : Sensor → Sensor
wipe_index s = record s {
  device = record (s.device) { fifo = record (s.device.fifo) { index = 0 } };
  events = wiped ∷ s.events;
}
