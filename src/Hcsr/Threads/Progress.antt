-- ===== src/Hcsr/Threads/Progress.antt =====
-- That the calls on one device of the HC-SR04 driver go on until all are through or one has left the
-- lock of the buffer taken.
use linux_kernel_programing.Prelude.{ℕ, List}
use linux_kernel_programing.Hcsr.Device.{Device}
use linux_kernel_programing.Hcsr.Pins.{Kernel}
use linux_kernel_programing.Hcsr.Sensor.{Sensor}
use linux_kernel_programing.Hcsr.Threads.{
  Place, measure_exit, measure_died, returned, returned_locked, replied, asleep, Board, Action,
  Crowd, Turn,
}
use linux_kernel_programing.Hcsr.Threads.Ends.{IsAct}

-- A thread that is not back in user space, has not ended and does not hang.
abbrev pub unfinished : Place → ℕ
unfinished measure_exit = 0
unfinished measure_died = 0
unfinished (returned r) = 0
unfinished (returned_locked r) = 0
unfinished (replied b) = 0
unfinished (asleep p) = 0
unfinished p = 1

abbrev Goes : Board → Sensor → Place → Type 0
Goes g s p = (s' : Sensor) × (p' : Place) × (born : List Place) × Action g s p s' p' born

-- A thread moves.
abbrev pub Moves : Board → Kernel → Crowd → Type 0
Moves g k c = (c' : Crowd) × (t : Turn g k c c') × IsAct t
