-- ===== src/Hcsr/Threads/Ends.antt =====
-- How many steps the threads of one device of the HC-SR04 driver make.
use linux_kernel_programing.Prelude.{ℕ, suc, ◌+◌, ◌-◌, ◌≤◌, ◌<◌, ◌≡◌, ◌∙◌, refl, ap, List, arith}
use linux_kernel_programing.Prelude.Counting.{total, total-split}
use linux_kernel_programing.Hcsr.Device.{Device}
use linux_kernel_programing.Hcsr.Pins.{Kernel}
use linux_kernel_programing.Hcsr.Threads.Frames.{irq_handler-m}
use linux_kernel_programing.Hcsr.Threads.Mutex.{total-moved}
use linux_kernel_programing.Hcsr.Sensor.{
  Sensor, rounds, measure_round, measure_store, take_newest, wipe_slot, wipe_index,
}
use linux_kernel_programing.Hcsr.Threads.{
  Board, writer, reader, asleep, Place, measure_wait, measure_loop, measure_stored, measure_exit,
  measure_died, write_start, write_clear, write_test, write_mark, start_wait, start_hold,
  start_created, read_wait, read_hold, read_got, read_test, again_wait, again_hold, again_got,
  again_locked, returned, returned_locked, replied, Action, write_clear_slot, start_fail, Crowd,
  Turn, act, calls_write, calls_read, interrupted, sleeps, calls_ioctl,
}

-- A bound on the steps of a thread and of those that it creates, for a measurement of `r` rounds.
abbrev pub weight : ℕ → Place → ℕ
weight r measure_wait = r + 3
weight r (measure_loop n) = n + 2
weight r measure_stored = 1
weight r measure_exit = 0
weight r measure_died = 0
weight r (write_start operation) = r + 15
weight r (write_clear i) = r + 9 + (5 - i)
weight r write_test = r + 8
weight r write_mark = r + 7
weight r (start_wait c) = r + 6
weight r (start_hold c) = r + 5
weight r (start_created c) = 1
weight r read_wait = r + 10
weight r read_hold = r + 9
weight r (read_got b) = r + 8
weight r (read_test b) = r + 7
weight r (again_wait b) = 3
weight r (again_hold b) = 2
weight r (again_got b) = 1
weight r (again_locked b) = 3
weight r (returned result) = 0
weight r (returned_locked result) = 0
weight r (replied b) = 0
weight r (asleep p) = 0

-- A step of a thread, and an interrupt, after which the thread that it interrupts goes on or hangs.
abbrev pub IsAct : {g : Board} {k : Kernel} {c c' : Crowd} → Turn g k c c' → Type 0
IsAct (act before after here a) = Unit
IsAct _ = ⊥

abbrev pub IsInterrupt : {g : Board} {k : Kernel} {c c' : Crowd} → Turn g k c c' → Type 0
IsInterrupt (interrupted time e) = Unit
IsInterrupt (sleeps time before after p here e) = Unit
IsInterrupt _ = ⊥

-- So many steps of threads, with interrupts between them, and no new calls.
pub data Runs (g : Board) (k : Kernel) (c : Crowd) : ℕ → Crowd → Type 0 where
  begins : Runs g k c 0 c
  acts :
      {n : ℕ} {d e : Crowd} → Runs g k c n d → (t : Turn g k d e) → IsAct t → Runs g k c (suc n) e
  waits :
      {n : ℕ} {d e : Crowd} → Runs g k c n d → (t : Turn g k d e) → IsInterrupt t → Runs g k c n e

Action-weight :
    {g : Board} {s s' : Sensor} {p p' : Place} {born : List Place}
    → Action g s p s' p' born
    → let r = rounds s.device in
      (s'.device.m ≡ s.device.m) × (weight r p' + total (weight r) born < weight r p)
unfolding measure_round measure_store take_newest wipe_slot wipe_index
Action-weight (start_fail {c = writer}) = ground arith
Action-weight (start_fail {c = reader b}) = ground arith
Action-weight (write_clear_slot i) = ground (arith, i)
Action-weight _ = ground arith

Turn-weight :
    {g : Board} {k : Kernel} {c c' : Crowd} (t : Turn g k c c')
    → IsAct t
    → let r = rounds c.sensor.device in
      (c'.sensor.device.m ≡ c.sensor.device.m)
      × (suc (total (weight r) c'.threads) ≤ total (weight r) c.threads)
Turn-weight {c = c} (act before after {p} {p'} {s} {born} here a) tt =
    let r = rounds c.sensor.device in
    let (same, less) = Action-weight a in
    (
      same,
      omega (
        arith,
        less,
        ap (total (weight r)) here,
        total-split (weight r) before p after,
        total-moved (weight r) before after p' born,
      ),
    )
Turn-weight (calls_write operation) h = elim h [ ]
Turn-weight calls_read h = elim h [ ]
Turn-weight (interrupted time e) h = elim h [ ]
Turn-weight (sleeps time before after p here e) h = elim h [ ]
Turn-weight (calls_ioctl command e) h = elim h [ ]

Turn-waits :
    {g : Board} {k : Kernel} {c c' : Crowd} (t : Turn g k c c')
    → IsInterrupt t
    → let r = rounds c.sensor.device in
      (c'.sensor.device.m ≡ c.sensor.device.m)
      × (total (weight r) c'.threads ≤ total (weight r) c.threads)
Turn-waits {c = c} (interrupted time e) tt = (irq_handler-m time c.sensor.device e, omega arith)
Turn-waits {c = c} (sleeps time before after p here e) tt =
    let r = rounds c.sensor.device in
    (
      refl,
      omega (
        arith,
        ap (total (weight r)) here,
        total-split (weight r) before p after,
        total-split (weight r) before (asleep p) after,
      ),
    )
Turn-waits (act before after here a) h = elim h [ ]
Turn-waits (calls_write operation) h = elim h [ ]
Turn-waits calls_read h = elim h [ ]
Turn-waits (calls_ioctl command e) h = elim h [ ]

rounds_eq : (d d' : Device) → d'.m ≡ d.m → rounds d' ≡ rounds d
rounds_eq d d' e = rw e

pub Runs-weight :
    {g : Board} {k : Kernel} {c c' : Crowd} {n : ℕ}
    → Runs g k c n c'
    → let r = rounds c.sensor.device in
      (c'.sensor.device.m ≡ c.sensor.device.m)
      × (n + total (weight r) c'.threads ≤ total (weight r) c.threads)
Runs-weight begins = (refl, omega arith)
Runs-weight {c = c} {c' = c'} (acts {d = d} run t h) =
    let (m, bound) = Runs-weight run in
    let (m', less) = Turn-weight t h in
    let r = rounds_eq c.sensor.device d.sensor.device m in
    (
      m' ∙ m,
      omega (
        arith,
        bound,
        less,
        ap (λ r. total (weight r) c'.threads) r,
        ap (λ r. total (weight r) d.threads) r,
      ),
    )
Runs-weight {c = c} {c' = c'} (waits {d = d} run t h) =
    let (m, bound) = Runs-weight run in
    let (m', less) = Turn-waits t h in
    let r = rounds_eq c.sensor.device d.sensor.device m in
    (
      m' ∙ m,
      omega (
        arith,
        bound,
        less,
        ap (λ r. total (weight r) c'.threads) r,
        ap (λ r. total (weight r) d.threads) r,
      ),
    )
