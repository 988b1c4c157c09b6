-- ===== src/Hcsr/Threads/Stuck.antt =====
-- A thread of the HC-SR04 driver that keeps the lock of the buffer keeps all others out for good.
use linux_kernel_programing.Prelude.{
  ℕ, suc, ◌+◌, ◌≤◌, ◌<◌, ◌≡◌, ◌∙◌, refl, ap, true, List, [], ◌∷◌, arith,
}
use linux_kernel_programing.Prelude.Counting.{total, total-split, total_mono}
use linux_kernel_programing.Gpio.{Log}
use linux_kernel_programing.Hcsr.Device.{Device}
use linux_kernel_programing.Hcsr.Pins.{PinConfig, Kernel}
use linux_kernel_programing.Hcsr.Threads.Mutex.{
  holds, keeps, keeps-le-holds, one_if, rest, total-moved, Turn-holds, Reaches-holds,
}
use linux_kernel_programing.Hcsr.Sensor.{
  Event, stored, taken, wiped, Sensor, measure_round, measure_store, take_newest, wipe_slot,
  wipe_index,
}
use linux_kernel_programing.Hcsr.Threads.{
  Place, asleep, Board, Action, again_relock, start_fail, writer, reader, Crowd, Turn, act,
  calls_write, calls_read, interrupted, sleeps, calls_ioctl, opened, Reaches, stays, turns,
}

-- How many measurements were stored or taken.
abbrev pub served : List Event → ℕ
served [] = 0
served (stored b ∷ es) = suc (served es)
served (taken b ∷ es) = suc (served es)
served (wiped ∷ es) = served es

-- A thread that moves while another keeps the lock: the others keep it `kept` times and have it
-- `held` times.
Action-served :
    {g : Board} {s s' : Sensor} {p p' : Place} {born : List Place} (kept held : ℕ)
    → g.excludes ≡ true
    → Action g s p s' p' born
    → kept ≤ held
    → 0 < keeps p + kept
    → holds p + held ≡ one_if s.device.buffer_lock
    → (served s'.events ≡ served s.events) × (0 < keeps p' + (total keeps born + kept))
unfolding measure_round measure_store take_newest wipe_slot wipe_index
Action-served kept held x (start_fail {c = writer}) l k h = ground (arith, x)
Action-served kept held x (start_fail {c = reader b}) l k h = ground (arith, x)
Action-served kept held x (again_relock free) l k h = ground (arith, free, x)
Action-served kept held x _ l k h = ground (arith, x)

Turn-served :
    {g : Board} {k : Kernel} {c c' : Crowd}
    → g.excludes ≡ true
    → Turn g k c c'
    → total holds c.threads ≡ one_if c.sensor.device.buffer_lock
    → 0 < total keeps c.threads
    → (served c'.sensor.events ≡ served c.sensor.events) × (0 < total keeps c'.threads)
Turn-served {c = c} x (act before after {p} {p'} {s} {born} here a) h k =
    let held : holds p + rest holds before after ≡ one_if c.sensor.device.buffer_lock =
      omega (arith, h, ap (total holds) here, total-split holds before p after) in
    let kept : 0 < keeps p + rest keeps before after =
      omega (arith, k, ap (total keeps) here, total-split keeps before p after) in
    let fewer : rest keeps before after ≤ rest holds before after = omega (
      arith,
      total_mono keeps holds before keeps-le-holds,
      total_mono keeps holds after keeps-le-holds,
    ) in
    omega (arith, Action-served _ _ x a fewer kept held, total-moved keeps before after p' born)
Turn-served x (calls_write operation) h k = (refl, omega (arith, k))
Turn-served x calls_read h k = (refl, omega (arith, k))
Turn-served x (interrupted time e) h k = (refl, k)
Turn-served x (sleeps time before after p here e) h k = (
  refl,
  omega (
    arith,
    k,
    ap (total keeps) here,
    keeps-le-holds p,
    total-split keeps before p after,
    total-split keeps before (asleep p) after,
  ),
)
Turn-served x (calls_ioctl command e) h k = (refl, k)

Reaches-served :
    {g : Board} {k : Kernel} {c c' : Crowd}
    → g.excludes ≡ true
    → Reaches g k c c'
    → total holds c.threads ≡ one_if c.sensor.device.buffer_lock
    → 0 < total keeps c.threads
    → (total holds c'.threads ≡ one_if c'.sensor.device.buffer_lock)
      × (0 < total keeps c'.threads)
      × (served c'.sensor.events ≡ served c.sensor.events)
Reaches-served x stays h k = (h, k, refl)
Reaches-served x (turns r t) h k =
    let (h', k', e) = Reaches-served x r h k in
    let (e', k'') = Turn-served x t h' k' in (Turn-holds x t h', k'', e' ∙ e)

-- On a kernel whose spin locks keep the others out, once a thread has died of a division by 0 or
-- hangs in an interrupt with the lock, or `kthread_run` has failed, so that a call returned with the
-- lock of the buffer or waits for it a second time: the lock stays taken, and no measurement is
-- stored or taken from the buffer any more, whatever calls, interrupts and steps of threads
-- follow, until the device is opened or closed.
pub Reaches-stuck :
    (g : Board) (k : Kernel) (d : Device) (pins : List PinConfig) (log : Log) (c c' : Crowd)
    → g.excludes ≡ true
    → Reaches g k (opened d pins log) c
    → 0 < total keeps c.threads
    → Reaches g k c c'
    → (c'.sensor.device.buffer_lock ≡ true) × (served c'.sensor.events ≡ served c.sensor.events)
Reaches-stuck g k d pins log c c' x r kept r' =
    let (h, kept', e) = Reaches-served x r' (Reaches-holds g k d pins log c x r) kept in
    (ground (arith, h, kept', total_mono keeps holds c'.threads keeps-le-holds), e)
