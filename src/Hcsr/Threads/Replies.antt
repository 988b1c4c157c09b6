-- ===== src/Hcsr/Threads/Replies.antt =====
-- What the reads of the HC-SR04 driver hand to their users, with other threads about.
use mathlib.Core.List.{Memᴰ}
use linux_kernel_programing.Prelude.{
  ◌≡◌, ◌↔◌, false, refl, sym, ap, Bool, true, List, [], ◌∷◌, ◌++◌, arith, if◌then◌else◌,
}
use mathlib.Core.Path.{subst}
use linux_kernel_programing.Prelude.Int.{pos, ◌==ℤ◌}
use linux_kernel_programing.Gpio.{Log}
use linux_kernel_programing.Hcsr.Fifo.{FifoBuffer}
use linux_kernel_programing.Hcsr.Device.{Device}
use linux_kernel_programing.Hcsr.Pins.{PinConfig, Kernel}
use linux_kernel_programing.Hcsr.Fifo.Stack.{pop}
use linux_kernel_programing.Hcsr.Threads.Stack.{replay, Serves, unwiped, Reaches-stack}
use linux_kernel_programing.Hcsr.Sensor.{
  Event, stored, taken, wiped, Sensor, measure_round, measure_store, take_newest, wipe_slot,
  wipe_index,
}
use linux_kernel_programing.Hcsr.Threads.{
  Board, Caller, writer, reader, Place, start_wait, start_hold, start_created, read_got, read_test,
  again_wait, again_hold, again_got, again_locked, replied, asleep, Action, measure_mean, read_take,
  again_take, write_clear_slot, write_clear_index, start_fail, start_run, read_empty, write_go,
  write_test, write_clear, Crowd, Turn, act, calls_write, calls_read, interrupted, sleeps,
  calls_ioctl, opened, Reaches, stays, turns,
}

-- The buffer that a reading thread has.
abbrev caller_buffer : Caller → List FifoBuffer
caller_buffer writer = []
caller_buffer (reader b) = b ∷ []

abbrev pub buffer_of : Place → List FifoBuffer
buffer_of (start_wait c) = caller_buffer c
buffer_of (start_hold c) = caller_buffer c
buffer_of (start_created c) = caller_buffer c
buffer_of (read_got b) = b ∷ []
buffer_of (read_test b) = b ∷ []
buffer_of (again_wait b) = b ∷ []
buffer_of (again_hold b) = b ∷ []
buffer_of (again_got b) = b ∷ []
buffer_of (again_locked b) = b ∷ []
buffer_of (replied b) = b ∷ []
buffer_of p = []

-- What a thread has was taken from the device's buffer.
abbrev Took : List Event → List FifoBuffer → Type 0
Took es [] = Unit
Took es (b ∷ bs) = Memᴰ (taken b) es × Took es bs

abbrev AllTook : List Event → List Place → Type 0
AllTook es [] = Unit
AllTook es (p ∷ ps) = Took es (buffer_of p) × AllTook es ps

Took-more : (e : Event) (es : List Event) (bs : List FifoBuffer) → Took es bs → Took (e ∷ es) bs
Took-more e es [] h = tt
Took-more e es (b ∷ bs) (here, h) = (Memᴰ.tail here, Took-more e es bs h)

AllTook-more : (e : Event) (es : List Event) (ps : List Place) → AllTook es ps → AllTook (e ∷ es) ps
AllTook-more e es [] h = tt
AllTook-more e es (p ∷ ps) (here, h) = (Took-more e es (buffer_of p) here, AllTook-more e es ps h)

-- The events after a step are those before, with at most one more.
data Grows (es : List Event) (es' : List Event) : Type 0 where
  same : es' ≡ es → Grows es es'
  more : (e : Event) → es' ≡ e ∷ es → Grows es es'

read_empty-buffer :
    (busy : Bool) (b : FifoBuffer)
    → b ∷ [] ≡ buffer_of (if busy then again_wait b else start_wait (reader b))
read_empty-buffer true b = refl
read_empty-buffer false b = refl

write_go-buffer : (keep : Bool) → [] ≡ buffer_of (if keep then write_test else write_clear 0)
write_go-buffer true = refl
write_go-buffer false = refl

Action-Took :
    {g : Board} {s s' : Sensor} {p p' : Place} {born : List Place}
    → Action g s p s' p' born
    → Took s.events (buffer_of p)
    → Grows s.events s'.events × Took s'.events (buffer_of p') × AllTook s'.events born
unfolding measure_round measure_store take_newest wipe_slot wipe_index
Action-Took (measure_mean tsc a b) h = (more _ refl, tt, tt)
Action-Took (write_clear_slot a) h = (more _ refl, tt, tt)
Action-Took (write_clear_index a) h = (more _ refl, tt, tt)
Action-Took read_take h = (more _ refl, (Memᴰ.head refl, tt), tt)
Action-Took {s = s} (again_take {b}) h = (more _ refl, Took-more _ s.events (b ∷ []) h, tt)
Action-Took (start_fail {c = writer}) h = (same refl, tt, tt)
Action-Took (start_fail {c = reader b}) h = (same refl, h, tt)
Action-Took start_run h = (same refl, h, (tt, tt))
Action-Took {s = s} (read_empty {b} empty configured) h =
    (same refl, subst (Took s.events) (read_empty-buffer s.device.measurement_in_progress b) h, tt)
Action-Took {s = s} (write_go {operation} configured) h =
    (same refl, subst (Took s.events) (write_go-buffer (operation ==ℤ pos 0)) h, tt)
Action-Took _ h = (same refl, ground (arith, h), tt)

Grows-Took : (es es' : List Event) (ps : List Place) → Grows es es' → AllTook es ps → AllTook es' ps
Grows-Took es es' ps (same e) h = subst (λ x. AllTook x ps) (sym e) h
Grows-Took es es' ps (more x e) h = subst (λ x. AllTook x ps) (sym e) (AllTook-more x es ps h)

AllTook-append :
    (es : List Event) (ps qs : List Place) → AllTook es (ps ++ qs) ↔ (AllTook es ps × AllTook es qs)
AllTook-append es [] qs = (λ h. (tt, h), λ h. h.1)
AllTook-append es (p ∷ ps) qs =
    let rest = AllTook-append es ps qs in
    (λ h. ((h.0, (rest.0 h.1).0), (rest.0 h.1).1), λ h. (h.0.0, rest.1 (h.0.1, h.1)))

Turn-Took :
    {g : Board} {k : Kernel} {c c' : Crowd}
    → Turn g k c c'
    → AllTook c.sensor.events c.threads
    → AllTook c'.sensor.events c'.threads
Turn-Took {c = c} (act before after {p} {p'} {s} {born} here a) h =
    let es = c.sensor.events in
    let (hb, (hp, ha)) = (AllTook-append es before (p ∷ after)).0 (subst (AllTook es) here h) in
    let (grown, hp', hn) = Action-Took a hp in
    let still = λ (ps : List Place). Grows-Took es s.events ps grown in
    (AllTook-append s.events before (p' ∷ (born ++ after))).1
      (still before hb, (hp', (AllTook-append s.events born after).1 (hn, still after ha)))
Turn-Took (calls_write operation) h = (tt, h)
Turn-Took calls_read h = (tt, h)
Turn-Took (interrupted time e) h = h
Turn-Took {c = c} (sleeps time before after p here e) h =
    let es = c.sensor.events in
    let (hb, (hp, ha)) = (AllTook-append es before (p ∷ after)).0 (subst (AllTook es) here h) in
    (AllTook-append es before (asleep p ∷ after)).1 (hb, (tt, ha))
Turn-Took (calls_ioctl command e) h = h

Reaches-AllTook :
    {g : Board} {k : Kernel} {c c' : Crowd}
    → Reaches g k c c'
    → AllTook c.sensor.events c.threads
    → AllTook c'.sensor.events c'.threads
Reaches-AllTook stays h = h
Reaches-AllTook (turns r t) h = Turn-Took t (Reaches-AllTook r h)

Serves-tail : (e : Event) (es : List Event) → Serves (e ∷ es) → Serves es
Serves-tail (stored b) es h = h
Serves-tail (taken b) es h = h.1
Serves-tail wiped es h = h

-- What was taken was on top of the stack when it was taken.
taken-top :
    (b : FifoBuffer) (es : List Event)
    → Memᴰ (taken b) es
    → Serves es
    → (later earlier : List Event) × (es ≡ later ++ (taken b ∷ earlier))
      × (b ≡ (pop (replay earlier)).0)
taken-top b [] m h = elim m [ ]
taken-top b (e ∷ es) (Memᴰ.tail m) h =
    let (later, earlier, split, top) = taken-top b es m (Serves-tail e es h) in
    (e ∷ later, earlier, ap (λ x. e ∷ x) split, top)
taken-top b (stored x ∷ es) (Memᴰ.head e) h = cc
taken-top b (wiped ∷ es) (Memᴰ.head e) h = cc
taken-top b (taken x ∷ es) (Memᴰ.head e) h = ([], es, cc, cc (h.0))

-- From a device just opened, however users, measuring threads, interrupts and ioctls are interleaved,
-- where `fifoRead` and `fifoWrite` are one step each and no write cleared the buffer: what a successful
-- read gives its user was, after some of the stores and reads, on top of the stack of at most five,
-- and a `fifoRead` took it at that moment; or the stack was empty then, and the read gave the
-- distance -1.
pub Reaches-replied :
    (g : Board) (k : Kernel) (d : Device) (pins : List PinConfig) (log : Log) (c : Crowd)
    (before after : List Place) (b : FifoBuffer)
    → Reaches g k (opened d pins log) c
    → unwiped c.sensor.events ≡ true
    → c.threads ≡ before ++ (replied b ∷ after)
    → (later earlier : List Event) × (c.sensor.events ≡ later ++ (taken b ∷ earlier))
      × (b ≡ (pop (replay earlier)).0)
Reaches-replied g k d pins log c before after b r u here =
    let all = subst (AllTook c.sensor.events) here (Reaches-AllTook r tt) in
    let m = ((AllTook-append c.sensor.events before (replied b ∷ after)).0 all).1.0.0 in
    taken-top b c.sensor.events m (Reaches-stack g k d pins log c r u).1
