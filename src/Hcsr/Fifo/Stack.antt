-- ===== src/Hcsr/Fifo/Stack.antt =====
-- The measurement buffer of the HC-SR04 driver against a stack of at most five measurements.
use linux_kernel_programing.Prelude.{
  ℕ, zero, suc, ◌+◌, ◌-◌, ◌%◌, ◌<◌, ◌≡◌, ◌≢◌, refl, Bool, true, false, List, [], ◌∷◌, arith, length,
  take, replicate, length-set, ◌==◌, if◌then◌else◌,
}
use linux_kernel_programing.Hcsr.Fifo.{
  FifoBuffer, Fifo, no_tsc, cleared, nothing_read, slot, fifo_read, fifo_write, clear, clear_slots,
}

-- Five slots, and an index among them.
pub record IsValid (f : Fifo) : Type 0 where
  pub five : length f.slots ≡ 5
  pub within : f.index < 5

-- The measurements from slot `i` backwards, up to an empty slot, at most `n` of them.
abbrev pub measured : ℕ → ℕ → Fifo → List FifoBuffer
measured zero i f = []
measured (suc n) i f =
    let e = slot f i in
    let rest = measured n (if i == 0 then 4 else i - 1) f in
    if e.tsc == no_tsc then [] else e ∷ rest

-- What the buffer holds, the newest first.
abbrev pub contents : Fifo → List FifoBuffer
contents f = measured 5 f.index f

-- A stack that forgets the oldest beyond five.
unfoldable pub push : FifoBuffer → List FifoBuffer → List FifoBuffer
push e s = take 5 (e ∷ s)

unfoldable pub pop : List FifoBuffer → FifoBuffer × List FifoBuffer
pop [] = (nothing_read, [])
pop (e ∷ s) = (e, s)

abbrev fifo : List FifoBuffer → ℕ → Fifo
fifo slots i = record { slots = slots; index = i }

-- The five positions of the index, one clause each.
push_at :
    (slots : List FifoBuffer) (i : ℕ) (e : FifoBuffer)
    → (e.tsc == no_tsc) ≡ false
    → length slots ≡ 5
    → i < 5
    → contents (fifo_write (fifo slots i) e) ≡ push e (contents (fifo slots i))
unfolding fifo_write push
push_at (a ∷ b ∷ c ∷ d ∷ g ∷ []) zero e h k l = ground arith
push_at (a ∷ b ∷ c ∷ d ∷ g ∷ []) (suc zero) e h k l = ground arith
push_at (a ∷ b ∷ c ∷ d ∷ g ∷ []) (suc (suc zero)) e h k l = ground arith
push_at (a ∷ b ∷ c ∷ d ∷ g ∷ []) (suc (suc (suc zero))) e h k l = ground arith
push_at (a ∷ b ∷ c ∷ d ∷ g ∷ []) (suc (suc (suc (suc zero)))) e h k l = ground arith
push_at (a ∷ b ∷ c ∷ d ∷ g ∷ []) (suc (suc (suc (suc (suc i))))) e h k l = absurd (omega arith)
push_at _ i e h k l = absurd (omega arith)

pop_at :
    (slots : List FifoBuffer) (i : ℕ)
    → length slots ≡ 5
    → i < 5
    → let (e, f) = fifo_read (fifo slots i) in (e, contents f) ≡ pop (contents (fifo slots i))
unfolding fifo_read pop
pop_at (a ∷ b ∷ c ∷ d ∷ g ∷ []) zero k l = ground arith
pop_at (a ∷ b ∷ c ∷ d ∷ g ∷ []) (suc zero) k l = ground arith
pop_at (a ∷ b ∷ c ∷ d ∷ g ∷ []) (suc (suc zero)) k l = ground arith
pop_at (a ∷ b ∷ c ∷ d ∷ g ∷ []) (suc (suc (suc zero))) k l = ground arith
pop_at (a ∷ b ∷ c ∷ d ∷ g ∷ []) (suc (suc (suc (suc zero)))) k l = ground arith
pop_at (a ∷ b ∷ c ∷ d ∷ g ∷ []) (suc (suc (suc (suc (suc i))))) k l = absurd (omega arith)
pop_at _ i k l = absurd (omega arith)

-- In a valid buffer a write of a measurement whose time stamp is not -1 puts it on top of the
-- stack; of six measurements the oldest is lost.
pub fifo_write-push :
    (f : Fifo) (e : FifoBuffer)
    → IsValid f
    → e.tsc ≢ no_tsc
    → contents (fifo_write f e) ≡ push e (contents f)
fifo_write-push f e v h = push_at f.slots f.index e (ground arith) v.five v.within

-- In a valid buffer a read takes the newest measurement off the stack, and of an empty buffer it
-- returns the distance -1 and changes nothing.
pub fifo_read-pop :
    (f : Fifo) → IsValid f → let (e, f') = fifo_read f in (e, contents f') ≡ pop (contents f)
fifo_read-pop f v = pop_at f.slots f.index v.five v.within

pub fifo_write-IsValid : (f : Fifo) (e : FifoBuffer) → IsValid f → IsValid (fifo_write f e)
unfolding fifo_write
fifo_write-IsValid f e v = ground (arith, length-set f.slots ((f.index + 1) % 5) e)

pub fifo_read-IsValid : (f : Fifo) → IsValid f → IsValid (fifo_read f).1
unfolding fifo_read
fifo_read-IsValid f v = ground (arith, length-set f.slots f.index cleared)

clear_at :
    (slots : List FifoBuffer) → length slots ≡ 5 → clear_slots 5 0 slots ≡ replicate 5 cleared
unfolding clear_slots
clear_at (a ∷ b ∷ c ∷ d ∷ g ∷ []) k = refl
clear_at _ k = absurd (omega arith)

-- Clearing a valid buffer leaves a valid buffer that holds nothing.
pub clear-contents : (f : Fifo) → IsValid f → IsValid (clear f) × (contents (clear f) ≡ [])
unfolding clear
clear-contents f v =
    rw (clear_at f.slots v.five) (record { five = refl; within = omega arith }, refl)

-- A call on the buffer, and what it returns.
pub data Call : Type 0 where
  write_call : FifoBuffer → Call
  read_call : Call

-- The measurements that the calls return, in order: of the buffer, and of the stack.
unfoldable pub run : List Call → Fifo → List FifoBuffer
run [] f = []
run (write_call e ∷ cs) f = run cs (fifo_write f e)
run (read_call ∷ cs) f = let (e, f') = fifo_read f in e ∷ run cs f'

unfoldable pub run_stack : List Call → List FifoBuffer → List FifoBuffer
run_stack [] s = []
run_stack (write_call e ∷ cs) s = run_stack cs (push e s)
run_stack (read_call ∷ cs) s = let (e, s') = pop s in e ∷ run_stack cs s'

-- No measurement that the calls write has the time stamp -1.
abbrev pub all_stamped : List Call → Bool
all_stamped [] = true
all_stamped (write_call e ∷ cs) = if e.tsc == no_tsc then false else all_stamped cs
all_stamped (read_call ∷ cs) = all_stamped cs

-- No sequence of writes (of time stamps other than -1) and reads tells a valid buffer from the
-- stack of at most five of its contents: the driver's "FIFO" returns the newest first.
pub run_refines :
    (cs : List Call) (f : Fifo)
    → IsValid f
    → all_stamped cs ≡ true
    → run cs f ≡ run_stack cs (contents f)
unfolding run run_stack
run_refines [] f v h = refl
run_refines (write_call e ∷ cs) f v h = rw (
  run_refines cs (fifo_write f e) (fifo_write-IsValid f e v) (ground arith),
  fifo_write-push f e v (ground arith),
)
run_refines (read_call ∷ cs) f v h =
    rw (run_refines cs (fifo_read f).1 (fifo_read-IsValid f v) h, ← fifo_read-pop f v)
