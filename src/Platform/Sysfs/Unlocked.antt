-- ===== src/Platform/Sysfs/Unlocked.antt =====
-- `distance_show` of `platform_driver.c`, which calls `fifoRead` without the lock of the buffer: two
-- calls of `fifoRead` that are interleaved access by access. A schedule says which of the two makes
-- each step; `none` is an access outside the buffer.
use mathlib.Core.Path.{subst}
use linux_kernel_programing.Prelude.{
  ℕ, zero, suc, ◌-◌, ◌<◌, ◌≡◌, Bool, true, false, Option, none, some, List, [], ◌∷◌, arith, length,
  get_elem?, set, replicate, ◌==◌, if◌then◌else◌,
}
use linux_kernel_programing.Prelude.Int.{ℤ, pos, negsuc, ltb_ℤ}
use linux_kernel_programing.Hcsr.Fifo.{
  FifoBuffer, Fifo, fifo_size, no_tsc, cleared, nothing_read, fifo_read,
}
use linux_kernel_programing.Hcsr.Fifo.Stack.{IsValid, contents}

-- `buffer` and `bufferIndex`, which is -1 for a moment.
pub record Slots : Type 0 where
  pub slots : List FifoBuffer
  pub index : ℤ

-- Where a call is: before the test for an empty buffer, before its measurement is copied, before the
-- slot is cleared, before the index is decremented, before its test; and returned.
pub data Reader : Type 0 where
  testing : Reader
  copying : Reader
  clearing : FifoBuffer → Reader
  stepping : FifoBuffer → Reader
  wrapping : FifoBuffer → Reader
  got : FifoBuffer → Reader

-- `device->buffer[device->bufferIndex]`
abbrev pub at_index : Slots → Option FifoBuffer
at_index s = elim s.index [ pos i ↦ get_elem? s.slots i | negsuc i ↦ none ]

abbrev pub clear_at_index : Slots → Slots
clear_at_index s = elim s.index [
  | pos i ↦ record s { slots = set s.slots i cleared }
  | negsuc i ↦ s
]

abbrev pub previous : ℤ → ℤ
previous (pos zero) = negsuc 0
previous (pos (suc i)) = pos i
previous (negsuc i) = negsuc (suc i)

unfoldable pub read_step : Reader → Slots → Option (Reader × Slots)
read_step testing s = elim (at_index s) [
  | none ↦ none
  | some b ↦ some (if b.tsc == no_tsc then got nothing_read else copying, s)
]
read_step copying s = elim (at_index s) [ none ↦ none | some b ↦ some (clearing b, s) ]
read_step (clearing b) s = elim (at_index s) [
  | none ↦ none
  | some old ↦ some (stepping b, clear_at_index s)
]
read_step (stepping b) s = some (wrapping b, record s { index = previous s.index })
read_step (wrapping b) s =
    some (got b, if ltb_ℤ s.index (pos 0) then record s { index = pos (fifo_size - 1) } else s)
read_step (got b) s = some (got b, s)

-- `true` is a step of the first call.
unfoldable pub interleave : List Bool → Reader → Reader → Slots → Option (Reader × Reader × Slots)
interleave [] p q s = some (p, q, s)
interleave (true ∷ sched) p q s = elim (read_step p s) [
  | none ↦ none
  | some (p', s') ↦ interleave sched p' q s'
]
interleave (false ∷ sched) p q s = elim (read_step q s) [
  | none ↦ none
  | some (q', s') ↦ interleave sched p q' s'
]

abbrev pub slots_of : Fifo → Slots
slots_of f = record { slots = f.slots; index = pos f.index }

alone_at :
    (slots : List FifoBuffer) (i : ℕ) (q : Reader)
    → length slots ≡ 5
    → i < 5
    → let f : Fifo = record { slots = slots; index = i } in
      let (b, f') = fifo_read f in
      interleave (replicate 5 true) testing q (slots_of f) ≡ some (got b, q, slots_of f')
unfolding interleave read_step fifo_read
alone_at (a ∷ b ∷ c ∷ d ∷ e ∷ []) zero q k l = ground arith
alone_at (a ∷ b ∷ c ∷ d ∷ e ∷ []) (suc zero) q k l = ground arith
alone_at (a ∷ b ∷ c ∷ d ∷ e ∷ []) (suc (suc zero)) q k l = ground arith
alone_at (a ∷ b ∷ c ∷ d ∷ e ∷ []) (suc (suc (suc zero))) q k l = ground arith
alone_at (a ∷ b ∷ c ∷ d ∷ e ∷ []) (suc (suc (suc (suc zero)))) q k l = ground arith
alone_at (a ∷ b ∷ c ∷ d ∷ e ∷ []) (suc (suc (suc (suc (suc i))))) q k l = absurd (omega arith)
alone_at _ i q k l = absurd (omega arith)

-- In a valid buffer a call that no other comes between does what `fifoRead` does as one step.
pub interleave-alone :
    (f : Fifo) (q : Reader)
    → IsValid f
    → let (b, f') = fifo_read f in
      interleave (replicate 5 true) testing q (slots_of f) ≡ some (got b, q, slots_of f')
interleave-alone f q v = alone_at f.slots f.index q v.five v.within

-- Both calls copy before the first clears its slot, and the second goes on when the first is through.
abbrev pub overlapping : List Bool
overlapping = true ∷ true ∷ false ∷ false ∷ true ∷ true ∷ true ∷ false ∷ false ∷ false ∷ []

torn_at :
    (slots : List FifoBuffer) (i : ℕ) (b c : FifoBuffer) (rest : List FifoBuffer)
    → length slots ≡ 5
    → i < 5
    → contents (record { slots = slots; index = i }) ≡ b ∷ c ∷ rest
    → (f' : Fifo) × (interleave overlapping testing testing
          (record { slots = slots; index = pos i })
        ≡ some (got b, got b, slots_of f'))
      × (contents f' ≡ rest)
unfolding interleave read_step
torn_at (a ∷ b ∷ c ∷ d ∷ e ∷ []) zero x y rest k l h =
    (record { slots = cleared ∷ b ∷ c ∷ d ∷ cleared ∷ []; index = 3 }, ground arith, ground arith)
torn_at (a ∷ b ∷ c ∷ d ∷ e ∷ []) (suc zero) x y rest k l h =
    (record { slots = cleared ∷ cleared ∷ c ∷ d ∷ e ∷ []; index = 4 }, ground arith, ground arith)
torn_at (a ∷ b ∷ c ∷ d ∷ e ∷ []) (suc (suc zero)) x y rest k l h =
    (record { slots = a ∷ cleared ∷ cleared ∷ d ∷ e ∷ []; index = 0 }, ground arith, ground arith)
torn_at (a ∷ b ∷ c ∷ d ∷ e ∷ []) (suc (suc (suc zero))) x y rest k l h =
    (record { slots = a ∷ b ∷ cleared ∷ cleared ∷ e ∷ []; index = 1 }, ground arith, ground arith)
torn_at (a ∷ b ∷ c ∷ d ∷ e ∷ []) (suc (suc (suc (suc zero)))) x y rest k l h =
    (record { slots = a ∷ b ∷ c ∷ cleared ∷ cleared ∷ []; index = 2 }, ground arith, ground arith)
torn_at (a ∷ b ∷ c ∷ d ∷ e ∷ []) (suc (suc (suc (suc (suc i))))) x y rest k l h =
    absurd (omega arith)
torn_at _ i x y rest k l h = absurd (omega arith)

-- Of a valid buffer that holds at least two measurements, two calls without the lock can both give
-- the newest one, and the next to newest is lost: nobody gets it, and the buffer holds those after it.
pub interleave-torn :
    (f : Fifo) (b c : FifoBuffer) (rest : List FifoBuffer)
    → IsValid f
    → contents f ≡ b ∷ c ∷ rest
    → (f' : Fifo) × (interleave overlapping testing testing (slots_of f)
        ≡ some (got b, got b, slots_of f'))
      × (contents f' ≡ rest)
interleave-torn f b c rest v h = torn_at f.slots f.index b c rest v.five v.within h

outside_at :
    (slots : List FifoBuffer) (b : FifoBuffer) (rest : List FifoBuffer)
    → length slots ≡ 5
    → contents (record { slots = slots; index = 0 }) ≡ b ∷ rest
    → interleave
        (true ∷ true ∷ true ∷ true ∷ false ∷ [])
        testing
        testing
        (record { slots = slots; index = pos 0 })
      ≡ none
unfolding interleave read_step
outside_at (a ∷ b ∷ c ∷ d ∷ e ∷ []) x rest k h = ground arith
outside_at _ x rest k h = absurd (omega arith)

-- If the newest measurement of a valid buffer is in slot 0, the second call can find the index -1
-- that the first has left for a moment, and reads outside the buffer.
pub interleave-outside :
    (f : Fifo) (b : FifoBuffer) (rest : List FifoBuffer)
    → IsValid f
    → f.index ≡ 0
    → contents f ≡ b ∷ rest
    → interleave (true ∷ true ∷ true ∷ true ∷ false ∷ []) testing testing (slots_of f) ≡ none
interleave-outside f b rest v first h =
    let at_0 : f ≡ record { slots = f.slots; index = 0 } = ground (arith, first) in
    let here : contents (record { slots = f.slots; index = 0 }) ≡ b ∷ rest =
      subst (λ (x : Fifo). contents x ≡ b ∷ rest) at_0 h in
    rw at_0 (outside_at f.slots b rest v.five here)
