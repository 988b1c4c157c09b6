-- ===== src/Hcsr/Details/Contents.antt =====
-- What `print_device_data` shows of the measurement buffer, against its contents.
use mathlib.Core.List.{filter_map, reverse, Perm, reverse_perm, perm_append_comm}
use mathlib.Core.List.Perm
use linux_kernel_programing.Prelude.{
  ℕ, zero, suc, ◌-◌, ◌<◌, ◌≡◌, ◌≢◌, ◌∙◌, ap, refl, Bool, true, ◌&&◌, List, [], ◌∷◌, ◌++◌, arith,
  length, take, ◌==◌, if◌then◌else◌,
}
use linux_kernel_programing.Hcsr.Fifo.{
  FifoBuffer, Fifo, no_tsc, cleared, slot, fifo_read, fifo_write,
}
use linux_kernel_programing.Hcsr.Fifo.Stack.{
  IsValid, contents, fifo_write-IsValid, fifo_read-IsValid,
}
use linux_kernel_programing.Hcsr.Details.{slot_line}

-- The slots from the slot `i` backwards, `n` of them.
abbrev back : ℕ → ℕ → Fifo → List FifoBuffer
back zero i f = []
back (suc n) i f = slot f i ∷ back n (if i == 0 then 4 else i - 1) f

abbrev walk : Fifo → List FifoBuffer
walk f = back 5 f.index f

abbrev is_empty : FifoBuffer → Bool
is_empty b = b.tsc == no_tsc

abbrev all_empty : List FifoBuffer → Bool
all_empty [] = true
all_empty (b ∷ bs) = is_empty b && all_empty bs

-- The measurements up to the first empty slot.
abbrev filled : List FifoBuffer → List FifoBuffer
filled [] = []
filled (b ∷ bs) = let rest = filled bs in if is_empty b then [] else b ∷ rest

-- After the first empty slot come only empty ones.
abbrev packed : List FifoBuffer → Bool
packed [] = true
packed (b ∷ bs) = let rest = packed bs in if is_empty b then all_empty bs else rest

-- Between the measurements of the buffer there are no empty slots.
pub record IsPacked (f : Fifo) : Type 0 where
  pub valid : IsValid f
  pub together : packed (walk f) ≡ true

all_empty-take : (n : ℕ) (bs : List FifoBuffer) → all_empty bs ≡ true → all_empty (take n bs) ≡ true
all_empty-take zero bs h = refl
all_empty-take (suc n) [] h = refl
all_empty-take (suc n) (b ∷ bs) h = ground (arith, all_empty-take n bs)

packed-take : (n : ℕ) (bs : List FifoBuffer) → packed bs ≡ true → packed (take n bs) ≡ true
packed-take zero bs h = refl
packed-take (suc n) [] h = refl
packed-take (suc n) (b ∷ bs) h = ground (arith, packed-take n bs, all_empty-take n bs)

all_empty-append :
    (bs : List FifoBuffer) → all_empty bs ≡ true → all_empty (bs ++ (cleared ∷ [])) ≡ true
all_empty-append [] h = refl
all_empty-append (b ∷ bs) h = ground (arith, all_empty-append bs)

packed-append : (bs : List FifoBuffer) → packed bs ≡ true → packed (bs ++ (cleared ∷ [])) ≡ true
packed-append [] h = refl
packed-append (b ∷ bs) h = ground (arith, packed-append bs, all_empty-append bs)

-- A write puts a slot in front of the walk and takes the last one off.
walk-write :
    (slots : List FifoBuffer) (i : ℕ) (e : FifoBuffer)
    → length slots ≡ 5
    → i < 5
    → let f : Fifo = record { slots = slots; index = i } in
      walk (fifo_write f e) ≡ e ∷ take 4 (walk f)
unfolding fifo_write
walk-write (a ∷ b ∷ c ∷ d ∷ g ∷ []) zero e k l = refl
walk-write (a ∷ b ∷ c ∷ d ∷ g ∷ []) (suc zero) e k l = refl
walk-write (a ∷ b ∷ c ∷ d ∷ g ∷ []) (suc (suc zero)) e k l = refl
walk-write (a ∷ b ∷ c ∷ d ∷ g ∷ []) (suc (suc (suc zero))) e k l = refl
walk-write (a ∷ b ∷ c ∷ d ∷ g ∷ []) (suc (suc (suc (suc zero)))) e k l = refl
walk-write (a ∷ b ∷ c ∷ d ∷ g ∷ []) (suc (suc (suc (suc (suc i))))) e k l = absurd (omega arith)
walk-write _ i e k l = absurd (omega arith)

abbrev slid : List FifoBuffer → List FifoBuffer
slid [] = []
slid (b ∷ bs) = if is_empty b then b ∷ bs else bs ++ (cleared ∷ [])

-- A read of a measurement takes it off the walk and puts a cleared slot at its end.
walk-read :
    (slots : List FifoBuffer) (i : ℕ)
    → length slots ≡ 5
    → i < 5
    → let f : Fifo = record { slots = slots; index = i } in walk (fifo_read f).1 ≡ slid (walk f)
unfolding fifo_read
walk-read (a ∷ b ∷ c ∷ d ∷ g ∷ []) zero k l = ground arith
walk-read (a ∷ b ∷ c ∷ d ∷ g ∷ []) (suc zero) k l = ground arith
walk-read (a ∷ b ∷ c ∷ d ∷ g ∷ []) (suc (suc zero)) k l = ground arith
walk-read (a ∷ b ∷ c ∷ d ∷ g ∷ []) (suc (suc (suc zero))) k l = ground arith
walk-read (a ∷ b ∷ c ∷ d ∷ g ∷ []) (suc (suc (suc (suc zero)))) k l = ground arith
walk-read (a ∷ b ∷ c ∷ d ∷ g ∷ []) (suc (suc (suc (suc (suc i))))) k l = absurd (omega arith)
walk-read _ i k l = absurd (omega arith)

around : (xs ys : List FifoBuffer) → Perm (xs ++ ys) (reverse (ys ++ xs))
around xs ys = Perm.trans (perm_append_comm xs ys) (Perm.symm (reverse_perm (ys ++ xs)))

walk-Perm :
    (slots : List FifoBuffer) (i : ℕ)
    → length slots ≡ 5
    → i < 5
    → Perm slots (walk (record { slots = slots; index = i }))
walk-Perm (a ∷ b ∷ c ∷ d ∷ g ∷ []) zero k l = around (a ∷ []) (b ∷ c ∷ d ∷ g ∷ [])
walk-Perm (a ∷ b ∷ c ∷ d ∷ g ∷ []) (suc zero) k l = around (a ∷ b ∷ []) (c ∷ d ∷ g ∷ [])
walk-Perm (a ∷ b ∷ c ∷ d ∷ g ∷ []) (suc (suc zero)) k l = around (a ∷ b ∷ c ∷ []) (d ∷ g ∷ [])
walk-Perm (a ∷ b ∷ c ∷ d ∷ g ∷ []) (suc (suc (suc zero))) k l = around (a ∷ b ∷ c ∷ d ∷ []) (g ∷ [])
walk-Perm (a ∷ b ∷ c ∷ d ∷ g ∷ []) (suc (suc (suc (suc zero)))) k l =
    around (a ∷ b ∷ c ∷ d ∷ g ∷ []) []
walk-Perm (a ∷ b ∷ c ∷ d ∷ g ∷ []) (suc (suc (suc (suc (suc i))))) k l = absurd (omega arith)
walk-Perm _ i k l = absurd (omega arith)

packed-push :
    (e : FifoBuffer) (bs : List FifoBuffer)
    → e.tsc ≢ no_tsc
    → packed bs ≡ true
    → packed (e ∷ bs) ≡ true
packed-push e bs h k = ground arith

pub fifo_write-IsPacked :
    (f : Fifo) (e : FifoBuffer) → e.tsc ≢ no_tsc → IsPacked f → IsPacked (fifo_write f e)
fifo_write-IsPacked f e h v = record {
  valid = fifo_write-IsValid f e v.valid;
  together =
      ap packed (walk-write f.slots f.index e v.valid.five v.valid.within)
      ∙ packed-push e (take 4 (walk f)) h (packed-take 4 (walk f) v.together);
}

packed-slid : (bs : List FifoBuffer) → packed bs ≡ true → packed (slid bs) ≡ true
packed-slid [] h = refl
packed-slid (b ∷ bs) h = ground (arith, packed-append bs)

pub fifo_read-IsPacked : (f : Fifo) → IsPacked f → IsPacked (fifo_read f).1
fifo_read-IsPacked f v = record {
  valid = fifo_read-IsValid f v.valid;
  together =
      ap packed (walk-read f.slots f.index v.valid.five v.valid.within)
      ∙ packed-slid (walk f) v.together;
}

lines-all_empty : (bs : List FifoBuffer) → all_empty bs ≡ true → filter_map slot_line bs ≡ []
unfolding filter_map slot_line
lines-all_empty [] h = refl
lines-all_empty (b ∷ bs) h = ground (arith, lines-all_empty bs)

lines-filled :
    (bs : List FifoBuffer)
    → packed bs ≡ true
    → filter_map slot_line bs ≡ filter_map slot_line (filled bs)
unfolding filter_map slot_line
lines-filled [] h = refl
lines-filled (b ∷ bs) h = ground (arith, lines-filled bs, lines-all_empty bs)

-- In a packed buffer the slots give the same lines as its contents, in another order.
pub slots-Perm :
    (f : Fifo)
    → IsPacked f
    → Perm (filter_map slot_line f.slots) (filter_map slot_line (contents f))
slots-Perm f v =
    rw (← lines-filled (walk f) v.together)
      (Perm.filter_map slot_line (walk-Perm f.slots f.index v.valid.five v.valid.within))
