-- ===== src/Mprobe/Probing.antt =====
-- What a reader of `Kprobe/Mprobe.c` gets of the hits of a probe.
use linux_kernel_programing.Prelude.{
  ℕ, zero, suc, ◌+◌, ◌<◌, ◌≤◌, ◌≡◌, ◌∙◌, refl, ap, true, Option, none, some, List, [], ◌∷◌, arith,
  map, length, length-set, get_elem?, get_or, set, take, drop,
}
use linux_kernel_programing.Prelude.Int.{pos}
use linux_kernel_programing.Mprobe.{
  UserOutput, RingBuffer, State, copy_pointer, store, mprobe_pre_handler, mprobe_device_open,
  mprobe_device_read, read_ring,
}

unfoldable pub hits : List UserOutput → State → Option State
hits [] s = some s
hits (u ∷ us) s = elim (mprobe_pre_handler u s) [ none ↦ none | some s' ↦ hits us s' ]

-- What `n` reads copy to the user.
unfoldable pub read_all : ℕ → State → Option (List (Option UserOutput))
read_all zero s = some []
read_all (suc n) s = elim (mprobe_device_read true s) [
  | none ↦ none
  | some (s', reply) ↦ elim (read_all n s') [ none ↦ none | some rest ↦ some (reply.copied ∷ rest) ]
]

-- Each record has the address of its hit and, in its other fields, what the memory held before.
abbrev pub addresses_in : List UserOutput → List UserOutput → List UserOutput
addresses_in [] memory = []
addresses_in (u ∷ us) [] = []
addresses_in (u ∷ us) (g ∷ memory) =
    record g { kprobe_addr = u.kprobe_addr } ∷ addresses_in us memory

-- The memory after hits that start at slot `t`.
abbrev stamp : ℕ → List UserOutput → List UserOutput → List UserOutput
stamp t us [] = []
stamp (suc t) us (g ∷ gs) = g ∷ stamp t us gs
stamp zero [] (g ∷ gs) = g ∷ gs
stamp zero (u ∷ us) (g ∷ gs) = record g { kprobe_addr = u.kprobe_addr } ∷ stamp zero us gs

abbrev ring : State → List UserOutput → ℕ → ℕ → ℕ → State
ring s slots h t n = record s {
  output = some (record { slots = some slots; head = h; tail = t; count = n; loss = 0 });
}

get_elem?-get_or :
    (xs : List UserOutput) (i : ℕ) (x : UserOutput)
    → i < length xs
    → get_elem? xs i ≡ some (get_or xs i x)
get_elem?-get_or [] i x h = absurd (omega arith)
get_elem?-get_or (y ∷ xs) zero x h = refl
get_elem?-get_or (y ∷ xs) (suc i) x h = get_elem?-get_or xs i x (omega arith)

stamp-nil : (t : ℕ) (gs : List UserOutput) → stamp t [] gs ≡ gs
stamp-nil zero [] = refl
stamp-nil (suc t) [] = refl
stamp-nil zero (g ∷ gs) = refl
stamp-nil (suc t) (g ∷ gs) = ap (◌∷◌ g) (stamp-nil t gs)

stamp-set :
    (t : ℕ) (u : UserOutput) (us gs : List UserOutput)
    → stamp (suc t) us (set gs t (copy_pointer u (get_or gs t u))) ≡ stamp t (u ∷ us) gs
unfolding copy_pointer
stamp-set zero u us [] = refl
stamp-set (suc t) u us [] = refl
stamp-set zero u us (g ∷ gs) = refl
stamp-set (suc t) u us (g ∷ gs) = ap (◌∷◌ g) (stamp-set t u us gs)

pre_handler-ring :
    (u : UserOutput) (s : State) (slots : List UserOutput) (t : ℕ)
    → length slots ≡ 10
    → t < 9
    → mprobe_pre_handler u (ring s slots 0 t t)
      ≡ some (ring s (set slots t (copy_pointer u (get_or slots t u))) 0 (suc t) (suc t))
unfolding mprobe_pre_handler store
pre_handler-ring u s slots t k h = ground (arith, get_elem?-get_or slots t u (omega arith))

hits-ring :
    (us : List UserOutput) (s : State) (slots : List UserOutput) (t : ℕ)
    → length slots ≡ 10
    → t + length us < 10
    → hits us (ring s slots 0 t t)
      ≡ some (ring s (stamp t us slots) 0 (t + length us) (t + length us))
unfolding hits
hits-ring [] s slots t k h = rw (stamp-nil t slots) (ground arith)
hits-ring (u ∷ us) s slots t k h =
    let slots' = set slots t (copy_pointer u (get_or slots t u)) in
    let rest = hits-ring us s slots' (suc t) (length-set slots t _ ∙ k) (omega arith) in
    ground (arith, pre_handler-ring u s slots t k (omega arith), rest, stamp-set t u us slots)

-- The records from slot `h` on.
abbrev read_from : ℕ → List UserOutput → ℕ → List (Option UserOutput)
read_from h slots n = map some (take n (drop h slots))

drop-cons :
    (xs : List UserOutput) (h : ℕ) (x : UserOutput)
    → h < length xs
    → drop h xs ≡ get_or xs h x ∷ drop (suc h) xs
drop-cons [] h x k = absurd (omega arith)
drop-cons (y ∷ xs) zero x k = refl
drop-cons (y ∷ xs) (suc h) x k = drop-cons xs h x (omega arith)

abbrev blank : UserOutput
blank = record { kprobe_addr = 0; tsc = 0; pid = 0; value = 0 }

read-ring :
    (s : State) (slots : List UserOutput) (h t c : ℕ)
    → length slots ≡ 10
    → h < 9
    → 1 ≤ c
    → mprobe_device_read true (ring s slots h t c)
      ≡ some (
        ring s slots (suc h) t c,
        record { copied = some (get_or slots h blank); result = pos 20 },
      )
unfolding mprobe_device_read read_ring
read-ring s slots h t c k l m = rw (get_elem?-get_or slots h blank (omega arith)) (ground arith)

read_all-ring :
    (n : ℕ) (s : State) (slots : List UserOutput) (h t c : ℕ)
    → length slots ≡ 10
    → h + n < 10
    → 1 ≤ c
    → read_all n (ring s slots h t c) ≡ some (read_from h slots n)
unfolding read_all
read_all-ring zero s slots h t c k l m = refl
read_all-ring (suc n) s slots h t c k l m =
    let rest = read_all-ring n s slots (suc h) t c k (omega arith) m in
    ground (
      arith,
      read-ring s slots h t c k (omega arith) m,
      rest,
      drop-cons slots h blank (omega arith),
    )

take-stamp :
    (us gs : List UserOutput)
    → length us ≤ length gs
    → take (length us) (stamp zero us gs) ≡ addresses_in us gs
take-stamp [] gs h = refl
take-stamp (u ∷ us) [] h = absurd (omega arith)
take-stamp (u ∷ us) (g ∷ gs) h =
    ap (◌∷◌ (record g { kprobe_addr = u.kprobe_addr })) (take-stamp us gs (omega arith))

length-stamp : (t : ℕ) (us gs : List UserOutput) → length (stamp t us gs) ≡ length gs
length-stamp t us [] = refl
length-stamp (suc t) us (g ∷ gs) = ap suc (length-stamp t us gs)
length-stamp zero [] (g ∷ gs) = refl
length-stamp zero (u ∷ us) (g ∷ gs) = ap suc (length-stamp zero us gs)

-- After an open whose allocations succeed, one to nine hits and as many reads: the reads give the
-- hits in their order, but of each only the address of the probe; its time, process and value are
-- what the ten slots of memory held before the open.
pub hits-read_all :
    (memory : RingBuffer) (slots us : List UserOutput) (s : State)
    → length slots ≡ 10
    → 0 < length us
    → length us < 10
    → (s' : State) × (hits us (mprobe_device_open true true memory slots s).0 ≡ some s')
      × (read_all (length us) s' ≡ some (map some (addresses_in us slots)))
unfolding mprobe_device_open
hits-read_all memory slots us s k p q =
    let opened = (mprobe_device_open true true memory slots s).0 in
    let written = stamp zero us slots in
    let e = hits-ring us opened slots 0 k (omega arith) in
    let r =
      read_all-ring (length us) opened written 0 (length us) (length us)
        (length-stamp 0 us slots ∙ k) (omega arith) p in
    (
      ring opened written 0 (length us) (length us),
      ground (arith, e),
      r ∙ ap (λ (xs : List UserOutput). some (map some xs)) (take-stamp us slots (omega arith)),
    )
