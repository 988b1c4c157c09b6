-- ===== src/HashDriver/Chain.antt =====
-- The loops over one bucket in `Hash Table Driver/Hash_Driver.c`, and their laws. `find` and
-- `count` are no part of the code: they say what a chain means.
use linux_kernel_programing.Prelude.{
  ℕ, ◌+◌, ◌≤◌, ◌≡◌, refl, Bool, true, false, Option, none, some, List, [], ◌∷◌, arith, length, ◌==◌,
  if◌then◌else◌,
}
use linux_kernel_programing.HashDriver.Api.{HtObject}

-- The reading loop: no `break`, so the last node with the key decides. `none` is `flag == 0`.
unfoldable pub read_chain : ℕ → Option ℕ → List HtObject → Option ℕ
read_chain k acc [] = acc
read_chain k acc (x ∷ c) = read_chain k (if k == x.key then some x.data' else acc) c

-- The flag of the updating loop: whether a node has the key.
unfoldable pub has_key : ℕ → List HtObject → Bool
has_key k [] = false
has_key k (x ∷ c) = if x.key == k then true else has_key k c

-- The updating loop: no `break`, so every node with the key gets the data.
unfoldable pub assign : ℕ → ℕ → List HtObject → List HtObject
assign k d [] = []
assign k d (x ∷ c) = (if x.key == k then record x { data' = d } else x) ∷ assign k d c

-- The deleting loop: `hash_del` clears the node's `next`, which ends `hash_for_each_possible`, so
-- only the first node with the key goes.
unfoldable pub unlink : ℕ → List HtObject → List HtObject
unlink k [] = []
unlink k (x ∷ c) = if x.key == k then c else x ∷ unlink k c

-- The data of the first node with the key.
unfoldable pub find : ℕ → List HtObject → Option ℕ
find k [] = none
find k (x ∷ c) = if x.key == k then some x.data' else find k c

-- How many nodes have the key.
unfoldable pub count : ℕ → List HtObject → ℕ
count k [] = 0
count k (x ∷ c) = (if x.key == k then 1 else 0) + count k c

pub find-eq-none : (k : ℕ) (c : List HtObject) → count k c ≡ 0 → find k c ≡ none
unfolding find count
find-eq-none k [] h = refl
find-eq-none k (x ∷ c) h = ground (arith, find-eq-none k c)

pub read_chain-eq-acc :
    (k : ℕ) (acc : Option ℕ) (c : List HtObject) → count k c ≡ 0 → read_chain k acc c ≡ acc
unfolding read_chain count
read_chain-eq-acc k acc [] h = refl
read_chain-eq-acc k acc (x ∷ c) h = ground (arith, read_chain-eq-acc k acc c)

pub read_chain-eq-find :
    (k : ℕ) (c : List HtObject) → count k c ≤ 1 → read_chain k none c ≡ find k c
unfolding read_chain find count
read_chain-eq-find k [] h = refl
read_chain-eq-find k (x ∷ c) h =
    ground (arith, read_chain-eq-acc k (some x.data') c, read_chain-eq-find k c)

pub has_key-false : (k : ℕ) (c : List HtObject) → has_key k c ≡ false → count k c ≡ 0
unfolding has_key count
has_key-false k [] h = refl
has_key-false k (x ∷ c) h = ground (arith, has_key-false k c)

pub count-assign : (q k d : ℕ) (c : List HtObject) → count q (assign k d c) ≡ count q c
unfolding count assign
count-assign q k d [] = refl
count-assign q k d (x ∷ c) = ground (arith, count-assign q k d c)

pub find-assign :
    (q k d : ℕ) (c : List HtObject)
    → has_key k c ≡ true
    → find q (assign k d c) ≡ (if q == k then some d else find q c)
unfolding find assign has_key
find-assign q k d [] h = cc
find-assign q k d (x ∷ c) h = ground (arith, find-assign q k d c, find-assign_ne q k d c)
  where
    find-assign_ne :
        (q k d : ℕ) (c : List HtObject) → (q == k) ≡ false → find q (assign k d c) ≡ find q c
    find-assign_ne q k d [] h = refl
    find-assign_ne q k d (x ∷ c) h = ground (arith, find-assign_ne q k d c)

pub count-unlink-le : (q k : ℕ) (c : List HtObject) → count q (unlink k c) ≤ count q c
unfolding count unlink
count-unlink-le q k [] = omega arith
count-unlink-le q k (x ∷ c) = ground (arith, count-unlink-le q k c)

pub find-unlink :
    (q k : ℕ) (c : List HtObject)
    → count k c ≤ 1
    → find q (unlink k c) ≡ (if q == k then none else find q c)
unfolding find unlink count
find-unlink q k [] h = ground arith
find-unlink q k (x ∷ c) h = ground (arith, find-unlink q k c, find-eq-none k c)

pub length-assign : (k d : ℕ) (c : List HtObject) → length (assign k d c) ≡ length c
unfolding assign
length-assign k d [] = refl
length-assign k d (x ∷ c) = ground (arith, length-assign k d c)

pub length-unlink :
    (k : ℕ) (c : List HtObject) → length (unlink k c) + (if has_key k c then 1 else 0) ≡ length c
unfolding unlink has_key
length-unlink k [] = refl
length-unlink k (x ∷ c) = ground (arith, length-unlink k c)

-- Every node of the chain satisfies the test.
unfoldable pub all_nodes : (ℕ → Bool) → List HtObject → Bool
all_nodes p [] = true
all_nodes p (x ∷ c) = if p x.key then all_nodes p c else false

pub all_nodes-assign :
    (p : ℕ → Bool) (k d : ℕ) (c : List HtObject) → all_nodes p (assign k d c) ≡ all_nodes p c
unfolding all_nodes assign
all_nodes-assign p k d [] = refl
all_nodes-assign p k d (x ∷ c) = ground (arith, all_nodes-assign p k d c)

pub all_nodes-unlink :
    (p : ℕ → Bool) (k : ℕ) (c : List HtObject)
    → all_nodes p c ≡ true
    → all_nodes p (unlink k c) ≡ true
unfolding all_nodes unlink
all_nodes-unlink p k [] h = refl
all_nodes-unlink p k (x ∷ c) h = ground (arith, all_nodes-unlink p k c)
