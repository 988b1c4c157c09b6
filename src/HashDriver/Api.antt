-- ===== src/HashDriver/Api.antt =====
-- What `Hash Table Driver/Hash_Driver.c` takes from the kernel's `linux/hashtable.h`: a table of
-- 128 buckets, each a chain of nodes. The header is not part of the repository, so the table is a
-- parameter, with the documented behaviour of its operations as laws.
use linux_kernel_programing.Prelude.{ℕ, ◌<◌, ◌≡◌, List, [], ◌∷◌, ◌==◌, if◌then◌else◌}

-- `ht_object_t`: a key and its data. Both are C `int`s, kept as their 32-bit patterns.
pub record HtObject : Type 0 where
  pub key : ℕ
  pub data' : ℕ

-- The 128 buckets of `DECLARE_HASHTABLE(name, 7)`.
abbrev pub buckets : ℕ
buckets = 128

pub record HashTable : Type 1 where
  pub Table : Type 0
  -- `hash_min(key, 7)`
  pub hash_min : ℕ → ℕ
  -- `hash_init(table)`
  pub hash_init : Table
  -- the nodes of one bucket, in the order that `hash_for_each_possible` meets them
  pub chain : Table → ℕ → List HtObject
  -- `hash_add(table, node, key)`
  pub hash_add : Table → HtObject → ℕ → Table
  -- one bucket after its nodes were assigned to or unlinked
  pub relink : Table → ℕ → List HtObject → Table
  -- `hash_min` gives 7 bits
  pub hash_min-lt : (k : ℕ) → hash_min k < buckets
  -- a fresh table is empty
  pub chain-hash_init : (b : ℕ) → chain hash_init b ≡ []
  -- a node is added in front of its key's bucket
  pub chain-hash_add :
      (t : Table) (x : HtObject) (k b : ℕ)
      → chain (hash_add t x k) b ≡ (if hash_min k == b then x ∷ chain t b else chain t b)
  -- a bucket reads back as it was left, and the others do not change
  pub chain-relink :
      (t : Table) (a : ℕ) (c : List HtObject) (b : ℕ)
      → a < buckets
      → chain (relink t a c) b ≡ (if a == b then c else chain t b)
