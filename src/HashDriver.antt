-- ===== src/HashDriver.antt =====
-- `Hash Table Driver/Hash_Driver.c`: the file operations of the two `ht530` devices, and the
-- module's start and end. `Kprobe/Hash_Driver.c` is the same text.
-- `Api` is the kernel's hash table, `Chain` the loops over a bucket, `Store` the proofs about
-- reading and writing, `Dump` about the ioctl, `Memory` about the nodes' storage and the module.
-- `Program` is the user's program that calls the driver.
pub mod Api
pub mod Chain
pub mod Store
pub mod History
pub mod Dump
pub mod Program
pub mod Memory
pub mod Module
mod Tests
use linux_kernel_programing.Prelude.{
  ℕ, zero, suc, ◌+◌, ◌-◌, ◌^◌, Bool, true, false, Option, none, some, List, [], ◌∷◌, length, ltb,
  ◌==◌, if◌then◌else◌,
}
use linux_kernel_programing.Prelude.Int.{ℤ, pos, negsuc}
use linux_kernel_programing.HashDriver.Api.{HtObject, HashTable, buckets}
use linux_kernel_programing.HashDriver.Chain.{read_chain, has_key, assign, unlink}

-- The `int` -1, as a bit pattern.
abbrev pub minus_one : ℕ
minus_one = 2 ^ 32 - 1

-- `-EINVAL`
abbrev pub neg_einval : ℤ
neg_einval = negsuc 21

-- The driver's state: the two tables of `struct ht530_dev`, the minor number in the global
-- `current_dev_no`, and how many `struct ht_node`s are allocated and not freed.
pub record Driver (Table : Type 0) : Type 0 where
  pub tbl_0 : Table
  pub tbl_1 : Table
  pub minor : ℕ
  pub live : ℕ

-- The ioctl's request and its argument: `DUMP` with the field `n`, or another number.
pub data Request : Type 0 where
  dump : ℕ → Request
  unknown : Request

-- `flag == 1` in the reading loop: the data that was found.
unfoldable pub read_result : ℕ → Option ℕ → HtObject × ℤ
read_result k none = (record { key = k; data' = minus_one }, neg_einval)
read_result k (some d) = (record { key = k; data' = d }, pos 1)

-- The copying loop: objects until `lcount` is 8 or the bucket ends.
unfoldable pub copy_objects : ℕ → List HtObject → List HtObject
copy_objects lcount [] = []
copy_objects lcount (x ∷ c) = if ltb lcount 8 then x ∷ copy_objects (lcount + 1) c else []

module _ (api : HashTable) where
  open api use {Table, hash_min, hash_init, chain, hash_add, relink}

  -- The table that a driver works on.
  abbrev pub current : Driver Table → Table
  current s = if s.minor == 0 then s.tbl_0 else s.tbl_1

  unfoldable pub open_device : ℕ → Driver Table → Driver Table
  open_device rdev s =
      if rdev == 0
      then record s { minor = rdev; tbl_0 = hash_init }
      else record s { minor = rdev; tbl_1 = hash_init }

  -- One branch of the write: data 0 deletes, other data updates or adds.
  unfoldable pub write_table : HtObject → Table → Table
  write_table x t =
      let b = hash_min x.key in
      if x.data' == 0
      then relink t b (unlink x.key (chain t b))
      else if has_key x.key (chain t b)
      then relink t b (assign x.key x.data' (chain t b))
      else hash_add t x x.key

  -- A node is allocated first, whatever becomes of it.
  unfoldable pub write : HtObject → Driver Table → Driver Table × ℤ
  write x s =
      let n = s.live + 1 in
      if s.minor == 0
      then (record s { live = n; tbl_0 = write_table x s.tbl_0 }, pos 1)
      else (record s { live = n; tbl_1 = write_table x s.tbl_1 }, pos 1)

  -- One branch of the read: what is copied back to the user, and the result.
  unfoldable pub read_table : ℕ → Table → HtObject × ℤ
  read_table k t = elim (chain t (hash_min k)) [
    | [] ↦ (record { key = k; data' = minus_one }, neg_einval)
    | x ∷ c ↦ read_result k (read_chain k none (x ∷ c))
  ]

  unfoldable pub read : HtObject → Driver Table → HtObject × ℤ
  read x s = if s.minor == 0 then read_table x.key s.tbl_0 else read_table x.key s.tbl_1

  -- `hash_for_each_safe` over the buckets below `n`: each node is unlinked and freed. The second
  -- component counts the nodes freed.
  unfoldable pub free_buckets : ℕ → Table → Table × ℕ
  free_buckets zero t = (t, 0)
  free_buckets (suc n) t =
      let (t', freed) = free_buckets n t in (relink t' n [], freed + length (chain t' n))

  -- `hash_empty(table)`, a walk over the buckets below `n`.
  unfoldable pub hash_empty : ℕ → Table → Bool
  hash_empty zero t = true
  hash_empty (suc n) t = elim (chain t n) [ [] ↦ hash_empty n t | x ∷ c ↦ false ]

  -- One branch of the release: the table left, and how many nodes were freed.
  unfoldable pub release_table : Table → Table × ℕ
  release_table t =
      if hash_empty buckets t then (hash_init, 0) else (hash_init, (free_buckets buckets t).1)

  unfoldable pub release : Driver Table → Driver Table
  release s =
      if s.minor == 0
      then (let (t, freed) = release_table s.tbl_0 in record s { tbl_0 = t; live = s.live - freed })
      else (let (t, freed) = release_table s.tbl_1 in record s { tbl_1 = t; live = s.live - freed })

  -- The search for a key of bucket `n`: `rounds` are left of the loop.
  unfoldable pub find_key : ℕ → ℕ → ℕ → ℕ
  find_key n zero nbkt = nbkt
  find_key n (suc rounds) nbkt = elim (hash_min nbkt == n) [
    | true ↦ nbkt
    | false ↦ find_key n rounds (nbkt + 1)
  ]

  -- The objects copied to the user's array, in order, and the result.
  unfoldable pub dump_bucket : ℕ → ℕ → Table → List HtObject × ℤ
  dump_bucket n rounds t =
      let nbkt = find_key n rounds 0 in
      if ltb 128 nbkt then ([], neg_einval) else (copy_objects 0 (chain t (hash_min nbkt)), pos 0)

  unfoldable pub ioctl : Request → Driver Table → List HtObject × ℤ
  ioctl (dump n) s =
      if s.minor == 0 then dump_bucket n 1000000 s.tbl_0 else dump_bucket n 1000000 s.tbl_1
  ioctl unknown s = ([], neg_einval)
