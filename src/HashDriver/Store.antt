-- ===== src/HashDriver/Store.antt =====
-- Reading and writing of `Hash Table Driver/Hash_Driver.c` against a map from keys to data.
use linux_kernel_programing.Prelude.{
  ℕ, ◌≤◌, ◌<◌, ◌≡◌, refl, inl, inr, true, Option, none, some, List, arith, ◌==◌, if◌then◌else◌,
  Bool-cases,
}
use linux_kernel_programing.Prelude.Int.{ℤ, pos}
use linux_kernel_programing.HashDriver.Api.{HtObject, HashTable, buckets}
use linux_kernel_programing.HashDriver.Chain.{
  read_chain, assign, unlink, find, count, all_nodes, read_chain-eq-find, has_key-false,
  count-assign, find-assign, count-unlink-le, find-unlink, all_nodes-assign, all_nodes-unlink,
}
use linux_kernel_programing.HashDriver.{
  Driver, neg_einval, minus_one, read_result, current, write_table, write, read_table, read,
}

-- What the user sees of a lookup: the data, or -1 with an error.
abbrev pub reply : ℕ → Option ℕ → HtObject × ℤ
reply k none = (record { key = k; data' = minus_one }, neg_einval)
reply k (some d) = (record { key = k; data' = d }, pos 1)

-- The map after a write: data 0 means no entry.
abbrev pub entry : ℕ → Option ℕ
entry d = if d == 0 then none else some d

module _ (api : HashTable) where
  open api use {Table, hash_min, hash_init, chain, hash_add, relink}

  -- The abstract map that a table stands for.
  unfoldable pub view : Table → ℕ → Option ℕ
  view t k = find k (chain t (hash_min k))

  -- A key occurs at most once in its bucket, and a bucket holds only keys of its own.
  pub record IsPlaced (t : Table) : Type 0 where
    pub once : (k : ℕ) → count k (chain t (hash_min k)) ≤ 1
    pub home : (b : ℕ) → b < buckets → all_nodes (λ k. hash_min k == b) (chain t b) ≡ true

  pub hash_init-IsPlaced : IsPlaced hash_init
  unfolding count all_nodes
  hash_init-IsPlaced = record {
    once = λ k. rw (api.chain-hash_init (hash_min k)) (omega arith);
    home = λ b h. rw (api.chain-hash_init b) refl;
  }

  module _ (x : HtObject) (t : Table) (p : IsPlaced t) where
    -- The bucket of the key, before and after, and the laws of the table at another bucket.
    c : List HtObject
    c = chain t (hash_min x.key)

    write_table-once : (q : ℕ) → count q (chain (write_table api x t) (hash_min q)) ≤ 1
    unfolding write_table count c
    write_table-once q = ground (
      arith,
      api.chain-relink t (hash_min x.key) (unlink x.key c) (hash_min q) (api.hash_min-lt x.key),
      api.chain-relink t (hash_min x.key) (assign x.key x.data' c) (hash_min q)
          (api.hash_min-lt x.key),
      api.chain-hash_add t x x.key (hash_min q),
      p.once q,
      count-unlink-le q x.key c,
      count-assign q x.key x.data' c,
      has_key-false x.key c,
    )

    write_table-home :
        (b : ℕ)
        → b < buckets
        → all_nodes (λ k. hash_min k == b) (chain (write_table api x t) b) ≡ true
    unfolding write_table all_nodes c
    write_table-home b h = ground (
      arith,
      api.chain-relink t (hash_min x.key) (unlink x.key c) b (api.hash_min-lt x.key),
      api.chain-relink t (hash_min x.key) (assign x.key x.data' c) b (api.hash_min-lt x.key),
      api.chain-hash_add t x x.key b,
      p.home b h,
      all_nodes-unlink (λ k. hash_min k == b) x.key c,
      all_nodes-assign (λ k. hash_min k == b) x.key x.data' c,
    )

    pub write_table-IsPlaced : IsPlaced (write_table api x t)
    unfolding write_table
    write_table-IsPlaced = record {
      once = λ k. write_table-once k;
      home = λ b h. write_table-home b h;
    }

    -- After a write a lookup gives the new data at its key and what it gave before at the others.
    pub view-write_table :
        (q : ℕ) → view (write_table api x t) q ≡ (if q == x.key then entry x.data' else view t q)
    unfolding write_table view find c
    view-write_table q = ground (
      arith,
      api.chain-relink t (hash_min x.key) (unlink x.key c) (hash_min q) (api.hash_min-lt x.key),
      api.chain-relink t (hash_min x.key) (assign x.key x.data' c) (hash_min q)
          (api.hash_min-lt x.key),
      api.chain-hash_add t x x.key (hash_min q),
      find-unlink q x.key c (p.once x.key),
      find-assign q x.key x.data' c,
    )

  pub read_table-view : (k : ℕ) (t : Table) → IsPlaced t → read_table api k t ≡ reply k (view t k)
  unfolding read_table view read_result find read_chain
  read_table-view k t p = ground (arith, read_chain-eq-find k (chain t (hash_min k)), p.once k)

  -- Both tables are well formed.
  pub record IsValid (s : Driver Table) : Type 0 where
    pub placed_0 : IsPlaced s.tbl_0
    pub placed_1 : IsPlaced s.tbl_1

  abbrev pub lookup : Driver Table → ℕ → Option ℕ
  lookup s k = view (current api s) k

  pub current-IsPlaced : (s : Driver Table) → IsValid s → IsPlaced (current api s)
  current-IsPlaced s v = elim (Bool-cases (s.minor == 0)) [
    | inl e ↦ rw e v.placed_0
    | inr e ↦ rw e v.placed_1
  ]

  -- In a valid state a read returns the data of its key in the current table with result 1, or -1
  -- with `-EINVAL` when the key has none.
  pub read-lookup :
      (x : HtObject) (s : Driver Table) → IsValid s → read api x s ≡ reply x.key (lookup s x.key)
  unfolding read
  read-lookup x s v =
      ground
        (arith, read_table-view x.key s.tbl_0 v.placed_0, read_table-view x.key s.tbl_1 v.placed_1)

  pub lookup-write :
      (x : HtObject) (s : Driver Table) (q : ℕ)
      → IsValid s
      → lookup (write api x s).0 q ≡ (if q == x.key then entry x.data' else lookup s q)
  unfolding write
  lookup-write x s q v = elim (Bool-cases (s.minor == 0)) [
    | inl e ↦ rw e (rw e (view-write_table x s.tbl_0 v.placed_0 q))
    | inr e ↦ rw e (rw e (view-write_table x s.tbl_1 v.placed_1 q))
  ]

  pub write-IsValid : (x : HtObject) (s : Driver Table) → IsValid s → IsValid (write api x s).0
  unfolding write
  write-IsValid x s v = elim (Bool-cases (s.minor == 0)) [
    | inl e ↦
        rw e
          (record { placed_0 = write_table-IsPlaced x s.tbl_0 v.placed_0; placed_1 = v.placed_1 })
    | inr e ↦
        rw e
          (record { placed_0 = v.placed_0; placed_1 = write_table-IsPlaced x s.tbl_1 v.placed_1 })
  ]

  -- A read after a write, in a valid state: the new data at the written key (none if the data was
  -- 0), and at any other key what a read gave before the write.
  pub read-write :
      (x y : HtObject) (s : Driver Table)
      → IsValid s
      → read api y (write api x s).0
        ≡ (if y.key == x.key then reply y.key (entry x.data') else read api y s)
  read-write x y s v = ground (
    arith,
    read-lookup y (write api x s).0 (write-IsValid x s v),
    lookup-write x s y.key v,
    read-lookup y s v,
  )
