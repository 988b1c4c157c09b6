-- ===== src/HashDriver/Memory.antt =====
-- Storage in `Hash Table Driver/Hash_Driver.c`: the nodes that `write` allocates, and what the
-- module's start and end acquire and give back.
use linux_kernel_programing.Prelude.{
  ℕ, zero, suc, ◌+◌, ◌≤◌, ◌<◌, ◌≡◌, refl, true, false, List, [], arith, length, ◌==◌, ltb,
  if◌then◌else◌,
}
use linux_kernel_programing.HashDriver.Api.{HtObject, HashTable, buckets}
use linux_kernel_programing.HashDriver.Chain.{has_key, assign, unlink, length-assign, length-unlink}
use linux_kernel_programing.HashDriver.{
  Driver, current, open_device, write_table, write, free_buckets, hash_empty, release_table,
  release,
}

-- How many nodes one write leaks: the new node unless it is added, and a node that is unlinked.
abbrev pub write_leak : HtObject → List HtObject → ℕ
write_leak x c =
    if x.data' == 0 then (if has_key x.key c then 2 else 1) else (if has_key x.key c then 1 else 0)

module _ (api : HashTable) where
  open api use {Table, hash_min, hash_init, chain, hash_add, relink}

  -- The nodes linked in the buckets below `n`.
  unfoldable pub linked_below : ℕ → Table → ℕ
  linked_below zero t = 0
  linked_below (suc n) t = linked_below n t + length (chain t n)

  abbrev pub linked : Table → ℕ
  linked t = linked_below buckets t

  -- How the sum changes with one bucket.
  linked_below-congr :
      (n : ℕ) (t u : Table) (b : ℕ)
      → ((j : ℕ) → (b == j) ≡ false → chain u j ≡ chain t j)
      → linked_below n u + (if ltb b n then length (chain t b) else 0)
        ≡ linked_below n t + (if ltb b n then length (chain u b) else 0)
  unfolding linked_below
  linked_below-congr zero t u b same = ground arith
  linked_below-congr (suc n) t u b same = ground (arith, linked_below-congr n t u b same, same n)

  linked-relink :
      (t : Table) (b : ℕ) (c : List HtObject)
      → b < buckets
      → linked (relink t b c) + length (chain t b) ≡ linked t + length c
  linked-relink t b c h =
      let e =
        linked_below-congr buckets t (relink t b c) b
          (λ j ne. rw (api.chain-relink t b c j h, ne) refl) in
      ground (arith, e, api.chain-relink t b c b h)

  linked-hash_add : (t : Table) (x : HtObject) (k : ℕ) → linked (hash_add t x k) ≡ linked t + 1
  linked-hash_add t x k =
      let e =
        linked_below-congr buckets t (hash_add t x k) (hash_min k)
          (λ j ne. rw (api.chain-hash_add t x k j, ne) refl) in
      ground (arith, e, api.chain-hash_add t x k (hash_min k), api.hash_min-lt k)

  linked_below-hash_init : (n : ℕ) → linked_below n hash_init ≡ 0
  unfolding linked_below
  linked_below-hash_init zero = refl
  linked_below-hash_init (suc n) = ground (arith, linked_below-hash_init n, api.chain-hash_init n)

  linked_below-hash_empty : (n : ℕ) (t : Table) → hash_empty api n t ≡ true → linked_below n t ≡ 0
  unfolding linked_below hash_empty
  linked_below-hash_empty zero t h = refl
  linked_below-hash_empty (suc n) t h = ground (arith, linked_below-hash_empty n t)

  chain-free_buckets :
      (n b : ℕ) (t : Table)
      → n ≤ buckets
      → chain (free_buckets api n t).0 b ≡ (if ltb b n then [] else chain t b)
  unfolding free_buckets
  chain-free_buckets zero b t h = ground arith
  chain-free_buckets (suc n) b t h = ground (
    arith,
    chain-free_buckets n b t (omega arith),
    api.chain-relink (free_buckets api n t).0 n [] b (omega arith),
  )

  -- The loop over the buckets frees every node linked in them.
  free_buckets-linked :
      (n : ℕ) (t : Table) → n ≤ buckets → (free_buckets api n t).1 ≡ linked_below n t
  unfolding free_buckets linked_below
  free_buckets-linked zero t h = refl
  free_buckets-linked (suc n) t h =
      ground (arith, free_buckets-linked n t (omega arith), chain-free_buckets n n t (omega arith))

  release_table-freed : (t : Table) → (release_table api t).1 ≡ linked t
  unfolding release_table
  release_table-freed t =
      ground (arith, linked_below-hash_empty buckets t, free_buckets-linked buckets t (omega arith))

  release_table-empty : (t : Table) → (release_table api t).0 ≡ hash_init
  unfolding release_table
  release_table-empty t = ground arith

  -- Of the nodes allocated and not freed, `n` are in no table: nothing will ever free them.
  abbrev pub Leaked : Driver Table → ℕ → Type 0
  Leaked s n = s.live ≡ linked s.tbl_0 + linked s.tbl_1 + n

  linked-write_table :
      (x : HtObject) (t : Table)
      → linked (write_table api x t) + write_leak x (chain t (hash_min x.key)) ≡ linked t + 1
  unfolding write_table
  linked-write_table x t =
      let b = hash_min x.key in
      let c = chain t b in
      ground (
        arith,
        linked-relink t b (unlink x.key c) (api.hash_min-lt x.key),
        linked-relink t b (assign x.key x.data' c) (api.hash_min-lt x.key),
        linked-hash_add t x x.key,
        length-unlink x.key c,
        length-assign x.key x.data' c,
      )

  -- A write leaks no node when it adds one; one when it updates a node or deletes a key that is
  -- not there; two when it deletes a key that is there.
  pub write-Leaked :
      (x : HtObject) (s : Driver Table) (n : ℕ)
      → Leaked s n
      → Leaked (write api x s).0 (n + write_leak x (chain (current api s) (hash_min x.key)))
  unfolding write
  write-Leaked x s n h = ground (arith, linked-write_table x s.tbl_0, linked-write_table x s.tbl_1)

  -- A release empties the current table and frees the nodes linked in it: it leaks none.
  pub release-Leaked :
      (s : Driver Table) (n : ℕ)
      → Leaked s n
      → Leaked (release api s) n × (linked (current api (release api s)) ≡ 0)
  unfolding release
  release-Leaked s n h = ground (
    arith,
    release_table-freed s.tbl_0,
    release_table-freed s.tbl_1,
    release_table-empty s.tbl_0,
    release_table-empty s.tbl_1,
    linked_below-hash_init buckets,
  )

  -- Opening a device frees nothing: all the nodes that were linked in its table are leaked.
  pub open_device-Leaked :
      (rdev : ℕ) (s : Driver Table) (n : ℕ)
      → Leaked s n
      → Leaked (open_device api rdev s) (n + (if rdev == 0 then linked s.tbl_0 else linked s.tbl_1))
  unfolding open_device
  open_device-Leaked rdev s n h = ground (arith, linked_below-hash_init buckets)
