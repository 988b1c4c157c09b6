-- ===== src/HashDriver/Dump.antt =====
-- The `DUMP` ioctl of `Hash Table Driver/Hash_Driver.c`.
use linux_kernel_programing.Prelude.{
  ℕ, zero, suc, ◌+◌, ◌≤◌, ◌<◌, ◌≡◌, refl, ap, ◌↔◌, ◌≢◌, List, [], ◌∷◌, arith, take,
}
use native.Mathlib.Decide.{dec_le}
use linux_kernel_programing.Prelude.Int.{pos}
use linux_kernel_programing.HashDriver.Api.{HtObject, HashTable}
use linux_kernel_programing.HashDriver.{
  Driver, dump, neg_einval, current, copy_objects, find_key, dump_bucket, ioctl,
}

copy_objects-eq-take_from :
    (i : ℕ) (n : ℕ) (c : List HtObject) → i + n ≡ 8 → copy_objects i c ≡ take n c
unfolding copy_objects
copy_objects-eq-take_from i zero [] h = refl
copy_objects-eq-take_from i zero (x ∷ c) h = ground arith
copy_objects-eq-take_from i (suc n) [] h = refl
copy_objects-eq-take_from i (suc n) (x ∷ c) h =
    ground (arith, copy_objects-eq-take_from (i + 1) n c)

pub copy_objects-eq-take : (c : List HtObject) → copy_objects 0 c ≡ take 8 c
copy_objects-eq-take c = copy_objects-eq-take_from 0 8 c refl

module _ (api : HashTable) where
  open api use {Table, hash_min, chain}

  -- The search stops at the first key of the bucket, if the rounds reach one.
  find_key-first :
      (n rounds start k : ℕ)
      → start ≤ k
      → k < start + rounds
      → hash_min k ≡ n
      → (find_key api n rounds start ≤ k) × (hash_min (find_key api n rounds start) ≡ n)
  unfolding find_key
  find_key-first n zero start k lo hi e = absurd (omega arith)
  find_key-first n (suc rounds) start k lo hi e =
      ground (arith, find_key-first n rounds (start + 1) k, ap hash_min {x = start} {y = k})

  -- Where it stops within the rounds, it has found a key of the bucket.
  find_key-found :
      (n rounds start : ℕ)
      → find_key api n rounds start < start + rounds
      → hash_min (find_key api n rounds start) ≡ n
  unfolding find_key
  find_key-found n zero start h = absurd (omega arith)
  find_key-found n (suc rounds) start h = ground (arith, find_key-found n rounds (start + 1))

  -- The search from 0 ends at 128 or below exactly when a key up to 128 falls into the bucket.
  find_key-le_iff :
      (n rounds : ℕ)
      → 128 < rounds
      → (find_key api n rounds 0 ≤ 128) ↔ ((k : ℕ) × (k ≤ 128) × (hash_min k ≡ n))
  find_key-le_iff n rounds h = (
    λ le. (find_key api n rounds 0, le, find_key-found n rounds 0 (omega arith)),
    λ w. omega (arith, (find_key-first n rounds 0 w.0 (omega arith) (omega arith) w.2).0),
  )

  dump_bucket-ok :
      (n rounds : ℕ) (t : Table)
      → 128 < rounds
      → find_key api n rounds 0 ≤ 128
      → dump_bucket api n rounds t ≡ (take 8 (chain t n), pos 0)
  unfolding dump_bucket
  dump_bucket-ok n rounds t h le =
      let e = find_key-found n rounds 0 (omega arith) in
      ground (arith, e, copy_objects-eq-take (chain t n), ap (chain t) e)

  dump_bucket-einval :
      (n rounds : ℕ) (t : Table)
      → 128 < find_key api n rounds 0
      → dump_bucket api n rounds t ≡ ([], neg_einval)
  unfolding dump_bucket
  dump_bucket-einval n rounds t h = ground arith

  -- If some key up to 128 falls into bucket `n`, `DUMP` returns 0 and copies the first 8 nodes of
  -- the bucket of the current table, in order (all of them, if there are fewer).
  pub ioctl-dump :
      (n k : ℕ) (s : Driver Table)
      → k ≤ 128
      → hash_min k ≡ n
      → ioctl api (dump n) s ≡ (take 8 (chain (current api s) n), pos 0)
  unfolding ioctl
  ioctl-dump n k s h e =
      let le = (find_key-le_iff n 1000000 (omega arith)).1 (k, h, e) in
      ground (
        arith,
        dump_bucket-ok n 1000000 s.tbl_0 (omega arith) le,
        dump_bucket-ok n 1000000 s.tbl_1 (omega arith) le,
      )

  -- If no key up to 128 falls into bucket `n`, `DUMP` copies nothing and returns `-EINVAL`: for a
  -- bucket below 128 that holds nodes under greater keys too.
  pub ioctl-dump_einval :
      (n : ℕ) (s : Driver Table)
      → ((k : ℕ) → k ≤ 128 → hash_min k ≢ n)
      → ioctl api (dump n) s ≡ ([], neg_einval)
  unfolding ioctl
  ioctl-dump_einval n s none_there =
      let far : 128 < find_key api n 1000000 0 = elim (dec_le (find_key api n 1000000 0) 128) [
        | yes le ↦
            let w = (find_key-le_iff n 1000000 (omega arith)).0 le in
            absurd (none_there w.0 w.1 w.2)
        | no more ↦ omega arith
      ] in
      ground
        (arith, dump_bucket-einval n 1000000 s.tbl_0 far, dump_bucket-einval n 1000000 s.tbl_1 far)
