-- ===== src/HashDriver/History.antt =====
-- Sequences of calls of the file operations of `Hash Table Driver/Hash_Driver.c`.
use linux_kernel_programing.Prelude.{
  ℕ, ◌≡◌, ◌≢◌, refl, inl, inr, Option, none, List, [], ◌∷◌, arith, ◌==◌, if◌then◌else◌, Bool-cases,
}
use linux_kernel_programing.HashDriver.Api.{HtObject, HashTable}
use linux_kernel_programing.HashDriver.Chain.{find}
use linux_kernel_programing.HashDriver.{
  Driver, Request, open_device, write, read, release, release_table,
}
use linux_kernel_programing.HashDriver.Store.{
  reply, entry, view, IsValid, hash_init-IsPlaced, lookup, view-write_table, lookup-write,
  write-IsValid, read-lookup,
}

-- A call of a file operation. Reads and ioctls change no table.
pub data Call : Type 0 where
  open_call : ℕ → Call
  write_call : HtObject → Call
  read_call : HtObject → Call
  ioctl_call : Request → Call
  release_call : Call

-- The data that a sequence of writes leaves at a key: that of the last write of the key.
unfoldable pub last_data : ℕ → Option ℕ → List HtObject → Option ℕ
last_data k acc [] = acc
last_data k acc (x ∷ xs) = last_data k (if k == x.key then entry x.data' else acc) xs

module _ (api : HashTable) where
  open api use {Table, hash_min, hash_init, chain}

  unfoldable pub perform : Call → Driver Table → Driver Table
  perform (open_call rdev) s = open_device api rdev s
  perform (write_call x) s = (write api x s).0
  perform (read_call x) s = s
  perform (ioctl_call r) s = s
  perform release_call s = release api s

  unfoldable pub run : List Call → Driver Table → Driver Table
  run [] s = s
  run (c ∷ cs) s = run cs (perform c s)

  unfoldable pub write_all : List HtObject → Driver Table → Driver Table
  write_all [] s = s
  write_all (x ∷ xs) s = write_all xs (write api x s).0

  perform-IsValid : (c : Call) (s : Driver Table) → IsValid api s → IsValid api (perform c s)
  unfolding perform open_device release release_table
  perform-IsValid (open_call rdev) s v = ground (arith, hash_init-IsPlaced api)
  perform-IsValid (write_call x) s v = write-IsValid api x s v
  perform-IsValid (read_call x) s v = v
  perform-IsValid (ioctl_call r) s v = v
  perform-IsValid release_call s v = ground (arith, hash_init-IsPlaced api)

  -- Every sequence of file operations keeps both tables well formed: a key at most once in its
  -- bucket, and in a bucket only keys that hash to it.
  pub run-IsValid : (cs : List Call) (s : Driver Table) → IsValid api s → IsValid api (run cs s)
  unfolding run
  run-IsValid [] s v = v
  run-IsValid (c ∷ cs) s v = run-IsValid cs (perform c s) (perform-IsValid c s v)

  lookup-write_all :
      (k : ℕ) (xs : List HtObject) (s : Driver Table)
      → IsValid api s
      → lookup api (write_all xs s) k ≡ last_data k (lookup api s k) xs
  unfolding write_all last_data
  lookup-write_all k [] s v = refl
  lookup-write_all k (x ∷ xs) s v =
      rw (
        lookup-write_all k xs (write api x s).0 (write-IsValid api x s v),
        lookup-write api x s k v,
      )

  write_all-IsValid :
      (xs : List HtObject) (s : Driver Table) → IsValid api s → IsValid api (write_all xs s)
  unfolding write_all
  write_all-IsValid [] s v = v
  write_all-IsValid (x ∷ xs) s v = write_all-IsValid xs (write api x s).0 (write-IsValid api x s v)

  pub open_device-IsValid :
      (rdev : ℕ) (s : Driver Table) → IsValid api s → IsValid api (open_device api rdev s)
  unfolding perform
  open_device-IsValid rdev s v = perform-IsValid (open_call rdev) s v

  lookup-open_device :
      (rdev k : ℕ) (s : Driver Table) → lookup api (open_device api rdev s) k ≡ none
  unfolding open_device view find
  lookup-open_device rdev k s = elim (Bool-cases (rdev == 0)) [
    | inl e ↦ rw e (rw e (rw (api.chain-hash_init (hash_min k)) refl))
    | inr e ↦ rw e (rw e (rw (api.chain-hash_init (hash_min k)) refl))
  ]

  -- From a valid state, after a device is opened and any sequence of writes is made, a read answers
  -- with the data of the last write of its key, and with -1 and `-EINVAL` when there was none or
  -- the last one wrote 0.
  pub read-write_all :
      (rdev : ℕ) (xs : List HtObject) (y : HtObject) (s : Driver Table)
      → IsValid api s
      → read api y (write_all xs (open_device api rdev s)) ≡ reply y.key (last_data y.key none xs)
  read-write_all rdev xs y s v =
      let w = open_device-IsValid rdev s v in
      rw (
        read-lookup api y (write_all xs (open_device api rdev s)) (write_all-IsValid xs _ w),
        lookup-write_all y.key xs (open_device api rdev s) w,
        lookup-open_device rdev y.key s,
      )

  -- Both devices share `current_dev_no`. From a valid state, once device 0 and then a device with
  -- another minor number are opened, a write (through whichever of the two files) leaves table 0
  -- as it was, and table 1 has the written entry.
  pub write-last_opened :
      (rdev : ℕ) (x : HtObject) (s : Driver Table)
      → IsValid api s
      → rdev ≢ 0
      → let s' = open_device api rdev (open_device api 0 s) in
        ((write api x s').0.tbl_0 ≡ s'.tbl_0)
        × (view api (write api x s').0.tbl_1 x.key ≡ entry x.data')
  unfolding open_device write
  write-last_opened rdev x s v h =
      ground (arith, view-write_table api x hash_init (hash_init-IsPlaced api) x.key)

  -- Opening a device empties its table, whatever it held, and leaves the other device's table.
  pub open_device-view :
      (rdev k : ℕ) (s : Driver Table)
      → let s' = open_device api rdev s in
        (lookup api s' k ≡ none)
        × ((if rdev == 0 then s'.tbl_1 else s'.tbl_0) ≡ (if rdev == 0 then s.tbl_1 else s.tbl_0))
  unfolding open_device
  open_device-view rdev k s = (lookup-open_device rdev k s, ground arith)
