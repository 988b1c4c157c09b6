-- ===== src/HashDriver/Program/Tables.antt =====
-- What the program's calls do to the two tables of the driver.
use linux_kernel_programing.Prelude.{
  ℕ, zero, suc, ◌+◌, ◌≤◌, ◌<◌, ◌≡◌, ◌≢◌, refl, ◌∙◌, none, List, [], ◌∷◌, arith,
}
use linux_kernel_programing.Prelude.Int.{ℤ}
use linux_kernel_programing.HashDriver.Api.{HtObject, HashTable}
use linux_kernel_programing.HashDriver.Chain.{find}
use linux_kernel_programing.HashDriver.{Driver, open_device, write, ioctl, dump}
use linux_kernel_programing.HashDriver.Store.{view, IsValid, view-write_table, write-IsValid}
use linux_kernel_programing.HashDriver.History.{open_device-IsValid}
use linux_kernel_programing.HashDriver.Program.{
  Call, write_call, read_call, add_to_hash_table, delete_from_hash_table, search_hash_table,
  read_hash_table, operate, Shared, Pc, Move, fill_add, operate_work, System, move, Reach, start,
  later,
}
use linux_kernel_programing.HashDriver.Program.Counts.{writes}

-- All keys that are written are below 200.
abbrev AllSmall : List Call → Type 0
AllSmall [] = Unit
AllSmall (write_call table x ∷ calls) = (x.key < 200) × AllSmall calls
AllSmall (read_call table key ∷ calls) = AllSmall calls

operate-AllSmall :
    (r r₁ r₂ r₃ : ℕ) (calls : List Call) → AllSmall calls → AllSmall (operate r r₁ r₂ r₃ calls)
unfolding operate add_to_hash_table delete_from_hash_table search_hash_table read_hash_table
operate-AllSmall r r₁ r₂ r₃ calls h = ground (arith, h)

Move-AllSmall : {m m' : Shared} {p p' : Pc} → Move m p m' p' → AllSmall m.calls → AllSmall m'.calls
unfolding add_to_hash_table read_hash_table
Move-AllSmall (fill_add r₁ r₂ r₃) h = (omega arith, h)
Move-AllSmall {m} (operate_work r r₁ r₂ r₃) h = operate-AllSmall r r₁ r₂ r₃ m.calls h
Move-AllSmall mv h = h

Reach-AllSmall : {n k : ℕ} {s : System} → Reach n k s → AllSmall s.shared.calls
Reach-AllSmall start = tt
Reach-AllSmall (later r (move before after here mv)) = Move-AllSmall mv (Reach-AllSmall r)

module _ (api : HashTable) where
  open api use {Table, hash_init}

  -- The calls on the driver, the oldest first. It takes the device from the open, not the file.
  unfoldable pub deliver : List Call → Driver Table → Driver Table
  deliver [] d = d
  deliver (write_call table x ∷ calls) d = (write api x (deliver calls d)).0
  deliver (read_call table key ∷ calls) d = deliver calls d

  -- The calls on a driver whose last opened device is not device 0.
  deliver-second :
      (calls : List Call) (d : Driver Table)
      → AllSmall calls
      → IsValid api d
      → d.minor ≢ 0
      → let d' = deliver calls d in
        IsValid api d'
        × (d'.minor ≡ d.minor)
        × (d'.tbl_0 ≡ d.tbl_0)
        × (d'.live ≡ d.live + writes calls)
        × ((q : ℕ) → 200 ≤ q → view api d'.tbl_1 q ≡ view api d.tbl_1 q)
  unfolding deliver write
  deliver-second [] d small v h = (v, refl, refl, omega arith, λ q big. refl)
  deliver-second (read_call table key ∷ calls) d small v h = deliver-second calls d small v h
  deliver-second (write_call table x ∷ calls) d (low, small) v h =
      let d₁ = deliver calls d in
      let (v₁, minor, same, live, high) = deliver-second calls d small v h in
      (
        write-IsValid api x d₁ v₁,
        ground (arith, minor),
        ground (arith, minor, same, h),
        ground (arith, live),
        λ q big.
            ground (arith, minor, h, low, high q, view-write_table api x d₁.tbl_1 v₁.placed_1 q),
      )

  -- The loops of `main` that print a table: in each of the 128 rounds the number of the bucket is
  -- set to 8, and what the ioctl gives is printed.
  unfoldable pub dump_all : ℕ → Driver Table → List (List HtObject × ℤ)
  dump_all zero d = []
  dump_all (suc rounds) d = ioctl api (dump 8) d ∷ dump_all rounds d

  -- The two opens of `main`.
  abbrev pub open_both : ℕ → Driver Table → Driver Table
  open_both rdev d = open_device api rdev (open_device api 0 d)

  open_both-empty :
      (rdev : ℕ) (d : Driver Table)
      → rdev ≢ 0
      → let d' = open_both rdev d in
        (d'.minor ≡ rdev) × (d'.tbl_0 ≡ hash_init) × (d'.tbl_1 ≡ hash_init) × (d'.live ≡ d.live)
  unfolding open_device
  open_both-empty rdev d h = ground (arith, h)

  view-hash_init : (q : ℕ) → view api hash_init q ≡ none
  unfolding view find
  view-hash_init q = rw (api.chain-hash_init (api.hash_min q)) refl

  -- On a valid driver, when `main` has opened device 0 and then another one, and however its
  -- threads are interleaved: all their calls, those for the first device too, go to the second
  -- table. The first stays empty, the tables stay well formed, the second holds no key from 200 on,
  -- and each write, a deletion too, leaves one more node allocated.
  pub Reach-tables :
      (n k : ℕ) (s : System) (rdev : ℕ) (d : Driver Table)
      → Reach n k s
      → IsValid api d
      → rdev ≢ 0
      → let d' = deliver s.shared.calls (open_both rdev d) in
        IsValid api d'
        × ((q : ℕ) → view api d'.tbl_0 q ≡ none)
        × ((q : ℕ) → 200 ≤ q → view api d'.tbl_1 q ≡ none)
        × (d'.live ≡ d.live + writes s.shared.calls)
  Reach-tables n k s rdev d r v h =
      let (minor, first, second, live) = open_both-empty rdev d h in
      let valid =
        open_device-IsValid api rdev (open_device api 0 d) (open_device-IsValid api 0 d v) in
      let (v', _, same, more, high) =
        deliver-second s.shared.calls (open_both rdev d) (Reach-AllSmall r) valid (rw minor h) in
      (
        v',
        λ q. rw (same, first) (view-hash_init q),
        λ q big. high q big ∙ rw second (view-hash_init q),
        omega (arith, more, live),
      )
