-- ===== src/HashDriver/Program/Counts.antt =====
-- Counts of the threads and the calls of the hash table's program, and what they keep.
use linux_kernel_programing.Prelude.{
  ℕ, suc, ◌+◌, ◌*◌, ◌≤◌, ◌<◌, ◌≡◌, refl, Bool, List, [], ◌∷◌, arith, length, if◌then◌else◌,
}
use linux_kernel_programing.Prelude.Counting.{total}
use linux_kernel_programing.HashDriver.Program.{
  Call, write_call, read_call, add_to_hash_table, delete_from_hash_table, search_hash_table,
  read_hash_table, operate, Shared, Pc, fill_test, fill_wait, fill_hold, fill_done, operate_test,
  operate_wait, operate_hold, operate_done, exited,
}

-- A thread that has passed the test of the first loop and not counted yet; of the second.
abbrev pub filling : Pc → ℕ
filling fill_wait = 1
filling fill_hold = 1
filling p = 0

abbrev pub operating : Pc → ℕ
operating operate_wait = 1
operating operate_hold = 1
operating p = 0

-- A thread that has the mutex.
abbrev pub holds : Pc → ℕ
holds fill_hold = 1
holds fill_done = 1
holds operate_hold = 1
holds operate_done = 1
holds p = 0

-- A thread past the first loop; past the second.
abbrev pub past_fill : Pc → ℕ
past_fill operate_test = 1
past_fill operate_wait = 1
past_fill operate_hold = 1
past_fill operate_done = 1
past_fill exited = 1
past_fill p = 0

abbrev pub has_exited : Pc → ℕ
has_exited exited = 1
has_exited p = 0

-- How far a thread is from the end of its round.
abbrev pub rank : Pc → ℕ
rank fill_test = 7
rank fill_wait = 10
rank fill_hold = 9
rank fill_done = 8
rank operate_test = 6
rank operate_wait = 10
rank operate_hold = 9
rank operate_done = 8
rank exited = 0

abbrev pub writes : List Call → ℕ
writes [] = 0
writes (write_call table x ∷ calls) = suc (writes calls)
writes (read_call table key ∷ calls) = writes calls

abbrev pub one_if : Bool → ℕ
one_if b = if b then 1 else 0

-- `n` threads after `k` steps.
pub record Inv (n k : ℕ) (m : Shared) (ps : List Pc) : Type 0 where
  pub number : length ps ≡ n
  pub fill_bound : m.hashdata_counter + total filling ps ≤ 199 + n
  pub operate_bound : m.hashtable_operations + total operating ps ≤ 99 + n
  pub mutex : total holds ps ≡ one_if m.common_mutex_lock
  pub filled : 0 < total past_fill ps → 200 ≤ m.hashdata_counter
  pub operated : 0 < total has_exited ps → 100 ≤ m.hashtable_operations
  pub steps :
      k + total rank ps
      ≤ 5 * (m.hashdata_counter + total filling ps + m.hashtable_operations + total operating ps)
        + 7 * n
  pub written :
      (m.hashdata_counter ≤ writes m.calls)
      × (writes m.calls ≤ m.hashdata_counter + m.hashtable_operations)

pub filling-le : (p : Pc) → filling p ≤ 1
filling-le p = ground arith

pub operating-le : (p : Pc) → operating p ≤ 1
operating-le p = ground arith

pub operate-writes :
    (r r₁ r₂ r₃ : ℕ) (calls : List Call)
    → (writes calls ≤ writes (operate r r₁ r₂ r₃ calls))
      × (writes (operate r r₁ r₂ r₃ calls) ≤ suc (writes calls))
unfolding operate add_to_hash_table delete_from_hash_table search_hash_table read_hash_table
operate-writes r r₁ r₂ r₃ calls = ground arith

pub add-writes :
    (r₁ r₂ r₃ : ℕ) (calls : List Call)
    → writes (add_to_hash_table r₁ r₂ r₃ calls) ≡ suc (writes calls)
unfolding add_to_hash_table read_hash_table
add-writes r₁ r₂ r₃ calls = refl
