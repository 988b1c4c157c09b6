-- ===== src/HashDriver/Program.antt =====
-- The user's program of the hash table driver, `Hash Table Driver/Main.c`: a number of threads that
-- fill the two tables and then search, add and delete at random, in any order of their steps. The
-- numbers that `rand` gives are arguments, the calls of the driver entries of a log, the newest
-- first. A failure of `clock_gettime` ends the program and is left out.
pub mod Counts
pub mod Moves
pub mod Threads
pub mod Tables
mod Tests
use linux_kernel_programing.Prelude.{
  ℕ, zero, suc, ◌+◌, ◌%◌, ◌≤◌, ◌<◌, ◌≡◌, Bool, true, false, List, [], ◌∷◌, ◌++◌, replicate, ◌==◌,
  if◌then◌else◌,
}
use linux_kernel_programing.HashDriver.Api.{HtObject}

-- A call on one of the two devices; `true` is `fd_write_1`.
pub data Call : Type 0 where
  write_call : Bool → HtObject → Call
  read_call : Bool → ℕ → Call

abbrev table_of : ℕ → Bool
table_of r = r % 2 == 1

unfoldable pub read_hash_table : Bool → ℕ → List Call → List Call
read_hash_table table key calls = read_call table key ∷ calls

unfoldable pub add_to_hash_table : ℕ → ℕ → ℕ → List Call → List Call
add_to_hash_table r₁ r₂ r₃ calls =
    let x : HtObject = record { key = r₂ % 200; data' = r₃ % 200 } in
    read_hash_table (table_of r₁) x.key (write_call (table_of r₁) x ∷ calls)

unfoldable pub delete_from_hash_table : ℕ → ℕ → List Call → List Call
delete_from_hash_table r₁ r₂ calls =
    let x : HtObject = record { key = r₂ % 200; data' = 0 } in
    read_hash_table (table_of r₁) x.key (write_call (table_of r₁) x ∷ calls)

unfoldable pub search_hash_table : ℕ → ℕ → List Call → List Call
search_hash_table r₁ r₂ calls = read_hash_table (table_of r₁) (r₂ % 200) calls

-- The operation of the second loop: `operation` is `r % 3 + 1`.
unfoldable pub operate : ℕ → ℕ → ℕ → ℕ → List Call → List Call
operate r r₁ r₂ r₃ calls =
    if r % 3 + 1 == 1
    then search_hash_table r₁ r₂ calls
    else (if r % 3 + 1 == 2
        then add_to_hash_table r₁ r₂ r₃ calls
        else delete_from_hash_table r₁ r₂ calls)

-- What the threads share: the two counters, the mutex, the calls made.
pub record Shared : Type 0 where
  pub hashdata_counter : ℕ
  pub hashtable_operations : ℕ
  pub common_mutex_lock : Bool
  pub calls : List Call

-- Where a thread is: before the test of a loop, before the mutex, in front of the loop's work, and
-- after it, still with the mutex.
pub data Pc : Type 0 where
  fill_test : Pc
  fill_wait : Pc
  fill_hold : Pc
  fill_done : Pc
  operate_test : Pc
  operate_wait : Pc
  operate_hold : Pc
  operate_done : Pc
  exited : Pc

-- A step of `thread_function`.
pub data Move (m : Shared) : Pc → Shared → Pc → Type 0 where
  fill_go : m.hashdata_counter < 200 → Move m fill_test m fill_wait
  fill_over : 200 ≤ m.hashdata_counter → Move m fill_test m operate_test
  fill_lock :
      m.common_mutex_lock ≡ false
      → Move m fill_wait (record m { common_mutex_lock = true }) fill_hold
  fill_add :
      (r₁ r₂ r₃ : ℕ)
      → Move m fill_hold
          (record m {
            hashdata_counter = m.hashdata_counter + 1;
            calls = add_to_hash_table r₁ r₂ r₃ m.calls;
          })
          fill_done
  fill_unlock : Move m fill_done (record m { common_mutex_lock = false }) fill_test
  operate_go : m.hashtable_operations < 100 → Move m operate_test m operate_wait
  operate_over : 100 ≤ m.hashtable_operations → Move m operate_test m exited
  operate_lock :
      m.common_mutex_lock ≡ false
      → Move m operate_wait (record m { common_mutex_lock = true }) operate_hold
  operate_work :
      (r r₁ r₂ r₃ : ℕ)
      → Move m operate_hold
          (record m {
            hashtable_operations = m.hashtable_operations + 1;
            calls = operate r r₁ r₂ r₃ m.calls;
          })
          operate_done
  operate_unlock : Move m operate_done (record m { common_mutex_lock = false }) operate_test

pub record System : Type 0 where
  pub shared : Shared
  pub threads : List Pc

-- Any thread moves.
pub data Step (s : System) : System → Type 0 where
  move :
      (before after : List Pc) {p p' : Pc} {m : Shared}
      → s.threads ≡ before ++ (p ∷ after)
      → Move s.shared p m p'
      → Step s (record { shared = m; threads = before ++ (p' ∷ after) })

abbrev pub created : ℕ → System
created threads = record {
  shared = record {
    hashdata_counter = 0;
    hashtable_operations = 0;
    common_mutex_lock = false;
    calls = [];
  };
  threads = replicate threads fill_test;
}

-- The systems after so many steps of so many threads.
pub data Reach (threads : ℕ) : ℕ → System → Type 0 where
  start : Reach threads 0 (created threads)
  later : {n : ℕ} {s t : System} → Reach threads n s → Step s t → Reach threads (suc n) t
