-- ===== src/HashDriver/Program/Tests.antt =====
-- The theorems about the hash table's program at concrete inputs.
use linux_kernel_programing.Prelude.{none, ℕ, ◌+◌, ◌*◌, ◌≤◌, ◌≡◌, ◌⊎◌, refl, true, [], ◌∷◌, arith}
use linux_kernel_programing.HashDriver.Program.{
  add_to_hash_table, fill_add, fill_done, Shared, fill_test, fill_wait, fill_hold, fill_go,
  fill_lock, System, Step, move, created, Reach, start, later,
}
use linux_kernel_programing.HashDriver.Program.Counts.{holds, writes}
use linux_kernel_programing.Prelude.Counting.{total}
use linux_kernel_programing.HashDriver.Program.Tables.{deliver, open_both, Reach-tables}
use linux_kernel_programing.HashDriver.Api.{HashTable}
use linux_kernel_programing.HashDriver.Store.{view, IsValid}
use linux_kernel_programing.HashDriver.Tests
use linux_kernel_programing.HashDriver.Program.Threads.{unfinished, Reach-ends, Reach-mutex}

-- Of five threads, the first has passed its test and waits for the mutex, which the second has.
abbrev fresh : Shared
fresh = (created 5).shared

abbrev locked : Shared
locked = record fresh { common_mutex_lock = true }

abbrev contended : System
contended = record {
  shared = locked;
  threads = fill_wait ∷ fill_hold ∷ fill_test ∷ fill_test ∷ fill_test ∷ [];
}

contended-Reach : Reach 5 3 contended
contended-Reach =
    let first : Step (created 5) (record {
      shared = fresh;
      threads = fill_wait ∷ fill_test ∷ fill_test ∷ fill_test ∷ fill_test ∷ [];
    }) =
      move [] (fill_test ∷ fill_test ∷ fill_test ∷ fill_test ∷ []) refl (fill_go (omega arith)) in
    let others = fill_test ∷ fill_test ∷ fill_test ∷ [] in
    let second = move (fill_wait ∷ []) others refl (fill_go (omega arith)) in
    let third = move (fill_wait ∷ []) others refl (fill_lock refl) in
    later (later (later start first) second) third

Reach-ends_example :
    (3 ≤ 1490 + 17 * 5)
    × ((total unfinished contended.threads ≡ 0) ⊎ ((t : System) × Step contended t))
Reach-ends_example = Reach-ends 5 3 contended contended-Reach

Reach-mutex_example :
    (total holds contended.threads ≡ 1)
    × (contended.shared.hashdata_counter ≤ 199 + 5)
    × (contended.shared.hashtable_operations ≤ 99 + 5)
Reach-mutex_example = Reach-mutex 5 3 contended contended-Reach

-- The second thread has added an object.
abbrev added : System
added = record {
  shared = record locked { hashdata_counter = 1; calls = add_to_hash_table 1 203 17 [] };
  threads = fill_wait ∷ fill_done ∷ fill_test ∷ fill_test ∷ fill_test ∷ [];
}

added-Reach : Reach 5 4 added
added-Reach =
    later contended-Reach
      (move (fill_wait ∷ []) (fill_test ∷ fill_test ∷ fill_test ∷ []) refl (fill_add 1 203 17))

abbrev table : HashTable
table = Tests.buckets_by_function

Reach-tables_example :
    let d' = deliver table added.shared.calls (open_both table 1 Tests.start) in
    IsValid table d'
    × ((q : ℕ) → view table d'.tbl_0 q ≡ none)
    × ((q : ℕ) → 200 ≤ q → view table d'.tbl_1 q ≡ none)
    × (d'.live ≡ 0 + writes added.shared.calls)
Reach-tables_example =
    Reach-tables table 5 4 added 1 Tests.start added-Reach Tests.start-IsValid (omega arith)
