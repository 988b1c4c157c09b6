-- ===== src/HashDriver/Program/Moves.antt =====
-- A step of any thread of the hash table's program keeps the counts.
use linux_kernel_programing.Prelude.{
  ℕ, suc, ◌+◌, ◌*◌, ◌≤◌, ◌<◌, ◌≡◌, false, List, ◌∷◌, ◌++◌, arith, length, length-append,
  length-replicate,
}
use linux_kernel_programing.Prelude.Counting.{total, total-replicate, total-split, total-le}
use linux_kernel_programing.HashDriver.Program.{
  add_to_hash_table, read_hash_table, Shared, Pc, fill_test, Move, fill_go, fill_over, fill_lock,
  operate_go, operate_over, operate_lock, operate_work, System, move, Reach, start, later,
}
use linux_kernel_programing.HashDriver.Program.Counts.{
  filling, operating, holds, past_fill, has_exited, rank, writes, one_if, Inv, filling-le,
  operating-le, operate-writes,
}

-- The premise of a move, for the clause below that stands for all but one.
abbrev Guard : {m m' : Shared} {p p' : Pc} → Move m p m' p' → Type 0
Guard {m} (fill_go _) = m.hashdata_counter < 200
Guard {m} (fill_over _) = 200 ≤ m.hashdata_counter
Guard {m} (fill_lock _) = m.common_mutex_lock ≡ false
Guard {m} (operate_go _) = m.hashtable_operations < 100
Guard {m} (operate_over _) = 100 ≤ m.hashtable_operations
Guard {m} (operate_lock _) = m.common_mutex_lock ≡ false
Guard _ = Unit

guard : {m m' : Shared} {p p' : Pc} (mv : Move m p m' p') → Guard mv
guard (fill_go h) = h
guard (fill_over h) = h
guard (fill_lock h) = h
guard (operate_go h) = h
guard (operate_over h) = h
guard (operate_lock h) = h
guard _ = tt

module _ (n k : ℕ) (before after : List Pc) where
  -- The threads but the one that moves.
  abbrev rest : (Pc → ℕ) → ℕ
  rest f = total f before + total f after

  -- The invariant, with the moving thread `p` apart.
  record Apart (j : ℕ) (m : Shared) (p : Pc) : Type 0 where
    number : length before + suc (length after) ≡ n
    fill_bound : m.hashdata_counter + (filling p + rest filling) ≤ 199 + n
    operate_bound : m.hashtable_operations + (operating p + rest operating) ≤ 99 + n
    mutex : holds p + rest holds ≡ one_if m.common_mutex_lock
    filled : 0 < past_fill p + rest past_fill → 200 ≤ m.hashdata_counter
    operated : 0 < has_exited p + rest has_exited → 100 ≤ m.hashtable_operations
    steps :
        j + (rank p + rest rank)
        ≤ 5
            * (m.hashdata_counter
                + (filling p + rest filling)
                + m.hashtable_operations
                + (operating p + rest operating))
          + 7 * n
    written :
        (m.hashdata_counter ≤ writes m.calls)
        × (writes m.calls ≤ m.hashdata_counter + m.hashtable_operations)

  apart : (m : Shared) (p : Pc) → Inv n k m (before ++ (p ∷ after)) → Apart k m p
  apart m p i =
      let same = λ (f : Pc → ℕ). total-split f before p after in
      record {
        number = omega (arith, i.number, length-append before (p ∷ after));
        fill_bound = omega (arith, i.fill_bound, same filling);
        operate_bound = omega (arith, i.operate_bound, same operating);
        mutex = omega (arith, i.mutex, same holds);
        filled = λ h. i.filled (omega (arith, same past_fill));
        operated = λ h. i.operated (omega (arith, same has_exited));
        steps = omega (arith, i.steps, same filling, same operating, same rank);
        written = i.written;
      }

  together : (m : Shared) (p : Pc) → Apart (suc k) m p → Inv n (suc k) m (before ++ (p ∷ after))
  together m p a =
      let same = λ (f : Pc → ℕ). total-split f before p after in
      record {
        number = omega (arith, a.number, length-append before (p ∷ after));
        fill_bound = omega (arith, a.fill_bound, same filling);
        operate_bound = omega (arith, a.operate_bound, same operating);
        mutex = omega (arith, a.mutex, same holds);
        filled = λ h. a.filled (omega (arith, same past_fill));
        operated = λ h. a.operated (omega (arith, same has_exited));
        steps = omega (arith, a.steps, same filling, same operating, same rank);
        written = a.written;
      }

  few : (a : Shared) (p : Pc) → Apart k a p → (rest filling < n) × (rest operating < n)
  few m p a = (
    omega (arith, a.number, total-le filling before filling-le, total-le filling after filling-le),
    omega (
      arith,
      a.number,
      total-le operating before operating-le,
      total-le operating after operating-le,
    ),
  )

  Move-Apart : {m m' : Shared} {p p' : Pc} → Move m p m' p' → Apart k m p → Apart (suc k) m' p'
  unfolding add_to_hash_table read_hash_table
  Move-Apart {m} (operate_work r r₁ r₂ r₃) a = record {
    number = a.number;
    fill_bound = a.fill_bound;
    operate_bound = omega (arith, a.operate_bound);
    mutex = a.mutex;
    filled = a.filled;
    operated = λ h. omega (arith, a.operated h);
    steps = omega (arith, a.steps);
    written = omega (arith, a.written, operate-writes r r₁ r₂ r₃ m.calls);
  }
  Move-Apart {m} {p = p} mv a = record {
    number = a.number;
    fill_bound = ground (arith, a.fill_bound, few m p a, guard mv);
    operate_bound = ground (arith, a.operate_bound, few m p a, guard mv);
    mutex = ground (arith, a.mutex, guard mv);
    filled = λ h. ground (arith, a.filled, guard mv);
    operated = λ h. ground (arith, a.operated, guard mv);
    steps = ground (arith, a.steps);
    written = ground (arith, a.written);
  }

pub Reach-Inv : {n k : ℕ} {s : System} → Reach n k s → Inv n k s.shared s.threads
Reach-Inv {n} start = record {
  number = length-replicate n fill_test;
  fill_bound = omega (arith, total-replicate filling n fill_test);
  operate_bound = omega (arith, total-replicate operating n fill_test);
  mutex = omega (arith, total-replicate holds n fill_test);
  filled = λ h. omega (arith, total-replicate past_fill n fill_test);
  operated = λ h. omega (arith, total-replicate has_exited n fill_test);
  steps = omega (arith, total-replicate rank n fill_test);
  written = omega arith;
}
Reach-Inv {n} (later {n = k} {s} r (move before after {p} {p'} {m} here mv)) =
    let i = Reach-Inv r in
    let i' : Inv n k s.shared (before ++ (p ∷ after)) = rw (← here) i in
    together n k before after m p'
      (Move-Apart n k before after mv (apart n k before after s.shared p i'))
