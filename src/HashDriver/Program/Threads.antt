-- ===== src/HashDriver/Program/Threads.antt =====
-- What holds however the threads of the program are interleaved.
use native.Mathlib.Decide.{dec_lt}
use linux_kernel_programing.Prelude.{
  ℕ, ◌+◌, ◌*◌, ◌≤◌, ◌<◌, ◌≡◌, true, List, [], ◌∷◌, arith, length, if◌then◌else◌, ◌⊎◌, inl, inr,
  Bool-cases,
}
use linux_kernel_programing.Prelude.Counting.{total, total_mono, find_counted}
use linux_kernel_programing.HashDriver.Program.{
  Shared, Pc, fill_test, fill_wait, fill_hold, fill_done, operate_test, operate_wait, operate_hold,
  operate_done, exited, Move, fill_go, fill_over, fill_lock, fill_add, fill_unlock, operate_go,
  operate_over, operate_lock, operate_work, operate_unlock, System, Step, move, Reach,
}
use linux_kernel_programing.HashDriver.Program.Counts.{holds, past_fill, has_exited, writes}
use linux_kernel_programing.HashDriver.Program.Moves.{Reach-Inv}

-- However the threads are interleaved: exactly one thread has the mutex while it is locked, and
-- none while it is not; and the counters, which are tested without the mutex, pass 200 and 100 by
-- less than the number of threads.
pub Reach-mutex :
    (n k : ℕ) (s : System)
    → Reach n k s
    → (total holds s.threads ≡ (if s.shared.common_mutex_lock then 1 else 0))
      × (s.shared.hashdata_counter ≤ 199 + n)
      × (s.shared.hashtable_operations ≤ 99 + n)
Reach-mutex n k s r =
    let i = Reach-Inv r in (i.mutex, omega (arith, i.fill_bound), omega (arith, i.operate_bound))

abbrev pub unfinished : Pc → ℕ
unfinished exited = 0
unfinished p = 1

unfinished-rest : (p : Pc) → unfinished p + has_exited p ≡ 1
unfinished-rest p = ground arith

total-unfinished : (ps : List Pc) → total unfinished ps + total has_exited ps ≡ length ps
total-unfinished [] = omega arith
total-unfinished (p ∷ ps) = omega (arith, unfinished-rest p, total-unfinished ps)

exited-past_fill : (p : Pc) → has_exited p ≤ past_fill p
exited-past_fill p = ground arith

-- When all of at least one threads are through, however they were interleaved: the driver got at
-- least 200 writes, and with `n` threads at most `298 + 2 n`.
pub Reach-writes :
    (n k : ℕ) (s : System)
    → Reach n k s
    → 0 < n
    → total unfinished s.threads ≡ 0
    → (200 ≤ writes s.shared.calls) × (writes s.shared.calls ≤ 298 + 2 * n)
Reach-writes n k s r some_thread over =
    let i = Reach-Inv r in
    let all = total-unfinished s.threads in
    let past = total_mono has_exited past_fill s.threads exited-past_fill in
    let filled : 200 ≤ s.shared.hashdata_counter = i.filled (omega (arith, all, past, i.number)) in
    (omega (arith, filled, i.written), omega (arith, i.written, i.fill_bound, i.operate_bound))

-- A thread that has the mutex can move, and any that is not through if the mutex is free.
goes_on :
    (m : Shared) (p : Pc)
    → 0 < unfinished p
    → (m.common_mutex_lock ≡ true → 0 < holds p)
    → (m' : Shared) × (p' : Pc) × Move m p m' p'
goes_on m fill_test u h = elim (dec_lt m.hashdata_counter 200) [
  | yes lt ↦ (m, fill_wait, fill_go lt)
  | no ge ↦ (m, operate_test, fill_over (omega (arith, ge)))
]
goes_on m fill_wait u h = elim (Bool-cases m.common_mutex_lock) [
  | inl locked ↦ absurd (omega (arith, h locked))
  | inr free ↦ (record m { common_mutex_lock = true }, fill_hold, fill_lock free)
]
goes_on m fill_hold u h = (_, _, fill_add 0 0 0)
goes_on m fill_done u h = (_, _, fill_unlock)
goes_on m operate_test u h = elim (dec_lt m.hashtable_operations 100) [
  | yes lt ↦ (m, operate_wait, operate_go lt)
  | no ge ↦ (m, exited, operate_over (omega (arith, ge)))
]
goes_on m operate_wait u h = elim (Bool-cases m.common_mutex_lock) [
  | inl locked ↦ absurd (omega (arith, h locked))
  | inr free ↦ (record m { common_mutex_lock = true }, operate_hold, operate_lock free)
]
goes_on m operate_hold u h = (_, _, operate_work 0 0 0 0)
goes_on m operate_done u h = (_, _, operate_unlock)
goes_on m exited u h = absurd (omega arith)

holds-unfinished : (p : Pc) → holds p ≤ unfinished p
holds-unfinished p = ground arith

Reach-progress :
    (n k : ℕ) (s : System)
    → Reach n k s
    → (total unfinished s.threads ≡ 0) ⊎ ((t : System) × Step s t)
Reach-progress n k s r =
    let i = Reach-Inv r in
    elim (Bool-cases s.shared.common_mutex_lock) [
      | inl locked ↦
          let (before, p, after, e, has) =
            find_counted holds s.threads (ground (arith, i.mutex, locked)) in
          let (m', p', mv) =
            goes_on s.shared p (omega (arith, has, holds-unfinished p)) (λ _. has) in
          inr (_, move before after e mv)
      | inr free ↦ elim (dec_lt 0 (total unfinished s.threads)) [
        | no over ↦ inl (omega (arith, over))
        | yes more ↦
            let (before, p, after, e, left) = find_counted unfinished s.threads more in
            let (m', p', mv) = goes_on s.shared p left (λ locked. absurd (cc (locked, free))) in
            inr (_, move before after e mv)
      ]
    ]

-- However the threads are interleaved, they make at most 17 steps a thread and 1490 more, and as
-- long as they are not all through, one of them can make a step: they never wait for each other
-- without end.
pub Reach-ends :
    (n k : ℕ) (s : System)
    → Reach n k s
    → (k ≤ 1490 + 17 * n) × ((total unfinished s.threads ≡ 0) ⊎ ((t : System) × Step s t))
Reach-ends n k s r =
    let i = Reach-Inv r in
    (omega (arith, i.steps, i.fill_bound, i.operate_bound), Reach-progress n k s r)
