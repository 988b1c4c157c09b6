-- ===== src/Mprobe/Program/Planting.antt =====
-- What the kprobe thread of `Kprobe/Main.c` does to the other threads.
use mathlib.Core.Path.{subst}
use native.Mathlib.Decide.{dec_lt}
use linux_kernel_programing.Prelude.{
  ℕ, suc, ◌≤◌, ◌<◌, ◌≡◌, ◌∙◌, refl, ap, true, false, not, Option, none, some, List, arith,
  Bool-cases, ◌⊎◌, inl, inr,
}
use linux_kernel_programing.Prelude.Int.{pos, ltb_ℤ}
use linux_kernel_programing.Prelude.Counting.{total}
use linux_kernel_programing.HashDriver.Program.{System, Reach, start, later}
use linux_kernel_programing.HashDriver.Program.Counts.{writes}
use linux_kernel_programing.HashDriver.Program.Threads.{unfinished, Reach-writes}
use linux_kernel_programing.Mprobe.{
  UserOutput, RingBuffer, State, mprobe_pre_handler, mprobe_device_open, mprobe_device_write,
  clear_all,
}
use linux_kernel_programing.Mprobe.Program.{
  Probe, Probed, is_armed, wrote, strike, kprobe_thread_function, Turn, hashes, plants, begun,
  Reaches, stays, turns,
}

-- Until the probe is planted none is registered; from then on there is no ring buffer, and the probe
-- is registered unless `register_kprobe` failed.
abbrev Status : Probe → State → Option ℕ → Type 0
Status p m none = is_armed m ≡ false
Status p m (some w) = (m.output ≡ none) × (is_armed m ≡ not (ltb_ℤ p.res (pos 0)))

-- What a handler of the probe leaves alone.
strike-keeps :
    (p : Probe) (seen : UserOutput) (s t : System) (m : State) {m' : State}
    → strike p seen s t m ≡ some m'
    → (is_armed m' ≡ is_armed m) × (m'.lost ≡ m.lost) × (m.output ≡ none → m'.output ≡ none)
unfolding strike mprobe_pre_handler
strike-keeps p seen s t m e =
    (ground (arith, e), ground (arith, e), λ gone. ground (arith, e, gone))

strike-Status :
    (p : Probe) (seen : UserOutput) (s t : System) (m : State) {m' : State} (planted : Option ℕ)
    → strike p seen s t m ≡ some m'
    → Status p m planted
    → Status p m' planted
strike-Status p seen s t m none e st = (strike-keeps p seen s t m e).0 ∙ st
strike-Status p seen s t m (some w) e (gone, armed) =
    let (same, lost, keeps_gone) = strike-keeps p seen s t m e in (keeps_gone gone, same ∙ armed)

Turn-Status :
    {p : Probe} {s s' : Probed}
    → Turn p s (some s')
    → Status p s.mprobe s.planted
    → Status p s'.mprobe s'.planted
unfolding kprobe_thread_function mprobe_device_write clear_all
Turn-Status {p} {s} (hashes seen {t} step e) st =
    strike-Status p seen s.system t s.mprobe s.planted e st
Turn-Status (plants e) st = (refl, refl)

begun-Status :
    (p : Probe) (memory : RingBuffer) (slots : List UserOutput) (m : State)
    → let s = begun memory slots m in Status p s.mprobe s.planted
unfolding begun mprobe_device_open
begun-Status p memory slots m = refl

Reaches-Status :
    {p : Probe} {s s' : Probed}
    → Reaches p s s'
    → Status p s.mprobe s.planted
    → Status p s'.mprobe s'.planted
Reaches-Status stays st = st
Reaches-Status (turns r t) st = Turn-Status t (Reaches-Status r st)

-- The writes since the probe was planted.
abbrev Since : Probe → Probed → Type 0
Since p s = (w : ℕ) → s.planted ≡ some w → writes s.system.shared.calls ≡ w

strike-crash :
    (p : Probe) (seen : UserOutput) (s t : System) (m : State)
    → m.output ≡ none
    → is_armed m ≡ true
    → p.reached t ≡ true
    → wrote s t ≡ true
    → strike p seen s t m ≡ none
unfolding strike mprobe_pre_handler
strike-crash p seen s t m gone armed reached h = ground (arith, gone, armed, reached, h)

module _ (p : Probe) (registered : ltb_ℤ p.res (pos 0) ≡ false)
    (every : (t : System) → p.reached t ≡ true) where
  Turn-Since :
      {s s' : Probed} → Turn p s (some s') → Status p s.mprobe s.planted → Since p s → Since p s'
  Turn-Since {s} (hashes seen {t} step e) st since w planted =
      let (gone, armed) = subst (Status p s.mprobe) planted st in
      elim (Bool-cases (wrote s.system t)) [
        | inl new ↦ absurd (
            cc (
              e,
              strike-crash p seen s.system t s.mprobe gone (armed ∙ ap not registered) (every t)
                  new,
            ))
        | inr old ↦ ground (arith, old, since w planted)
      ]
  Turn-Since (plants e) st since w planted = cc

  Reaches-Since :
      {s s' : Probed} → Reaches p s s' → Status p s.mprobe s.planted → Since p s → Since p s'
  Reaches-Since stays st since = since
  Reaches-Since (turns r t) st since = Turn-Since t (Reaches-Status r st) (Reaches-Since r st since)

Reaches-Reach :
    {p : Probe} (memory : RingBuffer) (slots : List UserOutput) (m : State) {s : Probed}
    → Reaches p (begun memory slots m) s
    → (k : ℕ) × Reach 5 k s.system
unfolding begun
Reaches-Reach memory slots m stays = (0, start)
Reaches-Reach memory slots m (turns r (hashes seen step e)) =
    let (k, r') = Reaches-Reach memory slots m r in (suc k, later r' step)
Reaches-Reach memory slots m (turns r (plants e)) = Reaches-Reach memory slots m r

-- If the probe can be registered and every write to the hash table runs through it, then there is no
-- write after it is planted, for that would make the kernel follow a null pointer; so some of the
-- five threads of the hash table are not through, or at least 200 writes came before.
pub planted-writes :
    (p : Probe) (memory : RingBuffer) (slots : List UserOutput) (m : State) (s : Probed) (w : ℕ)
    → ltb_ℤ p.res (pos 0) ≡ false
    → ((t : System) → p.reached t ≡ true)
    → Reaches p (begun memory slots m) s
    → s.planted ≡ some w
    → (writes s.system.shared.calls ≡ w) × ((0 < total unfinished s.system.threads) ⊎ (200 ≤ w))
unfolding begun
planted-writes p memory slots m s w registered every r planted =
    let st = begun-Status p memory slots m in
    let same = Reaches-Since p registered every r st (λ x e. cc) w planted in
    let (k, reach) = Reaches-Reach memory slots m r in
    (
      same,
      elim (dec_lt 0 (total unfinished s.system.threads)) [
        | yes more ↦ inl more
        | no over ↦ inr (
            omega
              (arith, same, Reach-writes 5 k s.system reach (omega arith) (omega (arith, over))))
      ],
    )
