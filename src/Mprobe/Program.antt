-- ===== src/Mprobe/Program.antt =====
-- `Kprobe/Main.c`: the program of the hash table driver (its threads are those of
-- `Hash Table Driver/Main.c`, the same text) with one more thread, created first, which plants a
-- probe in the driver's write function. What the probe's handler sees is a parameter.
pub mod Planting
mod Tests
use linux_kernel_programing.Prelude.{
  ℕ, ◌+◌, ◌≤◌, ◌≡◌, Bool, true, false, not, ◌&&◌, ◌||◌, Option, none, some, List, [], ◌∷◌, ◌==◌,
  if◌then◌else◌,
}
use linux_kernel_programing.Prelude.Int.{ℤ, pos, ltb_ℤ}
use linux_kernel_programing.HashDriver.Program.{System, Step, created}
use linux_kernel_programing.HashDriver.Program.Counts.{writes}
use linux_kernel_programing.Mprobe.{
  UserOutput, RingBuffer, State, mprobe_pre_handler, mprobe_device_open, mprobe_device_write,
}

-- What the kprobe thread writes, and what comes of it: the address of the driver's write function,
-- the offset that the user gave, the result of `register_kprobe`, whether the write to the hash
-- table that leads to a state of the threads runs through the instruction at the probe's address, and
-- whether it runs through a probe that is still registered though the driver forgot it.
pub record Probe : Type 0 where
  pub base : ℕ
  pub func_offset : ℕ
  pub res : ℤ
  pub reached : System → Bool
  pub reached_lost : System → Bool

-- The threads of the hash table, the probe driver, and, once the kprobe thread is through, how many
-- writes the hash table had got before (which is only recorded).
pub record Probed : Type 0 where
  pub system : System
  pub mprobe : State
  pub planted : Option ℕ

-- A probe that is registered.
abbrev pub is_armed : State → Bool
is_armed s = elim s.kp [ none ↦ false | some (addr, registered) ↦ registered ]

-- Probes that are registered though no pointer to them is left.
abbrev pub has_lost : State → Bool
has_lost m = elim m.lost [ [] ↦ false | addr ∷ lost ↦ true ]

-- The writing thread runs into a registered probe.
abbrev pub runs_into : Probe → System → State → Bool
runs_into p t m = (p.reached t && is_armed m) || (p.reached_lost t && has_lost m)

abbrev pub wrote : System → System → Bool
wrote s t = not (writes t.shared.calls == writes s.shared.calls)

-- A step of the hash table's threads from `s` to `t`: a write that runs into a probe calls its
-- handler. `none`: the handler follows a null pointer.
unfoldable pub strike : Probe → UserOutput → System → System → State → Option State
strike p seen s t m = if wrote s t && runs_into p t m then mprobe_pre_handler seen m else some m

unfoldable pub kprobe_thread_function : Probe → State → State
kprobe_thread_function p m = (mprobe_device_write p.base p.func_offset p.res m).0

-- A step of one of the threads.
pub data Turn (p : Probe) (s : Probed) : Option Probed → Type 0 where
  hashes :
      (seen : UserOutput) {t : System} {m : State}
      → Step s.system t
      → strike p seen s.system t s.mprobe ≡ some m
      → Turn p s (some (record s { system = t; mprobe = m }))
  crashes :
      (seen : UserOutput) {t : System}
      → Step s.system t
      → strike p seen s.system t s.mprobe ≡ none
      → Turn p s none
  plants :
      s.planted ≡ none
      → Turn p s (
          some (record s {
            mprobe = kprobe_thread_function p s.mprobe;
            planted = some (writes s.system.shared.calls);
          }))

-- The devices are opened and the threads created, five of them for the hash table.
unfoldable pub begun : RingBuffer → List UserOutput → State → Probed
begun memory slots m = record {
  system = created 5;
  mprobe = (mprobe_device_open true true memory slots m).0;
  planted = none;
}

-- What the threads reach in any number of steps.
pub data Reaches (p : Probe) (s : Probed) : Probed → Type 0 where
  stays : Reaches p s s
  turns : {t u : Probed} → Reaches p s t → Turn p t (some u) → Reaches p s u
