-- ===== src/Mprobe/Program/Tests.antt =====
-- The theorems about the program of the probe driver at concrete inputs.
use linux_kernel_programing.Prelude.{
  ◌≤◌, ◌<◌, ◌≡◌, ◌⊎◌, refl, true, false, none, List, [], arith, replicate,
}
use linux_kernel_programing.Prelude.Int.{pos}
use linux_kernel_programing.Prelude.Counting.{total}
use linux_kernel_programing.HashDriver.Program.{
  fill_test, fill_go, fill_lock, fill_add, move, add_to_hash_table, read_hash_table,
}
use linux_kernel_programing.HashDriver.Program.Counts.{writes}
use linux_kernel_programing.HashDriver.Program.Threads.{unfinished}
use linux_kernel_programing.Mprobe.{
  UserOutput, RingBuffer, State, mprobe_pre_handler, mprobe_device_open, mprobe_device_write,
  clear_all,
}
use linux_kernel_programing.Mprobe.Program.{
  Probe, Probed, strike, kprobe_thread_function, Turn, hashes, crashes, plants, begun, Reaches,
  stays, turns,
}
use linux_kernel_programing.Mprobe.Program.Planting.{planted-writes}

-- A probe at the beginning of the write function.
abbrev at_entry : Probe
at_entry = record {
  base = 4096;
  func_offset = 0;
  res = pos 0;
  reached = λ t. true;
  reached_lost = λ t. false;
}

abbrev memory : RingBuffer
memory = record { slots = none; head = 0; tail = 0; count = 0; loss = 0 }

abbrev seen : UserOutput
seen = record { kprobe_addr = 4096; tsc = 7; pid = 30; value = 85 }

abbrev slots : List UserOutput
slots = replicate 10 seen

abbrev loaded : State
loaded = record { output = none; kp = none; lost = [] }

-- The probe is planted at once, and a thread of the hash table takes the mutex.
abbrev session : (s : Probed) × Reaches at_entry (begun memory slots loaded) s
unfolding begun mprobe_device_open strike kprobe_thread_function mprobe_device_write clear_all
session =
    let others = replicate 4 fill_test in
    let planted = turns stays (plants refl) in
    let went = turns planted (hashes seen (move [] others refl (fill_go (omega arith))) refl) in
    (_, turns went (hashes seen (move [] others refl (fill_lock refl)) refl))

planted-writes_example :
    (writes session.0.system.shared.calls ≡ 0)
    × ((0 < total unfinished session.0.system.threads) ⊎ (200 ≤ 0))
unfolding session
planted-writes_example =
    planted-writes at_entry memory slots loaded session.0 0 refl (λ t. refl) session.1 refl

-- The first write of that thread.
abbrev first_write : Turn at_entry session.0 none
unfolding session strike mprobe_pre_handler add_to_hash_table read_hash_table
first_write = crashes seen (move [] (replicate 4 fill_test) refl (fill_add 1 203 17)) refl
