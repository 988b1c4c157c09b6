-- ===== src/Mprobe/Tests.antt =====
-- The theorems about `Mprobe.c` at concrete inputs.
use linux_kernel_programing.Prelude.{
  ℕ, ◌≡◌, refl, Bool, true, none, some, [], ◌∷◌, arith, replicate,
}
use linux_kernel_programing.Prelude.Int.{pos}
use linux_kernel_programing.Mprobe.{
  UserOutput, RingBuffer, State, mprobe_pre_handler, mprobe_device_open, mprobe_device_write,
  mprobe_device_read, refused,
}
use linux_kernel_programing.Mprobe.Probing.{hits, read_all, hits-read_all}
use linux_kernel_programing.Mprobe.Missing.{read_call, write_call, run, mprobe_device_write-hit}

abbrev seen : ℕ → UserOutput
seen a = record { kprobe_addr = a; tsc = 70; pid = 8; value = 9 }

-- What the memory held.
abbrev old : UserOutput
old = record { kprobe_addr = 1; tsc = 2; pid = 3; value = 4 }

abbrev old_ring : RingBuffer
old_ring = record { slots = none; head = 0; tail = 0; count = 0; loss = 0 }

abbrev idle : State
idle = record { output = none; kp = none; lost = [] }

hits-read_all_example :
    (s' : State) × (hits
        (seen 100 ∷ seen 101 ∷ [])
        (mprobe_device_open true true old_ring (replicate 10 old) idle).0
      ≡ some s')
    × (read_all 2 s'
        ≡ some (
            some (record old { kprobe_addr = 100 }) ∷ some (record old { kprobe_addr = 101 }) ∷ []))
hits-read_all_example =
    hits-read_all old_ring (replicate 10 old) (seen 100 ∷ seen 101 ∷ []) idle refl (omega arith)
      (omega arith)

mprobe_device_write-hit_example :
    (s' : State) × (run
        (read_call true ∷ write_call 4096 12 (pos 0) ∷ [])
        (mprobe_device_write 4096 8 (pos 0) idle).0
      ≡ some s')
    × ((copy_ok : Bool) → mprobe_device_read copy_ok s' ≡ some (s', refused))
    × ((seen : UserOutput) → mprobe_pre_handler seen s' ≡ none)
mprobe_device_write-hit_example =
    mprobe_device_write-hit 4096 8 (pos 0) (read_call true ∷ write_call 4096 12 (pos 0) ∷ []) idle
