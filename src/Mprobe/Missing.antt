-- ===== src/Mprobe/Missing.antt =====
-- The buffer that `Kprobe/Mprobe.c` frees while a probe is planted.
use linux_kernel_programing.Prelude.{ℕ, ◌≡◌, refl, Bool, Option, none, some, List, [], ◌∷◌, arith}
use linux_kernel_programing.Prelude.Int.{ℤ}
use linux_kernel_programing.Mprobe.{
  UserOutput, State, refused, mprobe_pre_handler, mprobe_device_write, mprobe_device_read,
  mprobe_device_unregister, clear_all,
}

-- The calls on an open device.
pub data Call : Type 0 where
  write_call : ℕ → ℕ → ℤ → Call
  read_call : Bool → Call
  unregister_call : Call

unfoldable pub run : List Call → State → Option State
run [] s = some s
run (write_call base func_offset res ∷ cs) s = run cs (mprobe_device_write base func_offset res s).0
run (read_call copy_ok ∷ cs) s = elim (mprobe_device_read copy_ok s) [
  | none ↦ none
  | some (s', reply) ↦ run cs s'
]
run (unregister_call ∷ cs) s = run cs (mprobe_device_unregister s).0

read-none :
    (copy_ok : Bool) (s : State)
    → s.output ≡ none
    → mprobe_device_read copy_ok s ≡ some (s, refused)
unfolding mprobe_device_read
read-none copy_ok s h = ground (arith, h)

run-none :
    (cs : List Call) (s : State)
    → s.output ≡ none
    → (s' : State) × (run cs s ≡ some s') × (s'.output ≡ none)
unfolding run mprobe_device_write mprobe_device_unregister clear_all
run-none [] s h = (s, refl, h)
run-none (write_call base func_offset res ∷ cs) s h =
    run-none cs (mprobe_device_write base func_offset res s).0 refl
run-none (read_call copy_ok ∷ cs) s h =
    let (s', e, h') = run-none cs s h in (s', ground (arith, e, read-none copy_ok s h), h')
run-none (unregister_call ∷ cs) s h = run-none cs (mprobe_device_unregister s).0 refl

-- A write plants a probe and frees the buffer. Whatever writes, reads and unregistrations follow,
-- until the device is opened anew: they return, every read is refused, and a hit of a probe follows
-- a null pointer.
pub mprobe_device_write-hit :
    (base func_offset : ℕ) (res : ℤ) (cs : List Call) (s : State)
    → (s' : State) × (run cs (mprobe_device_write base func_offset res s).0 ≡ some s')
      × ((copy_ok : Bool) → mprobe_device_read copy_ok s' ≡ some (s', refused))
      × ((seen : UserOutput) → mprobe_pre_handler seen s' ≡ none)
unfolding mprobe_pre_handler mprobe_device_write clear_all
mprobe_device_write-hit base func_offset res cs s =
    let (s', e, h) = run-none cs (mprobe_device_write base func_offset res s).0 refl in
    (s', e, λ copy_ok. read-none copy_ok s' h, λ seen. ground (arith, h))
