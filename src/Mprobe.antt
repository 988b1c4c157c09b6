-- ===== src/Mprobe.antt =====
-- `Kprobe/Mprobe.c`: a driver that plants a probe in the hash table driver and keeps what the
-- probe saw in a ring buffer. `none` is a path on which the kernel follows a null pointer or
-- leaves the buffer.
pub mod Probing
pub mod Missing
pub mod Module
pub mod Program
mod Tests
use linux_kernel_programing.Prelude.{
  ℕ, ◌+◌, ◌%◌, ◌^◌, Bool, true, false, not, ◌&&◌, Option, none, some, List, [], ◌∷◌, get_elem?, set,
  ltb, leb, ◌==◌, if◌then◌else◌,
}
use linux_kernel_programing.Prelude.Int.{ℤ, pos, negsuc, ltb_ℤ}

-- `user_output`; the `int`s are 32-bit patterns.
pub record UserOutput : Type 0 where
  pub kprobe_addr : ℕ
  pub tsc : ℕ
  pub pid : ℕ
  pub value : ℕ

abbrev pub size_of_buffer : ℕ
size_of_buffer = 10

-- `struct mprobe_ring_buffer`; `none` is a null pointer to the data. `count` and `loss` are
-- `unsigned long`s of 32 bits.
pub record RingBuffer : Type 0 where
  pub slots : Option (List UserOutput)
  pub head : ℕ
  pub tail : ℕ
  pub count : ℕ
  pub loss : ℕ

-- `mprobe_output`, `kp` with the address it holds and whether `register_kprobe` took it, and the
-- addresses of probes that are registered though no pointer to them is left.
pub record State : Type 0 where
  pub output : Option RingBuffer
  pub kp : Option (ℕ × Bool)
  pub lost : List ℕ

-- `sizeof(mprobe_output)` is the size of a pointer, so `memcpy` copies the first field alone.
unfoldable pub copy_pointer : UserOutput → UserOutput → UserOutput
copy_pointer seen old = record old { kprobe_addr = seen.kprobe_addr }

-- The end of `mprobe_pre_handler`.
unfoldable pub store : UserOutput → RingBuffer → Option RingBuffer
store seen r =
    let next = (r.tail + 1) % size_of_buffer in
    elim r.slots [
      | none ↦ some r
      | some slots ↦ elim (get_elem? slots r.tail) [
        | none ↦ none
        | some old ↦ some (record r {
          slots = some (set slots r.tail (copy_pointer seen old));
          tail = next;
          count = if next == r.head then r.count else (r.count + 1) % 2 ^ 32;
          loss = if next == r.head then (r.loss + 1) % 2 ^ 32 else r.loss;
        })
      ]
    ]

unfoldable pub mprobe_pre_handler : UserOutput → State → Option State
mprobe_pre_handler seen s = elim s.output [
  | none ↦ none
  | some r ↦ elim (store seen r) [ none ↦ none | some r' ↦ some (record s { output = some r' }) ]
]

-- What a probe leaves behind when the pointer to it is overwritten.
abbrev pub forgotten : Option (ℕ × Bool) → List ℕ → List ℕ
forgotten none lost = lost
forgotten (some (addr, true)) lost = addr ∷ lost
forgotten (some (addr, false)) lost = lost

-- `mprobe_device_open`: whether the two allocations succeed, and what the memory held before.
unfoldable pub mprobe_device_open : Bool → Bool → RingBuffer → List UserOutput → State → State × ℤ
mprobe_device_open ring_ok data_ok memory slots s =
    let s' = record s { output = none; kp = none; lost = forgotten s.kp s.lost } in
    let empty : RingBuffer = record {
      slots = some slots;
      head = 0;
      tail = 0;
      count = 0;
      loss = 0;
    } in
    if not ring_ok
    then (s', negsuc 11)
    else (if not data_ok
        then (record s' { output = some (record memory { slots = none }) }, negsuc 11)
        else (record s' { output = some empty }, pos 0))

-- The buffer is freed and the probe unregistered: `mprobe_device_release`,
-- `mprobe_device_unregister` and the beginning of `mprobe_device_write`.
unfoldable pub clear_all : State → State
clear_all s = record s { output = none; kp = none }

unfoldable pub mprobe_device_release : State → State × ℤ
mprobe_device_release s = (clear_all s, pos 0)

unfoldable pub mprobe_device_unregister : State → State × ℤ
mprobe_device_unregister s = (clear_all s, pos 0)

-- `base` is the address of `ht530_drv_driver_write`, `res` what `register_kprobe` returns.
unfoldable pub mprobe_device_write : ℕ → ℕ → ℤ → State → State × ℤ
mprobe_device_write base func_offset res s = (
  record (clear_all s) { kp = some ((base + func_offset) % 2 ^ 32, not (ltb_ℤ res (pos 0))) },
  pos 0,
)

-- `sizeof(user_output)` on the board, a 32-bit one: 4, 8, 4 and 4 bytes.
abbrev pub sizeof_user_output : ℕ
sizeof_user_output = 20

-- What a read gives: the record that is copied (`none`: the `int` -1), and the result.
pub record Reply : Type 0 where
  pub copied : Option UserOutput
  pub result : ℤ

abbrev pub refused : Reply
refused = record { copied = none; result = negsuc 21 }

unfoldable pub read_ring : RingBuffer → Option (RingBuffer × Reply)
read_ring r = elim r.slots [
  | none ↦ none
  | some slots ↦ elim (get_elem? slots r.head) [
    | none ↦ none
    | some found ↦ some (
      record r { head = (r.head + 1) % size_of_buffer },
      record { copied = some found; result = pos sizeof_user_output },
    )
  ]
]

-- `copy_ok`: `copy_to_user` of the record succeeds.
unfoldable pub mprobe_device_read : Bool → State → Option (State × Reply)
mprobe_device_read copy_ok s = elim s.output [
  | none ↦ some (s, refused)
  | some r ↦
      (if leb 1 r.count
        then (if copy_ok
            then elim (read_ring r) [
              | none ↦ none
              | some (r', reply) ↦ some (record s { output = some r' }, reply)
            ]
            else some (s, refused))
        else some (s, refused))
]
