-- ===== src/Hcsr/Fifo.antt =====
-- The measurement buffer of `user-space device interface for HC-SR04/HCSR_Driver.c`: five slots
-- and an index. An empty slot has the time stamp -1, which as a `uint64_t` is 2 ^ 64 - 1.
pub mod Stack
use linux_kernel_programing.Prelude.{
  ℕ, zero, suc, ◌+◌, ◌-◌, ◌%◌, ◌^◌, Bool, List, [], ◌∷◌, get_or, set, replicate, ◌==◌,
  if◌then◌else◌,
}
use linux_kernel_programing.Prelude.Int.{ℤ, pos, negsuc}

-- `struct fifo_buffer`
pub record FifoBuffer : Type 0 where
  pub distance : ℤ
  pub tsc : ℕ

-- `buffer` and `bufferIndex` of `struct hcsr04_device`.
pub record Fifo : Type 0 where
  pub slots : List FifoBuffer
  pub index : ℕ

abbrev pub fifo_size : ℕ
fifo_size = 5

-- `NO_VALUE` in a `uint64_t`.
abbrev pub no_tsc : ℕ
no_tsc = 2 ^ 64 - 1

-- A slot that was cleared.
abbrev pub cleared : FifoBuffer
cleared = record { distance = negsuc 0; tsc = no_tsc }

-- What `fifoRead` returns of an empty buffer: the distance `BUFFER_EMPTY`.
abbrev pub nothing_read : FifoBuffer
nothing_read = record { distance = negsuc 0; tsc = 0 }

abbrev pub slot : Fifo → ℕ → FifoBuffer
slot f i = get_or f.slots i cleared

unfoldable pub fifo_read : Fifo → FifoBuffer × Fifo
fifo_read f =
    let buffer = slot f f.index in
    let back = if f.index == 0 then fifo_size - 1 else f.index - 1 in
    if buffer.tsc == no_tsc
    then (nothing_read, f)
    else (buffer, record { slots = set f.slots f.index cleared; index = back })

unfoldable pub fifo_write : Fifo → FifoBuffer → Fifo
fifo_write f buffer =
    let next = (f.index + 1) % fifo_size in record { slots = set f.slots next buffer; index = next }

-- The loop that clears the slots from `start` on.
unfoldable pub clear_slots : ℕ → ℕ → List FifoBuffer → List FifoBuffer
clear_slots zero start slots = slots
clear_slots (suc rounds) start slots = clear_slots rounds (start + 1) (set slots start cleared)

-- The clearing in `hcsr04_write`.
unfoldable pub clear : Fifo → Fifo
clear f = record { slots = clear_slots fifo_size 0 f.slots; index = 0 }
