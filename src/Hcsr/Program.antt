-- ===== src/Hcsr/Program.antt =====
-- `user-space device interface for HC-SR04/Main.c`, the program that uses two sensors: its calls in
-- order, on the driver's operations. What the measuring threads do before a call, while the program
-- sleeps, and while a call waits for a lock is a parameter. The open of both devices succeeds.
use linux_kernel_programing.Prelude.{
  ℕ, suc, Bool, true, false, ◌||◌, Option, none, some, List, [], ◌∷◌, if◌then◌else◌,
}
use linux_kernel_programing.Prelude.Int.{ℤ, pos, ltb_ℤ}
use linux_kernel_programing.Gpio.{Log}
use linux_kernel_programing.Hcsr.Fifo.{FifoBuffer}
use linux_kernel_programing.Hcsr.Device.{Device, initialize_device}
use linux_kernel_programing.Hcsr.Pins.{PinConfig, Kernel}
use linux_kernel_programing.Hcsr.Files.{
  Command, config_pins, set_parameters, hcsr04_ioctl, hcsr04_write, hcsr04_read, Reply,
}

-- `fd_hcsr_0` and `fd_hcsr_1`.
pub data Fd : Type 0 where
  fd_hcsr_0 : Fd
  fd_hcsr_1 : Fd

-- A call of the program; of a read, whether the program prints its result in any case, or only if
-- the distance is negative.
pub data UserCall : Type 0 where
  ioctl_call : Fd → Command → UserCall
  write_call : Fd → ℤ → UserCall
  read_call : Fd → Bool → UserCall

abbrev pub clear_buffer : ℤ
clear_buffer = pos 1

abbrev pub append_to_buffer : ℤ
append_to_buffer = pos 0

unfoldable pub main_calls : List UserCall
main_calls =
    ioctl_call fd_hcsr_0 (config_pins (pos 8) (pos 9))
    ∷ ioctl_call fd_hcsr_0 (set_parameters (pos 5) (pos 300))
    ∷ ioctl_call fd_hcsr_1 (config_pins (pos 7) (pos 6))
    ∷ ioctl_call fd_hcsr_1 (set_parameters (pos 7) (pos 300))
    ∷ write_call fd_hcsr_0 append_to_buffer
    ∷ write_call fd_hcsr_1 append_to_buffer
    ∷ write_call fd_hcsr_0 clear_buffer
    ∷ read_call fd_hcsr_1 true
    ∷ write_call fd_hcsr_0 append_to_buffer
    ∷ write_call fd_hcsr_1 append_to_buffer
    ∷ write_call fd_hcsr_0 append_to_buffer
    ∷ read_call fd_hcsr_0 false
    ∷ read_call fd_hcsr_1 false
    ∷ write_call fd_hcsr_1 append_to_buffer
    ∷ write_call fd_hcsr_0 append_to_buffer
    ∷ write_call fd_hcsr_0 append_to_buffer
    ∷ read_call fd_hcsr_0 false
    ∷ read_call fd_hcsr_1 false
    ∷ write_call fd_hcsr_1 append_to_buffer
    ∷ write_call fd_hcsr_1 append_to_buffer
    ∷ write_call fd_hcsr_1 append_to_buffer
    ∷ write_call fd_hcsr_0 append_to_buffer
    ∷ write_call fd_hcsr_0 append_to_buffer
    ∷ write_call fd_hcsr_0 append_to_buffer
    ∷ []

-- The two devices, the pins, the user's buffer, and what the program printed, the last first.
pub record Machine : Type 0 where
  pub device_0 : Device
  pub device_1 : Device
  pub pins : List PinConfig
  pub log : Log
  pub buffer : FifoBuffer
  pub printed : List FifoBuffer

-- For the call of each number: what other threads do to its device before it, and before it takes a
-- lock for the first, second or third time, and whether `kthread_run` creates a thread.
pub record Surroundings : Type 0 where
  pub kernel : Kernel
  pub meanwhile : ℕ → Device → Device
  pub others : ℕ → ℕ → Device → Device
  pub started : ℕ → Bool

abbrev pub device_of : Fd → Machine → Device
device_of fd_hcsr_0 s = s.device_0
device_of fd_hcsr_1 s = s.device_1

abbrev pub with_device : Fd → Device → Machine → Machine
with_device fd_hcsr_0 d s = record s { device_0 = d }
with_device fd_hcsr_1 d s = record s { device_1 = d }

-- A read that copies nothing leaves the user's buffer as it was.
abbrev pub received : Reply → FifoBuffer → FifoBuffer
received reply old = elim reply.copies [ [] ↦ old | b ∷ _ ↦ b ]

-- A read, and the `printf` after it.
unfoldable pub report : Bool → FifoBuffer → Machine → Machine
report always b s = record s {
  buffer = b;
  printed = if always || ltb_ℤ b.distance (pos 0) then b ∷ s.printed else s.printed;
}

-- `none`: the call waits for a lock without end.
unfoldable pub execute : Surroundings → ℕ → UserCall → Machine → Option Machine
execute e i (ioctl_call fd command) s =
    let d = e.meanwhile i (device_of fd s) in
    let (result, d', pins', log') = hcsr04_ioctl e.kernel command d s.pins s.log in
    some (record (with_device fd d' s) { pins = pins'; log = log' })
execute e i (write_call fd operation) s =
    elim (hcsr04_write (e.others i 0) (e.started i) operation (e.meanwhile i (device_of fd s))) [
      | none ↦ none
      | some (result, d') ↦ some (with_device fd d' s)
    ]
execute e i (read_call fd always) s =
    elim (hcsr04_read (e.others i) (e.started i) (e.meanwhile i (device_of fd s))) [
      | none ↦ none
      | some reply ↦ some (report always (received reply s.buffer) (with_device fd reply.device s))
    ]

-- The calls from number `i` on.
unfoldable pub run : Surroundings → ℕ → List UserCall → Machine → Option Machine
run e i [] s = some s
run e i (c ∷ cs) s = elim (execute e i c s) [ none ↦ none | some s' ↦ run e (suc i) cs s' ]

-- The devices after their opens; `buffer` is what `malloc` gave.
unfoldable pub main :
    Surroundings → Device → Device → List PinConfig → Log → FifoBuffer → Option Machine
main e d₀ d₁ pins log buffer = run e 0 main_calls (record {
  device_0 = initialize_device d₀;
  device_1 = initialize_device d₁;
  pins = pins;
  log = log;
  buffer = buffer;
  printed = [];
})
