-- ===== src/Hcsr/Files.antt =====
-- The file operations of `user-space device interface for HC-SR04/HCSR_Driver.c`. A handler takes
-- what it uses of the device, the pins and the log of kernel calls and returns the new ones.
-- `started` is whether `kthread_run` creates the thread; what other threads do to the device before
-- a lock is taken is a function `others`. A buffer the user passes is taken to be readable.
pub mod Reading
pub mod Locking
pub mod Commands
use linux_kernel_programing.Prelude.{
  ℕ, Bool, true, false, not, ◌&&◌, ◌||◌, Option, none, some, List, [], ◌∷◌, ◌==◌, if◌then◌else◌,
}
use linux_kernel_programing.Prelude.Int.{ℤ, pos, negsuc, ltb_ℤ, ◌==ℤ◌, pos_part}
use linux_kernel_programing.Gpio.{Log, irq_freed}
use linux_kernel_programing.Hcsr.Fifo.{FifoBuffer, fifo_read, clear}
use linux_kernel_programing.Hcsr.Device.{Device, no_value, initialize_device}
use linux_kernel_programing.Hcsr.Pins.{PinConfig, Kernel, configure_pins, release_gpio_pins}

abbrev pub success : ℤ
success = pos 0

abbrev pub einval : ℤ
einval = pos 22

-- `spin_lock_irqsave` on the buffer's lock after the `others`: `none` when it is still taken.
unfoldable pub lock : (Device → Device) → Device → Option Device
lock others d =
    if (others d).buffer_lock then none else some (record (others d) { buffer_lock = true })

unfoldable pub unlock : Device → Device
unlock d = record d { buffer_lock = false }

-- The path on which no thread is created returns with the lock taken.
unfoldable pub initiate_measurement : (Device → Device) → Bool → Device → Option (ℤ × Device)
initiate_measurement others started d = elim (lock others d) [
  | none ↦ none
  | some d' ↦ (if started then some (pos 0, unlock d') else some (pos 1, d'))
]

-- `hcsr04_open`: the first device with the minor number is set anew; it becomes the file's.
unfoldable pub hcsr04_open : ℕ → List Device → List Device × Option Device
hcsr04_open minor [] = ([], none)
hcsr04_open minor (d ∷ devices) =
    let (devices', found) = hcsr04_open minor devices in
    if d.minor == minor
    then (initialize_device d ∷ devices, some (initialize_device d))
    else (d ∷ devices', found)

abbrev pub are_configured : Device → Bool
are_configured d = d.are_pins_configured && d.are_m_delta_configured

-- The end of `hcsr04_write`: 0 is taken for a failure of `initiate_measurement`.
unfoldable pub write_result : Option (ℤ × Device) → Option (ℤ × Device)
write_result none = none
write_result (some (r, d)) = if r ==ℤ pos 0 then some (einval, d) else some (success, d)

unfoldable pub hcsr04_write : (Device → Device) → Bool → ℤ → Device → Option (ℤ × Device)
hcsr04_write others started operation d =
    let d' = if operation ==ℤ pos 0 then d else record d { fifo = clear d.fifo } in
    if not (are_configured d)
    then some (einval, d)
    else (if d'.measurement_in_progress
        then some (einval, d')
        else write_result
            (initiate_measurement others started (record d' { measurement_in_progress = true })))

-- What a read returns, what it copied to the user's buffer, the last copy first, and the device.
pub record Reply : Type 0 where
  pub result : ℤ
  pub copies : List FifoBuffer
  pub device : Device

-- One `fifoRead` between lock and unlock.
unfoldable pub locked_read : (Device → Device) → Device → Option (FifoBuffer × Device)
locked_read others d = elim (lock others d) [
  | none ↦ none
  | some d' ↦ some ((fifo_read d'.fifo).0, unlock (record d' { fifo = (fifo_read d'.fifo).1 }))
]

-- A measurement is started unless there is one; 0 from `initiate_measurement` ends the read.
unfoldable pub ensure_measurement : (Device → Device) → Bool → Device → Option (Bool × Device)
ensure_measurement others started d = elim (initiate_measurement others started d) [
  | none ↦ (if d.measurement_in_progress then some (false, d) else none)
  | some (r, d') ↦ (if d.measurement_in_progress then some (false, d) else some (r ==ℤ pos 0, d'))
]

-- The second `fifoRead` of `hcsr04_read`: its measurement is copied, then the empty `buffer`.
unfoldable pub read_again : (Device → Device) → FifoBuffer → Device → Option Reply
read_again others buffer d = elim (locked_read others d) [
  | none ↦ none
  | some (measured, d') ↦
      some (record { result = success; copies = buffer ∷ measured ∷ []; device = d' })
]

abbrev pub rejected : Device → Reply
rejected d = record { result = einval; copies = []; device = d }

-- The part of `hcsr04_read` for an empty buffer.
unfoldable pub read_empty : (ℕ → Device → Device) → Bool → FifoBuffer → Device → Option Reply
read_empty others started buffer d = elim (ensure_measurement (others 1) started d) [
  | none ↦ none
  | some (ended, d') ↦ (if ended then some (rejected d') else read_again (others 2) buffer d')
]

unfoldable pub hcsr04_read : (ℕ → Device → Device) → Bool → Device → Option Reply
hcsr04_read others started d = elim (locked_read (others 0) d) [
  | none ↦ none
  | some (buffer, d') ↦
      (if buffer.distance ==ℤ negsuc 0
        then (if not (are_configured d')
            then some (rejected d')
            else read_empty others started buffer d')
        else some (record { result = success; copies = buffer ∷ []; device = d' }))
]

-- The interrupt is given back unless there is none.
unfoldable pub free_irq : Device → Log → Log
free_irq d log = if d.irq_data.irq_no ==ℤ no_value then log else irq_freed (d.irq_data.irq_no) ∷ log

-- `hcsr04_release` after `print_device_data`; stopping the thread is left to the other threads.
unfoldable pub hcsr04_release : Device → List PinConfig → Log → Device × List PinConfig × Log
hcsr04_release d pins log =
    let (pins', log') = release_gpio_pins (some d.minor) pins (free_irq d log) in
    (initialize_device d, pins', log')

-- The pins of the shield without an interrupt on both edges.
abbrev pub non_echo_pins : List ℕ
non_echo_pins = 0 ∷ 1 ∷ 7 ∷ 8 ∷ 10 ∷ 12 ∷ []

-- The loop over `non_echo_pins`.
unfoldable pub is_edge_interruptible : List ℕ → ℤ → Bool
is_edge_interruptible [] echo = true
is_edge_interruptible (p ∷ ps) echo =
    let rest = is_edge_interruptible ps echo in if echo ==ℤ pos p then false else rest

-- The commands, with `param_1` and `param_2`.
pub data Command : Type 0 where
  config_pins : ℤ → ℤ → Command
  set_parameters : ℤ → ℤ → Command
  unknown : Command

abbrev pub has_pin : Option ℕ → Bool
has_pin none = false
has_pin (some p) = true

-- The interrupt of the pins that the device had.
unfoldable pub free_old_irq : Device → Log → Device × Log
free_old_irq d log =
    if has_pin d.echo_pin && not (d.irq_data.irq_no ==ℤ no_value)
    then (
      record d { echo_pin = none; irq_data = record (d.irq_data) { irq_no = no_value } },
      irq_freed (d.irq_data.irq_no) ∷ log,
    )
    else (d, log)

abbrev pub in_range : ℤ → Bool
in_range p = not (ltb_ℤ p (pos 0)) && not (ltb_ℤ (pos 12) p)

-- `configure_galileo_pins` and what follows it.
unfoldable pub take_pins :
    Kernel → ℕ → ℕ → Device → List PinConfig → Log → ℤ × Device × List PinConfig × Log
take_pins k trigger echo d pins log =
    let (d₁, log₁) = free_old_irq d log in
    let (ok, d₂, pins', log₂) =
      configure_pins k (record d₁ { trigger_pin = some trigger; echo_pin = some echo }) pins log₁ in
    if ok
    then (success, record d₂ { are_pins_configured = true }, pins', log₂)
    else (einval, d₂, pins', log₂)

unfoldable pub hcsr04_ioctl :
    Kernel → Command → Device → List PinConfig → Log → ℤ × Device × List PinConfig × Log
hcsr04_ioctl k (config_pins trigger echo) d pins log =
    if in_range trigger && in_range echo && is_edge_interruptible non_echo_pins echo
    then take_pins k (pos_part trigger) (pos_part echo) d pins log
    else (einval, d, pins, log)
hcsr04_ioctl k (set_parameters m delta) d pins log =
    if ltb_ℤ (pos 0) m && ltb_ℤ (pos 0) delta
    then (success, record d { m = m; delta = delta; are_m_delta_configured = true }, pins, log)
    else (einval, d, pins, log)
hcsr04_ioctl k unknown d pins log = (einval, d, pins, log)
