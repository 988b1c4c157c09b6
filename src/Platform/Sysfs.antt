-- ===== src/Platform/Sysfs.antt =====
-- The attributes in sysfs of `platform_driver.c`. `sscanf` and `snprintf` are the kernel's: what a
-- store reads is an argument (`none` if the text holds no number), what a show prints is its
-- result. `none` as the result of a store is a read outside the table `gpio_ctrl`.
pub mod Leaks
pub mod Unlocked
pub mod Session
use linux_kernel_programing.Prelude.{
  ℕ, Bool, true, false, Option, none, some, List, [], ◌∷◌, get_elem?, ltb, ◌==◌, if◌then◌else◌,
}
use linux_kernel_programing.Prelude.Int.{ℤ, pos, negsuc, pos_part, ◌==ℤ◌}
use linux_kernel_programing.Gpio.{Gpio, Log}
use linux_kernel_programing.Platform.Shared.{fifo_read, initiate_measurement}
use linux_kernel_programing.Hcsr.Device.{Device}
use linux_kernel_programing.Hcsr.Files.{einval}
use linux_kernel_programing.Platform.Device.{pin_config2}

abbrev no : Option ℕ
no = none

abbrev pub level_shifters : List (Option ℕ)
level_shifters =
    some 32
    ∷ some 28
    ∷ some 34
    ∷ some 16
    ∷ some 36
    ∷ some 18
    ∷ some 20
    ∷ no
    ∷ no
    ∷ some 22
    ∷ some 26
    ∷ some 24
    ∷ some 42
    ∷ some 30
    ∷ []

abbrev pub mux_1 : List (Option ℕ)
mux_1 =
    no
    ∷ some 45
    ∷ some 77
    ∷ some 76
    ∷ no
    ∷ some 66
    ∷ some 68
    ∷ no
    ∷ no
    ∷ some 70
    ∷ some 74
    ∷ some 44
    ∷ no
    ∷ some 46
    ∷ []

abbrev pub mux_2 : List (Option ℕ)
mux_2 = no ∷ no ∷ no ∷ some 64 ∷ no ∷ no ∷ no ∷ no ∷ no ∷ no ∷ no ∷ some 72 ∷ no ∷ no ∷ []

abbrev pub linux_gpios : List (Option ℕ)
linux_gpios =
    some 11
    ∷ some 12
    ∷ some 13
    ∷ some 14
    ∷ some 6
    ∷ some 0
    ∷ some 1
    ∷ some 38
    ∷ some 40
    ∷ some 4
    ∷ some 10
    ∷ some 5
    ∷ some 15
    ∷ some 7
    ∷ []

-- `gpio_ctrl`, with `none` for -1.
abbrev pub gpio_ctrl : List (List (Option ℕ))
gpio_ctrl = level_shifters ∷ mux_1 ∷ mux_2 ∷ linux_gpios ∷ []

-- `gpio_ctrl[i][pin]`
abbrev pub at_pin : List (Option ℕ) → ℤ → Option (Option ℕ)
at_pin row (pos n) = get_elem? row n
at_pin row (negsuc n) = none

-- The call for one GPIO of a pin, which may be missing: from 64 on it gets no direction.
unfoldable pub store_gpio : Gpio → ℕ → Option ℕ → Log → Log
store_gpio g io_flag none log = log
store_gpio g io_flag (some p) log =
    (pin_config2 g p (if ltb p 64 then io_flag else 4) false 1 log).1

-- The loop over the rows of `gpio_ctrl`.
unfoldable pub store_rows : Gpio → ℕ → ℤ → List (List (Option ℕ)) → Log → Option Log
store_rows g io_flag pin [] log = some log
store_rows g io_flag pin (row ∷ rows) log = elim (at_pin row pin) [
  | none ↦ none
  | some gpio ↦ store_rows g io_flag pin rows (store_gpio g io_flag gpio log)
]

-- What a variable holds after `sscanf`.
abbrev pub scanned : Option ℤ → ℤ → ℤ
scanned none old = old
scanned (some z) old = z

abbrev pub pin_number : Option ℕ → ℤ
pin_number none = negsuc 0
pin_number (some n) = pos n

unfoldable pub trigger_pin_show : Device → ℤ
trigger_pin_show d = pin_number d.trigger_pin

unfoldable pub trigger_pin_store : Gpio → Option ℤ → ℤ → Device → Log → Option (ℤ × Device × Log)
trigger_pin_store g text count d log =
    let pin = scanned text (pin_number d.trigger_pin) in
    elim (store_rows g 1 pin gpio_ctrl log) [
      | none ↦ none
      | some log' ↦ some (count, record d { trigger_pin = some (pos_part pin) }, log')
    ]

unfoldable pub echo_pin_show : Device → ℤ
echo_pin_show d = pin_number d.echo_pin

unfoldable pub echo_pin_store : Gpio → Option ℤ → ℤ → Device → Log → Option (ℤ × Device × Log)
echo_pin_store g text count d log =
    let pin = scanned text (pin_number d.echo_pin) in
    elim (store_rows g 0 pin gpio_ctrl log) [
      | none ↦ none
      | some log' ↦ some (count, record d { echo_pin = some (pos_part pin) }, log')
    ]

unfoldable pub no_of_samples_show : Device → ℤ
no_of_samples_show d = d.m

unfoldable pub no_of_samples_store : Option ℤ → ℤ → Device → ℤ × Device
no_of_samples_store text count d = (count, record d { m = scanned text d.m })

unfoldable pub delta_show : Device → ℤ
delta_show d = d.delta

unfoldable pub delta_store : Option ℤ → ℤ → Device → ℤ × Device
delta_store text count d = (count, record d { delta = scanned text d.delta })

-- A show of the distance takes a measurement off the buffer.
unfoldable pub distance_show : Device → ℤ × Device
distance_show d =
    let (buffer, fifo) = fifo_read d.fifo in (buffer.distance, record d { fifo = fifo })

unfoldable pub distance_store : Option ℤ → ℤ → Device → ℤ × Device
distance_store text count d = (count, d)

unfoldable pub enable_show : Device → ℤ
enable_show d = if d.measurement_in_progress then pos 1 else pos 0

-- The end of `enable_store`: 0 is taken for a failure of `initiate_measurement`.
unfoldable pub enable_result : ℤ → Option (ℤ × Device) → Option (ℤ × Device)
enable_result count none = none
enable_result count (some (r, d)) = if r ==ℤ pos 0 then some (einval, d) else some (count, d)

unfoldable pub enable_store : (Device → Device) → Bool → Option ℤ → ℤ → Device → Option (ℤ × Device)
enable_store others started text count d =
    if scanned text (pos 0) ==ℤ pos 1
    then (if d.measurement_in_progress
        then some (einval, d)
        else enable_result count
            (initiate_measurement others started (record d { measurement_in_progress = true })))
    else some (count, d)
