-- ===== src/Platform/Module.antt =====
-- The probe and the removal of a device in `platform_driver.c`. The calls of the device model and
-- of `misc_register` are entries of a log, the newest first; what the kernel answers is a parameter
-- that may depend on all calls before.
pub mod Bus
use linux_kernel_programing.Prelude.{
  ◌&&◌, not, some, Option, ℕ, ◌+◌, ◌-◌, ◌%◌, ◌^◌, Bool, true, false, ◌||◌, none, List, [], ◌∷◌,
  ◌==◌, if◌then◌else◌,
}
use linux_kernel_programing.Prelude.Int.{ℤ, pos, ◌==ℤ◌}
use linux_kernel_programing.Gpio.{Log}
use linux_kernel_programing.Platform.Shared.{
  initialize_device, populate_gen2_pins_data, release_gpio_pins,
}
use linux_kernel_programing.Hcsr.Device.{Device}
use linux_kernel_programing.Hcsr.Pins.{PinConfig}
use linux_kernel_programing.Hcsr.Files.{success}
use linux_kernel_programing.Hcsr.Module.{new_device}

-- What `device_create` gives: the driver takes only `null` for a failure.
pub data Pointer : Type 0 where
  null : Pointer
  error_pointer : Pointer
  valid : Pointer

pub data Attribute : Type 0 where
  trigger_pin_attr : Attribute
  echo_pin_attr : Attribute
  no_of_samples_attr : Attribute
  delta_attr : Attribute
  enable_attr : Attribute
  distance_attr : Attribute

pub data Call : Type 0 where
  class_created : Call
  class_refused : Call
  class_unregistered : Call
  class_destroyed : Call
  device_created : ℕ → Pointer → Call
  device_destroyed : ℕ → Call
  file_created : Pointer → Attribute → Call
  misc_registered : ℕ → Call
  misc_refused : ℕ → Call
  misc_deregistered : ℕ → Call

pub record Answers : Type 0 where
  pub grants_class : List Call → Bool
  pub device_create : List Call → Pointer
  pub misc_register : List Call → ℤ
  pub minor_of : List Call → ℕ

-- A `struct hcsr04_device`: its name, which stands for the pointer to it that is compared, its
-- `Dev_add` and the rest.
pub record Entry : Type 0 where
  pub name : ℕ
  pub dev_add : ℕ
  pub device : Device

-- The driver's static data. The class itself, `cl`, is known by the calls. `dangling` says that
-- entries of the table of the pins were freed and are still listed: `pins` is what they held.
pub record Driver : Type 0 where
  pub first : Bool
  pub h_add : ℕ
  pub device_found : ℕ
  pub devices : List Entry
  pub pins : List PinConfig
  pub dangling : Bool
  pub log : Log
  pub calls : List Call

abbrev pub loaded : Driver
loaded = record {
  first = true;
  h_add = 0;
  device_found = 0;
  devices = [];
  pins = [];
  dangling = false;
  log = [];
  calls = [];
}

abbrev is_null : Pointer → Bool
is_null null = true
is_null error_pointer = false
is_null valid = false

-- The six calls of `device_create_file`; their results are only printed.
unfoldable pub create_files : Pointer → List Call → List Call
create_files p calls =
    file_created p distance_attr
    ∷ file_created p enable_attr
    ∷ file_created p delta_attr
    ∷ file_created p no_of_samples_attr
    ∷ file_created p echo_pin_attr
    ∷ file_created p trigger_pin_attr
    ∷ calls

-- `garbage` is the memory that `kmalloc` gives.
unfoldable pub hcsr04_init : Answers → Device → ℕ → Driver → ℤ × Driver
hcsr04_init a garbage name s =
    let p = a.device_create s.calls in
    let calls₁ = device_created s.h_add p ∷ s.calls in
    let calls₂ = if is_null p then device_destroyed s.h_add ∷ calls₁ else calls₁ in
    let calls₃ = create_files p calls₂ in
    let error = a.misc_register calls₃ in
    let e : Entry = record {
      name = name;
      dev_add = s.h_add;
      device = initialize_device (new_device garbage (a.minor_of calls₃));
    } in
    let h_add = (s.h_add + 1) % 2 ^ 32 in
    if error ==ℤ pos 0
    then (
      success,
      record s { h_add = h_add; devices = e ∷ s.devices; calls = misc_registered name ∷ calls₃ },
    )
    else (error, record s { h_add = h_add; calls = misc_refused name ∷ calls₃ })

-- What the first probe sets up once there is a class.
abbrev pub set_up : Driver → Driver
set_up s = record s {
  first = false;
  devices = [];
  pins = populate_gen2_pins_data [];
  dangling = false;
  calls = class_created ∷ s.calls;
}

-- A failure of `hcsr04_init` is only printed.
unfoldable pub pdriver_probe : Answers → Device → ℕ → Driver → ℤ × Driver
pdriver_probe a garbage name s =
    let found = record s { device_found = (s.device_found + 1) % 2 ^ 32 } in
    if s.first
    then (if a.grants_class s.calls
        then (success, (hcsr04_init a garbage name (set_up found)).1)
        else (
          pos 1,
          record found { calls = class_destroyed ∷ class_unregistered ∷ class_refused ∷ s.calls },
        ))
    else (success, (hcsr04_init a garbage name found).1)

-- The loop of `hcsr04_exit` over `hcsr04_device_list`.
unfoldable pub delete_devices : ℕ → List Entry → List Call → List Entry × List Call
delete_devices name [] calls = ([], calls)
delete_devices name (e ∷ es) calls =
    let deleted =
      delete_devices name es (misc_deregistered e.name ∷ device_destroyed e.dev_add ∷ calls) in
    let (kept, calls') = delete_devices name es calls in
    if e.name == name then deleted else (e ∷ kept, calls')

abbrev pub any_configured : List PinConfig → Bool
any_configured [] = false
any_configured (e ∷ pins) = e.is_pin_configured || any_configured pins

-- The release of all pins frees the entries that are configured, and leaves them in the list. The
-- loop takes its next link from the entry it has just freed; here that reads as before.
unfoldable pub hcsr04_exit : ℕ → Driver → Driver
hcsr04_exit name s =
    let (devices, calls) = delete_devices name s.devices s.calls in
    let (pins, log) = release_gpio_pins none s.pins s.log in
    record s {
      devices = devices;
      pins = pins;
      dangling = s.dangling || any_configured s.pins;
      log = log;
      calls = calls;
    }

unfoldable pub pdriver_remove : ℕ → Driver → ℤ × Driver
pdriver_remove name s =
    let gone = hcsr04_exit name s in
    let device_found = (s.device_found + (2 ^ 32 - 1)) % 2 ^ 32 in
    let last = device_found == 0 in
    (
      success,
      record gone {
        device_found = device_found;
        calls = if last then class_destroyed ∷ class_unregistered ∷ gone.calls else gone.calls;
      },
    )

-- `pdriver_remove` on a memory that keeps what was freed, or not. `none`: the loop of the release
-- follows a link out of a freed entry that is not the old one any more.
unfoldable pub remove_in_memory : Bool → ℕ → Driver → Option (ℤ × Driver)
remove_in_memory intact name s =
    if any_configured s.pins && not intact then none else some (pdriver_remove name s)
