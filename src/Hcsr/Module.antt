-- ===== src/Hcsr/Module.antt =====
-- The start and end of `HCSR_Driver.c`. `misc_register` answers for each index, and gives each
-- device a minor number.
pub mod Life
use linux_kernel_programing.Prelude.{
  ℕ, zero, suc, ◌+◌, Bool, true, false, none, List, [], ◌∷◌, replicate, ◌==◌, if◌then◌else◌,
}
use linux_kernel_programing.Prelude.Int.{ℤ, pos, ◌==ℤ◌}
use linux_kernel_programing.Gpio.{Log}
use linux_kernel_programing.Hcsr.Fifo.{cleared}
use linux_kernel_programing.Hcsr.Device.{Device, fresh_irq_data, no_value, initialize_device}
use linux_kernel_programing.Hcsr.Pins.{PinConfig, populate_gen2_pins_data, release_gpio_pins}

pub record Answers : Type 0 where
  pub misc_register : ℕ → ℤ
  pub minor_of : ℕ → ℕ

-- `hcsr04_device_list`, the newest device first, and `gen2_pin_list`.
pub record Lists : Type 0 where
  pub devices : List Device
  pub pins : List PinConfig

-- A device that was allocated and got its minor number: the memory `garbage`, but for that.
unfoldable pub new_device : Device → ℕ → Device
new_device garbage minor = record garbage { minor = minor }

-- The loop of `hcsr04_init`: a refusal ends it, and the devices before stay registered.
unfoldable pub add_devices : Answers → Device → ℕ → ℕ → List Device → ℤ × List Device
add_devices a garbage zero index devices = (pos 0, devices)
add_devices a garbage (suc rounds) index devices =
    let added = initialize_device (new_device garbage (a.minor_of index)) ∷ devices in
    let rest = add_devices a garbage rounds (index + 1) added in
    if a.misc_register index ==ℤ pos 0 then rest else (a.misc_register index, devices)

-- `count` is the parameter `devices` of the module.
unfoldable pub hcsr04_init : Answers → Device → ℕ → ℤ × Lists
hcsr04_init a garbage count =
    let (result, devices) = add_devices a garbage count 0 [] in
    if result ==ℤ pos 0
    then (pos 0, record { devices = devices; pins = populate_gen2_pins_data [] })
    else (result, record { devices = devices; pins = [] })

-- Every device is deregistered and taken off the list, then all pins are released.
unfoldable pub hcsr04_exit : Lists → Log → Lists × Log
hcsr04_exit l log =
    let (pins, log') = release_gpio_pins none l.pins log in
    (record { devices = []; pins = pins }, log')
