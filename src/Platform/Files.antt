-- ===== src/Platform/Files.antt =====
-- The writing of a device of `platform_driver.c`, and its commands.
pub mod Same
pub mod Clearing
use linux_kernel_programing.Prelude.{
  ℕ, Bool, true, false, not, ◌&&◌, Option, some, List, if◌then◌else◌,
}
use linux_kernel_programing.Prelude.Int.{ℤ, pos, pos_part, ltb_ℤ, ◌==ℤ◌}
use linux_kernel_programing.Gpio.{Log}
use linux_kernel_programing.Platform.Shared.{initiate_measurement, is_edge_interruptible}
use linux_kernel_programing.Hcsr.Device.{Device}
use linux_kernel_programing.Hcsr.Pins.{PinConfig, Kernel}
use linux_kernel_programing.Hcsr.Files.{
  success, einval, are_configured, write_result, Command, config_pins, set_parameters, unknown,
  free_old_irq, in_range, non_echo_pins,
}
use linux_kernel_programing.Platform.Pins.{configure_pins}

-- To clear the buffer only the index is set; the slots stay.
unfoldable pub hcsr04_write : (Device → Device) → Bool → ℤ → Device → Option (ℤ × Device)
hcsr04_write others started operation d =
    let d' = if operation ==ℤ pos 0 then d else record d { fifo = record (d.fifo) { index = 0 } } in
    if not (are_configured d)
    then some (einval, d)
    else (if d'.measurement_in_progress
        then some (einval, d')
        else write_result
            (initiate_measurement others started (record d' { measurement_in_progress = true })))

-- `configure_galileo_pins` and what stands round it in the command `CONFIG_PINS`.
unfoldable pub take_pins :
    Kernel → ℕ → ℕ → Device → List PinConfig → Log → ℤ × Device × List PinConfig × Log
take_pins k trigger echo d pins log =
    let (d₁, log₁) = free_old_irq d log in
    let ready = record d₁ { trigger_pin = some trigger; echo_pin = some echo } in
    let (ok, d₂, pins', log₂) = configure_pins k ready pins log₁ in
    if ok
    then (success, record d₂ { are_pins_configured = true }, pins', log₂)
    else (einval, d₂, pins', log₂)

unfoldable pub hcsr04_ioctl :
    Kernel → Command → Device → List PinConfig → Log → ℤ × Device × List PinConfig × Log
hcsr04_ioctl k (config_pins trigger echo) d pins log =
    if in_range trigger && in_range echo && is_edge_interruptible non_echo_pins echo
    then take_pins k (pos_part trigger) (pos_part echo) d pins log
    else (einval, d, pins, log)
hcsr04_ioctl k (set_parameters m delta) d pins log =
    if ltb_ℤ (pos 0) m && ltb_ℤ (pos 0) delta
    then (success, record d { m = m; delta = delta; are_m_delta_configured = true }, pins, log)
    else (einval, d, pins, log)
hcsr04_ioctl k unknown d pins log = (einval, d, pins, log)
