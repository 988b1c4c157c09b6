-- ===== src/Hcsr/Details.antt =====
-- `print_device_data` of `user-space device interface for HC-SR04/HCSR_Driver.c`, which
-- `hcsr04_release` calls first: what it prints of a device, a line each. The rules under the
-- headings are left out.
pub mod Contents
use mathlib.Core.List.{filter_map}
use linux_kernel_programing.Prelude.{
  ℕ, Bool, true, false, not, ◌&&◌, Option, none, some, List, [], ◌∷◌, ◌++◌, ◌==◌, if◌then◌else◌,
}
use linux_kernel_programing.Prelude.Int.{ℤ, ◌==ℤ◌}
use linux_kernel_programing.Hcsr.Fifo.{FifoBuffer, no_tsc}
use linux_kernel_programing.Hcsr.Device.{Device, no_value}

pub data Line : Type 0 where
  -- the device with its minor number
  device_details : ℕ → Line
  -- the trigger pin and the echo pin
  configured_pins : Option ℕ → Option ℕ → Line
  no_pins_configured : Line
  -- the echo pin and the interrupt's number
  configured_interrupt : Option ℕ → ℤ → Line
  -- the number of samples and the sampling period
  samples_collected : ℤ → ℤ → Line
  no_samples_configured : Line
  buffer_data : Line
  -- the distance and its time
  measurement : ℤ → ℕ → Line
  buffer_is_empty : Line

-- The line of a slot, if there is one.
unfoldable pub slot_line : FifoBuffer → Option Line
slot_line b =
    if not (b.distance ==ℤ no_value) && not (b.tsc == no_tsc)
    then some (measurement b.distance b.tsc)
    else none

-- The lines before the buffer. Whether samples were set is not asked, only whether pins were.
unfoldable pub print_parameters : Device → List Line
print_parameters d =
    let interrupt =
      if d.irq_data.irq_no ==ℤ no_value
      then []
      else configured_interrupt d.echo_pin (d.irq_data.irq_no) ∷ [] in
    if d.are_pins_configured
    then device_details d.minor
      ∷ configured_pins d.trigger_pin d.echo_pin
      ∷ (interrupt ++ (samples_collected d.m d.delta ∷ []))
    else device_details d.minor ∷ no_pins_configured ∷ (interrupt ++ (no_samples_configured ∷ []))

-- The test before the buffer asks for the pins twice.
unfoldable pub print_device_data : Device → List Line
print_device_data d =
    print_parameters d
    ++ (if d.are_pins_configured && d.are_pins_configured
        then buffer_data ∷ filter_map slot_line d.fifo.slots
        else buffer_is_empty ∷ [])
