-- ===== src/Platform/Sysfs/Session.antt =====
-- A measurement that is set up through sysfs alone, as `Readme_Platform_Drivers` describes it.
use linux_kernel_programing.Prelude.{◌≡◌, false, Option, none, some, List, [], ◌∷◌, replicate}
use linux_kernel_programing.Prelude.Int.{ℤ, pos}
use linux_kernel_programing.Gpio.{Gpio, Log}
use linux_kernel_programing.Hcsr.Fifo.{Fifo, cleared}
use linux_kernel_programing.Hcsr.Device.{Device, fresh_irq_data}
use linux_kernel_programing.Platform.Sysfs.{
  trigger_pin_store, echo_pin_store, no_of_samples_store, delta_store,
}

-- A write to an attribute other than `enable`.
pub data Store : Type 0 where
  trigger_pin : Option ℤ → Store
  echo_pin : Option ℤ → Store
  no_of_samples : Option ℤ → Store
  delta : Option ℤ → Store

abbrev pub state_of : Option (ℤ × Device × Log) → Option (Device × Log)
state_of none = none
state_of (some (r, d, log)) = some (d, log)

unfoldable pub store : Gpio → Store → Device → Log → Option (Device × Log)
store g (trigger_pin text) d log = state_of (trigger_pin_store g text (pos 1) d log)
store g (echo_pin text) d log = state_of (echo_pin_store g text (pos 1) d log)
store g (no_of_samples text) d log = some ((no_of_samples_store text (pos 1) d).1, log)
store g (delta text) d log = some ((delta_store text (pos 1) d).1, log)

unfoldable pub stores : Gpio → List Store → Device → Log → Option (Device × Log)
stores g [] d log = some (d, log)
stores g (s ∷ ss) d log = elim (store g s d log) [
  | none ↦ none
  | some (d', log') ↦ stores g ss d' log'
]

abbrev fresh_fifo : Fifo
fresh_fifo = record { slots = replicate 5 cleared; index = 0 }

-- What the attributes do not set up: no interrupt, no trigger GPIO, nothing measured.
pub record IsUnwired (d : Device) : Type 0 where
  pub irq_data : d.irq_data ≡ fresh_irq_data
  pub free : d.buffer_lock ≡ false
  pub idle : d.measurement_in_progress ≡ false
  pub fifo : d.fifo ≡ fresh_fifo
