-- ===== src/Hcsr/Threads/Frames.antt =====
-- What interrupts and ioctls of the HC-SR04 driver leave alone.
use linux_kernel_programing.Prelude.{ℕ, ◌≡◌, Bool, not, some, List, [], ◌∷◌, arith, if◌then◌else◌}
use linux_kernel_programing.Prelude.Int.{ℤ, pos_part}
use linux_kernel_programing.Gpio.{Log}
use linux_kernel_programing.Hcsr.Device.{Device, irq_handler}
use linux_kernel_programing.Hcsr.Pins.{
  PinConfig, Kernel, assign_role, configure_interrupt, configure_one, configure_pins, update_entry,
  configure_entry, is_pin,
}
use linux_kernel_programing.Hcsr.Files.{
  Command, config_pins, set_parameters, unknown, free_old_irq, take_pins, hcsr04_ioctl,
}

-- The buffer, its lock and the flag of a measurement under way.
pub record Keeps (d d' : Device) : Type 0 where
  pub fifo : d'.fifo ≡ d.fifo
  pub buffer_lock : d'.buffer_lock ≡ d.buffer_lock
  pub progress : d'.measurement_in_progress ≡ d.measurement_in_progress

pub irq_handler-Keeps :
    (time : ℕ) (d : Device) {d' : Device} → irq_handler time d ≡ some d' → Keeps d d'
unfolding irq_handler
irq_handler-Keeps time d e = ground arith

pub irq_handler-m :
    (time : ℕ) (d : Device) {d' : Device} → irq_handler time d ≡ some d' → d'.m ≡ d.m
unfolding irq_handler
irq_handler-m time d e = ground arith

assign_role-Keeps :
    (k : Kernel) (io_flag : Bool) (pin : ℕ) (d : Device) (log : Log)
    → Keeps d (assign_role k io_flag pin d log).1
unfolding assign_role configure_interrupt
assign_role-Keeps k io_flag pin d log = ground arith

configure_one-Keeps :
    (k : Kernel) (d : Device) (e : PinConfig) (log : Log) → Keeps d (configure_one k d e log).1
unfolding configure_one
configure_one-Keeps k d e log =
    let io_flag = not (is_pin d.echo_pin e.galileo_pin) in
    let old = (update_entry k.gpio io_flag e log).1 in
    let new = (configure_entry k.gpio d.minor io_flag e log).2 in
    let log' = if e.is_pin_configured then old else new in
    ground (arith, assign_role-Keeps k io_flag e.linux_gpio_pin d log')

configure_pins-Keeps :
    (k : Kernel) (d : Device) (pins : List PinConfig) (log : Log)
    → Keeps d (configure_pins k d pins log).1
unfolding configure_pins
configure_pins-Keeps k d [] log = ground arith
configure_pins-Keeps k d (e ∷ pins) log =
    let (goes_on, d', e', log') = configure_one k d e log in
    ground (arith, configure_one-Keeps k d e log, configure_pins-Keeps k d' pins log')

take_pins-Keeps :
    (k : Kernel) (trigger echo : ℕ) (d : Device) (pins : List PinConfig) (log : Log)
    → Keeps d (take_pins k trigger echo d pins log).1
unfolding take_pins free_old_irq
take_pins-Keeps k trigger echo d pins log =
    let (d₁, log₁) = free_old_irq d log in
    let d₂ = record d₁ { trigger_pin = some trigger; echo_pin = some echo } in
    ground (arith, configure_pins-Keeps k d₂ pins log₁)

ioctl-Keeps :
    (k : Kernel) (command : Command) (d : Device) (pins : List PinConfig) (log : Log)
    → Keeps d (hcsr04_ioctl k command d pins log).1
unfolding hcsr04_ioctl
ioctl-Keeps k (config_pins trigger echo) d pins log =
    ground (arith, take_pins-Keeps k (pos_part trigger) (pos_part echo) d pins log)
ioctl-Keeps k (set_parameters m delta) d pins log = ground arith
ioctl-Keeps k unknown d pins log = ground arith

pub hcsr04_ioctl-Keeps :
    (k : Kernel) (command : Command) (d : Device) (pins : List PinConfig) (log : Log) {result : ℤ}
    {d' : Device} {pins' : List PinConfig} {log' : Log}
    → hcsr04_ioctl k command d pins log ≡ (result, d', pins', log')
    → Keeps d d'
hcsr04_ioctl-Keeps k command d pins log e = ground (arith, e, ioctl-Keeps k command d pins log)
