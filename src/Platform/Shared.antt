-- ===== src/Platform/Shared.antt =====
-- The operations of `platform_driver.c` whose text is that of `HCSR_Driver.c`.
use linux_kernel_programing.Prelude.{ℕ, Bool, Option, List}
use linux_kernel_programing.Prelude.Int.{ℤ}
use linux_kernel_programing.Gpio.{Log}
use linux_kernel_programing.Hcsr.Fifo
use linux_kernel_programing.Hcsr.Fifo.{FifoBuffer}
use linux_kernel_programing.Hcsr.Device
use linux_kernel_programing.Hcsr.Device.{Device}
use linux_kernel_programing.Hcsr.Pins
use linux_kernel_programing.Hcsr.Pins.{PinConfig, Kernel}
use linux_kernel_programing.Hcsr.Files
use linux_kernel_programing.Hcsr.Files.{Reply}

-- `fifoRead` and `fifoWrite`
abbrev pub fifo_read : Fifo.Fifo → FifoBuffer × Fifo.Fifo
fifo_read = Fifo.fifo_read

abbrev pub fifo_write : Fifo.Fifo → FifoBuffer → Fifo.Fifo
fifo_write = Fifo.fifo_write

abbrev pub initialize_device : Device → Device
initialize_device = Device.initialize_device

abbrev pub populate_gen2_pins_data : List PinConfig → List PinConfig
populate_gen2_pins_data = Pins.populate_gen2_pins_data

abbrev pub release_gpio_pins : Option ℕ → List PinConfig → Log → List PinConfig × Log
release_gpio_pins = Pins.release_gpio_pins

abbrev pub configure_interrupt : Kernel → ℕ → Device → Log → Bool × Device × Log
configure_interrupt = Pins.configure_interrupt

abbrev pub is_edge_interruptible : List ℕ → ℤ → Bool
is_edge_interruptible = Files.is_edge_interruptible

abbrev pub initiate_measurement : (Device → Device) → Bool → Device → Option (ℤ × Device)
initiate_measurement = Files.initiate_measurement

abbrev pub hcsr04_open : ℕ → List Device → List Device × Option Device
hcsr04_open = Files.hcsr04_open

abbrev pub hcsr04_read : (ℕ → Device → Device) → Bool → Device → Option Reply
hcsr04_read = Files.hcsr04_read

abbrev pub hcsr04_release : Device → List PinConfig → Log → Device × List PinConfig × Log
hcsr04_release = Files.hcsr04_release
