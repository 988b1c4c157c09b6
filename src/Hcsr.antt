-- ===== src/Hcsr.antt =====
-- `user-space device interface for HC-SR04/HCSR_Driver.c`, the driver of the distance sensors: its
-- data, the interrupt handler, the measuring thread and the file operations on one device. `Fifo`
-- is the measurement buffer, `Pins` the configuration of the board's pins, `Files` the file
-- operations and `Module` the start and end of the module; `Irqs` is about the interrupts.
pub mod Fifo
pub mod Device
pub mod Pins
pub mod Files
pub mod Details
pub mod Irqs
pub mod Sensor
pub mod Threads
pub mod Program
pub mod Module
mod Tests
