-- ===== src/Platform.antt =====
-- `Platform Driver and Device infrastructure for HC-SR04/platform_driver.c`: the HC-SR04 driver as
-- a platform driver, with attributes in sysfs. The measurement buffer, the device's record, the
-- table of the pins and their release, and the opening, reading and releasing of a device are the
-- text of `HCSR_Driver.c`: `Shared` takes them from `Hcsr`, and the other modules define what
-- differs. `Pdevice` is `platform_device.c` beside it, which makes the devices.
pub mod Shared
pub mod Device
pub mod Pins
pub mod Files
pub mod Sysfs
pub mod Module
pub mod Pdevice
mod Tests
