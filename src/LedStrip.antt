-- ===== src/LedStrip.antt =====
-- The two drivers of the WS2812 strip of 16 LEDs: `BitBang` for
-- `Bit Banging Approach to drive WS2812 based LED Strip/ws2812.c`, `Spi` for
-- `SPI based driver for WS2812 LED Strip/spi_driver.c`. `Pixels` is the pixel store of both.
-- `SpiDevice` is the module that makes the SPI driver's device, `Driver` what a program sees of the
-- two drivers, `Program` such a program.
pub mod Pixels
pub mod Colors
pub mod BitBang
pub mod Spi
pub mod SpiDevice
pub mod Driver
pub mod Program
mod Tests
