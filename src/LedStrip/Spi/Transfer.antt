-- ===== src/LedStrip/Spi/Transfer.antt =====
-- What `spi_driver.c` hands to the SPI bus, and its start and end.
use linux_kernel_programing.Prelude.{
  ℕ, ◌<◌, ◌≡◌, ◌↔◌, refl, ap, true, false, ◌&&◌, some, [], arith, set, replicate, lt→ltb,
  if◌then◌else◌,
}
use linux_kernel_programing.Prelude.Int.{ℤ, pos, ◌==ℤ◌}
use linux_kernel_programing.LedStrip.Pixels.{Strip, set_led_rgb, blank_leds, table}
use linux_kernel_programing.LedStrip.Colors.{
  color_row, IsStrip, set_led_rgb-eq, set_led_rgb-IsStrip, blank_leds-eq,
}
use linux_kernel_programing.LedStrip.Spi.{
  State, Sent, Answers, bit_1, bit_0, memory, spi_transfer_message, spi_write_async_message,
  ws_write, reset_leds, spi_probe,
}

-- On a free bus a user's write within the strip returns 0, puts the colour at the LED, leaves the
-- bus free, and hands over the whole strip in order if the message could be queued, nothing if it
-- could not.
pub ws_write-bytes :
    (queued finished : ℤ) (number red green blue : ℕ) (s : State)
    → IsStrip s.strip
    → s.bus_locked ≡ false
    → number < 16
    → (out : State × Sent × ℤ) × (ws_write queued finished number red green blue s ≡ some out)
      × (out.2 ≡ pos 0)
      × (out.0.bus_locked ≡ false)
      × (out.0.strip.leds ≡ set s.strip.leds number (color_row bit_1 bit_0 green red blue))
      × (out.1.bytes ≡ (if queued ==ℤ pos 0 then memory out.0.strip.leds else []))
unfolding ws_write spi_write_async_message spi_transfer_message
ws_write-bytes queued finished number red green blue s v free h =
    let row = color_row bit_1 bit_0 green red blue in
    let strip : Strip = record { leds = set s.strip.leds number row; single = row } in
    let stored : set_led_rgb bit_1 bit_0 number red green blue s.strip ≡ some strip =
      rw (lt→ltb number 16 h) at (set_led_rgb-eq bit_1 bit_0 number red green blue s.strip v) in
    (
      (
        record s { strip = strip; bus_locked = false },
        (if queued ==ℤ pos 0
            then record { status = finished; bytes = memory strip.leds }
            else record { status = queued; bytes = [] }),
        pos 0,
      ),
      ground (arith, stored),
      refl,
      refl,
      refl,
      ground arith,
    )

-- A user's write keeps the strip's shape.
pub ws_write-IsStrip :
    (queued finished : ℤ) (number red green blue : ℕ) (s : State) {out : State × Sent × ℤ}
    → IsStrip s.strip
    → ws_write queued finished number red green blue s ≡ some out
    → IsStrip out.0.strip
unfolding ws_write spi_write_async_message spi_transfer_message
ws_write-IsStrip queued finished number red green blue s v = ground (
  arith,
  set_led_rgb-eq bit_1 bit_0 number red green blue s.strip v,
  set_led_rgb-IsStrip bit_1 bit_0 number red green blue s.strip v,
)

-- The probe returns 0 exactly when region, class, character device and device are all granted. A
-- probe that fails takes nothing back: what was granted before the failure stays registered.
pub spi_probe_lem :
    (a : Answers)
    → (((spi_probe a).1 ≡ pos 0)
        ↔ ((a.alloc_ok && a.class_ok && (a.cdev_ret ==ℤ pos 0) && a.device_ok) ≡ true))
      × ((spi_probe a).0 ≡ record {
        region = a.alloc_ok;
        class = a.alloc_ok && a.class_ok;
        cdev = a.alloc_ok && a.class_ok && (a.cdev_ret ==ℤ pos 0);
        device = a.alloc_ok && a.class_ok && (a.cdev_ret ==ℤ pos 0) && a.device_ok;
      })
unfolding spi_probe
spi_probe_lem a = (ground arith, ground arith)

-- After `reset_leds`, which the release runs, every LED is black, and the bytes sent are 384 times
-- the byte for a 0.
pub reset_leds-bytes :
    (s : State)
    → IsStrip s.strip
    → ((reset_leds s).0.strip.leds ≡ replicate 16 (replicate 24 bit_0))
      × ((reset_leds s).1 ≡ replicate 384 bit_0)
unfolding reset_leds table
reset_leds-bytes s v =
    let black : (blank_leds bit_1 bit_0 s.strip).leds ≡ replicate 16 (replicate 24 bit_0) =
      rw (blank_leds-eq bit_1 bit_0 s.strip v) refl in
    (black, ap memory black)
