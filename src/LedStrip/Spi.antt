-- ===== src/LedStrip/Spi.antt =====
-- `SPI based driver for WS2812 LED Strip/spi_driver.c`: the pixel store is sent as bytes on the
-- SPI bus, one byte for a bit. The kernel's SPI core is not part of the repository: what its calls
-- return is an argument, and the bytes handed to it are a result.
pub mod Transfer
use linux_kernel_programing.Prelude.{
  ℕ, ◌<◌, Bool, true, false, not, Option, none, some, List, [], ◌∷◌, ◌++◌, ltb, ◌==◌, if◌then◌else◌,
}
use linux_kernel_programing.Prelude.Int.{ℤ, pos, negsuc, ltb_ℤ, ◌==ℤ◌}
use linux_kernel_programing.Gpio.{
  Gpio, Log, requested, refused, freed, exported, unexported, direction_output, value_set_cansleep,
}
use linux_kernel_programing.LedStrip.Pixels
use linux_kernel_programing.LedStrip.Pixels.{Strip, blank_leds}

-- `set_bit_1` and `set_bit_0`: how long the line is high in one byte's time.
abbrev pub bit_1 : ℕ
bit_1 = 0xF0

abbrev pub bit_0 : ℕ
bit_0 = 0xC0

-- `set_color` and `set_led_rgb` are the text of `ws2812.c`, with these two bytes.
abbrev pub set_color : ℕ → ℕ → ℕ → List ℕ → List ℕ
set_color = Pixels.set_color bit_1 bit_0

abbrev pub set_led_rgb : ℕ → ℕ → ℕ → ℕ → Strip → Option Strip
set_led_rgb = Pixels.set_led_rgb bit_1 bit_0

-- The bus and the strip: the pixel store, whether the lock of the bus is taken, the GPIO calls.
pub record State : Type 0 where
  pub strip : Strip
  pub bus_locked : Bool
  pub log : Log

-- What a message to the bus did: the status, and the bytes that were handed over.
pub record Sent : Type 0 where
  pub status : ℤ
  pub bytes : List ℕ

-- The rows of `leds_pixel_data` in memory order.
abbrev pub memory : List (List ℕ) → List ℕ
memory [] = []
memory (row ∷ rows) = row ++ memory rows

-- `spi_transfer_message` with `bus_locked == 0`: the lock is taken round `spi_async_locked`, which
-- returns `queued`; if that is 0 the caller waits and takes the message's own status. A lock that
-- is taken already is waited for without end: `none`.
unfoldable pub spi_transfer_message : ℤ → ℤ → List ℕ → State → Option (State × Sent)
spi_transfer_message queued finished bytes s =
    let locked = record s { bus_locked = true } in
    let unlocked = record locked { bus_locked = false } in
    if s.bus_locked
    then none
    else (if queued ==ℤ pos 0
        then some (unlocked, record { status = finished; bytes = bytes })
        else some (unlocked, record { status = queued; bytes = [] }))

unfoldable pub spi_write_async_message : ℤ → ℤ → List ℕ → State → Option (State × Sent)
spi_write_async_message queued finished bytes s = spi_transfer_message queued finished bytes s

-- A write of the user: `none` is a write out of bounds or an endless wait. The spin lock
-- `spi_lock`, taken at the beginning and given back at the end, keeps other writes out; here there is
-- one.
unfoldable pub ws_write : ℤ → ℤ → ℕ → ℕ → ℕ → ℕ → State → Option (State × Sent × ℤ)
ws_write queued finished number red green blue s =
    elim (set_led_rgb number red green blue s.strip) [
      | none ↦ none
      | some strip ↦
          elim (spi_write_async_message queued finished (memory strip.leds)
            (record s { strip = strip })) [ none ↦ none | some (s', sent) ↦ some (s', sent, pos 0) ]
    ]

-- `spi_write` is the kernel's; the bytes are what it is given.
unfoldable pub reset_leds : State → State × List ℕ
reset_leds s =
    let strip = blank_leds bit_1 bit_0 s.strip in (record s { strip = strip }, memory strip.leds)

unfoldable pub free_pin : ℕ → Log → Log
free_pin pin log = unexported pin ∷ freed pin ∷ log

unfoldable pub pin_config : Gpio → ℕ → Bool → Bool → Log → ℤ × Log
pin_config g pin direction val log =
    if g.grants log pin
    then (let log₁ = exported pin ∷ requested pin ∷ log in
        let log₂ = if ltb pin 64 then direction_output pin direction ∷ log₁ else log₁ in
        (pos 0, (if g.cansleep pin then value_set_cansleep pin val ∷ log₂ else log₂)))
    else (negsuc 0, refused pin ∷ log)

-- The three calls that `reset_gpios` and `spidriver_init` make; their results are dropped.
unfoldable pub configure_all : Gpio → Log → Log
unfolding pin_config
configure_all g log =
    let log₁ = (pin_config g 24 false false log).1 in
    let log₂ = (pin_config g 44 true true log₁).1 in (pin_config g 72 false false log₂).1

unfoldable pub reset_gpios : Gpio → Log → Log
unfolding free_pin
reset_gpios g log = configure_all g (free_pin 72 (free_pin 24 (free_pin 44 log)))

unfoldable pub ws_ioctl : Gpio → Bool → State → State × List ℕ × ℤ
ws_ioctl g reset s =
    if reset
    then (let (s', bytes) = reset_leds s in
        (record s' { log = reset_gpios g s'.log }, bytes, pos 0))
    else (s, [], pos 22)

unfoldable pub ws_open : State → State × ℤ
ws_open s = (s, pos 0)

unfoldable pub ws_release : State → State × List ℕ × ℤ
ws_release s = let (s', bytes) = reset_leds s in (s', bytes, pos 0)

-- What the kernel answers to the probe.
pub record Answers : Type 0 where
  pub alloc_ok : Bool
  pub class_ok : Bool
  pub cdev_ret : ℤ
  pub device_ok : Bool

-- What the probe has registered.
pub record Registered : Type 0 where
  pub region : Bool
  pub class : Bool
  pub cdev : Bool
  pub device : Bool

abbrev pub none_registered : Registered
none_registered = record { region = false; class = false; cdev = false; device = false }

unfoldable pub spi_probe : Answers → Registered × ℤ
spi_probe a =
    let r₁ = record none_registered { region = true } in
    let r₂ = record r₁ { class = true } in
    let r₃ = record r₂ { cdev = true } in
    if not a.alloc_ok
    then (none_registered, negsuc 0)
    else (if not a.class_ok
        then (r₁, negsuc 0)
        else (if not (a.cdev_ret ==ℤ pos 0)
            then (r₂, a.cdev_ret)
            else (if not a.device_ok
                then (r₃, negsuc 0)
                else (record r₃ { device = true }, pos 0))))

unfoldable pub spi_remove : Registered → Registered × ℤ
spi_remove r = (record r { device = false }, pos 0)

-- The start of the module: `registered` is what `spi_register_driver` returns.
unfoldable pub spidriver_init : Gpio → ℤ → State → State × ℤ
spidriver_init g registered s =
    if ltb_ℤ registered (pos 0)
    then (s, negsuc 0)
    else (record s { log = configure_all g s.log }, pos 0)

unfoldable pub spidriver_exit : State → Registered → State × List ℕ × Registered
unfolding free_pin
spidriver_exit s r =
    let (s', bytes) = reset_leds s in
    (
      record s' { log = free_pin 72 (free_pin 44 (free_pin 24 s'.log)) },
      bytes,
      record r { cdev = false; device = false; class = false; region = false },
    )
