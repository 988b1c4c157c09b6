-- ===== src/LedStrip/BitBang.antt =====
-- `Bit Banging Approach to drive WS2812 based LED Strip/ws2812.c`: the pixel store is sent by
-- writing a GPIO data register between delays. The line is pin 4 of the register.
pub mod Wires
pub mod Pins
use linux_kernel_programing.Prelude.{
  ℕ, zero, suc, ◌+◌, ◌-◌, ◌/◌, ◌%◌, ◌^◌, ◌≤◌, ◌<◌, ◌≡◌, refl, Bool, true, false, not, Option, none,
  some, List, [], ◌∷◌, ◌++◌, arith, ltb, ◌==◌, if◌then◌else◌,
}
use linux_kernel_programing.Prelude.Int.{ℤ, pos, negsuc, ◌==ℤ◌}
use linux_kernel_programing.Gpio.{
  Gpio, Log, requested, refused, freed, exported, unexported, direction_output, value_set,
  value_set_cansleep,
}
use linux_kernel_programing.LedStrip.Pixels.{Strip, set_led_rgb, blank_leds}

-- What the register's line sees: a value written, or a delay in nanoseconds.
pub data Wire : Type 0 where
  iowrite32 : ℕ → Wire
  ndelay : ℕ → Wire

-- `val | BIT(k)` and `val & ~BIT(k)`
abbrev pub with_bit : ℕ → ℕ → ℕ
with_bit val k = if val / 2 ^ k % 2 == 1 then val else val + 2 ^ k

abbrev pub without_bit : ℕ → ℕ → ℕ
without_bit val k = if val / 2 ^ k % 2 == 1 then val - 2 ^ k else val

-- The module's variables: the pixel store, the register as it was read at the start, and the GPIO
-- calls that were made.
pub record State : Type 0 where
  pub strip : Strip
  pub val_data : ℕ
  pub log : Log

abbrev pub offset : ℕ
offset = 4

unfoldable pub iowrite32_1 : ℕ → Wire
iowrite32_1 val_data = iowrite32 (with_bit val_data (offset % 32))

unfoldable pub iowrite32_0 : ℕ → Wire
iowrite32_0 val_data = iowrite32 (without_bit val_data (offset % 32))

unfoldable pub send_bit_1 : ℕ → List Wire
unfolding iowrite32_1 iowrite32_0
send_bit_1 v = iowrite32_1 v ∷ ndelay 400 ∷ iowrite32_0 v ∷ ndelay 800 ∷ []

unfoldable pub send_bit_0 : ℕ → List Wire
unfolding iowrite32_1 iowrite32_0
send_bit_0 v = iowrite32_1 v ∷ iowrite32_1 v ∷ iowrite32_0 v ∷ ndelay 500 ∷ []

-- The inner loop of `write_to_registers`, over the cells of one LED.
unfoldable pub send_row : ℕ → List ℕ → List Wire
send_row v [] = []
send_row v (x ∷ row) = (if x == 1 then send_bit_1 v else send_bit_0 v) ++ send_row v row

unfoldable pub write_to_registers : ℕ → List (List ℕ) → List Wire
write_to_registers v [] = []
write_to_registers v (row ∷ rows) = send_row v row ++ write_to_registers v rows

-- `set_bit_1` is 1 and `set_bit_0` is 0.
abbrev pub bit_1 : ℕ
bit_1 = 1

abbrev pub bit_0 : ℕ
bit_0 = 0

-- A write of the user: the state left and what goes over the line, or a write out of bounds.
unfoldable pub ws_write : ℕ → ℕ → ℕ → ℕ → State → Option (State × List Wire × ℤ)
ws_write number red green blue s = elim (set_led_rgb bit_1 bit_0 number red green blue s.strip) [
  | none ↦ none
  | some strip ↦ some (record s { strip = strip }, write_to_registers s.val_data strip.leds, pos 0)
]

unfoldable pub reset_leds : State → State × List Wire
reset_leds s =
    let strip = blank_leds bit_1 bit_0 s.strip in
    (record s { strip = strip }, write_to_registers s.val_data strip.leds)

unfoldable pub release_pin : ℕ → Log → Log
release_pin pin log = unexported pin ∷ freed pin ∷ log

-- `pin_config`: whether the request failed, and the calls made.
unfoldable pub pin_config : Gpio → ℕ → Bool → Log → Bool × Log
pin_config g pin val log =
    if g.grants log pin
    then (let ready = direction_output pin val ∷ exported pin ∷ requested pin ∷ log in
        (false, (if g.cansleep pin then value_set_cansleep pin val else value_set pin val) ∷ ready))
    else (true, refused pin ∷ log)

-- The three pins are configured in turn; a failure releases those before it. The result says
-- whether all three were configured. It stands in
-- `reset_gpios` and at the end of `ws2812_driver_init`.
unfoldable pub configure_all : Gpio → Log → Bool × Log
unfolding pin_config release_pin
configure_all g log =
    let (failed_io, log₁) = pin_config g 12 false log in
    if failed_io
    then (false, log₁)
    else (let (failed_shifter, log₂) = pin_config g 28 false log₁ in
        if failed_shifter
        then (false, release_pin 12 log₂)
        else (let (failed_mux, log₃) = pin_config g 45 false log₂ in
            if failed_mux then (false, release_pin 28 (release_pin 12 log₃)) else (true, log₃)))

unfoldable pub reset_gpios : Gpio → Log → Log
unfolding release_pin
reset_gpios g log = (configure_all g (release_pin 45 (release_pin 28 (release_pin 12 log)))).1

-- `ws_ioctl`: `true` is the command `RESET`.
unfoldable pub ws_ioctl : Gpio → Bool → State → State × List Wire × ℤ
ws_ioctl g reset s =
    if reset
    then (let (s', wire) = reset_leds s in (record s' { log = reset_gpios g s'.log }, wire, pos 0))
    else (s, [], pos 22)

unfoldable pub ws_open : State → State × ℤ
ws_open s = (s, pos 0)

unfoldable pub ws_release : State → State × List Wire × ℤ
ws_release s = let (s', wire) = reset_leds s in (s', wire, pos 0)

-- What the kernel answers to the start: whether it grants the region, the class and the device,
-- what `cdev_add` returns, and what the register holds.
pub record Answers : Type 0 where
  pub alloc_ok : Bool
  pub class_ok : Bool
  pub cdev_ret : ℤ
  pub device_ok : Bool
  pub register : ℕ

-- What the start has registered.
pub record Registered : Type 0 where
  pub region : Bool
  pub class : Bool
  pub cdev : Bool
  pub device : Bool

abbrev pub none_registered : Registered
none_registered = record { region = false; class = false; cdev = false; device = false }

-- The end of `ws2812_driver_init`: the register is read, the pins are configured, and the strip is
-- blanked if that succeeded. The result is 0 in any case.
unfoldable pub start_strip : Gpio → ℕ → State → State × List Wire
start_strip g register s =
    let (done, log) = configure_all g s.log in
    let s' = record s { val_data = register; log = log } in if done then reset_leds s' else (s', [])

unfoldable pub driver_init : Gpio → Answers → State → State × List Wire × Registered × ℤ
driver_init g a s =
    let r₁ = record none_registered { region = true } in
    let r₂ = record r₁ { class = true } in
    let r₃ = record r₂ { cdev = true } in
    let r₄ = record r₃ { device = true } in
    if not a.alloc_ok
    then (s, [], none_registered, negsuc 0)
    else (if not a.class_ok
        then (s, [], r₁, negsuc 0)
        else (if not (a.cdev_ret ==ℤ pos 0)
            then (s, [], r₂, a.cdev_ret)
            else (if not a.device_ok
                then (s, [], r₃, negsuc 0)
                else (let (s', wire) = start_strip g a.register s in (s', wire, r₄, pos 0)))))

unfoldable pub driver_exit : State → Registered → State × Registered
driver_exit s r = (
  record s { log = release_pin 45 (release_pin 28 (release_pin 12 s.log)) },
  record r { cdev = false; device = false; class = false; region = false },
)
