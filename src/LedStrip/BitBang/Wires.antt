-- ===== src/LedStrip/BitBang/Wires.antt =====
-- What goes over the line in `ws2812.c`, against a receiver that times the high phases.
use linux_kernel_programing.Prelude.{
  ℕ, ◌+◌, ◌/◌, ◌%◌, ◌^◌, ◌≤◌, ◌<◌, ◌≡◌, refl, ap, ◌∙◌, inl, inr, Bool-cases, Bool, true, false, not,
  ◌&&◌, none, some, List, [], ◌∷◌, ◌++◌, arith, set, replicate, leb, ◌==◌, if◌then◌else◌, lt→ltb,
}
use mathlib.Core.List.{append_assoc}
use linux_kernel_programing.Prelude.Int.{ℤ, pos}
use linux_kernel_programing.LedStrip.Pixels.{Strip, set_led_rgb, table, blank_leds}
use linux_kernel_programing.LedStrip.Colors.{
  color_row, IsStrip, set_led_rgb-eq, set_led_rgb-IsStrip, blank_leds-eq, blank_leds-IsStrip,
}
use linux_kernel_programing.LedStrip.BitBang.{
  Wire, with_bit, without_bit, iowrite32, ndelay, State, bit_1, bit_0, send_bit_1, send_bit_0,
  send_row, write_to_registers, ws_write, reset_leds,
}

-- How the strip and the board time the line: from how many nanoseconds on a high phase is a 1, and
-- how many an `iowrite32` takes until the line has its value.
pub record Timing : Type 0 where
  pub threshold : ℕ
  pub write_time : ℕ

-- A 0 is high for the time of two `iowrite32`s, a 1 for 400 nanoseconds and that of one.
pub record Fits (t : Timing) : Type 0 where
  pub above : t.write_time + t.write_time < t.threshold
  pub below : t.threshold ≤ 400 + t.write_time

-- The receiver: when the line falls it takes 1 if it was high up to the threshold, and 0 if not.
-- `up` is the line and `time` how long it has been high.
unfoldable pub receive : Timing → Bool → ℕ → List Wire → List ℕ
receive t up time [] = []
receive t up time (ndelay n ∷ w) = receive t up (if up then time + n else 0) w
receive t up time (iowrite32 v ∷ w) =
    let high = v / 2 ^ 4 % 2 == 1 in
    let lasted = time + t.write_time in
    let bit = if leb t.threshold lasted then 1 else 0 in
    let rest = receive t high (if up && high then lasted else 0) w in
    if up && not high then bit ∷ rest else rest

-- The bits that a row of cells stands for.
abbrev pub row_bits : List ℕ → List ℕ
row_bits [] = []
row_bits (x ∷ row) = (if x == 1 then 1 else 0) ∷ row_bits row

abbrev pub all_bits : List (List ℕ) → List ℕ
all_bits [] = []
all_bits (row ∷ rows) = row_bits row ++ all_bits rows

with_bit-high : (v : ℕ) → (with_bit v 4 / 2 ^ 4 % 2 == 1) ≡ true
with_bit-high v = ground arith

without_bit-low : (v : ℕ) → (without_bit v 4 / 2 ^ 4 % 2 == 1) ≡ false
without_bit-low v = ground arith

module _ (t : Timing) (fits : Fits t) (v : ℕ) where
  receive-send_bit_1 :
      (rest : List Wire) → receive t false 0 (send_bit_1 v ++ rest) ≡ 1 ∷ receive t false 0 rest
  unfolding receive send_bit_1
  receive-send_bit_1 rest = rw (with_bit-high v, without_bit-low v) (ground (arith, fits))

  receive-send_bit_0 :
      (rest : List Wire) → receive t false 0 (send_bit_0 v ++ rest) ≡ 0 ∷ receive t false 0 rest
  unfolding receive send_bit_0
  receive-send_bit_0 rest = rw (with_bit-high v, without_bit-low v) (ground (arith, fits))

  receive-send_row :
      (row : List ℕ) (rest : List Wire)
      → receive t false 0 (send_row v row ++ rest) ≡ row_bits row ++ receive t false 0 rest
  unfolding send_row
  receive-send_row [] rest = refl
  receive-send_row (x ∷ row) rest = elim (Bool-cases (x == 1)) [
    | inl e ↦ rw (e, append_assoc, receive-send_bit_1, receive-send_row row rest)
    | inr e ↦ rw (e, append_assoc, receive-send_bit_0, receive-send_row row rest)
  ]

  -- A receiver whose threshold lies above the time of two writes of the register and not above 400
  -- nanoseconds and the time of one reads the cells of all LEDs in order, whatever else the register
  -- holds.
  pub receive-write_to_registers :
      (rows : List (List ℕ)) → receive t false 0 (write_to_registers v rows) ≡ all_bits rows
  unfolding write_to_registers receive
  receive-write_to_registers [] = refl
  receive-write_to_registers (row ∷ rows) =
      rw (receive-send_row row (write_to_registers v rows), receive-write_to_registers rows)

-- Within the strip a user's write returns 0, puts the colour at the LED and leaves the others. If
-- each `iowrite32` takes the same time, twice that time is below the strip's threshold and 400
-- nanoseconds plus that time are not, then the strip, which takes a high phase up to the threshold
-- for a 1, reads exactly the cells so changed. No other time is counted.
pub ws_write-receive :
    (number red green blue : ℕ) (t : Timing) (s : State)
    → IsStrip s.strip
    → number < 16
    → Fits t
    → (out : State × List Wire × ℤ) × (ws_write number red green blue s ≡ some out)
      × (out.2 ≡ pos 0)
      × (out.0.strip.leds ≡ set s.strip.leds number (color_row bit_1 bit_0 green red blue))
      × (receive t false 0 out.1 ≡ all_bits out.0.strip.leds)
unfolding ws_write
ws_write-receive number red green blue t s v h fits =
    let row = color_row bit_1 bit_0 green red blue in
    let strip : Strip = record { leds = set s.strip.leds number row; single = row } in
    let stored : set_led_rgb bit_1 bit_0 number red green blue s.strip ≡ some strip =
      rw (lt→ltb number 16 h) at (set_led_rgb-eq bit_1 bit_0 number red green blue s.strip v) in
    (
      (record s { strip = strip }, write_to_registers s.val_data strip.leds, pos 0),
      rw (stored, ws_write) refl,
      refl,
      refl,
      receive-write_to_registers t fits s.val_data strip.leds,
    )

-- A user's write to an LED number of 16 or more writes outside the pixel store: the driver does
-- not check the number.
pub ws_write-out_of_bounds :
    (number red green blue : ℕ) (s : State) → 16 ≤ number → ws_write number red green blue s ≡ none
unfolding ws_write set_led_rgb
ws_write-out_of_bounds number red green blue s h = ground arith

-- The strip's shape is kept by writes and resets.
pub ws_write-IsStrip :
    (number red green blue : ℕ) (s : State) {out : State × List Wire × ℤ}
    → IsStrip s.strip
    → ws_write number red green blue s ≡ some out
    → IsStrip out.0.strip
unfolding ws_write
ws_write-IsStrip number red green blue s v h = ground (
  arith,
  set_led_rgb-eq bit_1 bit_0 number red green blue s.strip v,
  set_led_rgb-IsStrip bit_1 bit_0 number red green blue s.strip v,
)

-- `reset_leds`, which the command `RESET` and the release run, leaves a strip of the right shape on
-- which every cell is 0, and the strip, with a threshold as above, reads just those.
pub reset_leds-receive :
    (t : Timing) (s : State)
    → IsStrip s.strip
    → Fits t
    → let (s', wire) = reset_leds s in
      IsStrip s'.strip
      × (s'.strip.leds ≡ replicate 16 (replicate 24 0))
      × (receive t false 0 wire ≡ replicate 384 0)
unfolding reset_leds table
reset_leds-receive t s v fits =
    let leds = (blank_leds bit_1 bit_0 s.strip).leds in
    let black : leds ≡ replicate 16 (replicate 24 0) =
      rw (blank_leds-eq bit_1 bit_0 s.strip v) refl in
    (
      blank_leds-IsStrip bit_1 bit_0 s.strip v,
      black,
      receive-write_to_registers t fits s.val_data leds ∙ ap all_bits black,
    )
