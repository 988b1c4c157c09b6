-- ===== src/LedStrip/Program.antt =====
-- The user's program of the two WS2812 drivers, `SPI based driver for WS2812 LED Strip/main.c` and
-- `Bit Banging Approach to drive WS2812 based LED Strip/main.c`, one text on two drivers: it asks for the number of LEDs, the number of
-- turns and the colours, and lets the colours go round the strip. What `scanf` reads is a list of
-- numbers, an argument.
pub mod Frames
pub mod Choice
pub mod Whole
use linux_kernel_programing.Prelude.{
  ℕ, zero, suc, ◌+◌, ◌*◌, ◌%◌, ◌^◌, ◌&&◌, Option, none, some, List, [], ◌∷◌, ◌++◌, get_elem?, set,
  take, map, replicate, ltb, if◌then◌else◌, true, false, Bool,
}
use linux_kernel_programing.Prelude.Int.{
  ℤ, pos, negsuc, ltb_ℤ, ◌==ℤ◌, bits32, wrap32, ◌*ℤ◌, pos_part,
}
use linux_kernel_programing.Gpio.{Gpio}
use linux_kernel_programing.LedStrip.BitBang
use linux_kernel_programing.LedStrip.Spi
use linux_kernel_programing.LedStrip.Driver.{StripDriver, Lit, bit_bang, spi}
use linux_kernel_programing.LedStrip.BitBang.Wires.{Timing, Fits}

-- A colour; the three C `int`s are 32-bit patterns.
pub record Rgb : Type 0 where
  pub red : ℕ
  pub green : ℕ
  pub blue : ℕ

abbrev pub rgb : ℕ → ℕ → ℕ → Rgb
rgb r g b = record { red = r; green = g; blue = b }

abbrev pub color_panel : List Rgb
color_panel =
    rgb 255 0 0
    ∷ rgb 0 255 0
    ∷ rgb 0 0 255
    ∷ rgb 255 255 0
    ∷ rgb 255 255 255
    ∷ rgb 138 43 226
    ∷ rgb 0 255 255
    ∷ rgb 255 0 255
    ∷ rgb 255 165 0
    ∷ rgb 139 69 19
    ∷ rgb 128 0 0
    ∷ rgb 255 105 180
    ∷ []

-- `led_rgb`, of 12 rows.
abbrev pub no_colors : List Rgb
no_colors = replicate 12 (rgb 0 0 0)

-- What a part of the dialogue comes to: it waits for more numbers, it reads or writes outside an
-- array, or it gets a result.
pub data Reading {ℓ} (A : Type ℓ) : Type ℓ where
  waiting : Reading A
  out_of_bounds : Reading A
  got : A → Reading A

-- The loop that asks for the number of LEDs.
unfoldable pub read_total : List ℤ → Reading (ℕ × List ℤ)
read_total [] = waiting
read_total (n ∷ input) =
    let again = read_total input in
    if ltb_ℤ (pos 0) n && ltb_ℤ n (pos 17) then got (pos_part n, input) else again

unfoldable pub store_color : ℕ → Rgb → List ℤ → List Rgb → Reading (List Rgb × List ℤ)
store_color row color input led_rgb =
    if ltb row 12 then got (set led_rgb row color, input) else out_of_bounds

-- Colour 13: three more numbers.
unfoldable pub custom_color : ℕ → List ℤ → List Rgb → Reading (List Rgb × List ℤ)
custom_color row (r ∷ g ∷ b ∷ input) led_rgb =
    store_color row (rgb (bits32 r) (bits32 g) (bits32 b)) input led_rgb
custom_color row (r ∷ g ∷ []) led_rgb = waiting
custom_color row (r ∷ []) led_rgb = waiting
custom_color row [] led_rgb = waiting

-- A colour up to 12 from the panel.
unfoldable pub panel_color : ℕ → ℤ → List ℤ → List Rgb → Reading (List Rgb × List ℤ)
panel_color row (pos (suc n)) input led_rgb = elim (get_elem? color_panel n) [
  | none ↦ out_of_bounds
  | some color ↦ store_color row color input led_rgb
]
panel_color row (pos zero) input led_rgb = out_of_bounds
panel_color row (negsuc n) input led_rgb = out_of_bounds

-- The loop that asks for one LED's colour.
unfoldable pub read_color : ℕ → List ℤ → List Rgb → Reading (List Rgb × List ℤ)
read_color row [] led_rgb = waiting
read_color row (led_color ∷ input) led_rgb =
    let again = read_color row input led_rgb in
    if ltb_ℤ led_color (pos 14)
    then (if led_color ==ℤ pos 13
        then custom_color row input led_rgb
        else panel_color row led_color input led_rgb)
    else again

unfoldable pub read_colors : ℕ → ℕ → List ℤ → List Rgb → Reading (List Rgb × List ℤ)
read_colors zero row input led_rgb = got (led_rgb, input)
read_colors (suc rounds) row input led_rgb = elim (read_color row input led_rgb) [
  | waiting ↦ waiting
  | out_of_bounds ↦ out_of_bounds
  | got (led_rgb', input') ↦ read_colors rounds (row + 1) input' led_rgb'
]

-- What was chosen: the colours of the LEDs, the number of frames of one pass, and whether the
-- passes go on without end.
pub record Show : Type 0 where
  pub colors : List Rgb
  pub frames : ℕ
  pub repeat_infinity : Bool

-- `repeat_loop * 16` frames, where 0 turns stand for one without end.
abbrev pub frames_of : ℤ → ℕ
frames_of repeat_loop =
    let turns = if repeat_loop ==ℤ pos 0 then pos 1 else repeat_loop in
    pos_part (wrap32 (turns *ℤ pos 16))

unfoldable pub dialogue : List ℤ → Reading Show
dialogue input = elim (read_total input) [
  | waiting ↦ waiting
  | out_of_bounds ↦ out_of_bounds
  | got (total, []) ↦ waiting
  | got (total, repeat_loop ∷ input') ↦ elim (read_colors total 0 input' no_colors) [
    | waiting ↦ waiting
    | out_of_bounds ↦ out_of_bounds
    | got (led_rgb, rest) ↦ got (record {
      colors = take total led_rgb;
      frames = frames_of repeat_loop;
      repeat_infinity = repeat_loop ==ℤ pos 0;
    })
  ]
]

module _ (driver : StripDriver) where
  open driver use {State, line, write, reset}

  -- The writes of the colours from the LED `row_index` on.
  unfoldable pub light : ℕ → List Rgb → State → Option State
  light row_index [] s = some s
  light row_index (c ∷ colors) s = elim (write (row_index % 16) c.red c.green c.blue s) [
    | none ↦ none
    | some s' ↦ light (row_index + 1) colors s'
  ]

  -- The frames of a pass: what the strip received last before each `sleep`, and the state at the end.
  unfoldable pub play : List Rgb → ℕ → ℕ → State → Option (List (List ℕ) × State)
  play colors zero index s = some ([], s)
  play colors (suc rounds) index s = elim (light index colors s) [
    | none ↦ none
    | some lit ↦ elim (light index (map (λ c. rgb 0 0 0) colors) lit) [
      | none ↦ none
      | some dark ↦ elim (play colors rounds (index + 1) dark) [
        | none ↦ none
        | some (shown, s') ↦ some (line lit ∷ shown, s')
      ]
    ]
  ]

  -- A number of passes; without `repeat_infinity` it is 1.
  unfoldable pub display : ℕ → List Rgb → ℕ → State → Option (List (List ℕ) × State)
  display zero colors frames s = some ([], s)
  display (suc passes) colors frames s = elim (play colors frames 0 s) [
    | none ↦ none
    | some (shown, s') ↦ elim (display passes colors frames s') [
      | none ↦ none
      | some (shown', s'') ↦ some (shown ++ shown', s'')
    ]
  ]

  -- `main`, with the number of passes: the strip is reset before the dialogue and after the passes.
  -- `got none` is a write of the display that is out of bounds.
  unfoldable pub main_program : ℕ → List ℤ → State → Reading (Option (List (List ℕ) × State))
  main_program passes input s = elim (dialogue input) [
    | waiting ↦ waiting
    | out_of_bounds ↦ out_of_bounds
    | got show ↦ elim (display passes show.colors show.frames (reset s)) [
      | none ↦ got none
      | some (shown, s') ↦ got (some (shown, reset s'))
    ]
  ]

-- `main.c` beside `ws2812.c`.
abbrev pub bit_bang_main :
    Gpio
    → (t : Timing) → Fits t
    → ℕ
    → List ℤ
    → Lit BitBang.State
    → Reading (Option (List (List ℕ) × Lit BitBang.State))
bit_bang_main g t fits = main_program (bit_bang g t fits)

-- `main.c` beside `spi_driver.c`.
abbrev pub spi_main :
    Gpio → ℕ → List ℤ → Lit Spi.State → Reading (Option (List (List ℕ) × Lit Spi.State))
spi_main g = main_program (spi g)
