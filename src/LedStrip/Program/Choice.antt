-- ===== src/LedStrip/Program/Choice.antt =====
-- What the program's dialogue with the user can come to.
use linux_kernel_programing.Prelude.{
  ℕ, zero, suc, ◌+◌, ◌≤◌, ◌<◌, ◌≡◌, refl, none, some, List, [], ◌∷◌, arith, length, length-set,
  length-take, get_elem?, take,
}
use linux_kernel_programing.Prelude.Int.{ℤ, pos, negsuc, ◌==ℤ◌, bits32}
use linux_kernel_programing.LedStrip.Program.{
  Rgb, rgb, no_colors, Reading, waiting, out_of_bounds, got, read_total, store_color, custom_color,
  panel_color, read_color, read_colors, color_panel, Show, dialogue, frames_of,
}

-- What a stored colour leaves.
abbrev Stored : ℕ → List Rgb → Reading (List Rgb × List ℤ) → Type 0
Stored row led_rgb waiting = Unit
Stored row led_rgb out_of_bounds = Unit
Stored row led_rgb (got (led_rgb', input)) = (row < 12) × (length led_rgb' ≡ length led_rgb)

store_color-Stored :
    (row : ℕ) (color : Rgb) (input : List ℤ) (led_rgb : List Rgb)
    → Stored row led_rgb (store_color row color input led_rgb)
unfolding store_color
store_color-Stored row color input led_rgb = ground (arith, length-set led_rgb row color)

custom_color-Stored :
    (row : ℕ) (input : List ℤ) (led_rgb : List Rgb)
    → Stored row led_rgb (custom_color row input led_rgb)
unfolding custom_color
custom_color-Stored row (r ∷ g ∷ b ∷ input) led_rgb =
    store_color-Stored row (rgb (bits32 r) (bits32 g) (bits32 b)) input led_rgb
custom_color-Stored row (r ∷ g ∷ []) led_rgb = tt
custom_color-Stored row (r ∷ []) led_rgb = tt
custom_color-Stored row [] led_rgb = tt

panel_color-Stored :
    (row : ℕ) (c : ℤ) (input : List ℤ) (led_rgb : List Rgb)
    → Stored row led_rgb (panel_color row c input led_rgb)
unfolding panel_color
panel_color-Stored row (pos (suc n)) input led_rgb =
    elim (get_elem? color_panel n)
      as (λ o.
        Stored row led_rgb
          (elim o [ none ↦ out_of_bounds | some color ↦ store_color row color input led_rgb ])) [
            | none ↦ tt
            | some color ↦ store_color-Stored row color input led_rgb
          ]
panel_color-Stored row (pos zero) input led_rgb = tt
panel_color-Stored row (negsuc n) input led_rgb = tt

read_color-Stored :
    (row : ℕ) (input : List ℤ) (led_rgb : List Rgb)
    → Stored row led_rgb (read_color row input led_rgb)
unfolding read_color
read_color-Stored row [] led_rgb = tt
read_color-Stored row (c ∷ input) led_rgb = ground (
  arith,
  read_color-Stored row input led_rgb,
  custom_color-Stored row input led_rgb,
  panel_color-Stored row c input led_rgb,
)

read_colors-length :
    (rounds row : ℕ) (input rest : List ℤ) (led_rgb colors : List Rgb)
    → row ≤ 12
    → read_colors rounds row input led_rgb ≡ got (colors, rest)
    → (row + rounds ≤ 12) × (length colors ≡ length led_rgb)
unfolding read_colors
read_colors-length zero row input rest led_rgb colors few e = (omega arith, ground (arith, e))
read_colors-length (suc rounds) row input rest led_rgb colors few e =
    (elim (read_color row input led_rgb)
        as (λ r.
          Stored row led_rgb r
          → (elim r as (λ x. Reading (List Rgb × List ℤ)) [
            | waiting ↦ waiting
            | out_of_bounds ↦ out_of_bounds
            | got (led_rgb', input') ↦ read_colors rounds (row + 1) input' led_rgb'
          ])
            ≡ got (colors, rest)
          → (row + suc rounds ≤ 12) × (length colors ≡ length led_rgb)) [
            | waiting ↦ λ s f. absurd (cc f)
            | out_of_bounds ↦ λ s f. absurd (cc f)
            | got (led_rgb', input') ↦ λ s f.
                let (few', same) =
                  read_colors-length rounds (row + 1) input' rest led_rgb' colors
                    (omega (arith, s.0)) f in
                (omega (arith, few'), omega (arith, same, s.1))
          ])
      (read_color-Stored row input led_rgb) e

read_total-first :
    (n : ℕ) (input : List ℤ) → 0 < n → n < 17 → read_total (pos n ∷ input) ≡ got (n, input)
unfolding read_total
read_total-first n input low high = ground arith

-- When the user asks for 1 to 16 LEDs and all colours are read without an access outside an array,
-- then at most 12 LEDs were asked for, and the colours shown are as many: with 13 to 16 LEDs, which
-- the program accepts, the colours are stored outside `led_rgb`, or never read.
pub dialogue-colors :
    (n : ℕ) (repeat_loop : ℤ) (input : List ℤ) (show : Show)
    → 0 < n
    → n < 17
    → dialogue (pos n ∷ repeat_loop ∷ input) ≡ got show
    → (n ≤ 12) × (length show.colors ≡ n) × (show.frames ≡ frames_of repeat_loop)
unfolding dialogue
dialogue-colors n repeat_loop input show low high e =
    let chosen : List Rgb → Show = λ colors. record {
      colors = take n colors;
      frames = frames_of repeat_loop;
      repeat_infinity = repeat_loop ==ℤ pos 0;
    } in
    (elim (read_colors n 0 input no_colors)
        as (λ r.
          read_colors n 0 input no_colors ≡ r
          → (elim r as (λ x. Reading Show) [
            | waiting ↦ waiting
            | out_of_bounds ↦ out_of_bounds
            | got (led_rgb, rest) ↦ got (chosen led_rgb)
          ])
            ≡ got show
          → (n ≤ 12) × (length show.colors ≡ n) × (show.frames ≡ frames_of repeat_loop)) [
            | waiting ↦ λ q f. absurd (cc f)
            | out_of_bounds ↦ λ q f. absurd (cc f)
            | got (led_rgb, rest) ↦ λ q f.
                let (few, same) =
                  read_colors-length n 0 input rest no_colors led_rgb (omega arith) q in
                let taken : length (take n led_rgb) ≡ n =
                  omega (arith, length-take n led_rgb, few, same) in
                let shown : chosen led_rgb ≡ show = cc f in
                (omega (arith, few), rw (← shown) taken, rw (← shown) refl)
          ])
      refl (rw (read_total-first n (repeat_loop ∷ input) low high, dialogue) at e)
