-- ===== src/LedStrip/Program/Whole.antt =====
-- The whole program, from its dialogue to the dark strip, on whichever WS2812 driver.
use mathlib.Core.List.{append-nil}
use mathlib.Core.Path.{subst}
use linux_kernel_programing.Prelude.{
  ℕ, zero, suc, ◌<◌, ◌≡◌, ◌≢◌, refl, ap, ◌∙◌, some, List, [], ◌∷◌, arith, length, get_or, replicate,
}
use linux_kernel_programing.Prelude.Int.{ℤ, pos}
use linux_kernel_programing.LedStrip.Spi.{memory}
use linux_kernel_programing.LedStrip.Driver.{StripDriver}
use linux_kernel_programing.LedStrip.Program.{
  Rgb, got, Show, dialogue, frames_of, play, display, main_program,
}
use linux_kernel_programing.LedStrip.Program.Choice.{dialogue-colors}
use linux_kernel_programing.LedStrip.Program.Frames.{Pictures, black, IsDark, play-picture}

pub get_or-replicate : (n i : ℕ) (row : List ℕ) → i < n → get_or (replicate n row) i [] ≡ row
get_or-replicate zero i row h = absurd (omega arith)
get_or-replicate (suc n) zero row h = refl
get_or-replicate (suc n) (suc i) row h = get_or-replicate n i row (omega arith)

module _ (driver : StripDriver) where
  open driver use {State, IsValid, rows, line, reset, line-rows, reset-rows}

  -- A reset strip is dark.
  reset-IsDark : (s : State) → IsValid s → IsValid (reset s) × IsDark driver (reset s)
  reset-IsDark s v =
      let (v', dark) = reset-rows s v in
      (v', λ i h. ap (λ leds. get_or leds i []) dark ∙ get_or-replicate 16 i (black driver) h)

  display-once :
      (colors : List Rgb) (frames : ℕ) (s s' : State) (shown : List (List ℕ))
      → play driver colors frames 0 s ≡ some (shown, s')
      → display driver 1 colors frames s ≡ some (shown, s')
  unfolding display
  display-once colors frames s s' shown e = rw (e, display, append-nil shown) refl

  main_program-shows :
      (passes : ℕ) (input : List ℤ) (show : Show) (s s' : State) (shown : List (List ℕ))
      → dialogue input ≡ got show
      → display driver passes show.colors show.frames (reset s) ≡ some (shown, s')
      → main_program driver passes input s ≡ got (some (shown, reset s'))
  unfolding main_program
  main_program-shows passes input show s s' shown chosen e = rw (chosen, e, main_program) refl

  -- On every driver that keeps the laws of `StripDriver`, as both WS2812 drivers do (`ws2812.c` with
  -- a strip whose timing fits, `spi_driver.c` if the core transfers every message), from any valid
  -- state: when the user asks for 1 to 16 LEDs and a number of turns other than 0, and all colours are
  -- read without an access outside an array, the program ends and has `frames_of repeat_loop` frames,
  -- 16 for each turn. Before the sleep of the `k`-th frame the strip received 16 LEDs last, of which
  -- the one that is `j` LEDs behind the LED `k`, round the strip, has the `j`-th colour, and is black
  -- if there is none; at the end it received 16 black LEDs last.
  pub main_program-picture :
      (n : ℕ) (repeat_loop : ℤ) (input : List ℤ) (show : Show) (s : State)
      → 0 < n
      → n < 17
      → repeat_loop ≢ pos 0
      → dialogue (pos n ∷ repeat_loop ∷ input) ≡ got show
      → IsValid s
      → (shown : List (List ℕ)) × (s' : State) × (main_program driver 1
            (pos n ∷ repeat_loop ∷ input)
            s
          ≡ got (some (shown, s')))
        × (length shown ≡ frames_of repeat_loop)
        × Pictures driver show.colors (frames_of repeat_loop) 0 shown
        × IsValid s'
        × (line s' ≡ memory (replicate 16 (black driver)))
  main_program-picture n repeat_loop input show s low high turns chosen v =
      let (few, number, frames) = dialogue-colors n repeat_loop input show low high chosen in
      let (v₁, dark) = reset-IsDark s v in
      let (shown, s', e, count, pictures, v', _) =
        play-picture driver show.colors show.frames 0 (reset s) v₁ dark
          (omega (arith, few, number)) in
      let (v'', leds) = reset-rows s' v' in
      (
        shown,
        reset s',
        main_program-shows 1 (pos n ∷ repeat_loop ∷ input) show s s' shown chosen
            (display-once show.colors show.frames (reset s) s' shown e),
        count ∙ frames,
        subst (λ rounds. Pictures driver show.colors rounds 0 shown) frames pictures,
        v'',
        line-rows (reset s') v'' ∙ ap memory leds,
      )
