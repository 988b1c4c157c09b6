-- ===== src/LedStrip/Tests.antt =====
-- The theorems about the WS2812 drivers at concrete inputs.
use linux_kernel_programing.Prelude.{
  ℕ, length, ◌≡◌, refl, true, false, some, List, [], ◌∷◌, arith, set, replicate, ◌==◌,
  if◌then◌else◌,
}
use linux_kernel_programing.Prelude.Int.{ℤ, pos, ◌*ℤ◌, wrap32}
use linux_kernel_programing.Gpio.{Gpio, Log, requested}
use linux_kernel_programing.LedStrip.Pixels.{Strip}
use linux_kernel_programing.LedStrip.Colors.{color_row, IsStrip}
use linux_kernel_programing.LedStrip.BitBang
use linux_kernel_programing.LedStrip.BitBang.{Wire}
use linux_kernel_programing.LedStrip.BitBang.Wires.{
  Timing, Fits, receive, all_bits, ws_write-receive,
}
use linux_kernel_programing.LedStrip.Spi
use linux_kernel_programing.LedStrip.Spi.{Sent, memory}
use linux_kernel_programing.LedStrip.Spi.Transfer.{ws_write-bytes}
use linux_kernel_programing.LedStrip.Driver
use linux_kernel_programing.LedStrip.Driver.{StripDriver, Lit, IsLit}
use linux_kernel_programing.LedStrip.Program.{
  got, bit_bang_main, rgb, Show, frames_of, dialogue, read_total, read_colors, read_color,
  custom_color, panel_color, store_color,
}
use linux_kernel_programing.LedStrip.Program.Frames.{Pictures, black}
use linux_kernel_programing.LedStrip.Program.Whole.{main_program-picture}

abbrev dark : Strip
dark = record { leds = replicate 16 (replicate 24 0); single = replicate 24 0 }

dark-IsStrip : IsStrip dark
dark-IsStrip = record { rows = refl; columns = refl; built = refl }

abbrev bit_bang : BitBang.State
bit_bang = record { strip = dark; val_data = 3; log = [] }

-- A strip that takes 300 nanoseconds for a 1, on a board that writes its register in 100.
abbrev timing : Timing
timing = record { threshold = 300; write_time = 100 }

timing-Fits : Fits timing
timing-Fits = record { above = omega arith; below = omega arith }

ws_write-receive_example :
    (out : BitBang.State × List Wire × ℤ) × (BitBang.ws_write 2 10 20 30 bit_bang ≡ some out)
    × (out.2 ≡ pos 0)
    × (out.0.strip.leds ≡ set dark.leds 2 (color_row 1 0 20 10 30))
    × (receive timing false 0 out.1 ≡ all_bits out.0.strip.leds)
ws_write-receive_example =
    ws_write-receive 2 10 20 30 timing bit_bang dark-IsStrip (omega arith) timing-Fits

-- A kernel that refuses pin 45.
abbrev stubborn : Gpio
stubborn = record { grants = λ log pin. if pin == 45 then false else true; cansleep = λ pin. true }

abbrev started : Log
started = requested 45 ∷ requested 28 ∷ requested 12 ∷ []

abbrev on_bus : Spi.State
on_bus = record { strip = dark; bus_locked = false; log = [] }

ws_write-bytes_example :
    (out : Spi.State × Sent × ℤ) × (Spi.ws_write (pos 0) (pos 0) 15 1 2 3 on_bus ≡ some out)
    × (out.2 ≡ pos 0)
    × (out.0.bus_locked ≡ false)
    × (out.0.strip.leds ≡ set dark.leds 15 (color_row 0xF0 0xC0 2 1 3))
    × (out.1.bytes ≡ Spi.memory out.0.strip.leds)
ws_write-bytes_example =
    ws_write-bytes (pos 0) (pos 0) 15 1 2 3 on_bus dark-IsStrip refl (omega arith)

-- Two LEDs, one turn, red and a colour of the user's.
abbrev answers : List ℤ
answers = pos 1 ∷ pos 13 ∷ pos 10 ∷ pos 20 ∷ pos 30 ∷ []

abbrev chosen : Show
chosen = record { colors = rgb 255 0 0 ∷ rgb 10 20 30 ∷ []; frames = 16; repeat_infinity = false }

answered : dialogue (pos 2 ∷ pos 1 ∷ answers) ≡ got chosen
unfolding wrap32 ◌*ℤ◌ dialogue read_total read_colors read_color custom_color panel_color
    store_color
answered = refl

abbrev strip_driver : StripDriver
strip_driver = Driver.bit_bang stubborn timing timing-Fits

-- The strip was blanked.
abbrev blanked : Lit BitBang.State
blanked = record { driver = bit_bang; line = replicate 384 0 }

main_program-picture_example :
    (shown : List (List ℕ)) × (s' : Lit BitBang.State) × (bit_bang_main stubborn timing timing-Fits
        1
        (pos 2 ∷ pos 1 ∷ answers)
        blanked
      ≡ got (some (shown, s')))
    × (length shown ≡ frames_of (pos 1))
    × Pictures strip_driver chosen.colors (frames_of (pos 1)) 0 shown
    × IsLit s'
    × (s'.line ≡ memory (replicate 16 (black strip_driver)))
main_program-picture_example =
    main_program-picture strip_driver 2 (pos 1) answers chosen blanked (omega arith) (omega arith)
      (λ e. cc) answered (dark-IsStrip, refl)
