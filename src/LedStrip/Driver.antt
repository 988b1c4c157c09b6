-- ===== src/LedStrip/Driver.antt =====
-- What a program sees of a WS2812 driver and of the strip on its line, and that both drivers offer
-- it.
use linux_kernel_programing.Prelude.{
  ap, ◌∙◌, sym, replicate, true, ℕ, zero, suc, ◌<◌, ◌≡◌, refl, false, Option, none, some, List, [],
  ◌∷◌, map, length, length-map, set,
}
use linux_kernel_programing.Prelude.Int.{pos}
use linux_kernel_programing.Gpio.{Gpio}
use linux_kernel_programing.LedStrip.Pixels.{table}
use linux_kernel_programing.LedStrip.Colors.{blank_leds-IsStrip, color_row, IsStrip}
use linux_kernel_programing.LedStrip.BitBang
use linux_kernel_programing.LedStrip.BitBang.Wires.{
  Timing, Fits, receive, row_bits, all_bits, ws_write-receive, ws_write-IsStrip, reset_leds-receive,
}
use linux_kernel_programing.LedStrip.Spi
use linux_kernel_programing.LedStrip.Spi.{Sent, memory}
use linux_kernel_programing.LedStrip.Spi.Transfer.{ws_write-bytes, reset_leds-bytes}
use linux_kernel_programing.LedStrip.Spi.Transfer

-- A strip of 16 LEDs that takes colours, red, green and blue: the LEDs' rows in the pixel store, and
-- what the strip received last.
pub record StripDriver : Type 1 where
  pub State : Type 0
  pub IsValid : State → Type 0
  pub rows : State → List (List ℕ)
  pub line : State → List ℕ
  pub row_of : ℕ → ℕ → ℕ → List ℕ
  pub write : ℕ → ℕ → ℕ → ℕ → State → Option State
  -- the command `RESET`
  pub reset : State → State
  pub length-rows : (s : State) → IsValid s → length (rows s) ≡ 16
  pub line-rows : (s : State) → IsValid s → line s ≡ memory (rows s)
  pub write-row :
      (number red green blue : ℕ) (s : State)
      → IsValid s
      → number < 16
      → (s' : State) × (write number red green blue s ≡ some s')
        × IsValid s'
        × (rows s' ≡ set (rows s) number (row_of red green blue))
  pub reset-rows :
      (s : State) → IsValid s → IsValid (reset s) × (rows (reset s) ≡ replicate 16 (row_of 0 0 0))

-- A driver's state, and what the strip received last.
pub record Lit (S : Type 0) : Type 0 where
  pub driver : S
  pub line : List ℕ

-- A user's write, and what the strip receives of it.
abbrev pub bit_bang_write : Timing → ℕ → ℕ → ℕ → ℕ → Lit BitBang.State → Option (Lit BitBang.State)
bit_bang_write t number red green blue s = elim (BitBang.ws_write number red green blue s.driver) [
  | none ↦ none
  | some out ↦ some (record { driver = out.0; line = receive t false 0 out.1 })
]

abbrev pub bit_bang_reset : Gpio → Timing → Lit BitBang.State → Lit BitBang.State
bit_bang_reset g t s =
    let (s', wire, result) = BitBang.ws_ioctl g true s.driver in
    record { driver = s'; line = receive t false 0 wire }

abbrev pub IsLit : Lit BitBang.State → Type 0
IsLit s = IsStrip s.driver.strip × (s.line ≡ all_bits s.driver.strip.leds)

map-set {ℓ κ} :
    {A : Type ℓ} {B : Type κ} (f : A → B) (xs : List A) (i : ℕ) (x : A)
    → map f (set xs i x) ≡ set (map f xs) i (f x)
map-set f [] i x = refl
map-set f (y ∷ xs) zero x = refl
map-set f (y ∷ xs) (suc i) x = rw (map-set f xs i x)

pub all_bits-memory : (leds : List (List ℕ)) → all_bits leds ≡ memory (map row_bits leds)
all_bits-memory [] = refl
all_bits-memory (row ∷ leds) = rw (all_bits-memory leds)

abbrev pub bit_row : ℕ → ℕ → ℕ → List ℕ
bit_row red green blue = row_bits (color_row BitBang.bit_1 BitBang.bit_0 green red blue)

pub bit_bang_write-row :
    (t : Timing)
    → Fits t
    → (number red green blue : ℕ) (s : Lit BitBang.State) → IsLit s
    → number < 16
    → (s' : Lit BitBang.State) × (bit_bang_write t number red green blue s ≡ some s')
      × IsLit s'
      × (map row_bits s'.driver.strip.leds
          ≡ set (map row_bits s.driver.strip.leds) number (bit_row red green blue))
bit_bang_write-row t fits number red green blue s v h =
    let (out, e, _, leds, received) =
      ws_write-receive number red green blue t s.driver v.0 h fits in
    (
      record { driver = out.0; line = receive t false 0 out.1 },
      rw (e, bit_bang_write) refl,
      (ws_write-IsStrip number red green blue s.driver v.0 e, received),
      ap (map row_bits) leds ∙ map-set row_bits s.driver.strip.leds number _,
    )

pub bit_bang_reset-row :
    (g : Gpio) (t : Timing)
    → Fits t
    → (s : Lit BitBang.State) → IsLit s
    → let s' = bit_bang_reset g t s in
      IsLit s' × (map row_bits s'.driver.strip.leds ≡ replicate 16 (bit_row 0 0 0))
unfolding BitBang.ws_ioctl table
bit_bang_reset-row g t fits s v =
    let (v', leds, received) = reset_leds-receive t s.driver v.0 fits in
    ((v', received ∙ sym (ap all_bits leds)), ap (map row_bits) leds)

-- A strip with such a timing on the line of `ws2812.c`.
abbrev pub bit_bang : Gpio → (t : Timing) → Fits t → StripDriver
bit_bang g t fits = record {
  State = Lit BitBang.State;
  IsValid = IsLit;
  rows = λ s. map row_bits s.driver.strip.leds;
  line = λ s. s.line;
  row_of = bit_row;
  write = bit_bang_write t;
  length-rows = λ s v. length-map s.driver.strip.leds row_bits ∙ v.0.rows;
  line-rows = λ s v. v.1 ∙ all_bits-memory s.driver.strip.leds;
  write-row = bit_bang_write-row t fits;
  reset = bit_bang_reset g t;
  reset-rows = bit_bang_reset-row g t fits;
}

-- The strip receives the bytes that are handed over; the core queues each message and transfers it
-- without an error.
abbrev pub spi_write : ℕ → ℕ → ℕ → ℕ → Lit Spi.State → Option (Lit Spi.State)
spi_write number red green blue s =
    elim (Spi.ws_write (pos 0) (pos 0) number red green blue s.driver) [
      | none ↦ none
      | some out ↦ some (record { driver = out.0; line = out.1.bytes })
    ]

abbrev pub spi_reset : Gpio → Lit Spi.State → Lit Spi.State
spi_reset g s =
    let (s', bytes, result) = Spi.ws_ioctl g true s.driver in record { driver = s'; line = bytes }

abbrev pub IsSent : Lit Spi.State → Type 0
IsSent s =
    IsStrip s.driver.strip × (s.driver.bus_locked ≡ false) × (s.line ≡ memory s.driver.strip.leds)

pub spi_write-row :
    (number red green blue : ℕ) (s : Lit Spi.State)
    → IsSent s
    → number < 16
    → (s' : Lit Spi.State) × (spi_write number red green blue s ≡ some s')
      × IsSent s'
      × (s'.driver.strip.leds
          ≡ set s.driver.strip.leds number (color_row Spi.bit_1 Spi.bit_0 green red blue))
spi_write-row number red green blue s (v, free, _) h =
    let (out, e, _, free', leds, sent) =
      ws_write-bytes (pos 0) (pos 0) number red green blue s.driver v free h in
    (
      record { driver = out.0; line = out.1.bytes },
      rw (e, spi_write) refl,
      (Transfer.ws_write-IsStrip (pos 0) (pos 0) number red green blue s.driver v e, free', sent),
      leds,
    )

pub spi_reset-row :
    (g : Gpio) (s : Lit Spi.State)
    → IsSent s
    → let s' = spi_reset g s in
      IsSent s' × (s'.driver.strip.leds ≡ replicate 16 (color_row Spi.bit_1 Spi.bit_0 0 0 0))
unfolding Spi.ws_ioctl Spi.reset_leds table
spi_reset-row g s (v, free, _) = (
  (blank_leds-IsStrip Spi.bit_1 Spi.bit_0 s.driver.strip v, free, refl),
  (reset_leds-bytes s.driver v).0,
)

-- A strip on the bus of `spi_driver.c`.
abbrev pub spi : Gpio → StripDriver
spi g = record {
  State = Lit Spi.State;
  IsValid = IsSent;
  rows = λ s. s.driver.strip.leds;
  line = λ s. s.line;
  row_of = λ red green blue. color_row Spi.bit_1 Spi.bit_0 green red blue;
  write = spi_write;
  length-rows = λ s v. v.0.rows;
  line-rows = λ s v. v.2;
  write-row = spi_write-row;
  reset = spi_reset g;
  reset-rows = spi_reset-row g;
}
