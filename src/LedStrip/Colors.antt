-- ===== src/LedStrip/Colors.antt =====
-- What the pixel store of the WS2812 drivers holds after a colour was set.
use linux_kernel_programing.Prelude.{
  ℕ, zero, suc, ◌+◌, ◌*◌, ◌-◌, ◌/◌, ◌%◌, ◌^◌, ◌≤◌, ◌<◌, ◌≡◌, ◌≢◌, refl, ap, ◌∙◌, inl, inr, Bool,
  true, false, none, some, List, [], ◌∷◌, ◌++◌, arith, length, get_or, set, take, drop, ltb, ◌==◌,
  if◌then◌else◌, length-append, length-set, Bool-cases,
}
use mathlib.Core.List.{append_assoc, append-nil}
use linux_kernel_programing.LedStrip.Pixels.{
  Strip, write_cells, table, length-table, write_cells-between, write_cells-all, split_at, bit_of,
  cell, set_color, set_led_rgb, blank_leds,
}

table-suc : (n start : ℕ) (f : ℕ → ℕ) → table n (suc start) f ≡ table n start (λ i. f (suc i))
unfolding table
table-suc zero start f = refl
table-suc (suc n) start f =
    let e : suc start + 1 ≡ suc (start + 1) = omega arith in
    ap (λ t. f (suc start) ∷ t) (ap (λ k. table n k f) e ∙ table-suc n (start + 1) f)

table-get_or : (n : ℕ) (xs : List ℕ) → length xs ≡ n → table n 0 (λ i. get_or xs i 0) ≡ xs
unfolding table
table-get_or zero [] h = refl
table-get_or zero (x ∷ xs) h = absurd (omega arith)
table-get_or (suc n) [] h = absurd (omega arith)
table-get_or (suc n) (x ∷ xs) h =
    ap (λ t. x ∷ t) (table-suc n 0 (λ i. get_or (x ∷ xs) i 0) ∙ table-get_or n xs (omega arith))

table_congr {ℓ} :
    {A : Type ℓ} (n start : ℕ) (f g : ℕ → A)
    → ((i : ℕ) → start ≤ i → i < start + n → f i ≡ g i)
    → table n start f ≡ table n start g
unfolding table
table_congr zero start f g h = refl
table_congr (suc n) start f g h = rw (
  h start (omega arith) (omega arith),
  table_congr n (start + 1) f g (λ i p q. h i (omega arith) (omega arith)),
)

table_shift_8 : (f : ℕ → ℕ) → table 8 8 (λ i. f (i - 8)) ≡ table 8 0 f
unfolding table
table_shift_8 f = refl

table_shift_16 : (f : ℕ → ℕ) → table 8 16 (λ i. f (i - 16)) ≡ table 8 0 f
unfolding table
table_shift_16 f = refl

-- The store has its shape: 16 rows of 24 cells, and 24 cells to build a colour in.
abbrev pub all_24 : List (List ℕ) → Bool
all_24 [] = true
all_24 (row ∷ rows) = if length row == 24 then all_24 rows else false

pub record IsStrip (s : Strip) : Type 0 where
  pub rows : length s.leds ≡ 16
  pub columns : all_24 s.leds ≡ true
  pub built : length s.single ≡ 24

module _ (bit_1 bit_0 : ℕ) where
  -- The cells of one intensity, the low bit first.
  abbrev pub byte_cells : ℕ → List ℕ
  byte_cells c = table 8 0 (λ i. cell bit_1 bit_0 (bit_of c i))

  -- A row: green, red, blue.
  abbrev pub color_row : ℕ → ℕ → ℕ → List ℕ
  color_row green red blue = byte_cells green ++ (byte_cells red ++ byte_cells blue)

  -- `set_color` leaves the row of its colour, whatever the cells held before.
  pub set_color-eq :
      (green red blue : ℕ) (single : List ℕ)
      → length single ≡ 24
      → set_color bit_1 bit_0 green red blue single ≡ color_row green red blue
  unfolding set_color
  set_color-eq green red blue single h =
      let (a, r, e₁, p₁, q₁) = split_at 8 16 single h in
      let (b, c, e₂, p₂, q₂) = split_at 8 8 r q₁ in
      let green_cells = λ (i : ℕ). cell bit_1 bit_0 (bit_of green i) in
      let red_cells = λ (i : ℕ). cell bit_1 bit_0 (bit_of red (i - 8)) in
      let blue_cells = λ (i : ℕ). cell bit_1 bit_0 (bit_of blue (i - 16)) in
      let g = table 8 0 green_cells in
      let step_1 : write_cells 8 0 green_cells single ≡ g ++ r =
        rw e₁ (write_cells-between 8 0 green_cells [] a r refl p₁) in
      let step_2 : write_cells 8 8 red_cells (g ++ r) ≡ g ++ (table 8 8 red_cells ++ c) =
        rw e₂ (write_cells-between 8 8 red_cells g b c (length-table 8 0 green_cells) p₂) in
      let front = g ++ table 8 8 red_cells in
      let step_3 : write_cells 8 16 blue_cells (front ++ (c ++ []))
          ≡ front ++ (table 8 16 blue_cells ++ []) =
        write_cells-between 8 16 blue_cells front c [] (simp (length-append, length-table) refl)
          q₂ in
      let step_4 : write_cells 8 16 blue_cells (g ++ (table 8 8 red_cells ++ c))
          ≡ g ++ (table 8 8 red_cells ++ table 8 16 blue_cells) =
        simp (append-nil, append_assoc) at step_3 in
      rw (
        step_1,
        step_2,
        step_4,
        table_shift_8 (λ i. cell bit_1 bit_0 (bit_of red i)),
        table_shift_16 (λ i. cell bit_1 bit_0 (bit_of blue i)),
      )

  -- What a row says back: the bits of 8 cells, the low one first.
  unfoldable pub decode_byte : List ℕ → ℕ
  decode_byte [] = 0
  decode_byte (x ∷ xs) = (if x == bit_1 then 1 else 0) + 2 * decode_byte xs

  decode_cell :
      (b : ℕ) → bit_1 ≢ bit_0 → (if cell bit_1 bit_0 (b % 2) == bit_1 then 1 else 0) ≡ b % 2
  decode_cell b h = ground arith

  pub decode_byte-byte_cells : (c : ℕ) → bit_1 ≢ bit_0 → decode_byte (byte_cells c) ≡ c % 256
  unfolding decode_byte table
  decode_byte-byte_cells c h = omega (
    arith,
    decode_cell (c / 2 ^ 0) h,
    decode_cell (c / 2 ^ 1) h,
    decode_cell (c / 2 ^ 2) h,
    decode_cell (c / 2 ^ 3) h,
    decode_cell (c / 2 ^ 4) h,
    decode_cell (c / 2 ^ 5) h,
    decode_cell (c / 2 ^ 6) h,
    decode_cell (c / 2 ^ 7) h,
  )

  -- Copying a row cell by cell gives the row.
  copied_row :
      (single row : List ℕ)
      → length single ≡ 24
      → length row ≡ 24
      → write_cells 24 0 (λ i. get_or single i 0) row ≡ single
  copied_row single row h k =
      write_cells-all 24 (λ i. get_or single i 0) row k ∙ table-get_or 24 single h

  length-color_row : (green red blue : ℕ) → length (color_row green red blue) ≡ 24
  length-color_row green red blue = simp (length-append, length-table)

  all_24-get_or :
      (rows : List (List ℕ)) (i : ℕ)
      → i < length rows
      → all_24 rows ≡ true
      → length (get_or rows i []) ≡ 24
  all_24-get_or [] i h a = absurd (omega arith)
  all_24-get_or (row ∷ rows) zero h a = ground arith
  all_24-get_or (row ∷ rows) (suc i) h a = all_24-get_or rows i (omega arith) (ground arith)

  all_24-set :
      (rows : List (List ℕ)) (i : ℕ) (row : List ℕ)
      → length row ≡ 24
      → all_24 rows ≡ true
      → all_24 (set rows i row) ≡ true
  all_24-set [] i row h a = refl
  all_24-set (r ∷ rows) zero row h a = ground arith
  all_24-set (r ∷ rows) (suc i) row h a = ground (arith, all_24-set rows i row h)

  -- Within the strip `set_led_rgb` puts the colour's row at the LED, keeps the other rows and the
  -- shape of the store; outside it writes out of bounds.
  pub set_led_rgb-eq :
      (number red green blue : ℕ) (s : Strip)
      → IsStrip s
      → set_led_rgb bit_1 bit_0 number red green blue s ≡ (
          if ltb number 16
          then some (record {
            leds = set s.leds number (color_row green red blue);
            single = color_row green red blue;
          })
          else none)
  unfolding set_led_rgb
  set_led_rgb-eq number red green blue s v = elim (Bool-cases (ltb number 16)) [
    | inr out ↦ rw out refl
    | inl ok ↦
        let e = set_color-eq green red blue s.single v.built in
        let c =
          copied_row (color_row green red blue) (get_or s.leds number [])
            (length-color_row green red blue)
            (all_24-get_or s.leds number (ground arith) v.columns) in
        rw (ok, e, c)
  ]

  pub set_led_rgb-IsStrip :
      (number red green blue : ℕ) (s : Strip)
      → IsStrip s
      → IsStrip (record {
        leds = set s.leds number (color_row green red blue);
        single = color_row green red blue;
      })
  set_led_rgb-IsStrip number red green blue s v = record {
    rows = length-set s.leds number (color_row green red blue) ∙ v.rows;
    columns =
        all_24-set s.leds number (color_row green red blue) (length-color_row green red blue)
          v.columns;
    built = length-color_row green red blue;
  }

  -- `reset_leds` leaves 16 black rows.
  pub blank_leds-eq :
      (s : Strip)
      → IsStrip s
      → blank_leds bit_1 bit_0 s
        ≡ record { leds = table 16 0 (λ i. color_row 0 0 0); single = color_row 0 0 0 }
  unfolding blank_leds
  blank_leds-eq s v =
      let black = color_row 0 0 0 in
      let copied = λ (r : ℕ). write_cells 24 0 (λ i. get_or black i 0) (get_or s.leds r []) in
      let same : table 16 0 copied ≡ table 16 0 (λ i. black) =
        table_congr 16 0 copied (λ i. black)
          λ i h k.
            copied_row black (get_or s.leds i []) (length-color_row 0 0 0)
              (all_24-get_or s.leds i (omega (arith, v.rows)) v.columns) in
      rw (set_color-eq 0 0 0 s.single v.built, write_cells-all 16 copied s.leds v.rows, same)

  pub blank_leds-IsStrip : (s : Strip) → IsStrip s → IsStrip (blank_leds bit_1 bit_0 s)
  unfolding table
  blank_leds-IsStrip s v =
      rw (blank_leds-eq s v)
        (record { rows = refl; columns = refl; built = length-color_row 0 0 0 })

  -- `set_color`, whatever the cells held: cells 0 to 7, 8 to 15 and 16 to 23 say back the low bytes
  -- of green, red and blue, the low bit first, if the bytes for 1 and 0 differ.
  pub set_color-decode :
      (green red blue : ℕ) (single : List ℕ)
      → length single ≡ 24
      → bit_1 ≢ bit_0
      → let row = set_color bit_1 bit_0 green red blue single in
        (decode_byte (take 8 row) ≡ green % 256)
        × (decode_byte (take 8 (drop 8 row)) ≡ red % 256)
        × (decode_byte (drop 16 row) ≡ blue % 256)
  unfolding table
  set_color-decode green red blue single h ne = rw (set_color-eq green red blue single h) (
    decode_byte-byte_cells green ne,
    decode_byte-byte_cells red ne,
    decode_byte-byte_cells blue ne,
  )
