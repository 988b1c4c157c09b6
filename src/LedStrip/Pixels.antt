-- ===== src/LedStrip/Pixels.antt =====
-- The pixel store of the two WS2812 drivers: 16 rows of 24 cells, and one row to build a colour
-- in. The drivers differ in the bytes that stand for a 1 and a 0 (`set_bit_1`, `set_bit_0`), which
-- are parameters here. Colours are C `int`s as 32-bit patterns.
use linux_kernel_programing.Prelude.{
  ℕ, zero, suc, ◌+◌, ◌-◌, ◌/◌, ◌%◌, ◌^◌, ◌≡◌, refl, ap, ◌∙◌, Option, none, some, List, [], ◌∷◌,
  ◌++◌, arith, length, get_or, set, ltb, ◌==◌, if◌then◌else◌, length-append, length-set,
}
use mathlib.Core.List.{append_assoc, append-nil}

-- `leds_pixel_data` and `single_led_data`.
pub record Strip : Type 0 where
  pub leds : List (List ℕ)
  pub single : List ℕ

module _ {ℓ} {A : Type ℓ} where
  -- `for (index = start; index < start + rounds; index++) cells[index] = f(index);`
  unfoldable pub write_cells : ℕ → ℕ → (ℕ → A) → List A → List A
  write_cells zero start f xs = xs
  write_cells (suc rounds) start f xs = write_cells rounds (start + 1) f (set xs start (f start))

  -- The values of `f` from `start` on.
  unfoldable pub table : ℕ → ℕ → (ℕ → A) → List A
  table zero start f = []
  table (suc n) start f = f start ∷ table n (start + 1) f

  pub length-table : (n start : ℕ) (f : ℕ → A) → length (table n start f) ≡ n
  unfolding table
  length-table zero start f = refl
  length-table (suc n) start f = ap suc (length-table n (start + 1) f)

  set-append :
      (pre : List A) (y v : A) (post : List A)
      → set (pre ++ (y ∷ post)) (length pre) v ≡ pre ++ (v ∷ post)
  set-append [] y v post = refl
  set-append (x ∷ pre) y v post = ap (λ t. x ∷ t) (set-append pre y v post)

  -- The loop overwrites exactly the cells that it passes over.
  pub write_cells-append :
      (n : ℕ) (f : ℕ → A) (pre ys post : List A)
      → length ys ≡ n
      → write_cells n (length pre) f (pre ++ (ys ++ post)) ≡ pre ++ (table n (length pre) f ++ post)
  unfolding write_cells table
  write_cells-append zero f pre [] post h = refl
  write_cells-append zero f pre (y ∷ ys) post h = absurd (omega arith)
  write_cells-append (suc n) f pre [] post h = absurd (omega arith)
  write_cells-append (suc n) f pre (y ∷ ys) post h =
      let v = f (length pre) in
      let ih = write_cells-append n f (pre ++ (v ∷ [])) ys post (omega arith) in
      rw set-append (simp (append_assoc, length-append) at ih)

  -- The same, where the cells before the loop are counted by a number.
  pub write_cells-between :
      (n start : ℕ) (f : ℕ → A) (pre ys post : List A)
      → length pre ≡ start
      → length ys ≡ n
      → write_cells n start f (pre ++ (ys ++ post)) ≡ pre ++ (table n start f ++ post)
  write_cells-between n start f pre ys post h k = rw (← h) (write_cells-append n f pre ys post k)

  -- A list is cut in two at any place within it.
  pub split_at :
      (n m : ℕ) (xs : List A)
      → length xs ≡ n + m
      → (ys : List A) × (zs : List A) × (xs ≡ ys ++ zs) × (length ys ≡ n) × (length zs ≡ m)
  split_at zero m xs h = ([], xs, refl, refl, omega arith)
  split_at (suc n) m [] h = absurd (omega arith)
  split_at (suc n) m (x ∷ xs) h =
      let (ys, zs, e, p, q) = split_at n m xs (omega arith) in
      (x ∷ ys, zs, ap (λ t. x ∷ t) e, ap suc p, q)

  -- A loop over all the cells leaves nothing of what was there.
  pub write_cells-all :
      (n : ℕ) (f : ℕ → A) (xs : List A) → length xs ≡ n → write_cells n 0 f xs ≡ table n 0 f
  write_cells-all n f xs h = simp append-nil at (write_cells-append n f [] xs [] h)

  pub length-write_cells :
      (n start : ℕ) (f : ℕ → A) (xs : List A) → length (write_cells n start f xs) ≡ length xs
  unfolding write_cells
  length-write_cells zero start f xs = refl
  length-write_cells (suc n) start f xs =
      length-write_cells n (start + 1) f (set xs start (f start)) ∙ length-set xs start (f start)

-- Cell `i` of a colour: bit `i` of the intensity.
abbrev pub bit_of : ℕ → ℕ → ℕ
bit_of c i = c / 2 ^ i % 2

module _ (bit_1 bit_0 : ℕ) where
  -- The cell for one bit of an intensity.
  abbrev pub cell : ℕ → ℕ
  cell b = if b == 1 then bit_1 else bit_0

  -- The three loops of `set_color`: green, then red, then blue, the low bit first.
  unfoldable pub set_color : ℕ → ℕ → ℕ → List ℕ → List ℕ
  set_color green red blue single =
      let g = write_cells 8 0 (λ i. cell (bit_of green i)) single in
      let r = write_cells 8 8 (λ i. cell (bit_of red (i - 8))) g in
      write_cells 8 16 (λ i. cell (bit_of blue (i - 16))) r

  -- `set_led_rgb`. The LED's number is not checked: `none` is a write outside `leds_pixel_data`.
  unfoldable pub set_led_rgb : ℕ → ℕ → ℕ → ℕ → Strip → Option Strip
  set_led_rgb number red green blue s =
      let single = set_color green red blue s.single in
      let copied = λ (row : List ℕ). write_cells 24 0 (λ i. get_or single i 0) row in
      if ltb number 16
      then some
          (record { leds = set s.leds number (copied (get_or s.leds number [])); single = single })
      else none

  -- The loops of `reset_leds`: every row gets the colour black.
  unfoldable pub blank_leds : Strip → Strip
  blank_leds s =
      let single = set_color 0 0 0 s.single in
      let copied = λ (row : List ℕ). write_cells 24 0 (λ i. get_or single i 0) row in
      record { leds = write_cells 16 0 (λ r. copied (get_or s.leds r [])) s.leds; single = single }
