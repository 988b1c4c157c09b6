-- ===== src/LedStrip/Program/Frames.antt =====
-- What the strip shows while the program runs, on whichever WS2812 driver.
use mathlib.Core.Path.{subst}
use linux_kernel_programing.Prelude.{
  ℕ, zero, suc, ◌+◌, ◌-◌, ◌*◌, ◌%◌, ◌≤◌, ◌<◌, ◌≡◌, ◌≢◌, refl, ap, sym, ◌∙◌, Option, none, some,
  List, [], ◌∷◌, ◌++◌, map, arith, length, length-map, length-append, get_elem?, get_or, set,
}
use linux_kernel_programing.LedStrip.Spi.{memory}
use linux_kernel_programing.LedStrip.Driver.{StripDriver}
use linux_kernel_programing.LedStrip.Program.{Rgb, rgb, light, play, display}

get_or-set_self {ℓ} :
    {A : Type ℓ} (xs : List A) (i : ℕ) (v d : A) → i < length xs → get_or (set xs i v) i d ≡ v
get_or-set_self [] i v d h = absurd (omega arith)
get_or-set_self (x ∷ xs) zero v d h = refl
get_or-set_self (x ∷ xs) (suc i) v d h = get_or-set_self xs i v d (omega arith)

get_or-set_ne {ℓ} :
    {A : Type ℓ} (xs : List A) (i j : ℕ) (v d : A) → i ≢ j → get_or (set xs i v) j d ≡ get_or xs j d
get_or-set_ne [] i j v d h = refl
get_or-set_ne (x ∷ xs) zero zero v d h = absurd (h refl)
get_or-set_ne (x ∷ xs) zero (suc j) v d h = refl
get_or-set_ne (x ∷ xs) (suc i) zero v d h = refl
get_or-set_ne (x ∷ xs) (suc i) (suc j) v d h = get_or-set_ne xs i j v d (omega arith)

get_elem?-none {ℓ} : {A : Type ℓ} (xs : List A) (i : ℕ) → length xs ≤ i → get_elem? xs i ≡ none
get_elem?-none [] i h = refl
get_elem?-none (x ∷ xs) zero h = absurd (omega arith)
get_elem?-none (x ∷ xs) (suc i) h = get_elem?-none xs i (omega arith)

-- How far LED `i` is behind the LED `index`, round the strip.
abbrev pub behind : ℕ → ℕ → ℕ
behind index i = (i + (16 - index % 16)) % 16

behind-zero :
    (index i : ℕ) → i < 16 → behind index i ≡ 0 → (index % 16 ≡ i) × (behind (index + 1) i ≡ 15)
behind-zero index i h e = (omega arith, omega arith)

behind-suc :
    (index i k : ℕ)
    → i < 16
    → behind index i ≡ suc k
    → (index % 16 ≢ i) × (behind (index + 1) i ≡ k)
behind-suc index i k h e = (omega arith, omega arith)

module _ (driver : StripDriver) where
  open driver use {
    State, IsValid, rows, line, row_of, write, reset, length-rows, line-rows, write-row, reset-rows,
  }

  abbrev pub shade : Option Rgb → List ℕ → List ℕ
  shade none old = old
  shade (some c) old = row_of c.red c.green c.blue

  -- A LED's row after the colours were written from the LED `index` on.
  abbrev pub picture : List Rgb → ℕ → ℕ → List ℕ → List ℕ
  picture colors index i old = shade (get_elem? colors (behind index i)) old

  picture-cons :
      (c : Rgb) (colors : List Rgb) (index i : ℕ) (leds : List (List ℕ))
      → length leds ≡ 16
      → length colors ≤ 15
      → i < 16
      → picture colors
          (index + 1)
          i
          (get_or (set leds (index % 16) (row_of c.red c.green c.blue)) i [])
        ≡ picture (c ∷ colors) index i (get_or leds i [])
  picture-cons c colors index i leds h few lt =
      let row = row_of c.red c.green c.blue in
      let old = get_or leds i [] in
      let new = get_or (set leds (index % 16) row) i [] in
      (elim (behind index i)
          as (λ b.
            behind index i ≡ b
            → shade (get_elem? colors (behind (index + 1) i)) new
              ≡ shade (get_elem? (c ∷ colors) b) old) [
                | zero ↦ λ e.
                    let (here, later) = behind-zero index i lt e in
                    let untouched : get_elem? colors (behind (index + 1) i) ≡ none =
                      get_elem?-none colors (behind (index + 1) i) (omega arith) in
                    ap (λ o. shade o new) untouched
                    ∙ ap (λ j. get_or (set leds j row) i []) here
                    ∙ get_or-set_self leds i row [] (omega arith)
                | suc k ↦ λ e.
                    let (there, later) = behind-suc index i k lt e in
                    ap (λ j. shade (get_elem? colors j) new) later
                    ∙ ap (shade (get_elem? colors k))
                        (get_or-set_ne leds (index % 16) i row [] there)
              ])
        refl

  -- Writing at most 16 colours from a LED on succeeds and gives exactly that picture.
  light-picture :
      (colors : List Rgb) (index : ℕ) (s : State)
      → IsValid s
      → length colors ≤ 16
      → (s' : State) × (light driver index colors s ≡ some s')
        × IsValid s'
        × ((i : ℕ) → i < 16 → get_or (rows s') i [] ≡ picture colors index i (get_or (rows s) i []))
  unfolding light
  light-picture [] index s v few = (s, refl, v, λ i h. refl)
  light-picture (c ∷ colors) index s v few =
      let (s₁, e, v₁, painted) = write-row (index % 16) c.red c.green c.blue s v (omega arith) in
      let (s', e', v', shown) = light-picture colors (index + 1) s₁ v₁ (omega arith) in
      (
        s',
        rw (e, light) e',
        v',
        λ i h.
            shown i h
            ∙ rw (painted)
                (picture-cons c colors index i (rows s) (length-rows s v) (omega arith) h),
      )

  abbrev pub black : List ℕ
  black = row_of 0 0 0

  -- All LEDs are off.
  abbrev pub IsDark : State → Type 0
  IsDark s = (i : ℕ) → i < 16 → get_or (rows s) i [] ≡ black

  shade-black :
      (colors : List Rgb) (j : ℕ)
      → shade (get_elem? (map (λ c. rgb 0 0 0) colors) j) (shade (get_elem? colors j) black) ≡ black
  shade-black [] j = refl
  shade-black (c ∷ colors) zero = refl
  shade-black (c ∷ colors) (suc j) = shade-black colors j

  -- A frame on a dark strip: the picture, and the dark strip again.
  frame-IsDark :
      (colors : List Rgb) (index : ℕ) (s : State)
      → IsValid s
      → IsDark s
      → length colors ≤ 16
      → (lit dark : State) × (light driver index colors s ≡ some lit)
        × (light driver index (map (λ c. rgb 0 0 0) colors) lit ≡ some dark)
        × IsValid lit
        × ((i : ℕ) → i < 16 → get_or (rows lit) i [] ≡ picture colors index i black)
        × IsValid dark
        × IsDark dark
  frame-IsDark colors index s v d few =
      let (lit, e, v', shown) = light-picture colors index s v few in
      let off = map (λ (c : Rgb). rgb 0 0 0) colors in
      let (dark, e', v'', gone) =
        light-picture off index lit v' (omega (arith, length-map colors (λ c. rgb 0 0 0))) in
      let picture_lit : (i : ℕ) → i < 16 → get_or (rows lit) i [] ≡ picture colors index i black =
        λ i h. shown i h ∙ ap (picture colors index i) (d i h) in
      (
        lit,
        dark,
        e,
        e',
        v',
        picture_lit,
        v'',
        λ i h.
            gone i h
            ∙ ap (picture off index i) (picture_lit i h)
            ∙ shade-black colors (behind index i),
      )

  -- What the strip received of a picture before each frame.
  abbrev pub Pictures : List Rgb → ℕ → ℕ → List (List ℕ) → Type 0
  Pictures colors rounds index shown =
      (k : ℕ)
      → k < rounds
      → (leds : List (List ℕ)) × (get_or shown k [] ≡ memory leds)
        × (length leds ≡ 16)
        × ((i : ℕ) → i < 16 → get_or leds i [] ≡ picture colors (index + k) i black)

  Pictures-cons :
      (colors : List Rgb) (rounds index : ℕ) (leds : List (List ℕ)) (shown : List (List ℕ))
      → length leds ≡ 16
      → ((i : ℕ) → i < 16 → get_or leds i [] ≡ picture colors index i black)
      → Pictures colors rounds (index + 1) shown
      → Pictures colors (suc rounds) index (memory leds ∷ shown)
  Pictures-cons colors rounds index leds shown sixteen now later zero h =
      (leds, refl, sixteen, λ i h'. now i h' ∙ ap (λ n. picture colors n i black) (omega arith))
  Pictures-cons colors rounds index leds shown sixteen now later (suc k) h =
      let (leds', e, sixteen', then_on) = later k (omega arith) in
      (leds', e, sixteen', λ i h'. then_on i h' ∙ ap (λ n. picture colors n i black) (omega arith))

  -- A pass on a dark strip.
  pub play-picture :
      (colors : List Rgb) (rounds index : ℕ) (s : State)
      → IsValid s
      → IsDark s
      → length colors ≤ 16
      → (shown : List (List ℕ)) × (s' : State) × (play driver colors rounds index s
          ≡ some (shown, s'))
        × (length shown ≡ rounds)
        × Pictures colors rounds index shown
        × IsValid s'
        × IsDark s'
  unfolding play
  play-picture colors zero index s v d few = ([], s, refl, refl, λ k h. absurd (omega arith), v, d)
  play-picture colors (suc rounds) index s v d few =
      let (lit, dark, e, e', vl, now, v₁, d₁) = frame-IsDark colors index s v d few in
      let (shown, s', e'', count, later, v', d') =
        play-picture colors rounds (index + 1) dark v₁ d₁ few in
      (
        line lit ∷ shown,
        s',
        rw (e, e', e'', play) refl,
        ap suc count,
        subst (λ received. Pictures colors (suc rounds) index (received ∷ shown))
            (sym (line-rows lit vl))
            (Pictures-cons colors rounds index (rows lit) shown (length-rows lit vl) now later),
        v',
        d',
      )

  -- Pass after pass.
  pub display-IsDark :
      (passes : ℕ) (colors : List Rgb) (frames : ℕ) (s : State)
      → IsValid s
      → IsDark s
      → length colors ≤ 16
      → (shown : List (List ℕ)) × (s' : State) × (display driver passes colors frames s
          ≡ some (shown, s'))
        × (length shown ≡ passes * frames)
        × IsValid s'
        × IsDark s'
  unfolding display
  display-IsDark zero colors frames s v d few = ([], s, refl, omega arith, v, d)
  display-IsDark (suc passes) colors frames s v d few =
      let (shown, s₁, e, count, _, v₁, d₁) = play-picture colors frames 0 s v d few in
      let (shown', s', e', count', v', d') = display-IsDark passes colors frames s₁ v₁ d₁ few in
      (
        shown ++ shown',
        s',
        rw (e, e', display) refl,
        omega (arith, length-append shown shown', count, count'),
        v',
        d',
      )
