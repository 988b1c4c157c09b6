-- ===== src/Prelude/Counting.antt =====
-- A list of threads as the programs' step relations use it: sums over the threads, and the thread
-- that a sum counts.
use Prim.Native.Nat.{ℕ, zero, suc, ◌+◌, ◌*◌, ◌≤◌, ◌<◌}
use mathlib.Core.Path.{◌≡◌, refl, ap}
use mathlib.Core.List.{List, [], ◌∷◌, ◌++◌}
use native.Mathlib.Decide.{dec_lt}
use native.Mathlib.Omega.{arith}
use linux_kernel_programing.Prelude.Lists.{length, replicate}

module _ {ℓ} {A : Type ℓ} where
  abbrev pub total : (A → ℕ) → List A → ℕ
  total f [] = 0
  total f (p ∷ ps) = f p + total f ps

module _ {ℓ} {A : Type ℓ} (f : A → ℕ) where
  pub total-append : (ps qs : List A) → total f (ps ++ qs) ≡ total f ps + total f qs
  total-append [] qs = omega arith
  total-append (p ∷ ps) qs = omega (arith, total-append ps qs)

  pub total-replicate : (n : ℕ) (p : A) → total f (replicate n p) ≡ n * f p
  total-replicate zero p = omega arith
  total-replicate (suc n) p = omega (arith, total-replicate n p)

  pub total-split :
      (before : List A) (p : A) (after : List A)
      → total f (before ++ (p ∷ after)) ≡ f p + (total f before + total f after)
  total-split before p after = omega (arith, total-append before (p ∷ after))

  pub total-le : (ps : List A) → ((p : A) → f p ≤ 1) → total f ps ≤ length ps
  total-le [] h = omega arith
  total-le (p ∷ ps) h = omega (arith, h p, total-le ps h)

  -- A thread that is counted.
  pub find_counted :
      (ps : List A)
      → 0 < total f ps
      → (before : List A) × (p : A) × (after : List A) × (ps ≡ before ++ (p ∷ after)) × (0 < f p)
  find_counted [] h = absurd (omega arith)
  find_counted (p ∷ ps) h = elim (dec_lt 0 (f p)) [
    | yes here ↦ ([], p, ps, refl, here)
    | no not_here ↦
        let (before, q, after, e, there) = find_counted ps (omega (arith, not_here)) in
        (p ∷ before, q, after, ap (λ t. p ∷ t) e, there)
  ]

module _ {ℓ} {A : Type ℓ} (f g : A → ℕ) where
  -- A sum that is pointwise at most another.
  pub total_mono : (ps : List A) → ((p : A) → f p ≤ g p) → total f ps ≤ total g ps
  total_mono [] h = omega arith
  total_mono (p ∷ ps) h = omega (arith, h p, total_mono ps h)
