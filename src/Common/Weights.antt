-- ===== src/Common/Weights.antt =====
-- Lists as multisets. A weight gives each item a number; two lists hold the same items, as often,
-- exactly if every weight has the same total over both.
use Prim.Native.Nat.{ℕ, ◌+◌, ◌≤◌}
use mathlib.Core.Bool.{Bool, true, not}
use mathlib.Core.List.{List, [], ◌∷◌, ◌++◌}
use mathlib.Core.Path.{◌≡◌, refl}
use native.Mathlib.Omega.{arith}
use freqanalysis.Common.Lists.{All, length}
use freqanalysis.Common.Tests.{ltb, to_nat}

module _ {ℓ} {A : Type ℓ} where
  abbrev pub total : (A → ℕ) → List A → ℕ
  total w [] = 0
  total w (x ∷ xs) = w x + total w xs

  abbrev pub SameItems : List A → List A → Type ℓ
  SameItems xs ys = (w : A → ℕ) → total w xs ≡ total w ys

  pub total-append : (w : A → ℕ) (xs ys : List A) → total w (xs ++ ys) ≡ total w xs + total w ys
  total-append w [] ys = omega arith
  total-append w (x ∷ xs) ys = omega (arith, total-append w xs ys)

  pub length-eq-total : (xs : List A) → length xs ≡ total (λ _. 1) xs
  length-eq-total [] = refl
  length-eq-total (x ∷ xs) = omega (arith, length-eq-total xs)

  -- The items that a measure puts below or above a bound, counted.
  module _ (f : A → ℕ) (b : ℕ) where
    abbrev pub below : A → ℕ
    below x = to_nat (ltb (f x) b)

    abbrev pub above : A → ℕ
    above x = to_nat (ltb b (f x))

    pub All-of-below : (xs : List A) → total below xs ≡ 0 → All (λ x. b ≤ f x) xs
    All-of-below [] h = tt
    All-of-below (x ∷ xs) h = (ground arith, All-of-below xs (omega arith))

    pub below-of-All : (xs : List A) → All (λ x. b ≤ f x) xs → total below xs ≡ 0
    below-of-All [] h = refl
    below-of-All (x ∷ xs) h = ground (arith, below-of-All xs h.1)

    pub All-of-above : (xs : List A) → total above xs ≡ 0 → All (λ x. f x ≤ b) xs
    All-of-above [] h = tt
    All-of-above (x ∷ xs) h = (ground arith, All-of-above xs (omega arith))

    pub above-of-All : (xs : List A) → All (λ x. f x ≤ b) xs → total above xs ≡ 0
    above-of-All [] h = refl
    above-of-All (x ∷ xs) h = ground (arith, above-of-All xs h.1)

  -- The items that fail a test, counted.
  module _ (test : A → Bool) where
    abbrev pub failing : A → ℕ
    failing x = to_nat (not (test x))

    All-of-failing : (xs : List A) → total failing xs ≡ 0 → All (λ x. test x ≡ true) xs
    All-of-failing [] h = tt
    All-of-failing (x ∷ xs) h = (ground arith, All-of-failing xs (omega arith))

    failing-of-All : (xs : List A) → All (λ x. test x ≡ true) xs → total failing xs ≡ 0
    failing-of-All [] h = refl
    failing-of-All (x ∷ xs) h = ground (arith, failing-of-All xs h.1)

    -- A test that all items of a list pass is passed by the same items in another order.
    pub All-SameItems :
        (xs ys : List A)
        → SameItems xs ys
        → All (λ x. test x ≡ true) ys
        → All (λ x. test x ≡ true) xs
    All-SameItems xs ys same h =
        All-of-failing xs (omega (arith, same failing, failing-of-All ys h))
