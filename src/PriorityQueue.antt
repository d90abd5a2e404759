-- ===== src/PriorityQueue.antt =====
-- `std::priority_queue`. The contents are a list; the standard leaves open which of several equal
-- items is on top, so taking the top is a parameter with the laws that the standard states.
use freqanalysis.Common.{
  ℕ, ◌+◌, ◌≡◌, ◌≢◌, List, [], ◌∷◌, Option, none, some, arith, All, total, length, inl, inr,
  length-eq-total, Option-cases, Run, ok, stop, undefined,
}

-- `top` and `pop` together: the item on top and what `pop` leaves, or nothing when it is empty.
abbrev pub Extract {ℓ} : Type ℓ → Type ℓ
Extract A = List A → Option (A × List A)

-- `R y x` says that an item `x` may stay in the queue while `y` is on top.
pub record IsPriorityQueue {A : Type 0} (R : A → A → Type 0) (extract : Extract A) : Type 0 where
  pub empty : extract [] ≡ none
  pub nonempty : (x : A) (xs : List A) → extract (x ∷ xs) ≢ none
  pub split :
      (xs : List A) (y : A) (ys : List A)
      → extract xs ≡ some (y, ys)
      → (w : A → ℕ) → total w xs ≡ w y + total w ys
  pub best : (xs : List A) (y : A) (ys : List A) → extract xs ≡ some (y, ys) → All (R y) xs

-- Top and pop of an empty queue are undefined behaviour.
unfoldable pub pop_top {ℓ} : {A : Type ℓ} → Extract A → List A → Run (A × List A)
pop_top extract q = elim (extract q) [ none ↦ stop undefined | some t ↦ ok t ]

module _ {A : Type 0} {R : A → A → Type 0} {extract : Extract A}
    (h : IsPriorityQueue R extract) where
  pub extract-cons :
      (x : A) (xs : List A) → (y : A) × (ys : List A) × (extract (x ∷ xs) ≡ some (y, ys))
  extract-cons x xs = elim (Option-cases (extract (x ∷ xs))) [
    | inl e ↦ absurd (h.nonempty x xs e)
    | inr (t, e) ↦ (t.0, t.1, e)
  ]

  pub length-extract :
      (xs : List A) (y : A) (ys : List A) → extract xs ≡ some (y, ys) → length xs ≡ length ys + 1
  length-extract xs y ys e =
      omega (arith, h.split xs y ys e (λ _. 1), length-eq-total xs, length-eq-total ys)
