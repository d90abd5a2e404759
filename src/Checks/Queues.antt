-- ===== src/Checks/Queues.antt =====
-- Priority queues that meet the laws: the first best item is on top.
use mathlib.Core.Path.{subst}
use freqanalysis.Common.{
  ℕ, ◌+◌, ◌≡◌, ◌≢◌, refl, Bool, true, false, leb, Option, none, some, List, [], ◌∷◌, if◌then◌else◌,
  All, total, Bool-cases, inl, inr, arith,
}
use freqanalysis.Attack.BasicAttack
use freqanalysis.Attack.Ranking
use freqanalysis.Attack.Ranking.{Node}
use freqanalysis.Defense.Hashing.Core.{IsSingleQueue}
use freqanalysis.Defense.Segment.{Chunk}
use freqanalysis.PriorityQueue.{Extract, IsPriorityQueue}

module _ {A : Type 0} (better : A → A → Bool) where
  unfoldable pub cons_best : A → Option (A × List A) → Option (A × List A)
  cons_best x none = some (x, [])
  cons_best x (some (y, ys)) = if better x y then some (x, y ∷ ys) else some (y, x ∷ ys)

  unfoldable pub take_best : List A → Option (A × List A)
  unfolding cons_best
  take_best [] = none
  take_best (x ∷ xs) = cons_best x (take_best xs)

module _ {A : Type 0} (better : A → A → Bool) (R : A → A → Type 0) (refl_R : (x : A) → R x x)
    (trans_R : (x y z : A) → R x y → R y z → R x z) (yes_R : (x y : A) → better x y ≡ true → R x y)
    (no_R : (x y : A) → better x y ≡ false → R y x) where
  All-trans : (x y : A) (zs : List A) → R x y → All (R y) zs → All (R x) zs
  All-trans x y [] h all = tt
  All-trans x y (z ∷ zs) h all = (trans_R x y z h all.0, All-trans x y zs h all.1)

  abbrev IsBest : List A → Option (A × List A) → Type 0
  IsBest xs none = xs ≡ []
  IsBest xs (some (y, ys)) = ((w : A → ℕ) → total w xs ≡ w y + total w ys) × All (R y) xs

  cons_best-IsBest :
      (x : A) (xs : List A) (o : Option (A × List A))
      → IsBest xs o
      → IsBest (x ∷ xs) (cons_best better x o)
  unfolding cons_best
  cons_best-IsBest x xs none h = rw h ((λ w. refl), (refl_R x, tt))
  cons_best-IsBest x xs (some (y, ys)) h = elim (Bool-cases (better x y)) [
    | inl first ↦
        let r = yes_R x y first in
        rw first ((λ w. omega (arith, h.0 w)), (refl_R x, All-trans x y xs r h.1))
    | inr later ↦ rw later ((λ w. omega (arith, h.0 w)), (no_R x y later, h.1))
  ]

  take_best-IsBest : (xs : List A) → IsBest xs (take_best better xs)
  unfolding take_best
  take_best-IsBest [] = refl
  take_best-IsBest (x ∷ xs) = cons_best-IsBest x xs (take_best better xs) (take_best-IsBest xs)

  nonempty : (x : A) (xs : List A) → take_best better (x ∷ xs) ≢ none
  nonempty x xs e =
      let empty : IsBest (x ∷ xs) none = subst (IsBest (x ∷ xs)) e (take_best-IsBest (x ∷ xs)) in
      cc empty

  best :
      (xs : List A) (y : A) (ys : List A)
      → take_best better xs ≡ some (y, ys)
      → IsBest xs (some (y, ys))
  best xs y ys e = subst (IsBest xs) e (take_best-IsBest xs)

  pub take_best-IsPriorityQueue : IsPriorityQueue R (take_best better)
  unfolding take_best
  take_best-IsPriorityQueue = record {
    empty = refl;
    nonempty = nonempty;
    split = λ xs y ys e. (best xs y ys e).0;
    best = λ xs y ys e. (best xs y ys e).1;
  }

-- The queue of the locality-based attack: the least frequent node is on top.
abbrev pub take_least : Extract Node
take_least = take_best (λ x y. leb x.count y.count)

pub take_least-IsPriorityQueue : IsPriorityQueue Ranking.OnTop take_least
take_least-IsPriorityQueue =
    take_best-IsPriorityQueue _ Ranking.OnTop (λ x. omega arith) (λ x y z h k. omega arith)
      (λ x y e. ground arith) (λ x y e. ground arith)

-- The queue of the basic attack: the most frequent node is on top.
abbrev pub take_greatest : Extract Node
take_greatest = take_best (λ x y. leb y.count x.count)

pub take_greatest-IsPriorityQueue : IsPriorityQueue BasicAttack.OnTop take_greatest
take_greatest-IsPriorityQueue =
    take_best-IsPriorityQueue _ BasicAttack.OnTop (λ x. omega arith) (λ x y z h k. omega arith)
      (λ x y e. ground arith) (λ x y e. ground arith)

-- The queue of the defenses, which holds one chunk.
abbrev pub take_first : Extract Chunk
take_first [] = none
take_first (c ∷ cs) = some (c, cs)

pub take_first-IsSingleQueue : IsSingleQueue take_first
take_first-IsSingleQueue = record { empty = refl; single = λ c. refl }
