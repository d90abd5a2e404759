-- ===== src/Attack/Ranking/Kept.antt =====
-- The bounded queue keeps the most frequent nodes.
use freqanalysis.Common.{
  ℕ, ◌+◌, ◌≤◌, ◌<◌, ◌≡◌, refl, ap, Bool, true, false, some, List, [], ◌∷◌, ltb, length, to_nat, All,
  total, below, All-of-below, below-of-All, ◌>>=◌, Returns, Bool-cases, inl, inr, ltb→lt, ltb→ge,
  arith,
}
use freqanalysis.Attack.Ranking.{Node, count_of, OnTop, insert_top, insert_all}
use freqanalysis.PriorityQueue.{Extract, IsPriorityQueue, pop_top, extract-cons, length-extract}

-- What a queue of at most `k` holds of the nodes `seen`: with the nodes that were let go they are
-- `seen`, none of those is more frequent than one that is kept, and none was let go for nothing.
pub record Keeps (k : ℕ) (seen pq : List Node) : Type 0 where
  pub dropped : List Node
  pub bound : ℕ
  pub items : (w : Node → ℕ) → total w pq + total w dropped ≡ total w seen
  pub kept_above : All (λ x. bound ≤ x.count) pq
  pub dropped_below : All (λ x. x.count ≤ bound) dropped
  pub size : length pq ≤ k
  pub full : (length pq < k) → dropped ≡ []

All-raise :
    {a b : ℕ} (xs : List Node) → a ≤ b → All (λ x. x.count ≤ a) xs → All (λ x. x.count ≤ b) xs
All-raise [] h all = tt
All-raise (x ∷ xs) h all = (omega arith, All-raise xs h all.1)

-- A node into a queue with room.
Keeps-push :
    (k : ℕ) (seen pq : List Node) (e : Node)
    → length pq < k
    → Keeps k seen pq
    → Keeps k (e ∷ seen) (e ∷ pq)
Keeps-push k seen pq e room h = record {
  dropped = [];
  bound = 0;
  items = λ w. omega (arith, h.items w, ap (total w) (h.full room));
  kept_above = All-of-below count_of 0 (e ∷ pq) (no_bound (e ∷ pq));
  dropped_below = tt;
  size = room;
  full = λ _. refl;
}
  where
    no_bound : (xs : List Node) → total (below count_of 0) xs ≡ 0
    no_bound [] = refl
    no_bound (x ∷ xs) = ground (arith, no_bound xs)

abbrev pub reverse_onto : List Node → List Node → List Node
reverse_onto [] seen = seen
reverse_onto (e ∷ es) seen = reverse_onto es (e ∷ seen)

total-reverse_onto :
    (w : Node → ℕ) (es seen : List Node)
    → total w (reverse_onto es seen) ≡ total w es + total w seen
total-reverse_onto w [] seen = omega arith
total-reverse_onto w (e ∷ es) seen = omega (arith, total-reverse_onto w es (e ∷ seen))

module _ {extract : Extract Node} (queue : IsPriorityQueue OnTop extract) where
  -- The top bounds the rest of the queue, and what was let go is below it.
  pub rest_above :
      (pq : List Node) (y : Node) (ys : List Node)
      → extract pq ≡ some (y, ys)
      → All (λ x. y.count ≤ x.count) ys
  rest_above pq y ys e = All-of-below count_of y.count ys (
      omega (
        arith,
        queue.split pq y ys e (below count_of y.count),
        below-of-All count_of y.count pq (queue.best pq y ys e),
      ))

  pub bound-le-top :
      (b : ℕ) (pq : List Node) (y : Node) (ys : List Node)
      → extract pq ≡ some (y, ys)
      → All (λ x. b ≤ x.count) pq
      → b ≤ y.count
  bound-le-top b pq y ys e all =
      let none_below : below count_of b y ≡ 0 =
        omega (arith, queue.split pq y ys e (below count_of b), below-of-All count_of b pq all) in
      ltb→ge y.count b (to_nat-zero _ none_below)
    where
      to_nat-zero : (t : Bool) → to_nat t ≡ 0 → t ≡ false
      to_nat-zero true h = absurd (omega arith)
      to_nat-zero false h = refl

  -- A more frequent node takes the place of the top.
  Keeps-replace :
      (k : ℕ) (seen pq : List Node) (e y : Node) (ys : List Node)
      → extract pq ≡ some (y, ys)
      → k ≤ length pq
      → y.count ≤ e.count
      → Keeps k seen pq
      → Keeps k (e ∷ seen) (e ∷ ys)
  Keeps-replace k seen pq e y ys top full more h = record {
    dropped = y ∷ h.dropped;
    bound = y.count;
    items = λ w. omega (arith, h.items w, queue.split pq y ys top w);
    kept_above = (more, rest_above pq y ys top);
    dropped_below = (
      omega arith,
      All-raise h.dropped (bound-le-top h.bound pq y ys top h.kept_above) h.dropped_below,
    );
    size = omega (arith, h.size, length-extract queue pq y ys top);
    full = λ room. absurd (omega (arith, length-extract queue pq y ys top));
  }

  -- A node that is not more frequent than the top is let go.
  Keeps-drop :
      (k : ℕ) (seen pq : List Node) (e y : Node) (ys : List Node)
      → extract pq ≡ some (y, ys)
      → k ≤ length pq
      → e.count ≤ y.count
      → Keeps k seen pq
      → Keeps k (e ∷ seen) pq
  Keeps-drop k seen pq e y ys top full less h = record {
    dropped = e ∷ h.dropped;
    bound = y.count;
    items = λ w. omega (arith, h.items w);
    kept_above = queue.best pq y ys top;
    dropped_below =
        (less, All-raise h.dropped (bound-le-top h.bound pq y ys top h.kept_above) h.dropped_below);
    size = h.size;
    full = λ room. absurd (omega arith);
  }

  pub insert_top-Keeps :
      (k : ℕ) (seen pq : List Node) (e : Node)
      → 0 < k
      → Keeps k seen pq
      → Returns (insert_top extract k pq e) (λ q. Keeps k (e ∷ seen) q)
  unfolding insert_top
  insert_top-Keeps k seen [] e pos h = (e ∷ [], ground arith, Keeps-push k seen [] e pos h)
  insert_top-Keeps k seen (x ∷ xs) e pos h =
      let (y, ys, top) = extract-cons queue x xs in
      elim (Bool-cases (ltb (length (x ∷ xs)) k)) [
        | inl room ↦ (e ∷ x ∷ xs, rw room, Keeps-push k seen (x ∷ xs) e (ltb→lt _ _ room) h)
        | inr full ↦ elim (Bool-cases (ltb y.count e.count)) [
          | inl more ↦ (
            e ∷ ys,
            rw (full, top, pop_top, more),
            Keeps-replace k seen (x ∷ xs) e y ys top (ltb→ge _ _ full)
                (omega (arith, ltb→lt y.count e.count more)) h,
          )
          | inr less ↦ (
            x ∷ xs,
            rw (full, top, pop_top, less),
            Keeps-drop k seen (x ∷ xs) e y ys top (ltb→ge _ _ full) (ltb→ge y.count e.count less) h,
          )
        ]
      ]

  insert_all-Keeps :
      (k : ℕ) (es seen pq : List Node)
      → 0 < k
      → Keeps k seen pq
      → Returns (insert_all extract k pq es) (λ q. Keeps k (reverse_onto es seen) q)
  unfolding insert_all
  insert_all-Keeps k [] seen pq pos h = (pq, refl, h)
  insert_all-Keeps k (e ∷ es) seen pq pos h =
      let (q, run, h') = insert_top-Keeps k seen pq e pos h in
      let (r, rest, h'') = insert_all-Keeps k es (e ∷ seen) q pos h' in
      (r, rw (run, ◌>>=◌) rest, h'')

  -- From the empty queue and with a bound `k` above 0, inserting nodes one by one ends normally and
  -- keeps `k` most frequent nodes, or all if there are fewer.
  pub insert_all-Keeps_most :
      (k : ℕ) (es : List Node) → 0 < k → Returns (insert_all extract k [] es) (λ q. Keeps k es q)
  insert_all-Keeps_most k es pos =
      let (q, run, h) = insert_all-Keeps k es [] [] pos start in
      (
        q,
        run,
        record {
          dropped = h.dropped;
          bound = h.bound;
          items = λ w. omega (arith, h.items w, total-reverse_onto w es []);
          kept_above = h.kept_above;
          dropped_below = h.dropped_below;
          size = h.size;
          full = h.full;
        },
      )
    where
      start : Keeps k [] []
      start = record {
        dropped = [];
        bound = 0;
        items = λ w. refl;
        kept_above = tt;
        dropped_below = tt;
        size = omega arith;
        full = λ _. refl;
      }
