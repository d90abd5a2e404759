-- ===== src/Attack/Ranking/Sorted.antt =====
-- Emptying a queue onto a stack sorts it: the stack has the most frequent node on top.
use freqanalysis.Common.{
  ℕ, zero, suc, ◌+◌, ◌≤◌, ◌≡◌, refl, some, List, [], ◌∷◌, ◌⊎◌, inl, inr, length, All, total,
  SameItems, ◌>>=◌, Returns, arith,
}
use freqanalysis.Attack.Ranking.Kept.{rest_above, bound-le-top}
use freqanalysis.Attack.Ranking.{Node, OnTop, drain, drain_pairs}
use freqanalysis.PriorityQueue.{Extract, IsPriorityQueue, pop_top, extract-cons, length-extract}

abbrev pub HeadBelow : ℕ → List Node → Type 0
HeadBelow b [] = Unit
HeadBelow b (x ∷ xs) = x.count ≤ b

abbrev pub IsDescending : List Node → Type 0
IsDescending [] = Unit
IsDescending (x ∷ xs) = HeadBelow x.count xs × IsDescending xs

-- A stack that is sorted, and not above what is left of the queue.
pub record Stacked (pq stack : List Node) : Type 0 where
  pub bound : ℕ
  pub stack_below : HeadBelow bound stack
  pub queue_above : All (λ x. bound ≤ x.count) pq
  pub sorted : IsDescending stack

HeadBelow-raise : {a b : ℕ} (xs : List Node) → a ≤ b → HeadBelow a xs → HeadBelow b xs
HeadBelow-raise [] h k = tt
HeadBelow-raise (x ∷ xs) h k = omega arith

Stacked-nil : (pq : List Node) → Stacked pq []
Stacked-nil pq = record { bound = 0; stack_below = tt; queue_above = at_least_zero pq; sorted = tt }
  where
    at_least_zero : (xs : List Node) → All (λ x. 0 ≤ x.count) xs
    at_least_zero [] = tt
    at_least_zero (x ∷ xs) = (omega arith, at_least_zero xs)

module _ {extract : Extract Node} (queue : IsPriorityQueue OnTop extract) where
  Stacked-pop :
      (pq stack : List Node) (y : Node) (ys : List Node)
      → extract pq ≡ some (y, ys)
      → Stacked pq stack
      → Stacked ys (y ∷ stack)
  Stacked-pop pq stack y ys top h =
      let low = bound-le-top queue h.bound pq y ys top h.queue_above in
      record {
        bound = y.count;
        stack_below = omega arith;
        queue_above = rest_above queue pq y ys top;
        sorted = (HeadBelow-raise stack low h.stack_below, h.sorted);
      }

  drain-Stacked :
      (f : ℕ) (pq tmp : List Node)
      → length pq ≤ f
      → Stacked pq tmp
      → Returns
          (drain extract f pq tmp)
          (λ s. ((w : Node → ℕ) → total w s ≡ total w pq + total w tmp) × IsDescending s)
  unfolding drain
  drain-Stacked zero [] tmp enough h = (tmp, refl, ((λ w. omega arith), h.sorted))
  drain-Stacked (suc f) [] tmp enough h = (tmp, refl, ((λ w. omega arith), h.sorted))
  drain-Stacked zero (x ∷ xs) tmp enough h = absurd (omega arith)
  drain-Stacked (suc f) (x ∷ xs) tmp enough h =
      let (y, ys, top) = extract-cons queue x xs in
      let (s, run, (items, sorted)) =
        drain-Stacked f ys (y ∷ tmp) (omega (arith, length-extract queue (x ∷ xs) y ys top))
          (Stacked-pop (x ∷ xs) tmp y ys top h) in
      (
        s,
        rw (top, pop_top, ◌>>=◌) run,
        ((λ w. omega (arith, items w, queue.split (x ∷ xs) y ys top w)), sorted),
      )

  -- Emptying a queue onto a stack ends normally with a stack of the same nodes, sorted by falling
  -- frequency.
  pub drain-IsDescending :
      (pq : List Node)
      → Returns (drain extract (length pq) pq []) (λ s. SameItems s pq × IsDescending s)
  drain-IsDescending pq =
      let (s, run, (items, sorted)) =
        drain-Stacked (length pq) pq [] (omega arith) (Stacked-nil pq) in
      (s, run, ((λ w. omega (arith, items w)), sorted))

abbrev pub firsts : List (Node × Node) → List Node
firsts [] = []
firsts ((o, t) ∷ ps) = o ∷ firsts ps

abbrev pub seconds : List (Node × Node) → List Node
seconds [] = []
seconds ((o, t) ∷ ps) = t ∷ seconds ps

-- Pairs of nodes of two queues: on each side sorted, and not above the nodes that were left over,
-- of which one side has none.
pub record Paired (pq pc : List Node) (pairs : List (Node × Node)) : Type 0 where
  pub left_o : List Node
  pub left_t : List Node
  pub items_o : (w : Node → ℕ) → total w (firsts pairs) + total w left_o ≡ total w pq
  pub items_t : (w : Node → ℕ) → total w (seconds pairs) + total w left_t ≡ total w pc
  pub stacked_o : Stacked left_o (firsts pairs)
  pub stacked_t : Stacked left_t (seconds pairs)
  pub exhausted : (left_o ≡ []) ⊎ (left_t ≡ [])
  pub size_o : length (firsts pairs) + length left_o ≡ length pq
  pub size_t : length (firsts pairs) + length left_t ≡ length pc

module _ {extract : Extract Node} (queue : IsPriorityQueue OnTop extract) where
  -- The queues and stacks on the way.
  record Pairing (pq pc qs ts : List Node) (pairs : List (Node × Node)) : Type 0 where
    items_o : (w : Node → ℕ) → total w (firsts pairs) + total w qs ≡ total w pq
    items_t : (w : Node → ℕ) → total w (seconds pairs) + total w ts ≡ total w pc
    stacked_o : Stacked qs (firsts pairs)
    stacked_t : Stacked ts (seconds pairs)
    size_o : length (firsts pairs) + length qs ≡ length pq
    size_t : length (firsts pairs) + length ts ≡ length pc

  Paired-of :
      (pq pc qs ts : List Node) (pairs : List (Node × Node))
      → Pairing pq pc qs ts pairs
      → (qs ≡ []) ⊎ (ts ≡ [])
      → Paired pq pc pairs
  Paired-of pq pc qs ts pairs h e = record {
    left_o = qs;
    left_t = ts;
    items_o = h.items_o;
    items_t = h.items_t;
    stacked_o = h.stacked_o;
    stacked_t = h.stacked_t;
    exhausted = e;
    size_o = h.size_o;
    size_t = h.size_t;
  }

  drain_pairs-Pairing :
      (f : ℕ) (pq pc qs ts : List Node) (pairs : List (Node × Node))
      → length qs ≤ f
      → Pairing pq pc qs ts pairs
      → Returns (drain_pairs extract f qs ts pairs) (Paired pq pc)
  unfolding drain_pairs
  drain_pairs-Pairing zero pq pc [] ts pairs enough h =
      (pairs, refl, Paired-of pq pc [] ts pairs h (inl refl))
  drain_pairs-Pairing (suc f) pq pc [] ts pairs enough h =
      (pairs, refl, Paired-of pq pc [] ts pairs h (inl refl))
  drain_pairs-Pairing zero pq pc (x ∷ xs) ts pairs enough h = absurd (omega arith)
  drain_pairs-Pairing (suc f) pq pc (x ∷ xs) [] pairs enough h =
      (pairs, refl, Paired-of pq pc (x ∷ xs) [] pairs h (inr refl))
  drain_pairs-Pairing (suc f) pq pc (x ∷ xs) (z ∷ zs) pairs enough h =
      let (o, os, top_o) = extract-cons queue x xs in
      let (t, rest, top_t) = extract-cons queue z zs in
      let size_o = length-extract queue (x ∷ xs) o os top_o in
      let size_t = length-extract queue (z ∷ zs) t rest top_t in
      let h' : Pairing pq pc os rest ((o, t) ∷ pairs) = record {
        items_o = λ w. omega (arith, h.items_o w, queue.split (x ∷ xs) o os top_o w);
        items_t = λ w. omega (arith, h.items_t w, queue.split (z ∷ zs) t rest top_t w);
        stacked_o = Stacked-pop queue (x ∷ xs) (firsts pairs) o os top_o h.stacked_o;
        stacked_t = Stacked-pop queue (z ∷ zs) (seconds pairs) t rest top_t h.stacked_t;
        size_o = omega (arith, h.size_o, size_o);
        size_t = omega (arith, h.size_t, size_t);
      } in
      let (r, run, p) =
        drain_pairs-Pairing f pq pc os rest ((o, t) ∷ pairs) (omega (arith, size_o)) h' in
      (r, rw (top_o, top_t, pop_top, ◌>>=◌) run, p)

  -- Emptying two queues side by side ends normally with pairs that are sorted on both sides by
  -- falling frequency; what one queue has left over is not less frequent than its paired nodes, and
  -- one of them has nothing left.
  pub drain_pairs-Paired :
      (pq pc : List Node) → Returns (drain_pairs extract (length pq) pq pc []) (Paired pq pc)
  drain_pairs-Paired pq pc = drain_pairs-Pairing (length pq) pq pc pq pc [] (omega arith) (record {
    items_o = λ w. omega arith;
    items_t = λ w. omega arith;
    stacked_o = Stacked-nil pq;
    stacked_t = Stacked-nil pc;
    size_o = omega arith;
    size_t = omega arith;
  })
