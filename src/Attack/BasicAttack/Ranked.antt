-- ===== src/Attack/BasicAttack/Ranked.antt =====
-- Frequency analysis answers with the chunks that have the same rank on both sides.
use freqanalysis.Common.{
  ℕ, zero, suc, ◌+◌, ◌≤◌, ◌≡◌, refl, sym, ap, ◌∙◌, min, some, List, [], ◌∷◌, ◌++◌, append_assoc,
  append-nil, if◌then◌else◌, length, All, total, above, All-of-above, above-of-All, ◌>>=◌, Returns,
  Bool-cases, inl, inr, arith,
}
use freqanalysis.Attack.BasicAttack.{OnTop, analyse, fre_analysis}
use freqanalysis.Attack.Ranking.{Node, count_of}
use freqanalysis.Bytes.{key_eq}
use freqanalysis.PriorityQueue.{Extract, IsPriorityQueue, pop_top, extract-cons, length-extract}

-- In order of falling frequency, and none of `rest` is more frequent.
abbrev pub IsRanked : List Node → List Node → Type 0
IsRanked [] rest = Unit
IsRanked (x ∷ xs) rest =
    All (λ z. z.count ≤ x.count) xs × All (λ z. z.count ≤ x.count) rest × IsRanked xs rest

-- The nodes of the first list with the key of the node at the same place of the second.
abbrev pub matches : List Node → List Node → List Node
matches [] ts = []
matches (o ∷ os) [] = []
matches (o ∷ os) (t ∷ ts) = (if key_eq o.key t.key then o ∷ [] else []) ++ matches os ts

-- The most frequent nodes of both queues, as many as the smaller has.
pub record Analysed (n : ℕ) (training target ansq : List Node) : Type 0 where
  pub ranked_o : List Node
  pub ranked_t : List Node
  pub rest_o : List Node
  pub rest_t : List Node
  pub items_o : (w : Node → ℕ) → total w ranked_o + total w rest_o ≡ total w training
  pub items_t : (w : Node → ℕ) → total w ranked_t + total w rest_t ≡ total w target
  pub order_o : IsRanked ranked_o rest_o
  pub order_t : IsRanked ranked_t rest_t
  pub size_o : length ranked_o ≡ n
  pub size_t : length ranked_t ≡ n
  pub answers : ansq ≡ matches ranked_o ranked_t

module _ {extract : Extract Node} (queue : IsPriorityQueue OnTop extract) where
  -- The top bounds whatever the rest of the queue is split into.
  top_bounds :
      (q : List Node) (y : Node) (ys xs rest : List Node)
      → extract q ≡ some (y, ys)
      → ((w : Node → ℕ) → total w xs + total w rest ≡ total w ys)
      → All (λ z. z.count ≤ y.count) xs × All (λ z. z.count ≤ y.count) rest
  top_bounds q y ys xs rest top items =
      let none_above = above-of-All count_of y.count q (queue.best q y ys top) in
      let split = queue.split q y ys top (above count_of y.count) in
      let shared = items (above count_of y.count) in
      (
        All-of-above count_of y.count xs (omega arith),
        All-of-above count_of y.count rest (omega arith),
      )

  analyse-Analysed :
      (n : ℕ) (training target ansq : List Node)
      → n ≤ length training
      → n ≤ length target
      → Returns
          (analyse extract n training target ansq)
          (λ r. (answers : List Node) × (r ≡ ansq ++ answers) × Analysed n training target answers)
  unfolding analyse
  analyse-Analysed zero training target ansq le_o le_t = (
    ansq,
    refl,
    (
      [],
      sym (append-nil ansq),
      record {
        ranked_o = [];
        ranked_t = [];
        rest_o = training;
        rest_t = target;
        items_o = λ w. omega arith;
        items_t = λ w. omega arith;
        order_o = tt;
        order_t = tt;
        size_o = refl;
        size_t = refl;
        answers = refl;
      },
    ),
  )
  analyse-Analysed (suc n) [] target ansq le_o le_t = absurd (omega arith)
  analyse-Analysed (suc n) (x ∷ xs) [] ansq le_o le_t = absurd (omega arith)
  analyse-Analysed (suc n) (x ∷ xs) (z ∷ zs) ansq le_o le_t =
      let (o, os, top_o) = extract-cons queue x xs in
      let (t, ts, top_t) = extract-cons queue z zs in
      let found = if key_eq o.key t.key then o ∷ [] else [] in
      let ansq' = if key_eq o.key t.key then ansq ++ (o ∷ []) else ansq in
      let e : ansq' ≡ ansq ++ found = elim (Bool-cases (key_eq o.key t.key)) [
        | inl same ↦ rw same
        | inr other ↦ rw other (sym (append-nil ansq))
      ] in
      let (r, run, (answers, extends, a)) =
        analyse-Analysed n os ts ansq' (omega (arith, length-extract queue (x ∷ xs) o os top_o))
          (omega (arith, length-extract queue (z ∷ zs) t ts top_t)) in
      let bound_o = top_bounds (x ∷ xs) o os a.ranked_o a.rest_o top_o a.items_o in
      let bound_t = top_bounds (z ∷ zs) t ts a.ranked_t a.rest_t top_t a.items_t in
      (
        r,
        rw (top_o, top_t, pop_top, ◌>>=◌) run,
        (
          found ++ answers,
          extends ∙ ap (λ l. l ++ answers) e ∙ append_assoc ansq found answers,
          record {
            ranked_o = o ∷ a.ranked_o;
            ranked_t = t ∷ a.ranked_t;
            rest_o = a.rest_o;
            rest_t = a.rest_t;
            items_o = λ w. omega (arith, a.items_o w, queue.split (x ∷ xs) o os top_o w);
            items_t = λ w. omega (arith, a.items_t w, queue.split (z ∷ zs) t ts top_t w);
            order_o = (bound_o.0, bound_o.1, a.order_o);
            order_t = (bound_t.0, bound_t.1, a.order_t);
            size_o = omega (arith, a.size_o);
            size_t = omega (arith, a.size_t);
            answers = ap (λ l. found ++ l) a.answers;
          },
        ),
      )

  -- `Fre_Analysis` ends normally; on both sides the most frequent nodes, as many as the smaller
  -- queue has, stand in an order of falling frequency, the answers are the nodes whose fingerprints
  -- agree at the same rank, and `Correct` is their number.
  pub fre_analysis-Analysed :
      (training target : List Node)
      → Returns (fre_analysis extract training target) (λ r.
        Analysed (min (length training) (length target)) training target r.0 × (r.1 ≡ length r.0))
  unfolding fre_analysis
  fre_analysis-Analysed training target =
      let (r, run, (answers, extends, a)) =
        analyse-Analysed (min (length training) (length target)) training target [] (omega arith)
          (omega arith) in
      ((r, length r), rw run, (rw extends a, refl))
