-- ===== src/Attack/Inference/Loop.antt =====
-- The main loop ends: the universe and the inferred set bound its rounds.
use freqanalysis.Common.{
  ℕ, ◌+◌, ◌-◌, ◌≤◌, ◌<◌, ◌≡◌, refl, sym, ap, ◌∙◌, List, [], ◌∷◌, true, ◌⊎◌, inl, inr, length, All,
  total, Run, ok, ◌>>=◌, Returns, arith,
}
use freqanalysis.Attack.Inference.Records.{nodes_of, HasCounters, insert_records-encode}
use freqanalysis.Attack.Inference.Universe.{
  IsTallied, is_in, outside, All-in, unseen, Grows, Grows-trans, infer-Grows,
}
use freqanalysis.Attack.Inference.{
  Limits, pop_front, Stores, State, infer, infer_left, infer_right, dequeue, round,
}
use freqanalysis.Attack.Neighbours.Codec.{encode, length-encode}
use freqanalysis.Attack.Neighbours.Table.{Table, IsTable}
use freqanalysis.Attack.Ranking.Kept.{insert_all-Keeps_most}
use freqanalysis.Attack.Ranking.Sorted.{seconds, drain_pairs-Paired}
use freqanalysis.Attack.Ranking.{Node, OnTop, neighbour_insert, drain_pairs}
use freqanalysis.Bytes.{Key}
use freqanalysis.LevelDb.{LevelDb, IsSound, found, not_found}
use freqanalysis.PriorityQueue.{Extract, IsPriorityQueue}

-- The entries of a table that name the universe only.
abbrev pub Names : List Key → Table → Type 0
Names universe t = All (λ (e : Key × ℕ). is_in universe e.0 ≡ true) t

module _ (store : LevelDb) where
  open store use {Db, get}

  -- A neighbour store as `locality_count` leaves it: under each key nothing or a table, whose
  -- neighbours are of the universe.
  abbrev pub IsNeighbours : List Key → Db → Type 0
  IsNeighbours universe db =
      (k : Key)
      → (get db k ≡ not_found)
        ⊎ (t : Table) × (get db k ≡ found (encode t)) × IsTable t × HasCounters t × Names universe t

  pub record AreNeighbours (universe : List Key) (stores : Stores Db) : Type 0 where
    pub left_o : IsNeighbours universe stores.left_o
    pub right_o : IsNeighbours universe stores.right_o
    pub left_t : IsNeighbours universe stores.left_t
    pub right_t : IsNeighbours universe stores.right_t

nodes-in :
    (universe : List Key) (t : Table) → Names universe t → total (outside universe) (nodes_of t) ≡ 0
nodes-in universe [] h = refl
nodes-in universe ((k, n) ∷ t) h = ground (arith, nodes-in universe t h.1)

-- Deciding whether the fronts match leaves the inferred set alone.
pub record IsJudge {Db : Type 0} (judge : State Db → Node → Node → Run (State Db)) : Type 0 where
  pub judges :
      (s : State Db) (o t : Node)
      → Returns (judge s o t) (λ s'.
        (s'.q_o ≡ s.q_o) × (s'.q_t ≡ s.q_t) × (s'.uniq ≡ s.uniq) × (s'.involve ≡ s.involve))
  pub tallies :
      (s s' : State Db) (o t : Node)
      → judge s o t ≡ ok s'
      → IsTallied s
      → IsTallied s' × (s'.common ≡ s.common) × (s'.leak ≡ s.leak)

length-pop_front : (xs : List Node) → length (pop_front xs) ≡ length xs - 1
length-pop_front [] = omega arith
length-pop_front (x ∷ xs) = omega arith

module _ (store : LevelDb) (sound : IsSound store) {extract : Extract Node}
    (queue : IsPriorityQueue OnTop extract) (universe : List Key) where
  open store use {Db, get}

  -- A neighbour queue holds nodes of the universe.
  neighbour_insert-in :
      (db : Db) (fp : Key) (k : ℕ)
      → 0 < k
      → IsNeighbours store universe db
      → Returns (neighbour_insert extract store db fp k) (λ q. total (outside universe) q ≡ 0)
  unfolding neighbour_insert
  neighbour_insert-in db fp k pos ns = elim (ns fp) [
    | inl nothing ↦ ([], rw (nothing, neighbour_insert), refl)
    | inr (t, got, v, small, names) ↦
        let (q, run, h) = insert_all-Keeps_most queue k (nodes_of t) pos in
        (
          q,
          rw (got, neighbour_insert)
              (insert_records-encode extract (length (encode t)) k [] t
                  (omega (arith, length-encode t v)) v small
                ∙ run),
          omega (arith, h.items (outside universe), nodes-in universe t names),
        )
  ]

  -- One pass over the neighbours of the fronts.
  pass-Grows :
      (queue_limit k : ℕ) (db_o db_t : Db) (s : State Db) (o t : Key)
      → 0 < k
      → IsNeighbours store universe db_o
      → IsNeighbours store universe db_t
      → Returns
          (neighbour_insert extract store db_o o k >>= λ pq.
            neighbour_insert extract store db_t t k >>= λ pc.
            drain_pairs extract (length pq) pq pc [] >>= λ pairs.
            ok (infer store queue_limit s pairs))
          (Grows store universe queue_limit s)
  pass-Grows queue_limit k db_o db_t s o t pos ns_o ns_t =
      let (pq, run_o, in_o) = neighbour_insert-in db_o o k pos ns_o in
      let (pc, run_t, in_t) = neighbour_insert-in db_t t k pos ns_t in
      let (pairs, run, p) = drain_pairs-Paired queue pq pc in
      let known =
        All-in universe (seconds pairs) (omega (arith, p.items_t (outside universe), in_t)) in
      (
        infer store queue_limit s pairs,
        rw (run_o, ◌>>=◌, run_t, ◌>>=◌, run),
        infer-Grows store sound universe queue_limit pairs s known,
      )

  module _ (limits : Limits) (stores : Stores Db) (pos : 0 < limits.th_k)
      (ns : AreNeighbours store universe stores) where
    infer_left-Grows :
        (s : State Db) (o t : Node)
        → Returns
            (infer_left store extract limits stores s o t)
            (Grows store universe limits.queue_limit s)
    unfolding infer_left
    infer_left-Grows s o t =
        pass-Grows limits.queue_limit limits.th_k stores.left_o stores.left_t s o.key t.key pos
          ns.left_o ns.left_t

    infer_right-Grows :
        (s : State Db) (o t : Node)
        → Returns
            (infer_right store extract limits stores s o t)
            (Grows store universe limits.queue_limit s)
    unfolding infer_right
    infer_right-Grows s o t =
        pass-Grows limits.queue_limit limits.th_k stores.right_o stores.right_t s o.key t.key pos
          ns.right_o ns.right_t

    -- What a round does to the inferred set, seen from outside.
    pub record Rounds (s s' : State Db) : Type 0 where
      pub paid :
          unseen store s'.uniq universe + length s'.q_t
          < unseen store s.uniq universe + length s.q_t
      pub bounded : (m : ℕ) → limits.queue_limit ≤ m → length s.q_o ≤ m → length s'.q_o ≤ m
      pub same_size : length s.q_o ≡ length s.q_t → length s'.q_o ≡ length s'.q_t
      pub involve : s'.involve ≡ s.involve + 1
      pub tally : IsTallied s → IsTallied s' × (s'.common ≡ s.common) × (s'.leak ≡ s.leak)

    -- `s₁` is `s` after the test of the fronts, and `s'` is `s₁` after both passes.
    dequeue-Rounds :
        (s s₁ s' : State Db)
        → 0 < length s.q_o
        → 0 < length s.q_t
        → (s₁.q_o ≡ s.q_o) × (s₁.q_t ≡ s.q_t) × (s₁.uniq ≡ s.uniq) × (s₁.involve ≡ s.involve)
        → (IsTallied s → IsTallied s₁ × (s₁.common ≡ s.common) × (s₁.leak ≡ s.leak))
        → Grows store universe limits.queue_limit s₁ s'
        → Rounds s (dequeue s')
    unfolding dequeue
    dequeue-Rounds s s₁ s' pos_o pos_t e tallied g =
        let shorter_o = length-pop_front s'.q_o in
        let shorter_t = length-pop_front s'.q_t in
        let size_o : length s₁.q_o ≡ length s.q_o = ap length e.0 in
        let size_t : length s₁.q_t ≡ length s.q_t = ap length e.1 in
        let same : unseen store s₁.uniq universe ≡ unseen store s.uniq universe =
          ap (λ d. unseen store d universe) e.2 in
        record {
          paid = omega (arith, g.paid, g.kept_t);
          bounded = λ m l k. omega (arith, g.bounded m l (omega arith));
          same_size = λ h. omega (arith, g.same_size (omega arith));
          involve = omega (arith, g.involve, e.3);
          tally = λ h.
              let t = tallied h in
              (g.tally.1 ∙ t.0 ∙ ap length (sym g.tally.0), g.tally.2 ∙ t.1, g.tally.3 ∙ t.2);
        }

    module _ {judge : State Db → Node → Node → Run (State Db)} (fair : IsJudge judge) where
      -- With neighbour stores as `locality_count` leaves them, `TH_K` above 0, a test of the fronts
      -- that leaves the queues and the chunks inferred so far alone, and two queues that are not
      -- empty, a round of the main loop ends normally: what has not been inferred and what is
      -- queued get fewer, the inferred set stays within any bound that it and `QUEUE_LIMIT`
      -- respect, its two sides stay of equal size, `involve` goes up by 1, and `correct` still
      -- counts the answers if it did.
      pub round-Rounds :
          (s : State Db) (o t : Node)
          → 0 < length s.q_o
          → 0 < length s.q_t
          → Returns (round store extract limits stores judge s o t) (Rounds s)
      unfolding round
      round-Rounds s o t pos_o pos_t =
          let (s₁, run₁, e) = fair.judges s o t in
          let (s₂, run₂, g₂) = infer_left-Grows s₁ o t in
          let (s₃, run₃, g₃) = infer_right-Grows s₂ o t in
          (
            dequeue s₃,
            rw (run₁, ◌>>=◌, run₂, ◌>>=◌, run₃),
            dequeue-Rounds s s₁ s₃ pos_o pos_t e (fair.tallies s s₁ o t run₁)
                (Grows-trans store universe limits.queue_limit s₁ s₂ s₃ g₂ g₃),
          )
