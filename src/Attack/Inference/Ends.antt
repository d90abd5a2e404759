-- ===== src/Attack/Inference/Ends.antt =====
-- `main_loop` ends normally within fuel that the universe, `INIT` and the inferred set give.
use freqanalysis.Common.{
  ℕ, zero, suc, ◌+◌, ◌≤◌, ◌<◌, ◌≡◌, refl, sym, ap, ◌∙◌, List, [], ◌++◌, Bool, true, false, ◌⊎◌, inl,
  inr, length, length-append, length-eq-total, Run, ◌>>=◌, Returns, arith,
}
use freqanalysis.Attack.Inference.Loop.{AreNeighbours, IsJudge, Rounds, round-Rounds}
use freqanalysis.Attack.Inference.Steps.{cons_or_nil, loop-empty_o, loop-empty_t, loop-round}
use freqanalysis.Attack.Inference.Universe.{IsTallied, SameTally, unseen, unseen-le}
use freqanalysis.Attack.Inference.{Limits, Stores, State, loop, initialize, main_loop, mark_all}
use freqanalysis.Attack.Ranking.Kept.{insert_all-Keeps_most}
use freqanalysis.Attack.Ranking.Sorted.{drain-IsDescending}
use freqanalysis.Attack.Ranking.{Node, OnTop, db_insert, entry_nodes}
use freqanalysis.Bytes.{Key}
use freqanalysis.LevelDb.{LevelDb, IsSound}
use freqanalysis.PriorityQueue.{Extract, IsPriorityQueue}

module _ (store : LevelDb) (sound : IsSound store) {extract : Extract Node}
    (queue : IsPriorityQueue OnTop extract) (universe : List Key) (limits : Limits)
    (stores : Stores store.Db) (pos : 0 < limits.th_k) (ns : AreNeighbours store universe stores)
    {judge : State store.Db → Node → Node → Run (State store.Db)} (fair : IsJudge judge) where
  open store use {Db, entries}

  -- One of the queues is empty, and every round was paid for.
  pub record Ends (s t : State Db) : Type 0 where
    pub empty : (t.q_o ≡ []) ⊎ (t.q_t ≡ [])
    pub involve : t.involve ≤ s.involve + (unseen store s.uniq universe + length s.q_t)
    pub bounded : (m : ℕ) → limits.queue_limit ≤ m → length s.q_o ≤ m → length t.q_o ≤ m
    pub tally : IsTallied s → IsTallied t × (t.common ≡ s.common) × (t.leak ≡ s.leak)
    pub same_size : length s.q_o ≡ length s.q_t → length t.q_o ≡ length t.q_t

  ended : (s : State Db) → (s.q_o ≡ []) ⊎ (s.q_t ≡ []) → Ends s s
  ended s e = record {
    empty = e;
    involve = omega arith;
    bounded = λ m l k. k;
    tally = λ h. (h, refl, refl);
    same_size = λ h. h;
  }

  after_round :
      (s s' t : State Db)
      → Rounds store sound queue universe limits stores pos ns s s'
      → Ends s' t
      → Ends s t
  after_round s s' t r h = record {
    empty = h.empty;
    involve = omega (arith, h.involve, r.involve, r.paid);
    bounded = λ m l k. h.bounded m l (r.bounded m l k);
    tally = λ e. let c = r.tally e in let d = h.tally c.0 in (d.0, d.1 ∙ c.1, d.2 ∙ c.2);
    same_size = λ e. h.same_size (r.same_size e);
  }

  -- The loop, by the rounds that the fuel allows.
  pub loop-Ends :
      (f : ℕ) (s : State Db)
      → unseen store s.uniq universe + length s.q_t ≤ f
      → Returns (loop store extract limits stores judge f s) (Ends s)
  loop-Ends zero s enough = elim (cons_or_nil s.q_o) [
    | inl e ↦ (s, loop-empty_o store extract limits stores judge zero s e, ended s (inl e))
    | inr (o, os, e) ↦ elim (cons_or_nil s.q_t) [
      | inl d ↦ (s, loop-empty_t store extract limits stores judge zero s e d, ended s (inr d))
      | inr (t, ts, d) ↦ absurd (omega (arith, ap length d))
    ]
  ]
  loop-Ends (suc f) s enough = elim (cons_or_nil s.q_o) [
    | inl e ↦ (s, loop-empty_o store extract limits stores judge (suc f) s e, ended s (inl e))
    | inr (o, os, e) ↦ elim (cons_or_nil s.q_t) [
      | inl d ↦ (s, loop-empty_t store extract limits stores judge (suc f) s e d, ended s (inr d))
      | inr (t, ts, d) ↦
          let (s', run, r) =
            round-Rounds store sound queue universe limits stores pos ns fair s o t
              (omega (arith, ap length e)) (omega (arith, ap length d)) in
          let (u, rest, h) = loop-Ends f s' (omega (arith, r.paid)) in
          (
            u,
            loop-round store extract limits stores judge f s e d ∙ rw (run, ◌>>=◌) rest,
            after_round s s' u r h,
          )
    ]
  ]

  -- The initial set, when nothing leaked, adds at most `INIT` ciphertexts.
  initialize-Returns :
      (s : State Db)
      → 0 < limits.init
      → Returns (initialize store extract limits stores s) (λ t.
        (length t.q_t ≤ limits.init + length s.q_t) × (t.involve ≡ s.involve) × SameTally s t)
  unfolding initialize db_insert
  initialize-Returns s some_init =
      let (pq, run₁, k₁) =
        insert_all-Keeps_most queue limits.init (entry_nodes (entries stores.origin)) some_init in
      let (omp, run₂, (items₂, sorted₂)) = drain-IsDescending queue pq in
      let (pc, run₃, k₃) =
        insert_all-Keeps_most queue limits.init (entry_nodes (entries stores.target)) some_init in
      let (tmp, run₄, (items₄, sorted₄)) = drain-IsDescending queue pc in
      (
        record s { q_o = s.q_o ++ omp; q_t = s.q_t ++ tmp; uniq = mark_all store s.uniq tmp },
        rw (run₁, ◌>>=◌, run₂, ◌>>=◌, run₃, ◌>>=◌, run₄),
        (
          omega (
            arith,
            length-append s.q_t tmp,
            items₄ (λ _. 1),
            length-eq-total tmp,
            length-eq-total pc,
            k₃.size,
          ),
          refl,
          (refl, refl, refl, refl),
        ),
      )

  -- With neighbour stores as `locality_count` leaves them, a test of the fronts that leaves the
  -- queues and the chunks inferred so far alone, `INIT` and `TH_K` above 0, `correct` at 0, and
  -- fuel for the universe, `INIT` and the ciphertexts queued before, `main_loop` ends normally with
  -- one of the queues empty. It takes no more pairs than those allow, counts its answers in
  -- `correct`, and leaves `common` and `leak` as they were.
  pub main_loop-Ends :
      (no_leakage : Bool) (fuel : ℕ) (s : State Db)
      → 0 < limits.init
      → length universe + (limits.init + length s.q_t) ≤ fuel
      → s.correct ≡ 0
      → Returns (main_loop store extract limits stores judge no_leakage fuel s) (λ t.
        ((t.q_o ≡ []) ⊎ (t.q_t ≡ []))
        × (t.involve ≤ s.involve + (length universe + (limits.init + length s.q_t)))
        × (t.correct ≡ length t.ansq)
        × (t.common ≡ s.common)
        × (t.leak ≡ s.leak))
  unfolding main_loop
  main_loop-Ends true fuel s some_init enough zero_correct =
      let cleared : State Db = record s { ansq = []; ansq2 = [] } in
      let (r, run, (size, same, tally)) = initialize-Returns cleared some_init in
      let few = unseen-le store r.uniq universe in
      let (t, rest, h) = loop-Ends fuel r (omega (arith, size, few)) in
      let c = h.tally (tally.1 ∙ zero_correct ∙ ap length (sym tally.0)) in
      (
        t,
        rw (run, ◌>>=◌) rest,
        (h.empty, omega (arith, h.involve, few), c.0, c.1 ∙ tally.2, c.2 ∙ tally.3),
      )
  main_loop-Ends false fuel s some_init enough zero_correct =
      let cleared : State Db = record s { ansq = []; ansq2 = [] } in
      let few = unseen-le store s.uniq universe in
      let (t, rest, h) = loop-Ends fuel cleared (omega (arith, few)) in
      let c = h.tally zero_correct in
      (t, rest, (h.empty, omega (arith, h.involve, few), c.0, c.1, c.2))
