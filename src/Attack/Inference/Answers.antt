-- ===== src/Attack/Inference/Answers.antt =====
-- Only the test of the fronts gives answers: what it keeps of the answers, the main loop keeps.
use freqanalysis.Common.{
  ℕ, zero, suc, ◌≡◌, ◌≢◌, refl, sym, arith, ap, ◌∙◌, List, [], ◌∷◌, Bool, true, false, inl, inr,
  ltb, ◌+◌, length, Run, ok, bind_ok, ok_injective, Bool-cases,
}
use mathlib.Core.Path.{subst}
use freqanalysis.Attack.Inference.Steps.{cons_or_nil, loop-empty_o, loop-empty_t, loop-round}
use freqanalysis.Attack.Inference.{
  Limits, Stores, State, infer, enqueue, infer_left, infer_right, dequeue, round, loop, initialize,
  main_loop,
}
use freqanalysis.Attack.Ranking.{Node, db_insert, drain, drain_pairs, neighbour_insert}
use freqanalysis.LevelDb.{LevelDb, is_found}
use freqanalysis.PriorityQueue.{Extract}

module _ (store : LevelDb) where
  open store use {Db, get}

  infer-ansq :
      (queue_limit : ℕ) (s : State Db) (pairs : List (Node × Node))
      → (infer store queue_limit s pairs).ansq ≡ s.ansq
  unfolding infer enqueue
  infer-ansq queue_limit s [] = refl
  infer-ansq queue_limit s ((o, t) ∷ pairs) = elim (Bool-cases (is_found (get s.uniq t.key))) [
    | inl old ↦ rw (old, infer) (infer-ansq queue_limit s pairs)
    | inr new ↦ elim (Bool-cases (ltb queue_limit (length s.q_o + 1))) [
      | inl full ↦ rw (new, infer, full) refl
      | inr room ↦ rw (new, infer, room) (infer-ansq queue_limit (enqueue store s o t) pairs)
    ]
  ]

  module _ (extract : Extract Node) (limits : Limits) (stores : Stores Db) where
    infer_left-ansq :
        (s s' : State Db) (o t : Node)
        → infer_left store extract limits stores s o t ≡ ok s'
        → s'.ansq ≡ s.ansq
    unfolding infer_left
    infer_left-ansq s s' o t run =
        let (pq, _, run₁) =
          bind_ok (neighbour_insert extract store stores.left_o o.key limits.th_k) _ s' run in
        let (pc, _, run₂) =
          bind_ok (neighbour_insert extract store stores.left_t t.key limits.th_k) _ s' run₁ in
        let (pairs, _, run₃) = bind_ok (drain_pairs extract (length pq) pq pc []) _ s' run₂ in
        ap (λ r. r.ansq) (sym (ok_injective run₃)) ∙ infer-ansq limits.queue_limit s pairs

    infer_right-ansq :
        (s s' : State Db) (o t : Node)
        → infer_right store extract limits stores s o t ≡ ok s'
        → s'.ansq ≡ s.ansq
    unfolding infer_right
    infer_right-ansq s s' o t run =
        let (pq, _, run₁) =
          bind_ok (neighbour_insert extract store stores.right_o o.key limits.th_k) _ s' run in
        let (pc, _, run₂) =
          bind_ok (neighbour_insert extract store stores.right_t t.key limits.th_k) _ s' run₁ in
        let (pairs, _, run₃) = bind_ok (drain_pairs extract (length pq) pq pc []) _ s' run₂ in
        ap (λ r. r.ansq) (sym (ok_injective run₃)) ∙ infer-ansq limits.queue_limit s pairs

    initialize-ansq :
        (s s' : State Db) → initialize store extract limits stores s ≡ ok s' → s'.ansq ≡ s.ansq
    unfolding initialize
    initialize-ansq s s' run =
        let (pq, _, run₁) = bind_ok (db_insert extract store stores.origin limits.init) _ s' run in
        let (omp, _, run₂) = bind_ok (drain extract (length pq) pq []) _ s' run₁ in
        let (pc, _, run₃) = bind_ok (db_insert extract store stores.target limits.init) _ s' run₂ in
        let (tmp, _, run₄) = bind_ok (drain extract (length pc) pc []) _ s' run₃ in
        ap (λ r. r.ansq) (sym (ok_injective run₄))

    module _ (judge : State Db → Node → Node → Run (State Db)) (P : List Node → Type 0)
        (keeps : (s s' : State Db) (o t : Node) → judge s o t ≡ ok s' → P s.ansq → P s'.ansq) where
      round-keeps :
          (s s' : State Db) (o t : Node)
          → round store extract limits stores judge s o t ≡ ok s'
          → P s.ansq
          → P s'.ansq
      unfolding round dequeue
      round-keeps s s' o t run h =
          let (j, run_j, run₁) = bind_ok (judge s o t) _ s' run in
          let (l, run_l, run₂) = bind_ok (infer_left store extract limits stores j o t) _ s' run₁ in
          let (r, run_r, run₃) =
            bind_ok (infer_right store extract limits stores l o t) _ s' run₂ in
          let same : s'.ansq ≡ j.ansq =
            ap (λ r. r.ansq) (sym (ok_injective run₃))
            ∙ infer_right-ansq l r o t run_r
            ∙ infer_left-ansq j l o t run_l in
          subst P (sym same) (keeps s j o t run_j h)

      loop-stuck :
          (s t : State Db) {o c : Node} {os cs : List Node}
          → s.q_o ≡ o ∷ os
          → s.q_t ≡ c ∷ cs
          → loop store extract limits stores judge zero s ≢ ok t
      unfolding loop
      loop-stuck s t e d = λ run. ground arith

      loop-keeps :
          (f : ℕ) (s t : State Db)
          → loop store extract limits stores judge f s ≡ ok t
          → P s.ansq
          → P t.ansq
      loop-keeps zero s t run h = elim (cons_or_nil s.q_o) [
        | inl e ↦
            subst (λ r. P r.ansq)
              (ok_injective (sym (loop-empty_o store extract limits stores judge zero s e) ∙ run)) h
        | inr (o, os, e) ↦ elim (cons_or_nil s.q_t) [
          | inl d ↦
              subst (λ r. P r.ansq)
                (ok_injective
                  (sym (loop-empty_t store extract limits stores judge zero s e d) ∙ run))
                h
          | inr (c, cs, d) ↦ absurd (loop-stuck s t e d run)
        ]
      ]
      loop-keeps (suc f) s t run h = elim (cons_or_nil s.q_o) [
        | inl e ↦
            subst (λ r. P r.ansq)
              (ok_injective
                (sym (loop-empty_o store extract limits stores judge (suc f) s e) ∙ run))
              h
        | inr (o, os, e) ↦ elim (cons_or_nil s.q_t) [
          | inl d ↦
              subst (λ r. P r.ansq)
                (ok_injective
                  (sym (loop-empty_t store extract limits stores judge (suc f) s e d) ∙ run))
                h
          | inr (c, cs, d) ↦
              let (r, run_r, rest) =
                bind_ok (round store extract limits stores judge s o c) _ t
                  (sym (loop-round store extract limits stores judge f s e d) ∙ run) in
              loop-keeps f r t rest (round-keeps s r o c run_r h)
        ]
      ]

      -- From no answers.
      pub main_loop-keeps :
          (no_leakage : Bool) (fuel : ℕ) (s t : State Db)
          → main_loop store extract limits stores judge no_leakage fuel s ≡ ok t
          → P []
          → P t.ansq
      unfolding main_loop
      main_loop-keeps true fuel s t run h =
          let cleared : State Db = record s { ansq = []; ansq2 = [] } in
          let (r, run_r, rest) = bind_ok (initialize store extract limits stores cleared) _ t run in
          loop-keeps fuel r t rest (subst P (sym (initialize-ansq cleared r run_r)) h)
      main_loop-keeps false fuel s t run h =
          loop-keeps fuel (record s { ansq = []; ansq2 = [] }) t run h
