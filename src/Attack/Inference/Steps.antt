-- ===== src/Attack/Inference/Steps.antt =====
-- The main loop, step by step.
use freqanalysis.Common.{
  ℕ, zero, suc, ◌≡◌, refl, List, [], ◌∷◌, ◌⊎◌, inl, inr, Run, ok, ◌>>=◌, arith,
}
use freqanalysis.Attack.Inference.{Limits, Stores, State, round, loop}
use freqanalysis.Attack.Ranking.{Node}
use freqanalysis.LevelDb.{LevelDb}
use freqanalysis.PriorityQueue.{Extract}

pub cons_or_nil : (xs : List Node) → (xs ≡ []) ⊎ (x : Node) × (r : List Node) × (xs ≡ x ∷ r)
cons_or_nil [] = inl refl
cons_or_nil (x ∷ r) = inr (x, r, refl)

module _ (store : LevelDb) (extract : Extract Node) (limits : Limits) (stores : Stores store.Db)
    (judge : State store.Db → Node → Node → Run (State store.Db)) where
  open store use {Db}

  pub loop-empty_o :
      (f : ℕ) (s : State Db) → s.q_o ≡ [] → loop store extract limits stores judge f s ≡ ok s
  unfolding loop
  loop-empty_o zero s e = ground arith
  loop-empty_o (suc f) s e = ground arith

  pub loop-empty_t :
      (f : ℕ) (s : State Db) {o : Node} {os : List Node}
      → s.q_o ≡ o ∷ os
      → s.q_t ≡ []
      → loop store extract limits stores judge f s ≡ ok s
  unfolding loop
  loop-empty_t zero s e d = ground arith
  loop-empty_t (suc f) s e d = ground arith

  pub loop-round :
      (f : ℕ) (s : State Db) {o t : Node} {os ts : List Node}
      → s.q_o ≡ o ∷ os
      → s.q_t ≡ t ∷ ts
      → loop store extract limits stores judge (suc f) s ≡ (
          round store extract limits stores judge s o t
          >>= loop store extract limits stores judge f)
  unfolding loop
  loop-round f s e d = ground arith
