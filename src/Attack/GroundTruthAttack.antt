-- ===== src/Attack/GroundTruthAttack.antt =====
-- defense/minhash/locality_attack_e.cc (defense/combined has the same file): the inference against
-- MinHash encryption, where the ground truth tells the plaintext of a ciphertext.
pub mod Leaked
pub mod Counted
use freqanalysis.Common.{
  ℕ, ◌+◌, ◌-◌, ◌%◌, ◌^◌, Option, none, some, List, [], ◌∷◌, ◌++◌, ltb, length, if◌then◌else◌, take,
  Run, ok, stop, exit_1, assertion, undefined, ◌>>=◌,
}
use freqanalysis.Attack.Inference.{Limits, Stores, State, mark, main_loop}
use freqanalysis.Attack.LocalityAttack.{Leakage, inferences, print_from_back, globals}
use freqanalysis.Attack.Ranking.{Node}
use freqanalysis.Bytes.{Key, fp_size, key_eq, load_u64}
use freqanalysis.LevelDb.{LevelDb, found, not_found, failed}
use freqanalysis.PriorityQueue.{Extract}

-- The first `FP_SIZE` bytes behind `c_str()`, which ends in a zero byte; behind that nothing may be
-- read.
unfoldable pub first_bytes : List ℕ → Run Key
first_bytes s =
    if ltb (length s + 1) fp_size then stop undefined else ok (take fp_size (s ++ (0 ∷ [])))

module _ (store : LevelDb) (relate : store.Db) where
  open store use {Db, get, entries}

  -- `exs` after `relate->Get`: LevelDB leaves it as it was if the key is not found.
  unfoldable pub plaintext : Key → List ℕ → List ℕ
  plaintext key exs = elim (get relate key) [ found value ↦ value | not_found ↦ exs | failed ↦ exs ]

  -- A leaked chunk whose plaintext is in the auxiliary store.
  unfoldable pub leak_chunk : State Db → Key → Key → List ℕ → List ℕ → State Db
  unfolding mark
  leak_chunk s key plain value_o value_t =
      let entry_o : Node = record { key = plain; count = load_u64 value_o } in
      let entry_t : Node = record { key = take fp_size key; count = load_u64 value_t } in
      record s {
        q_o = s.q_o ++ (entry_o ∷ []);
        uniq = mark store s.uniq entry_t;
        q_t = s.q_t ++ (entry_t ∷ []);
        leak = s.leak + 1;
      }

  -- One round of the loop of `stat_db`; a draw is below `INT_MAX`.
  unfoldable pub stat_chunk : Leakage → ℕ → Db → List ℕ → State Db → Key × List ℕ → Run (State Db)
  stat_chunk leakage draw origin exs s (key, value_t) =
      let counted : State Db = record s { total = s.total + 1 } in
      let drawn : State Db = record counted { common = s.common + 1 } in
      first_bytes exs >>= λ plain.
      let leaked : Run (State Db) = elim (get origin plain) [
        | found value_o ↦ ok (leak_chunk drawn key plain value_o value_t)
        | not_found ↦ ok drawn
        | failed ↦ stop exit_1
      ] in
      if leakage.is_zero
      then ok counted
      else if leakage.covers (draw % (2 ^ 31 - 1))
      then leaked
      else ok counted

  unfoldable pub stat_entries :
      Leakage → (ℕ → ℕ) → ℕ → Db → List ℕ → State Db → List (Key × List ℕ) → Run (State Db)
  unfolding plaintext
  stat_entries leakage rand draws origin exs s [] = ok s
  stat_entries leakage rand draws origin exs s (e ∷ es) =
      let exs' = plaintext e.0 exs in
      stat_chunk leakage (rand draws) origin exs' s e >>= λ t.
      stat_entries leakage rand (draws + 1) origin exs' t es

  -- `stat_db`: the chunks of the target store in order.
  unfoldable pub stat_db : Leakage → (ℕ → ℕ) → Stores Db → State Db → Run (State Db)
  unfolding stat_entries stat_chunk leak_chunk
  stat_db leakage rand stores s =
      stat_entries leakage rand 0 stores.origin [] s (entries stores.target)

  -- The test at the fronts of the queues: the ground truth of the ciphertext is the plaintext.
  unfoldable pub judge : State Db → Node → Node → Run (State Db)
  judge s o t = elim (get relate t.key) [
    | found existing_value ↦ first_bytes existing_value >>= λ plain.
        if key_eq o.key plain
        then ok (record s {
          ansq = s.ansq ++ (o ∷ []);
          ansq2 = s.ansq2 ++ (t ∷ []);
          correct = s.correct + 1;
        })
        else ok s
    | not_found ↦ ok s
    | failed ↦ stop exit_1
  ]

module _ (store : LevelDb) (extract : Extract Node) (rand : ℕ → ℕ) where
  open store use {Db}

  -- The stores that `init_db` opens, with `uniq` and `relate`. What is printed are the leaked
  -- chunks, those of them in the auxiliary store, the number of inferences and the plaintexts.
  unfoldable pub main :
      Limits → Leakage → Option (Stores Db × Db × Db) → ℕ → Run (ℕ × ℕ × ℕ × ℕ × List ℕ)
  main limits leakage none fuel = stop assertion
  main limits leakage (some (stores, uniq, relate)) fuel = do
    counted ← stat_db store relate leakage rand stores (globals uniq)
    s ← main_loop store extract limits stores (judge store relate) leakage.is_zero fuel counted
    ok (counted.total, s.common, s.leak, inferences s, print_from_back s.ansq)
