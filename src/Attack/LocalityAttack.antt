-- ===== src/Attack/LocalityAttack.antt =====
-- attack/locality/locality_attack.cc: the inference when ciphertexts are compared by their plaintext
-- fingerprints (deterministic encryption; defense/scrambling has the same file).
pub mod Leaked
pub mod Counted
use freqanalysis.Common.{
  ℕ, zero, suc, ◌+◌, ◌-◌, ◌%◌, ◌^◌, Option, none, some, List, [], ◌∷◌, ◌++◌, Bool, true, false,
  if◌then◌else◌, take, Run, ok, stop, exit_1, assertion, ◌>>=◌,
}
use freqanalysis.Attack.Inference.{Limits, Stores, State, mark, main_loop}
use freqanalysis.Attack.Ranking.{Node}
use freqanalysis.Bytes.{Key, u64, fp_size, key_eq, load_u64}
use freqanalysis.LevelDb.{LevelDb, Got, found, not_found, failed}
use freqanalysis.PriorityQueue.{Extract}
use freqanalysis.Trace.Print.{print_key}
use freqanalysis.Trace.Text.{atoi, int_to_u64}

-- `LEAK_RATE` is a `double`: the program uses only whether it is 0, and whether a draw below 10000
-- is at most `LEAK_RATE*10000`.
pub record Leakage : Type 0 where
  pub is_zero : Bool
  pub covers : ℕ → Bool

-- `correct + common - leak`, as `uint64_t`
abbrev pub inferences : {Db : Type 0} → State Db → ℕ
inferences s = (s.correct + s.common + (u64 - s.leak)) % u64

-- The chunks of `ansq` are printed from the back, a fingerprint on each line.
unfoldable pub print_from_back : List Node → List ℕ
unfolding print_key
print_from_back [] = []
print_from_back (x ∷ xs) = print_from_back xs ++ (print_key x.key ++ (10 ∷ []))

module _ (store : LevelDb) where
  open store use {Db, get, put, entries}

  -- A leaked chunk that is in the auxiliary store enters the inferred set on both sides.
  unfoldable pub leak_chunk : State Db → Key → List ℕ → List ℕ → State Db
  unfolding mark
  leak_chunk s key value_o value_t =
      let entry_o : Node = record { key = take fp_size key; count = load_u64 value_o } in
      let entry_t : Node = record { key = take fp_size key; count = load_u64 value_t } in
      record s {
        q_o = s.q_o ++ (entry_o ∷ []);
        uniq = mark store s.uniq entry_t;
        q_t = s.q_t ++ (entry_t ∷ []);
        leak = s.leak + 1;
      }

  -- One round of the loop of `stat_db`, with the draw that it makes if `LEAK_RATE` is not 0.
  unfoldable pub stat_chunk : Leakage → ℕ → Db → State Db → Key × List ℕ → Run (State Db)
  stat_chunk leakage draw origin s (key, value_t) =
      let counted : State Db = record s { total = s.total + 1 } in
      let drawn : State Db = record counted { common = s.common + 1 } in
      let leaked : Run (State Db) = elim (get origin key) [
        | found value_o ↦ ok (leak_chunk drawn key value_o value_t)
        | not_found ↦ ok drawn
        | failed ↦ stop exit_1
      ] in
      if leakage.is_zero
      then ok counted
      else if leakage.covers (draw % 10000)
      then leaked
      else ok counted

  unfoldable pub stat_entries :
      Leakage → (ℕ → ℕ) → ℕ → Db → State Db → List (Key × List ℕ) → Run (State Db)
  stat_entries leakage rand draws origin s [] = ok s
  stat_entries leakage rand draws origin s (e ∷ es) =
      stat_chunk leakage (rand draws) origin s e >>= λ t.
      stat_entries leakage rand (draws + 1) origin t es

  -- `stat_db`: the chunks of the target store in order. (The draw `rand draws` of a round is left
  -- out of the program when `LEAK_RATE` is 0, and then no draw is used.)
  unfoldable pub stat_db : Leakage → (ℕ → ℕ) → Stores Db → State Db → Run (State Db)
  unfolding stat_entries stat_chunk leak_chunk
  stat_db leakage rand stores s =
      stat_entries leakage rand 0 stores.origin s (entries stores.target)

-- The test at the fronts of the queues.
unfoldable pub judge : {Db : Type 0} → State Db → Node → Node → Run (State Db)
judge s o t =
    if key_eq o.key t.key
    then ok (record s { ansq = s.ansq ++ (o ∷ []); correct = s.correct + 1 })
    else ok s

-- The globals before `main`.
abbrev pub globals : {Db : Type 0} → Db → State Db
globals uniq = record {
  q_o = [];
  q_t = [];
  uniq = uniq;
  ansq = [];
  ansq2 = [];
  total = 0;
  common = 0;
  correct = 0;
  involve = 0;
  leak = 0;
}

-- `INIT`, `TH_K` and `QUEUE_LIMIT` from the arguments
unfoldable pub limits_of : List ℕ → List ℕ → List ℕ → Limits
limits_of u v w = record {
  init = int_to_u64 (atoi u);
  th_k = int_to_u64 (atoi v);
  queue_limit = int_to_u64 (atoi w);
}

module _ (store : LevelDb) (extract : Extract Node) (rand : ℕ → ℕ) where
  open store use {Db}

  -- The stores that `init_db` opens, with `uniq`; a store that does not open fails an `assert`.
  -- What is printed are the number of ciphertexts, that of inferences, and the chunks.
  unfoldable pub main : Limits → Leakage → Option (Stores Db × Db) → ℕ → Run (ℕ × ℕ × List ℕ)
  main limits leakage none fuel = stop assertion
  main limits leakage (some (stores, uniq)) fuel = do
    counted ← stat_db store leakage rand stores (globals uniq)
    s ← main_loop store extract limits stores judge leakage.is_zero fuel counted
    ok (counted.total, inferences s, print_from_back s.ansq)
