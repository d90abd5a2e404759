-- ===== src/Attack/LocalityAttack/Counted.antt =====
-- The whole locality-based attack: it ends, and what it prints are its answers.
use freqanalysis.Common.{
  ℕ, ◌+◌, ◌-◌, ◌%◌, ◌≤◌, ◌<◌, ◌≡◌, refl, some, List, [], ◌∷◌, ◌++◌, length, length-append, Run, ok,
  ◌>>=◌, Bool-cases, inl, inr, arith,
}
use freqanalysis.Attack.Inference.Ends.{main_loop-Ends}
use freqanalysis.Attack.Inference.Loop.{AreNeighbours, IsJudge}
use freqanalysis.Attack.Inference.Universe.{IsTallied}
use freqanalysis.Attack.Inference.{Limits, Stores, State}
use freqanalysis.Attack.LocalityAttack.Leaked.{stat_db-IsLeaked}
use freqanalysis.Attack.LocalityAttack.{Leakage, judge, inferences, print_from_back, main}
use freqanalysis.Attack.Ranking.{Node, OnTop}
use freqanalysis.Bytes.{Key, key_eq, u64}
use freqanalysis.LevelDb.{LevelDb, IsSound}
use freqanalysis.PriorityQueue.{Extract, IsPriorityQueue}

abbrev printed : ℕ → ℕ → List ℕ → Run (ℕ × ℕ × List ℕ)
printed total n text = ok (total, n, text)

same_output :
    {a a' n n' : ℕ} (text : List ℕ) → a ≡ a' → n ≡ n' → printed a n text ≡ printed a' n' text
same_output text e f = rw (e, f) refl

judge-tally :
    {Db : Type 0} (s s' : State Db) (o t : Node)
    → judge s o t ≡ ok s'
    → IsTallied s
    → IsTallied s' × (s'.common ≡ s.common) × (s'.leak ≡ s.leak)
unfolding judge
judge-tally s s' o t run h = ground (arith, length-append s.ansq (o ∷ []))

pub judge-IsJudge : {Db : Type 0} → IsJudge {Db = Db} judge
unfolding judge
judge-IsJudge = record {
  judges = λ s o t. elim (Bool-cases (key_eq o.key t.key)) [
    | inl same ↦ (
      record s { ansq = s.ansq ++ (o ∷ []); correct = s.correct + 1 },
      rw same,
      (refl, refl, refl, refl),
    )
    | inr other ↦ (s, rw other, (refl, refl, refl, refl))
  ];
  tallies = judge-tally;
}

module _ (store : LevelDb) (sound : IsSound store) {extract : Extract Node}
    (queue : IsPriorityQueue OnTop extract) (rand : ℕ → ℕ) (universe : List Key) (limits : Limits)
    (stores : Stores store.Db) (ns : AreNeighbours store universe stores) where
  open store use {Db, entries}

  -- With neighbour stores as `locality_count` leaves them, `INIT` and `TH_K` above 0, fewer than 2
  -- ^ 64 ciphertexts, and fuel for the universe of fingerprints that these stores name, `INIT` and
  -- the ciphertexts of the target store, the locality-based attack ends normally. It prints the
  -- number of the ciphertexts, its answers, and their number plus, modulo 2 ^ 64, a number that is
  -- at most that of the ciphertexts.
  pub main-ends :
      (leakage : Leakage) (uniq : Db) (fuel : ℕ)
      → 0 < limits.th_k
      → 0 < limits.init
      → length universe + (limits.init + length (entries stores.target)) ≤ fuel
      → length (entries stores.target) < u64
      → (answers : List Node) × (missing : ℕ) × (main store extract rand limits leakage
            (some (stores, uniq))
            fuel
          ≡ ok (
            length (entries stores.target),
            (length answers + missing) % u64,
            print_from_back answers,
          ))
        × (missing ≤ length (entries stores.target))
  unfolding main
  main-ends leakage uniq fuel pos some_init enough few =
      let (s, run, (h, all)) = stat_db-IsLeaked store sound leakage rand stores uniq in
      let size : length s.q_t ≤ length (entries stores.target) =
        omega (arith, h.size_t, h.leak-le, h.common-le, all) in
      let (t, rest, (empty, rounds, correct, common, leak)) =
        main_loop-Ends store sound queue universe limits stores pos ns judge-IsJudge leakage.is_zero
          fuel s some_init (omega arith) h.zero_correct in
      let number : inferences t ≡ (length t.ansq + (s.common - s.leak)) % u64 =
        omega (arith, correct, common, leak, h.leak-le, h.common-le, all, few) in
      (
        t.ansq,
        s.common - s.leak,
        rw (run, ◌>>=◌, rest) (same_output (print_from_back t.ansq) all number),
        omega (arith, h.common-le, all),
      )
