-- ===== src/Attack/Pipeline/Encrypted.antt =====
-- The attack on the stores of an auxiliary trace and of a trace that a defense encrypted.
use freqanalysis.Common.{
  ◌^◌, ℕ, ◌+◌, ◌*◌, ◌-◌, ◌%◌, ◌<◌, ◌≤◌, ◌≡◌, ap, ◌∙◌, sym, true, some, List, [], ◌∷◌, ◌++◌, length,
  length-append, All, ok, arith,
}
use freqanalysis.Attack.GroundTruthAttack
use freqanalysis.Attack.GroundTruthAttack.Counted.{IsAnswer, main-ends_truth}
use freqanalysis.Attack.GroundTruthAttack.Leaked.{IsKnown}
use freqanalysis.Attack.Inference.Universe.{is_in}
use freqanalysis.Attack.Inference.{Limits}
use freqanalysis.Attack.LocalityAttack.{Leakage, print_from_back}
use freqanalysis.Attack.LocalityCount
use freqanalysis.Attack.LocalityCount.Counts.{IsEmpty}
use freqanalysis.Attack.LocalityCount.Adjacent.{HasFewNeighbours, short-HasFewNeighbours}
use freqanalysis.Attack.LocalityCount.{State}
use freqanalysis.Attack.Neighbours.{record_size}
use freqanalysis.Attack.Pipeline.Attacked.{
  trace_keys, stores_of, main-IsCounted, counted-AreNeighbours,
}
use freqanalysis.Attack.Pipeline.CipherTrace.{IsCipherTrace}
use freqanalysis.Attack.Pipeline.Listed.{length-entries_counted, entries-in}
use freqanalysis.Attack.Pipeline.Named.{names_of, length-names_of}
use freqanalysis.Attack.Pipeline.Truth.{found-IsPlain}
use freqanalysis.Attack.Ranking.{Node, OnTop}
use freqanalysis.Bytes.{Key, u64}
use freqanalysis.Defense.Hashing.Progress.{cipher}
use freqanalysis.LevelDb.{LevelDb, IsSound, IsListed, is_found, found}
use freqanalysis.PriorityQueue.{Extract, IsPriorityQueue}

module _ (store : LevelDb) (sound : IsSound store) (listed : IsListed store) (empty : store.Db)
    (none : IsEmpty store sound empty) (behind : List ℕ) {extract : Extract Node}
    (queue : IsPriorityQueue OnTop extract) (rand : ℕ → ℕ) (limits : Limits) where
  open store use {Db, get, entries}

  -- The ciphertexts of the counted trace are known.
  All-IsKnown :
      (out : List ℕ) (truth : Db) (n : ℕ) (es : List (Key × List ℕ))
      → IsCipherTrace store out truth n
      → All (λ e. is_in (trace_keys out) e.0 ≡ true) es
      → All (IsKnown store sound truth) es
  All-IsKnown out truth n [] c h = tt
  All-IsKnown out truth n ((k, v) ∷ es) c h =
      let (plain, there, size) = found-IsPlain (get truth k) (c.plain k) (c.known k ∙ h.0) in
      ((c.size k h.0, plain, there, size), All-IsKnown out truth n es c h.1)

  -- The plaintext that the ground truth gives for a ciphertext of the trace.
  abbrev pub IsPlaintext : List ℕ → Db → Node → Type 0
  IsPlaintext out truth a =
      (cipher : Key) × (is_in (trace_keys out) cipher ≡ true) × (get truth cipher ≡ found a.key)

  All-IsPlaintext :
      (out : List ℕ) (truth : Db) (n : ℕ) (answers : List Node)
      (c : IsCipherTrace store out truth n)
      → All (IsAnswer store sound truth c.plain) answers
      → All (IsPlaintext out truth) answers
  All-IsPlaintext out truth n [] c h = tt
  All-IsPlaintext out truth n (a ∷ as') c h =
      let (cipher, there) = h.0 in
      (
        (cipher, sym (c.known cipher) ∙ ap is_found there, there),
        All-IsPlaintext out truth n as' c h.1,
      )

  -- The attack on an auxiliary trace and an encrypted one.
  pub record Experiment (leakage : Leakage) (uniq : Db) (file_o out : List ℕ) (truth : Db)
      (fuel n : ℕ) : Type 0 where
    pub o : State Db
    pub t : State Db
    pub answers : List Node
    pub common : ℕ
    pub leak : ℕ
    pub count_o :
        LocalityCount.main store
          (some behind)
          5
          (some empty)
          (some empty)
          (some empty)
          (some file_o)
        ≡ ok o
    pub count_t :
        LocalityCount.main store (some behind) 5 (some empty) (some empty) (some empty) (some out)
        ≡ ok t
    pub attack :
        GroundTruthAttack.main store extract rand limits leakage
          (some (stores_of o t, uniq, truth))
          fuel
        ≡ ok (
          length (entries t.db),
          common,
          leak,
          (length answers + (common - leak)) % u64,
          print_from_back answers,
        )
    pub leak-le : leak ≤ common
    pub common-le : common ≤ n
    pub true_answers : All (IsPlaintext out truth) answers

  pub attacks_cipher_trace :
      (leakage : Leakage) (uniq : Db) (file_o out : List ℕ) (truth : Db) (fuel n : ℕ)
      → IsCipherTrace store out truth n
      → length (trace_keys file_o) < u64
      → HasFewNeighbours (trace_keys file_o)
      → record_size * n < 2 ^ 31
      → 0 < limits.th_k
      → 0 < limits.init
      → length (trace_keys file_o) + 2 * n + limits.init ≤ fuel
      → Experiment leakage uniq file_o out truth fuel n
  attacks_cipher_trace leakage uniq file_o out truth fuel n c few_o names_o few_t pos some_init
        enough =
      let ks = trace_keys file_o in
      let js = trace_keys out in
      let universe = names_of ks ++ names_of js in
      let (o, run_o, d) = main-IsCounted store sound empty none behind file_o few_o names_o in
      let (t, run_t, e) =
        main-IsCounted store sound empty none behind out (omega (arith, c.number, few_t))
          (short-HasFewNeighbours js (omega (arith, c.number, few_t))) in
      let size = length-entries_counted store sound listed t.db js e.frequency in
      let known : length universe ≡ length ks + n = omega (
        arith,
        length-append (names_of ks) (names_of js),
        length-names_of ks,
        length-names_of js,
        c.number,
      ) in
      let (answers, common, leak, run, le, le', plain) =
        main-ends_truth store sound truth c.plain queue rand universe limits (stores_of o t)
          (counted-AreNeighbours store sound empty none behind file_o out o t d e) leakage uniq fuel
          (All-IsKnown out truth n (entries t.db) c
            (entries-in store sound listed t.db js e.frequency))
          pos some_init (omega (arith, known, size, c.number)) (omega (arith, size, c.number)) in
      record {
        o = o;
        t = t;
        answers = answers;
        common = common;
        leak = leak;
        count_o = run_o;
        count_t = run_t;
        attack = run;
        leak-le = le;
        common-le = omega (arith, size, c.number);
        true_answers = All-IsPlaintext out truth n answers c plain;
      }
