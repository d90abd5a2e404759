-- ===== src/Attack/Pipeline/Attacked.antt =====
-- The locality-based attack on the stores of two counted traces.
use freqanalysis.Common.{
  ℕ, ◌+◌, ◌*◌, ◌%◌, ◌<◌, ◌≤◌, ◌≡◌, ap, ◌∙◌, some, List, ◌++◌, length, length-append, ok, Returns,
  arith,
}
use freqanalysis.Attack.BasicCount.Frequency.{keys_of, occurrences, entry, read_hashes-entry}
use freqanalysis.Attack.Inference.Loop.{IsNeighbours, AreNeighbours}
use freqanalysis.Attack.Inference.{Limits, Stores}
use freqanalysis.Attack.LocalityAttack
use freqanalysis.Attack.LocalityAttack.Counted.{main-ends}
use freqanalysis.Attack.LocalityAttack.{Leakage, print_from_back}
use freqanalysis.Attack.LocalityCount
use freqanalysis.Attack.LocalityCount.Adjacent.{
  pairs_of, left_events, right_events, HasFewNeighbours,
}
use freqanalysis.Attack.LocalityCount.Counts.{IsEmpty, main-Counted}
use freqanalysis.Attack.LocalityCount.{State}
use freqanalysis.Attack.Pipeline.Listed.{length-entries_counted}
use freqanalysis.Attack.Pipeline.Named.{
  names_of, length-names_of, AllNamed, names_of-AllNamed, AllNamed-before, AllNamed-after,
  left_tables-AreNamed, right_tables-AreNamed, tables_of-IsNeighbours,
}
use freqanalysis.Attack.Ranking.{Node, OnTop}
use freqanalysis.Bytes.{Key, u64}
use freqanalysis.LevelDb.{LevelDb, IsSound, IsListed}
use freqanalysis.PriorityQueue.{Extract, IsPriorityQueue}
use freqanalysis.Trace.Read.{read_lines}

-- The fingerprints of a trace file.
abbrev pub trace_keys : List ℕ → List Key
trace_keys file = keys_of (read_lines file)

-- The stores of the auxiliary trace and of the target trace, as the attacks open them.
abbrev pub stores_of : {Db : Type 0} → State Db → State Db → Stores Db
stores_of origin target = record {
  origin = origin.db;
  left_o = origin.store_left;
  right_o = origin.store_right;
  target = target.db;
  left_t = target.store_left;
  right_t = target.store_right;
}

module _ (store : LevelDb) (sound : IsSound store) (empty : store.Db)
    (none : IsEmpty store sound empty) (behind : List ℕ) where
  open store use {Db, get, entries}

  -- The stores that a trace leaves.
  pub record IsCounted (file : List ℕ) (t : State Db) : Type 0 where
    pub frequency : (k : Key) → get t.db k ≡ entry (occurrences k (trace_keys file))
    pub left :
        (universe : List Key)
        → AllNamed universe (trace_keys file)
        → IsNeighbours store universe t.store_left
    pub right :
        (universe : List Key)
        → AllNamed universe (trace_keys file)
        → IsNeighbours store universe t.store_right

  pub main-IsCounted :
      (file : List ℕ)
      → length (trace_keys file) < u64
      → HasFewNeighbours (trace_keys file)
      → Returns
          (LocalityCount.main store
            (some behind)
            5
            (some empty)
            (some empty)
            (some empty)
            (some file))
          (IsCounted file)
  main-IsCounted file few names =
      let ks = trace_keys file in
      let (t, run, c) =
        main-Counted store sound behind 5 empty empty empty file (omega arith) none none names in
      (
        t,
        run,
        record {
          frequency = λ k.
              ap (λ d. get d k) c.frequencies
              ∙ read_hashes-entry store sound (read_lines file) empty k 0 (none k)
                  (omega (arith, few))
              ∙ ap entry (omega arith);
          left = λ universe known.
              tables_of-IsNeighbours store sound universe (left_events (pairs_of ks)) t.store_left
                (left_tables-AreNamed universe ks known) c.left;
          right = λ universe known.
              tables_of-IsNeighbours store sound universe (right_events (pairs_of ks)) t.store_right
                (right_tables-AreNamed universe ks known) c.right;
        },
      )

  pub counted-AreNeighbours :
      (file_o file_t : List ℕ) (o t : State Db)
      → IsCounted file_o o
      → IsCounted file_t t
      → AreNeighbours store
          (names_of (trace_keys file_o) ++ names_of (trace_keys file_t))
          (stores_of o t)
  counted-AreNeighbours file_o file_t o t c d =
      let ks = trace_keys file_o in
      let js = trace_keys file_t in
      let universe = names_of ks ++ names_of js in
      let known_o = AllNamed-after (names_of ks) (names_of js) ks (names_of-AllNamed ks) in
      let known_t = AllNamed-before (names_of ks) (names_of js) js (names_of-AllNamed js) in
      record {
        left_o = c.left universe known_o;
        right_o = c.right universe known_o;
        left_t = d.left universe known_t;
        right_t = d.right universe known_t;
      }

  module _ (listed : IsListed store) {extract : Extract Node}
      (queue : IsPriorityQueue OnTop extract) (rand : ℕ → ℕ) (limits : Limits) where
    -- From an auxiliary trace and a target trace of fewer than 2 ^ 64 chunks each, in which no
    -- fingerprint has more than 153391689 different neighbours before or behind it, with `INIT` and
    -- `TH_K` above 0, fuel for the chunks of the auxiliary trace, twice those of the target and
    -- `INIT`, a store without errors whose iterator visits each key once, and empty stores,
    -- `locality_count` of both traces, where the bytes behind its arrays can be read, and then the
    -- locality-based attack on their stores end normally; the attack prints the number of the
    -- ciphertexts in the store, its answers, and their number plus, modulo 2 ^ 64, a number that is
    -- at most that of the target's chunks.
    pub main-attacks_traces :
        (leakage : Leakage) (uniq : Db) (file_o file_t : List ℕ) (fuel : ℕ)
        → length (trace_keys file_o) < u64
        → length (trace_keys file_t) < u64
        → HasFewNeighbours (trace_keys file_o)
        → HasFewNeighbours (trace_keys file_t)
        → 0 < limits.th_k
        → 0 < limits.init
        → length (trace_keys file_o) + 2 * length (trace_keys file_t) + limits.init ≤ fuel
        → (o : State Db) × (t : State Db) × (answers : List Node) × (missing : ℕ)
          × (LocalityCount.main store
                (some behind)
                5
                (some empty)
                (some empty)
                (some empty)
                (some file_o)
              ≡ ok o)
          × (LocalityCount.main store
                (some behind)
                5
                (some empty)
                (some empty)
                (some empty)
                (some file_t)
              ≡ ok t)
          × (LocalityAttack.main store extract rand limits leakage (some (stores_of o t, uniq)) fuel
              ≡ ok (
                length (entries t.db),
                (length answers + missing) % u64,
                print_from_back answers,
              ))
          × (missing ≤ length (trace_keys file_t))
    main-attacks_traces leakage uniq file_o file_t fuel few_o few_t names_o names_t pos some_init
          enough =
        let ks = trace_keys file_o in
        let js = trace_keys file_t in
        let universe = names_of ks ++ names_of js in
        let (o, run_o, c) = main-IsCounted file_o few_o names_o in
        let (t, run_t, d) = main-IsCounted file_t few_t names_t in
        let size = length-entries_counted store sound listed t.db js d.frequency in
        let known : length universe ≡ length ks + length js = omega (
          arith,
          length-append (names_of ks) (names_of js),
          length-names_of ks,
          length-names_of js,
        ) in
        let (answers, missing, run, le) =
          main-ends store sound queue rand universe limits (stores_of o t)
            (counted-AreNeighbours file_o file_t o t c d) leakage uniq fuel pos some_init
            (omega (arith, known, size)) (omega (arith, size)) in
        (o, t, answers, missing, run_o, run_t, run, omega (arith, size))
