-- ===== src/Checks/Inferences.antt =====
-- The locality-based attack on stores of two chunks.
use freqanalysis.Common.{
  All, ◌-◌, ℕ, ◌+◌, ◌%◌, ◌≤◌, ◌≡◌, refl, true, false, some, List, [], ◌∷◌, ◌⊎◌, inl, inr,
  Bool-cases, ok, Returns, length, arith,
}
use freqanalysis.Attack.GroundTruthAttack
use freqanalysis.Attack.GroundTruthAttack.Leaked
use freqanalysis.Attack.GroundTruthAttack.Counted.{IsTruth, main-ends_truth}
use freqanalysis.Attack.GroundTruthAttack.Leaked.{IsKnown, stat_db-AreTrue}
use freqanalysis.Attack.Inference.Ends.{main_loop-Ends}
use freqanalysis.Attack.Inference.Loop.{IsNeighbours, AreNeighbours, Names, Rounds, round-Rounds}
use freqanalysis.Attack.Inference.Records.{nodes_of, insert_records-encode}
use freqanalysis.Attack.Inference.{Limits, Stores, State, round, main_loop}
use freqanalysis.Attack.LocalityAttack
use freqanalysis.Attack.LocalityAttack.Counted.{judge-IsJudge, main-ends}
use freqanalysis.Attack.LocalityAttack.Leaked.{IsLeaked, stat_db-IsLeaked}
use freqanalysis.Attack.LocalityAttack.{Leakage, globals, judge, stat_db, print_from_back}
use freqanalysis.Attack.Neighbours.Codec.{encode}
use freqanalysis.Attack.Neighbours.Table.{Table}
use freqanalysis.Attack.Ranking.{Node, insert_records, insert_all}
use freqanalysis.Bytes.{Key, key_eq, u64, store_u64}
use freqanalysis.Checks.Queues.{take_least, take_least-IsPriorityQueue}
use freqanalysis.LevelDb.{found}
use freqanalysis.Checks.Store.{memory, memory-IsSound, lookup}

abbrev one_key : Key
one_key = 1 ∷ 2 ∷ 3 ∷ 4 ∷ 5 ∷ 6 ∷ []

abbrev other_key : Key
other_key = 9 ∷ 8 ∷ 7 ∷ 6 ∷ 5 ∷ 4 ∷ []

abbrev universe : List Key
universe = one_key ∷ other_key ∷ []

abbrev other_table : Table
other_table = (other_key, 3) ∷ []

abbrev one_entry : List (Key × List ℕ)
one_entry = (one_key, encode other_table) ∷ []

abbrev frequencies : List (Key × List ℕ)
frequencies = (one_key, store_u64 5) ∷ (other_key, store_u64 2) ∷ []

abbrev stores : Stores memory.Db
stores = record {
  origin = frequencies;
  left_o = [];
  right_o = one_entry;
  target = frequencies;
  left_t = [];
  right_t = one_entry;
}

abbrev pub limits : Limits
limits = record { init = 1; th_k = 2; queue_limit = 10 }

abbrev pub leakage : Leakage
leakage = record { is_zero = false; covers = λ n. true }

other_table-Names : Names universe other_table
unfolding key_eq
other_table-Names = (refl, tt)

one_entry-IsNeighbours : IsNeighbours memory universe one_entry
unfolding lookup
one_entry-IsNeighbours k = elim (Bool-cases (key_eq one_key k)) [
  | inl same ↦ inr (other_table, rw same refl, (refl, tt), (omega arith, tt), other_table-Names)
  | inr different ↦ inl (rw different refl)
]

empty-IsNeighbours : IsNeighbours memory universe []
unfolding lookup
empty-IsNeighbours k = inl refl

stores-AreNeighbours : AreNeighbours memory universe stores
stores-AreNeighbours = record {
  left_o = empty-IsNeighbours;
  right_o = one_entry-IsNeighbours;
  left_t = empty-IsNeighbours;
  right_t = one_entry-IsNeighbours;
}

abbrev pub zeros : ℕ → ℕ
zeros n = 0

main-ends_example :
    (answers : List Node) × (missing : ℕ) × (LocalityAttack.main memory take_least zeros limits
        leakage
        (some (stores, []))
        5
      ≡ ok (length frequencies, (length answers + missing) % u64, print_from_back answers))
    × (missing ≤ 2)
main-ends_example =
    main-ends memory memory-IsSound take_least-IsPriorityQueue zeros universe limits stores
      stores-AreNeighbours leakage [] 5 (omega arith) (omega arith) (omega arith) (omega arith)

abbrev ready : State memory.Db
ready = globals []

main_loop-Ends_example :
    Returns (main_loop memory take_least limits stores judge true 3 ready) (λ t.
      ((t.q_o ≡ []) ⊎ (t.q_t ≡ []))
      × (t.involve ≤ 3)
      × (t.correct ≡ length t.ansq)
      × (t.common ≡ 0)
      × (t.leak ≡ 0))
main_loop-Ends_example =
    main_loop-Ends memory memory-IsSound take_least-IsPriorityQueue universe limits stores
      (omega arith) stores-AreNeighbours judge-IsJudge true 3 ready (omega arith) (omega arith) refl

abbrev one_node : Node
one_node = record { key = one_key; count = 5 }

abbrev queued : State memory.Db
queued = record ready { q_o = one_node ∷ []; q_t = one_node ∷ [] }

round-Rounds_example :
    Returns (round memory take_least limits stores judge queued one_node one_node) (
      Rounds memory memory-IsSound take_least-IsPriorityQueue universe limits stores
        (omega arith)
        stores-AreNeighbours
        queued)
round-Rounds_example =
    round-Rounds memory memory-IsSound take_least-IsPriorityQueue universe limits stores
      (omega arith) stores-AreNeighbours judge-IsJudge queued one_node one_node (omega arith)
      (omega arith)

stat_db-IsLeaked_example :
    Returns
      (stat_db memory leakage zeros stores (globals []))
      (λ t. IsLeaked t × (t.total ≡ length frequencies))
stat_db-IsLeaked_example = stat_db-IsLeaked memory memory-IsSound leakage zeros stores []

insert_records-encode_example :
    insert_records take_least 3 2 [] (encode other_table)
    ≡ insert_all take_least 2 [] (nodes_of other_table)
insert_records-encode_example =
    insert_records-encode take_least 3 2 [] other_table (omega arith) (refl, tt) (omega arith, tt)

-- A ground truth for ciphertexts that are their own plaintexts.
abbrev truths : List (Key × List ℕ)
truths = (one_key, one_key) ∷ (other_key, other_key) ∷ []

truths-IsTruth : IsTruth memory memory-IsSound truths
unfolding lookup
truths-IsTruth k = elim (Bool-cases (key_eq one_key k)) [
  | inl first ↦ inr (one_key, rw first refl, refl)
  | inr different ↦ elim (Bool-cases (key_eq other_key k)) [
    | inl second ↦ inr (other_key, rw (different, second) refl, refl)
    | inr missing ↦ inl (rw (different, missing) refl)
  ]
]

frequencies-IsKnown : All (IsKnown memory memory-IsSound truths) frequencies
unfolding lookup key_eq
frequencies-IsKnown = ((refl, one_key, refl, refl), ((refl, other_key, refl, refl), tt))

main-ends_truth_example :
    (answers : List Node) × (common : ℕ) × (leak : ℕ) × (GroundTruthAttack.main memory take_least
        zeros limits leakage
        (some (stores, [], truths))
        5
      ≡ ok (
        length frequencies,
        common,
        leak,
        (length answers + (common - leak)) % u64,
        print_from_back answers,
      ))
    × (leak ≤ common)
    × (common ≤ 2)
    × All (λ a. (cipher : Key) × (lookup truths cipher ≡ found a.key)) answers
main-ends_truth_example =
    main-ends_truth memory memory-IsSound truths truths-IsTruth take_least-IsPriorityQueue zeros
      universe limits stores stores-AreNeighbours leakage [] 5 frequencies-IsKnown (omega arith)
      (omega arith) (omega arith) (omega arith)

stat_db-AreTrue_example :
    Returns
      (GroundTruthAttack.stat_db memory truths leakage zeros stores (globals []))
      (λ t. Leaked.IsLeaked memory memory-IsSound truths t × (t.total ≡ length frequencies))
stat_db-AreTrue_example =
    stat_db-AreTrue memory memory-IsSound truths leakage zeros stores [] frequencies-IsKnown
