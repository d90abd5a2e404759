-- ===== src/Checks/Attacks.antt =====
-- Counting and ranking on small traces, stores and queues.
use freqanalysis.Common.{
  ℕ, ◌+◌, ◌≤◌, ◌≡◌, ◌≢◌, refl, some, List, [], ◌∷◌, ok, All, Returns, SameItems, total, length, min,
  to_nat, arith,
}
use freqanalysis.Attack.BasicAttack
use freqanalysis.Attack.BasicAttack.Bounded.{IsConsistent, read_dbs-SameItems, insert_node-evicts}
use freqanalysis.Attack.BasicAttack.Inferred.{main-infers}
use freqanalysis.Attack.LocalityAttack.{print_from_back}
use freqanalysis.Attack.BasicAttack.Ranked.{Analysed, fre_analysis-Analysed}
use freqanalysis.Attack.BasicCount
use freqanalysis.Attack.BasicCount.Frequency.{keys_of, occurrences, entry, main-counts}
use freqanalysis.Attack.LocalityCount
use freqanalysis.Attack.LocalityCount.Adjacent.{
  HasFewNeighbours, short-HasFewNeighbours, pairs_of, left_count, right_count,
}
use freqanalysis.Attack.LocalityCount.Tables.{entry_of}
use freqanalysis.Attack.LocalityCount.Counts.{main-counts_neighbours, main-same_frequencies}
use freqanalysis.Attack.Neighbours.Codec.{encode, bump_value-encode}
use freqanalysis.Attack.Neighbours.Table.{IsTable, Table, bump, count, count-bump}
use freqanalysis.Attack.Neighbours.{bump_value}
use freqanalysis.Attack.Ranking.Kept.{Keeps, insert_all-Keeps_most}
use freqanalysis.Attack.Ranking.Sorted.{Paired, drain_pairs-Paired}
use freqanalysis.Attack.Ranking.{Node, entry_nodes, insert_all, drain_pairs}
use freqanalysis.Bytes.{Key, key_eq, store_u64}
use freqanalysis.Checks.Defenses.{trace}
use freqanalysis.Checks.Queues.{
  take_least, take_least-IsPriorityQueue, take_greatest, take_greatest-IsPriorityQueue,
}
use freqanalysis.Checks.Store.{memory, memory-IsSound, lookup}
use freqanalysis.LevelDb.{not_found}
use freqanalysis.Trace.Read.{read_lines}

abbrev pub first_key : Key
first_key = 10 ∷ 27 ∷ 44 ∷ 61 ∷ 78 ∷ 95 ∷ []

abbrev pub second_key : Key
second_key = 0 ∷ 17 ∷ 34 ∷ 51 ∷ 68 ∷ 63 ∷ []

pub trace_keys : keys_of (read_lines trace) ≡ first_key ∷ second_key ∷ first_key ∷ []
unfolding read_lines
trace_keys = refl

pub lookup_empty : (j : Key) → lookup [] j ≡ not_found
unfolding lookup
lookup_empty j = refl

main-counts_example :
    (counted : List (Key × List ℕ)) × (BasicCount.main memory (some (some [])) (some trace)
      ≡ ok counted)
    × ((j : Key) → lookup counted j ≡ entry (occurrences j (keys_of (read_lines trace))))
main-counts_example =
    main-counts memory memory-IsSound [] trace lookup_empty (rw trace_keys (omega arith))

pub trace-HasFewNeighbours : HasFewNeighbours (keys_of (read_lines trace))
trace-HasFewNeighbours =
    short-HasFewNeighbours (keys_of (read_lines trace)) (rw trace_keys (omega arith))

main-counts_neighbours_example :
    (t : LocalityCount.State memory.Db) × (tl : (Key → Table)) × (tr : (Key → Table))
    × (LocalityCount.main memory (some (7 ∷ 0 ∷ [])) 5 (some []) (some []) (some []) (some trace)
        ≡ ok t)
    × ((k : Key) → lookup t.db k ≡ entry (occurrences k (keys_of (read_lines trace))))
    × ((k : Key) → lookup t.store_left k ≡ entry_of (tl k))
    × ((k : Key) → lookup t.store_right k ≡ entry_of (tr k))
    × ((k : Key) → IsTable (tl k) × IsTable (tr k))
    × ((j k : Key) → count j (tl k) ≡ left_count j k (pairs_of (keys_of (read_lines trace))))
    × ((j k : Key) → count j (tr k) ≡ right_count j k (pairs_of (keys_of (read_lines trace))))
main-counts_neighbours_example =
    main-counts_neighbours memory memory-IsSound (7 ∷ 0 ∷ []) 5 [] [] [] trace (omega arith)
      lookup_empty lookup_empty lookup_empty (rw trace_keys (omega arith)) trace-HasFewNeighbours

abbrev neighbours : Table
neighbours = (first_key, 2) ∷ (second_key, 1) ∷ []

neighbours-nonempty : neighbours ≢ []
neighbours-nonempty = λ e. cc

bump_value-encode_example :
    bump_value second_key (encode neighbours) ≡ ok (encode (bump second_key neighbours))
bump_value-encode_example =
    bump_value-encode second_key neighbours neighbours-nonempty (refl, (refl, tt)) (omega arith)

second_counted : count second_key neighbours ≡ 1
unfolding count key_eq
second_counted = refl

count-bump_example :
    count second_key (bump second_key neighbours)
    ≡ count second_key neighbours + to_nat (key_eq second_key second_key)
count-bump_example = count-bump second_key second_key neighbours (rw second_counted (omega arith))

abbrev node_of : Key → ℕ → Node
node_of key n = record { key = key; count = n }

abbrev nodes : List Node
nodes = node_of first_key 7 ∷ node_of second_key 9 ∷ node_of (1 ∷ first_key) 3 ∷ []

insert_all-Keeps_most_example : Returns (insert_all take_least 2 [] nodes) (λ q. Keeps 2 nodes q)
insert_all-Keeps_most_example =
    insert_all-Keeps_most take_least-IsPriorityQueue 2 nodes (omega arith)

abbrev fewer : List Node
fewer = node_of second_key 4 ∷ node_of first_key 2 ∷ []

drain_pairs-Paired_example :
    Returns (drain_pairs take_least (length nodes) nodes fewer []) (Paired nodes fewer)
drain_pairs-Paired_example = drain_pairs-Paired take_least-IsPriorityQueue nodes fewer

fre_analysis-Analysed_example :
    Returns
      (BasicAttack.fre_analysis take_greatest nodes fewer)
      (λ r. Analysed (min (length nodes) (length fewer)) nodes fewer r.0 × (r.1 ≡ length r.0))
fre_analysis-Analysed_example = fre_analysis-Analysed take_greatest-IsPriorityQueue nodes fewer

abbrev counted_store : List (Key × List ℕ)
counted_store = (first_key, store_u64 2) ∷ (second_key, store_u64 1) ∷ []

read_dbs-SameItems_example :
    Returns
      (BasicAttack.read_dbs take_greatest memory 5 counted_store)
      (λ q. SameItems q (entry_nodes counted_store))
unfolding lookup key_eq
read_dbs-SameItems_example =
    read_dbs-SameItems take_greatest-IsPriorityQueue memory counted_store 5 (refl, (refl, tt))
      (omega arith)

insert_node-evicts_example :
    Returns (BasicAttack.insert_node take_greatest 2 fewer (node_of (1 ∷ first_key) 8)) λ q.
      (lost : Node) × ((w : Node → ℕ)
        → total w q + w lost ≡ total w fewer + w (node_of (1 ∷ first_key) 8))
      × All (λ z. z.count ≤ lost.count) fewer
insert_node-evicts_example =
    insert_node-evicts take_greatest-IsPriorityQueue 2 4 (node_of second_key 4)
      (node_of first_key 2 ∷ []) (node_of (1 ∷ first_key) 8) (omega arith)
      (omega arith, (omega arith, tt)) (omega arith)

counted_store-IsConsistent : IsConsistent memory counted_store counted_store
unfolding lookup key_eq
counted_store-IsConsistent = (refl, (refl, tt))

main-infers_example :
    (training target answers : List Node) × (BasicAttack.main take_greatest memory
        (some counted_store)
        (some counted_store)
      ≡ ok (length counted_store, length answers, print_from_back answers))
    × SameItems training (entry_nodes counted_store)
    × SameItems target (entry_nodes counted_store)
    × Analysed (min (length counted_store) (length counted_store)) training target answers
main-infers_example =
    main-infers take_greatest-IsPriorityQueue memory counted_store counted_store
      counted_store-IsConsistent counted_store-IsConsistent (omega arith) (omega arith)

main-same_frequencies_example :
    (t : LocalityCount.State memory.Db) × (LocalityCount.main memory
        (some (7 ∷ 0 ∷ []))
        5
        (some [])
        (some [])
        (some [])
        (some trace)
      ≡ ok t)
    × (BasicCount.main memory (some (some [])) (some trace) ≡ ok t.db)
main-same_frequencies_example =
    main-same_frequencies memory memory-IsSound (7 ∷ 0 ∷ []) 5 [] [] [] trace (omega arith)
      lookup_empty lookup_empty trace-HasFewNeighbours
