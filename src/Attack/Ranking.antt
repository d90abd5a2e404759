-- ===== src/Attack/Ranking.antt =====
-- Ranking chunks by frequency: the bounded `priority_queue` that keeps the most frequent ones, and
-- the stacks that turn its order round (attack/locality/locality_attack.cc).
pub mod Kept
pub mod Sorted
use freqanalysis.Common.{
  ℕ, zero, suc, ◌+◌, ◌≤◌, List, [], ◌∷◌, ltb, if◌then◌else◌, length, take, drop, Run, ok, stop,
  exit_1, ◌>>=◌, Bool, true, false,
}
use freqanalysis.Attack.Neighbours.{record_size}
use freqanalysis.Bytes.{Key, fp_size, load_u64}
use freqanalysis.LevelDb.{LevelDb, Got, found, not_found, failed}
use freqanalysis.PriorityQueue.{Extract, pop_top}

-- `struct node`
pub record Node : Type 0 where
  pub key : Key
  pub count : ℕ

abbrev pub count_of : Node → ℕ
count_of x = x.count

-- `cmp` orders by `a.count > b.count`: the least frequent node is on top.
abbrev pub OnTop : Node → Node → Type 0
OnTop y x = y.count ≤ x.count

-- The nodes that an iterator over a frequency store gives.
unfoldable pub entry_nodes : List (Key × List ℕ) → List Node
entry_nodes [] = []
entry_nodes ((k, v) ∷ es) = record { key = take fp_size k; count = load_u64 v } ∷ entry_nodes es

module _ (extract : Extract Node) where
  -- One node into a queue of at most `k`: it replaces the top if its count is greater.
  unfoldable pub insert_top : ℕ → List Node → Node → Run (List Node)
  unfolding pop_top
  insert_top k pq entry =
      let full = (do
        t ← pop_top extract pq
        if ltb t.0.count entry.count then ok (entry ∷ t.1) else ok pq) in
      if ltb (length pq) k then ok (entry ∷ pq) else full

  unfoldable pub insert_all : ℕ → List Node → List Node → Run (List Node)
  insert_all k pq [] = ok pq
  insert_all k pq (e ∷ es) = insert_top k pq e >>= λ q. insert_all k q es

  -- The loop `while (len < existing_value.size())` over a value's records, from the bytes left.
  unfoldable pub insert_records : ℕ → ℕ → List Node → List ℕ → Run (List Node)
  insert_records f k pq [] = ok pq
  insert_records zero k pq (b ∷ bs) = ok pq
  insert_records (suc f) k pq (b ∷ bs) =
      let entry : Node = record {
        key = take fp_size (b ∷ bs);
        count = load_u64 (drop fp_size (b ∷ bs));
      } in
      insert_top k pq entry >>= λ q. insert_records f k q (drop record_size (b ∷ bs))

  -- `while (!pq.empty()) { tmp.push(pq.top()); pq.pop(); }`: the stack, its top first. Each round
  -- takes one node, so the size of the queue is enough fuel.
  unfoldable pub drain : ℕ → List Node → List Node → Run (List Node)
  unfolding pop_top
  drain f [] tmp = ok tmp
  drain zero (x ∷ pq) tmp = ok tmp
  drain (suc f) (x ∷ pq) tmp = pop_top extract (x ∷ pq) >>= λ t. drain f t.1 (t.0 ∷ tmp)

  -- `while (!pq.empty() && !pc.empty())`: the stacks `omp` and `tmp`, as pairs.
  unfoldable pub drain_pairs :
      ℕ → List Node → List Node → List (Node × Node) → Run (List (Node × Node))
  unfolding pop_top
  drain_pairs f [] pc pairs = ok pairs
  drain_pairs f (x ∷ pq) [] pairs = ok pairs
  drain_pairs zero (x ∷ pq) (y ∷ pc) pairs = ok pairs
  drain_pairs (suc f) (x ∷ pq) (y ∷ pc) pairs = do
    o ← pop_top extract (x ∷ pq)
    t ← pop_top extract (y ∷ pc)
    drain_pairs f o.1 t.1 ((o.0, t.0) ∷ pairs)

  module _ (store : LevelDb) where
    open store use {Db, get, entries}

    -- The most frequent neighbours of `fp`, from a neighbour store.
    unfoldable pub neighbour_insert : Db → Key → ℕ → Run (List Node)
    unfolding insert_records insert_top
    neighbour_insert db fp k = elim (get db fp) [
      | found existing_value ↦ insert_records (length existing_value) k [] existing_value
      | not_found ↦ ok []
      | failed ↦ stop exit_1
    ]

    -- `left_insert` and `right_insert` on the cleared queue of their type.
    unfoldable pub left_insert : Db → Key → ℕ → Run (List Node)
    unfolding neighbour_insert
    left_insert left fp k = neighbour_insert left fp k

    unfoldable pub right_insert : Db → Key → ℕ → Run (List Node)
    unfolding neighbour_insert
    right_insert right fp k = neighbour_insert right fp k

    -- The `k` most frequent chunks of a frequency store, into the empty queue.
    unfoldable pub db_insert : Db → ℕ → Run (List Node)
    unfolding insert_all insert_top entry_nodes
    db_insert db k = insert_all k [] (entry_nodes (entries db))
