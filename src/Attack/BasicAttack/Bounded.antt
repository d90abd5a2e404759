-- ===== src/Attack/BasicAttack/Bounded.antt =====
-- `ReadDbs` keeps every chunk of a store that has at most `Max_lenth` of them; a full queue gives up
-- the wrong end.
use freqanalysis.Common.{
  ℕ, ◌+◌, ◌≤◌, ◌<◌, ◌≡◌, refl, List, [], ◌∷◌, true, false, ltb, length, All, total, take, above,
  above-of-All, SameItems, ok, ◌>>=◌, Returns, arith,
}
use freqanalysis.Attack.BasicAttack.{OnTop, insert_node, read_entries, read_dbs}
use freqanalysis.Attack.Ranking.{Node, count_of, entry_nodes}
use freqanalysis.Bytes.{Key, fp_size, load_u64}
use freqanalysis.LevelDb.{LevelDb, found}
use freqanalysis.PriorityQueue.{Extract, IsPriorityQueue, pop_top, extract-cons}

-- `Get` returns the value that the iterator shows.
abbrev pub IsConsistent : (store : LevelDb) → store.Db → List (Key × List ℕ) → Type 0
IsConsistent store db es = All (λ (e : Key × List ℕ). store.get db e.0 ≡ found e.1) es

module _ {extract : Extract Node} (queue : IsPriorityQueue OnTop extract) where
  insert_node-room :
      (k : ℕ) (q : List Node) (e : Node) → length q < k → insert_node extract k q e ≡ ok (e ∷ q)
  unfolding insert_node
  insert_node-room k q e room = ground arith

  read_entries-SameItems :
      (store : LevelDb) (db : store.Db) (k : ℕ) (es : List (Key × List ℕ)) (q : List Node)
      → IsConsistent store db es
      → length es + length q ≤ k
      → Returns
          (read_entries extract store k db es q)
          (λ r. (w : Node → ℕ) → total w r ≡ total w (entry_nodes es) + total w q)
  unfolding read_entries entry_nodes
  read_entries-SameItems store db k [] q h room = (q, refl, λ w. omega arith)
  read_entries-SameItems store db k ((key, v) ∷ es) q h room =
      let e : Node = record { key = take fp_size key; count = load_u64 v } in
      let (r, run, items) = read_entries-SameItems store db k es (e ∷ q) h.1 (omega arith) in
      (
        r,
        rw (h.0, read_entries, insert_node-room k q e (omega arith), ◌>>=◌) run,
        λ w. omega (arith, items w),
      )

  -- If the store has at most as many chunks as the bound, and `Get` returns what the iterator
  -- shows, `ReadDbs` ends normally with every chunk and its count in the queue, and no others.
  pub read_dbs-SameItems :
      (store : LevelDb) (db : store.Db) (k : ℕ)
      → IsConsistent store db (store.entries db)
      → length (store.entries db) ≤ k
      → Returns (read_dbs extract store k db) (λ q. SameItems q (entry_nodes (store.entries db)))
  unfolding read_dbs
  read_dbs-SameItems store db k h room =
      let (q, run, items) =
        read_entries-SameItems store db k (store.entries db) [] h (omega arith) in
      (q, run, λ w. omega (arith, items w))

  -- A node that is more frequent than all of a full queue takes the place of a most frequent node,
  -- one that no node of the queue was more frequent than.
  pub insert_node-evicts :
      (k b : ℕ) (x : Node) (xs : List Node) (e : Node)
      → k ≤ length (x ∷ xs)
      → All (λ z. z.count ≤ b) (x ∷ xs)
      → b < e.count
      → Returns (insert_node extract k (x ∷ xs) e) λ q.
        (lost : Node) × ((w : Node → ℕ) → total w q + w lost ≡ total w (x ∷ xs) + w e)
        × All (λ z. z.count ≤ lost.count) (x ∷ xs)
  unfolding insert_node
  insert_node-evicts k b x xs e full less more_frequent =
      let (y, ys, top) = extract-cons queue x xs in
      let no_room : ltb (length (x ∷ xs)) k ≡ false = ground arith in
      let none_above : above count_of b y ≡ 0 = omega (
        arith,
        queue.split (x ∷ xs) y ys top (above count_of b),
        above-of-All count_of b (x ∷ xs) less,
      ) in
      let more : ltb y.count e.count ≡ true = ground arith in
      (
        e ∷ ys,
        rw (no_room, top, pop_top, more),
        (y, (λ w. omega (arith, queue.split (x ∷ xs) y ys top w)), queue.best (x ∷ xs) y ys top),
      )
