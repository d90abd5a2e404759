-- ===== src/Attack/BasicAttack.antt =====
-- attack/basic/basic_attack.cc: classical frequency analysis, the chunks of both stores paired by
-- the rank of their frequency.
pub mod Ranked
pub mod Bounded
pub mod Inferred
use freqanalysis.Common.{
  ℕ, zero, suc, ◌+◌, ◌≤◌, min, Option, none, some, List, [], ◌∷◌, ◌++◌, Bool, true, false, ltb,
  if◌then◌else◌, length, take, Run, ok, stop, assertion, ◌>>=◌,
}
use freqanalysis.Attack.LocalityAttack.{print_from_back}
use freqanalysis.Attack.Ranking.{Node}
use freqanalysis.Bytes.{Key, fp_size, key_eq, load_u64}
use freqanalysis.LevelDb.{LevelDb, Got, found, not_found, failed}
use freqanalysis.PriorityQueue.{Extract, pop_top}

-- `priority_queue<Node>` orders by `count < a.count`: the most frequent node is on top.
abbrev pub OnTop : Node → Node → Type 0
OnTop y x = x.count ≤ y.count

-- `Max_lenth`
abbrev pub max_lenth : ℕ
max_lenth = 99_999_999

module _ (extract : Extract Node) where
  -- The insertion: a full queue gives up its top for a node of a greater count.
  unfoldable pub insert_node : ℕ → List Node → Node → Run (List Node)
  unfolding pop_top
  insert_node max_length queue temp_node =
      let full = (do
        t ← pop_top extract queue
        if ltb t.0.count temp_node.count then ok (temp_node ∷ t.1) else ok queue) in
      if ltb (length queue) max_length then ok (temp_node ∷ queue) else full

  module _ (store : LevelDb) where
    open store use {Db, get, entries}

    -- The loop of `ReadDbs`; the value is read again by `Get`, whose failure fails an `assert`.
    unfoldable pub read_entries : ℕ → Db → List (Key × List ℕ) → List Node → Run (List Node)
    read_entries max_length db [] queue = ok queue
    read_entries max_length db ((key, _) ∷ es) queue = elim (get db key) [
      | found value ↦
          insert_node max_length queue (record { key = take fp_size key; count = load_u64 value })
          >>= read_entries max_length db es
      | not_found ↦ stop assertion
      | failed ↦ stop assertion
    ]

    -- `ReadDbs`, into the empty queue of the store's type
    unfoldable pub read_dbs : ℕ → Db → Run (List Node)
    unfolding read_entries insert_node
    read_dbs max_length db = read_entries max_length db (entries db) []

  -- The loop of `Fre_Analysis`, with the number of rounds left; `Correct` is the length of `ansq`.
  unfoldable pub analyse : ℕ → List Node → List Node → List Node → Run (List Node)
  unfolding pop_top
  analyse zero training target ansq = ok ansq
  analyse (suc n) training target ansq = do
    o ← pop_top extract training
    t ← pop_top extract target
    analyse n o.1 t.1 (if key_eq o.0.key t.0.key then ansq ++ (o.0 ∷ []) else ansq)

  -- `Fre_Analysis`: the answers and the number `Correct`, which goes up with each.
  unfoldable pub fre_analysis : List Node → List Node → Run (List Node × ℕ)
  unfolding analyse
  fre_analysis training target = do
    ansq ← analyse (min (length training) (length target)) training target []
    ok (ansq, length ansq)

  module _ (store : LevelDb) where
    open store use {Db}

    -- The stores that `Init_Db` opens. What is printed are `Unique`, `Correct` and the answers from
    -- the back.
    unfoldable pub main : Option Db → Option Db → Run (ℕ × ℕ × List ℕ)
    unfolding read_dbs fre_analysis print_from_back
    main none target_db = stop assertion
    main (some training_db) none = stop assertion
    main (some training_db) (some target_db) = do
      training ← read_dbs store max_lenth training_db
      target ← read_dbs store max_lenth target_db
      r ← fre_analysis training target
      ok (length target, r.1, print_from_back r.0)
