-- ===== src/Attack/Inference.antt =====
-- The locality-based inference (attack/locality/locality_attack.cc; defense/scrambling has the same
-- file, and defense/minhash and defense/combined a variant that compares through the ground truth).
pub mod Records
pub mod Universe
pub mod Loop
pub mod Steps
pub mod Answers
pub mod Ends
use freqanalysis.Common.{
  ℕ, zero, suc, ◌+◌, List, [], ◌∷◌, ◌++◌, Bool, true, false, ltb, if◌then◌else◌, length, take,
  replicate, Run, ok, stop, out_of_fuel, ◌>>=◌,
}
use freqanalysis.Attack.Ranking.{Node, left_insert, right_insert, db_insert, drain, drain_pairs}
use freqanalysis.Bytes.Decimal.{decimal}
use freqanalysis.Bytes.{Key}
use freqanalysis.LevelDb.{LevelDb, is_found}
use freqanalysis.PriorityQueue.{Extract}

-- `INIT`, `TH_K` and `QUEUE_LIMIT`
pub record Limits : Type 0 where
  pub init : ℕ
  pub th_k : ℕ
  pub queue_limit : ℕ

-- The stores that the attack only reads.
pub record Stores (Db : Type 0) : Type 0 where
  pub origin : Db
  pub left_o : Db
  pub right_o : Db
  pub target : Db
  pub left_t : Db
  pub right_t : Db

-- The inferred set `q_o`, `q_t`, the chunks inferred so far, and the counters. `ansq2` is used by
-- the variant only, whose `ansq1` is `ansq` here.
pub record State (Db : Type 0) : Type 0 where
  pub q_o : List Node
  pub q_t : List Node
  pub uniq : Db
  pub ansq : List Node
  pub ansq2 : List Node
  pub total : ℕ
  pub common : ℕ
  pub correct : ℕ
  pub involve : ℕ
  pub leak : ℕ

-- `buf[32]` is cleared, takes the digits of the count, and eight bytes of it are stored.
unfoldable pub uniq_value : ℕ → List ℕ
unfolding decimal
uniq_value count = take 8 (decimal count ++ replicate 32 0)

-- `queue::pop`
abbrev pub pop_front : List Node → List Node
pop_front [] = []
pop_front (x ∷ xs) = xs

-- `q_o.pop()`, `q_t.pop()`, `involve++`
unfoldable pub dequeue : {Db : Type 0} → State Db → State Db
dequeue s = record s { q_o = pop_front s.q_o; q_t = pop_front s.q_t; involve = s.involve + 1 }

module _ (store : LevelDb) where
  open store use {Db, get, put}

  -- A ciphertext is marked, and the pair enters the inferred set.
  unfoldable pub mark : Db → Node → Db
  unfolding uniq_value
  mark uniq t = (put uniq t.key (uniq_value t.count)).0

  -- The ciphertexts of the initial set.
  unfoldable pub mark_all : Db → List Node → Db
  unfolding mark
  mark_all uniq [] = uniq
  mark_all uniq (t ∷ ts) = mark_all (mark uniq t) ts

  unfoldable pub enqueue : State Db → Node → Node → State Db
  unfolding mark
  enqueue s o t = record s {
    uniq = mark s.uniq t;
    q_o = s.q_o ++ (o ∷ []);
    q_t = s.q_t ++ (t ∷ []);
  }

  -- The loop over the stacks `omp` and `tmp`: a pair whose ciphertext has not been inferred enters,
  -- until the set is full.
  unfoldable pub infer : ℕ → State Db → List (Node × Node) → State Db
  infer queue_limit s [] = s
  infer queue_limit s ((o, t) ∷ pairs) = elim (is_found (get s.uniq t.key)) [
    | true ↦ infer queue_limit s pairs
    | false ↦ elim (ltb queue_limit (length s.q_o + 1)) [
      | true ↦ s
      | false ↦ infer queue_limit (enqueue s o t) pairs
    ]
  ]

  module _ (extract : Extract Node) (limits : Limits) (stores : Stores Db) where
    open limits use {init, th_k, queue_limit}
    open stores use {origin, left_o, right_o, target, left_t, right_t}

    -- The left neighbours of the pair at the front.
    unfoldable pub infer_left : State Db → Node → Node → Run (State Db)
    unfolding left_insert drain_pairs infer enqueue
    infer_left s o t = do
      pq ← left_insert extract store left_o o.key th_k
      pc ← left_insert extract store left_t t.key th_k
      pairs ← drain_pairs extract (length pq) pq pc []
      ok (infer queue_limit s pairs)

    -- The right neighbours, in the same way.
    unfoldable pub infer_right : State Db → Node → Node → Run (State Db)
    unfolding right_insert drain_pairs infer enqueue
    infer_right s o t = do
      pq ← right_insert extract store right_o o.key th_k
      pc ← right_insert extract store right_t t.key th_k
      pairs ← drain_pairs extract (length pq) pq pc []
      ok (infer queue_limit s pairs)

    module _ (judge : State Db → Node → Node → Run (State Db)) where
      -- One round of the main loop, at the fronts `o` and `t`.
      unfoldable pub round : State Db → Node → Node → Run (State Db)
      unfolding infer_left infer_right dequeue
      round s o t = do
        judged ← judge s o t
        l ← infer_left judged o t
        r ← infer_right l o t
        ok (dequeue r)

      -- `while (!q_o.empty() && !q_t.empty())`, with fuel.
      unfoldable pub loop : ℕ → State Db → Run (State Db)
      loop zero s = elim s.q_o [
        | [] ↦ ok s
        | o ∷ _ ↦ elim s.q_t [ [] ↦ ok s | t ∷ _ ↦ stop out_of_fuel ]
      ]
      loop (suc f) s = elim s.q_o [
        | [] ↦ ok s
        | o ∷ _ ↦ elim s.q_t [ [] ↦ ok s | t ∷ _ ↦ round s o t >>= loop f ]
      ]

    -- With no leakage the inferred set starts with the `INIT` most frequent chunks of both sides.
    unfoldable pub initialize : State Db → Run (State Db)
    unfolding db_insert drain mark_all
    initialize s = do
      pq ← db_insert extract store origin init
      omp ← drain extract (length pq) pq []
      pc ← db_insert extract store target init
      tmp ← drain extract (length pc) pc []
      ok (record s { q_o = s.q_o ++ omp; q_t = s.q_t ++ tmp; uniq = mark_all s.uniq tmp })

    -- `main_loop`, where `no_leakage` says that `LEAK_RATE == 0`.
    unfoldable pub main_loop :
        (State Db → Node → Node → Run (State Db)) → Bool → ℕ → State Db → Run (State Db)
    unfolding initialize loop round
    main_loop judge no_leakage fuel s = do
      let cleared : State Db = record s { ansq = []; ansq2 = [] }
      ready ← if no_leakage then initialize cleared else ok cleared
      loop judge fuel ready
