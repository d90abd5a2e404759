-- ===== src/Attack/LocalityCount.antt =====
-- attack/locality/locality_count.cc: the frequencies of a trace, and for each fingerprint how often
-- another one stands before it (left store) and behind it (right store). The copies under
-- defense/minhash, defense/scrambling and defense/combined are the same file. `behind` are the bytes
-- that stand in memory behind an array with a fingerprint, `none` where reading them is undefined.
pub mod Adjacent
pub mod Tables
pub mod Counts
use freqanalysis.Common.{
  ℕ, ◌+◌, ◌%◌, ◌≡◌, Option, none, some, List, [], ◌∷◌, ◌++◌, Bool, true, false, leb, if◌then◌else◌,
  replicate, Run, ok, stop, exit_1, assertion, ◌>>=◌,
}
use freqanalysis.Attack.Neighbours.{neighbour_key, bump_value}
use freqanalysis.Bytes.{Key, u64, fp_size, store_u64, load_u64}
use freqanalysis.LevelDb.{LevelDb, Got, found, not_found, failed}
use freqanalysis.Trace.Read.{Line, skipped, chunk, read_lines}

-- The three stores, the chunk before (`last`, meaningful once `flag` is set).
pub record State (Db : Type 0) : Type 0 where
  pub db : Db
  pub store_left : Db
  pub store_right : Db
  pub last : Key
  pub flag : Bool

module _ (store : LevelDb) where
  open store use {Db, get, put, delete}

  -- The counter of the chunk in the frequency store; a LevelDB error ends the program.
  unfoldable pub count_frequency : Db → Key → Run Db
  count_frequency db key = elim (get db key) [
    | found existing_value ↦
        ok (put (delete db key) key (store_u64 ((load_u64 existing_value + 1) % u64))).0
    | not_found ↦ ok (put db key (store_u64 1)).0
    | failed ↦ stop exit_1
  ]

  -- One more for the neighbour `value` in the record list under `key`.
  unfoldable pub count_neighbour : Db → Key → Key → Run Db
  count_neighbour db key value = elim (get db key) [
    | found existing_value ↦
        bump_value value existing_value >>= λ now. ok (put (delete db key) key now).0
    | not_found ↦ ok (put db key (value ++ store_u64 1)).0
    | failed ↦ stop exit_1
  ]

module _ (store : LevelDb) (behind : Option (List ℕ)) where
  open store use {Db}

  -- The left store is keyed by the chunk and counts the one before it.
  unfoldable pub count_left : Db → Key → Key → Run Db
  count_left store_left last hash =
      neighbour_key behind last >>= λ value. count_neighbour store store_left hash value

  -- The right store is keyed by the chunk before and counts the chunk.
  unfoldable pub count_right : Db → Key → Key → Run Db
  count_right store_right last hash =
      neighbour_key behind hash >>= λ value. count_neighbour store store_right last value

  -- The two neighbour stores, from the second chunk on.
  unfoldable pub count_pair : State Db → Key → Run (State Db)
  count_pair s hash =
      let counted = (do
        l ← count_left s.store_left s.last hash
        r ← count_right s.store_right s.last hash
        ok (record s { store_left = l; store_right = r })) in
      if s.flag then counted else ok s

  unfoldable pub count_chunk : State Db → Key → Run (State Db)
  count_chunk s hash = do
    d ← count_frequency store s.db hash
    t ← count_pair (record s { db = d }) hash
    ok (record t { last = hash; flag = true })

  unfoldable pub read_hashes : List Line → State Db → Run (State Db)
  unfolding count_chunk count_frequency count_pair count_left count_right count_neighbour
  read_hashes [] s = ok s
  read_hashes (skipped ∷ lines) s = read_hashes lines s
  read_hashes (chunk hash item ∷ lines) s = count_chunk s hash >>= read_hashes lines

  -- The stores that `init_db`, `init_left` and `init_right` open, and the file.
  unfoldable pub main : ℕ → Option Db → Option Db → Option Db → Option (List ℕ) → Run (State Db)
  unfolding read_hashes
  main argc (some db) (some l) (some r) (some file) =
      if leb 5 argc
      then read_hashes (read_lines file) (record {
        db = db;
        store_left = l;
        store_right = r;
        last = replicate fp_size 0;
        flag = false;
      })
      else stop assertion
  main argc _ _ _ _ = stop assertion
