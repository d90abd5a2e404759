-- ===== src/Attack/BasicCount.antt =====
-- attack/basic/basic_count.cc: how often each fingerprint of a trace occurs.
pub mod Frequency
use freqanalysis.Common.{
  ℕ, suc, ◌+◌, ◌%◌, Option, none, some, List, [], ◌∷◌, Run, ok, stop, assertion, Bool,
}
use freqanalysis.Bytes.{Key, u64, store_u64, load_u64}
use freqanalysis.LevelDb.{LevelDb, Got, found, not_found, failed}
use freqanalysis.Trace.Read.{Line, skipped, chunk, read_lines}

module _ (store : LevelDb) where
  open store use {Db, get, put, delete}

  -- The counter of a chunk, and the store that its new value is put into. A status other than
  -- `ok` counts as a new chunk here.
  unfoldable pub next_count : Db → Key → Db × ℕ
  next_count db key = elim (get db key) [
    | found existing_value ↦ (delete db key, (load_u64 existing_value + 1) % u64)
    | not_found ↦ (db, 1)
    | failed ↦ (db, 1)
  ]

  -- One round of the loop; a failed `Put` is only reported.
  unfoldable pub count_chunk : Db → Key → Db
  unfolding next_count
  count_chunk db key = let (db', count) = next_count db key in (put db' key (store_u64 count)).0

  unfoldable pub read_hashes : List Line → Db → Db
  unfolding count_chunk
  read_hashes [] db = db
  read_hashes (skipped ∷ lines) db = read_hashes lines db
  read_hashes (chunk hash item ∷ lines) db = read_hashes lines (count_chunk db hash)

  -- `argv[2]` must be given, the store must open, and then the file of `argv[1]`.
  unfoldable pub main : Option (Option Db) → Option (List ℕ) → Run Db
  unfolding read_hashes
  main none file = stop assertion
  main (some none) file = stop assertion
  main (some (some db)) none = stop assertion
  main (some (some db)) (some file) = ok (read_hashes (read_lines file) db)
