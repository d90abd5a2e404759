-- ===== src/Attack/LocalityCount/Counts.antt =====
-- What the three stores hold after a trace.
use freqanalysis.Common.{
  ℕ, ◌≤◌, ◌<◌, ◌≡◌, refl, sym, ap, ◌∙◌, true, false, some, List, [], ◌∷◌, leb, length, replicate,
  ok, ◌>>=◌, Returns, arith,
}
use freqanalysis.Attack.BasicCount.Frequency.{keys_of, occurrences, entry, read_hashes-entry}
use freqanalysis.Attack.BasicCount
use freqanalysis.Attack.LocalityCount.Adjacent.{
  adjacent, pairs_of, left_count, right_count, add_neighbour, tables_of, left_events, right_events,
  count-left_tables, count-right_tables, HasFew, HasFewNeighbours, length-tables_of,
  length-pairs_of,
}
use freqanalysis.Attack.LocalityCount.Tables.{entry_of, Holds, count_chunk-Holds, first_chunk}
use freqanalysis.Attack.LocalityCount.{State, read_hashes, main}
use freqanalysis.Attack.Neighbours.Table.{Table, IsTable, count}
use freqanalysis.Attack.Neighbours.Names.{neighbour_name}
use freqanalysis.Bytes.{Key, u64, fp_size}
use freqanalysis.LevelDb.{LevelDb, IsSound, not_found}
use freqanalysis.Trace.Read.{Line, skipped, chunk, read_lines}

module _ (store : LevelDb) (sound : IsSound store) where
  open store use {Db, get}

  abbrev pub IsEmpty : Db → Type 0
  IsEmpty d = (j : Key) → get d j ≡ not_found

module _ (store : LevelDb) (sound : IsSound store) (bytes : List ℕ) where
  open store use {Db, get, put, delete}

  -- What the stores hold after the lines, from stores that hold tables already.
  pub record Counted (s t : State Db) (tl tr : Key → Table) (pairs : List (Key × Key))
      (lines : List Line) : Type 0 where
    pub frequencies : t.db ≡ BasicCount.read_hashes store lines s.db
    pub left : Holds store sound t.store_left (tables_of (left_events pairs) tl)
    pub right : Holds store sound t.store_right (tables_of (right_events pairs) tr)

  read_hashes-Counted :
      (lines : List Line) (s : State Db) (tl tr : Key → Table)
      → s.flag ≡ true
      → Holds store sound s.store_left tl
      → Holds store sound s.store_right tr
      → HasFew (adjacent s.last (keys_of lines)) tl tr
      → Returns
          (read_hashes store (some bytes) lines s)
          (λ t. Counted s t tl tr (adjacent s.last (keys_of lines)) lines)
  unfolding read_hashes BasicCount.read_hashes
  read_hashes-Counted [] s tl tr on hl hr few =
      (s, refl, record { frequencies = refl; left = hl; right = hr })
  read_hashes-Counted (skipped ∷ lines) s tl tr on hl hr few =
      let (t, run, c) = read_hashes-Counted lines s tl tr on hl hr few in
      (t, run, record { frequencies = c.frequencies; left = c.left; right = c.right })
  read_hashes-Counted (chunk hash item ∷ lines) s tl tr on hl hr few =
      let pairs = (s.last, hash) ∷ adjacent hash (keys_of lines) in
      let grown_l = (length-tables_of (left_events pairs) tl hash).0 in
      let grown_r = (length-tables_of (right_events pairs) tr s.last).0 in
      let (u, step, db_eq, last_eq, on', hl', hr') =
        count_chunk-Holds store sound bytes s hash tl tr on hl hr
          (omega (arith, (few hash).0, grown_l)) (omega (arith, (few s.last).1, grown_r)) in
      let (t, run, c) =
        read_hashes-Counted lines u (add_neighbour tl hash (neighbour_name s.last))
          (add_neighbour tr s.last (neighbour_name hash)) on' hl' hr' (rw last_eq few) in
      (
        t,
        rw (step, ◌>>=◌) run,
        record {
          frequencies = c.frequencies ∙ ap (BasicCount.read_hashes store lines) db_eq;
          left = rw last_eq at c.left;
          right = rw last_eq at c.right;
        },
      )

  pub read_hashes-first :
      (lines : List Line) (s : State Db)
      → s.flag ≡ false
      → Holds store sound s.store_left (λ _. [])
      → Holds store sound s.store_right (λ _. [])
      → HasFewNeighbours (keys_of lines)
      → Returns
          (read_hashes store (some bytes) lines s)
          (λ t. Counted s t (λ _. []) (λ _. []) (pairs_of (keys_of lines)) lines)
  unfolding read_hashes BasicCount.read_hashes
  read_hashes-first [] s off hl hr few =
      (s, refl, record { frequencies = refl; left = hl; right = hr })
  read_hashes-first (skipped ∷ lines) s off hl hr few =
      let (t, run, c) = read_hashes-first lines s off hl hr few in
      (t, run, record { frequencies = c.frequencies; left = c.left; right = c.right })
  read_hashes-first (chunk hash item ∷ lines) s off hl hr few =
      let u : State Db = record s {
        db = BasicCount.count_chunk store s.db hash;
        last = hash;
        flag = true;
      } in
      let (t, run, c) = read_hashes-Counted lines u (λ _. []) (λ _. []) refl hl hr few in
      (
        t,
        rw (first_chunk store sound bytes s hash off, ◌>>=◌) run,
        record { frequencies = c.frequencies; left = c.left; right = c.right },
      )

  -- The stores before the trace, when there is no chunk before.
  abbrev pub start : Db → Db → Db → State Db
  start db l r = record {
    db = db;
    store_left = l;
    store_right = r;
    last = replicate fp_size 0;
    flag = false;
  }

  pub main-Counted :
      (argc : ℕ) (db l r : Db) (file : List ℕ)
      → 5 ≤ argc
      → IsEmpty store sound l
      → IsEmpty store sound r
      → HasFewNeighbours (keys_of (read_lines file))
      → Returns (main store (some bytes) argc (some db) (some l) (some r) (some file)) (λ t.
        Counted
          (start db l r)
          t
          (λ _. [])
          (λ _. [])
          (pairs_of (keys_of (read_lines file)))
          (read_lines file))
  unfolding main
  main-Counted argc db l r file enough no_l no_r few =
      let enough' : leb 5 argc ≡ true = ground arith in
      let (t, run, c) =
        read_hashes-first (read_lines file) (start db l r) refl (λ k. (no_l k, tt))
          (λ k. (no_r k, tt)) few in
      (t, rw enough' run, c)

  -- With empty neighbour stores on a LevelDB without errors, enough arguments, and a trace in which
  -- no fingerprint has more than 153391689 different neighbours before or behind it,
  -- `locality_count`, where the bytes behind its arrays can be read, ends normally, and its
  -- frequency store is the one that `basic_count` makes of the same file from the same store.
  pub main-same_frequencies :
      (argc : ℕ) (db l r : Db) (file : List ℕ)
      → 5 ≤ argc
      → IsEmpty store sound l
      → IsEmpty store sound r
      → HasFewNeighbours (keys_of (read_lines file))
      → (t : State Db) × (main store (some bytes) argc (some db) (some l) (some r) (some file)
          ≡ ok t)
        × (BasicCount.main store (some (some db)) (some file) ≡ ok t.db)
  unfolding BasicCount.main
  main-same_frequencies argc db l r file enough no_l no_r few =
      let (t, run, c) = main-Counted argc db l r file enough no_l no_r few in
      (t, run, ap ok (sym c.frequencies))

  -- On three empty stores and a trace of fewer than 2 ^ 64 chunks in which no fingerprint has more
  -- than 153391689 different neighbours before or behind it, `locality_count`, where the bytes
  -- behind its arrays can be read, ends normally with the occurrences of each fingerprint in the
  -- frequency store, and in the neighbour stores tables, with names of six bytes, that count the
  -- places where each neighbour stands directly before or behind a fingerprint, a neighbour being
  -- counted under its name up to a zero byte, filled up with zeros.
  pub main-counts_neighbours :
      (argc : ℕ) (db l r : Db) (file : List ℕ)
      → 5 ≤ argc
      → IsEmpty store sound db
      → IsEmpty store sound l
      → IsEmpty store sound r
      → length (keys_of (read_lines file)) < u64
      → HasFewNeighbours (keys_of (read_lines file))
      → let keys = keys_of (read_lines file) in
        (t : State Db) × (tl : (Key → Table)) × (tr : (Key → Table)) × (main store
            (some bytes)
            argc
            (some db)
            (some l)
            (some r)
            (some file)
          ≡ ok t)
        × ((k : Key) → get t.db k ≡ entry (occurrences k keys))
        × ((k : Key) → get t.store_left k ≡ entry_of (tl k))
        × ((k : Key) → get t.store_right k ≡ entry_of (tr k))
        × ((k : Key) → IsTable (tl k) × IsTable (tr k))
        × ((j k : Key) → count j (tl k) ≡ left_count j k (pairs_of keys))
        × ((j k : Key) → count j (tr k) ≡ right_count j k (pairs_of keys))
  main-counts_neighbours argc db l r file enough no_db no_l no_r few few_names =
      let lines = read_lines file in
      let pairs = pairs_of (keys_of lines) in
      let (t, run, c) = main-Counted argc db l r file enough no_l no_r few_names in
      let few_pairs : length pairs < u64 = omega (arith, length-pairs_of (keys_of lines), few) in
      (
        t,
        tables_of (left_events pairs) (λ _. []),
        tables_of (right_events pairs) (λ _. []),
        run,
        λ k.
            ap (λ d. get d k) c.frequencies
            ∙ read_hashes-entry store sound lines db k 0 (no_db k) (omega (arith, few))
            ∙ ap entry (omega arith),
        λ k. (c.left k).0,
        λ k. (c.right k).0,
        λ k. ((c.left k).1, (c.right k).1),
        λ j k. count-left_tables pairs j k few_pairs,
        λ j k. count-right_tables pairs j k few_pairs,
      )
