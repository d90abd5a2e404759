-- ===== src/Attack/BasicCount/Frequency.antt =====
-- The store that `basic_count` fills holds the number of occurrences of each fingerprint.
use freqanalysis.Common.{
  ℕ, zero, suc, ◌+◌, ◌%◌, ◌<◌, ◌≡◌, refl, sym, ap, ◌∙◌, some, List, [], ◌∷◌, append-nil, length,
  false, to_nat, ok, Bool-cases, inl, inr, arith,
}
use freqanalysis.Attack.BasicCount.{next_count, count_chunk, read_hashes, main}
use freqanalysis.Bytes.{Key, key_eq, eq_of_key_eq, u64, store_u64, load_u64, load-store_u64}
use freqanalysis.LevelDb.{LevelDb, IsSound, Got, found, not_found}
use freqanalysis.Trace.Read.{Line, skipped, chunk, read_lines}

-- The fingerprints of a trace, in order.
abbrev pub keys_of : List Line → List Key
keys_of [] = []
keys_of (skipped ∷ lines) = keys_of lines
keys_of (chunk hash item ∷ lines) = hash ∷ keys_of lines

abbrev pub occurrences : Key → List Key → ℕ
occurrences k [] = 0
occurrences k (j ∷ js) = to_nat (key_eq j k) + occurrences k js

-- How the store represents a number of occurrences.
abbrev pub entry : ℕ → Got
entry zero = not_found
entry (suc n) = found (store_u64 (suc n))

pub load-store : (n : ℕ) → n < u64 → load_u64 (store_u64 n) ≡ n
load-store n h =
    let e : load_u64 (store_u64 n) ≡ n % u64 =
      ap load_u64 (sym (append-nil (store_u64 n))) ∙ load-store_u64 n [] in
    omega (arith, e)

entry_suc : (n : ℕ) → entry (1 + n) ≡ found (store_u64 (n + 1))
entry_suc n =
    let e : 1 + n ≡ suc n = omega arith in
    let f : suc n ≡ n + 1 = omega arith in ap entry e ∙ ap (λ c. found (store_u64 c)) f

module _ (store : LevelDb) (sound : IsSound store) where
  open store use {Db, get, put, delete}

  next_count-entry :
      (db : Db) (key : Key) (n : ℕ)
      → get db key ≡ entry n
      → n + 1 < u64
      → (next_count store db key).1 ≡ n + 1
  unfolding next_count
  next_count-entry db key zero e h = rw (e, next_count) (omega arith)
  next_count-entry db key (suc n) e h =
      rw (e, next_count) (omega (arith, load-store (suc n) (omega arith)))

  next_count-keeps :
      (db : Db) (key j : Key) → key_eq key j ≡ false → get (next_count store db key).0 j ≡ get db j
  unfolding next_count
  next_count-keeps db key j other = go (get db key) refl
    where
      go : (g : Got) → get db key ≡ g → get (next_count store db key).0 j ≡ get db j
      go (found v) e = rw (e, next_count, sound.get-delete, other)
      go not_found e = rw (e, next_count)
      go Got.failed e = rw (e, next_count)

  -- One chunk adds one to the entry of its own fingerprint.
  count_chunk-entry :
      (db : Db) (key j : Key) (n : ℕ)
      → get db j ≡ entry n
      → n + 1 < u64
      → get (count_chunk store db key) j ≡ entry (to_nat (key_eq key j) + n)
  unfolding count_chunk
  count_chunk-entry db key j n e h =
      let d = next_count store db key in
      let written = sound.get-put d.0 key j (store_u64 d.1) in
      elim (Bool-cases (key_eq key j)) [
        | inl same ↦
            let e' : get db key ≡ entry n = rw (eq_of_key_eq key j same) e in
            rw (same, written, same)
              (ap (λ c. found (store_u64 c)) (next_count-entry db key n e' h) ∙ sym (entry_suc n))
        | inr other ↦
            rw (other, written, other, next_count-keeps db key j other, e) (ap entry (omega arith))
      ]

  pub read_hashes-entry :
      (lines : List Line) (db : Db) (j : Key) (n : ℕ)
      → get db j ≡ entry n
      → n + length (keys_of lines) < u64
      → get (read_hashes store lines db) j ≡ entry (n + occurrences j (keys_of lines))
  unfolding read_hashes
  read_hashes-entry [] db j n e h = e ∙ ap entry (omega arith)
  read_hashes-entry (skipped ∷ lines) db j n e h = read_hashes-entry lines db j n e h
  read_hashes-entry (chunk hash item ∷ lines) db j n e h = elim (Bool-cases (key_eq hash j)) [
    | inl same ↦
        read_hashes-entry lines (count_chunk store db hash) j (to_nat (key_eq hash j) + n)
          (count_chunk-entry db hash j n e (omega arith)) (rw same (omega arith))
        ∙ ap entry (omega arith)
    | inr other ↦
        read_hashes-entry lines (count_chunk store db hash) j (to_nat (key_eq hash j) + n)
          (count_chunk-entry db hash j n e (omega arith)) (rw other (omega arith))
        ∙ ap entry (omega arith)
  ]

  -- From an empty store and a trace of fewer than 2 ^ 64 chunks, `basic_count` leaves for every
  -- fingerprint the number of its occurrences, as eight bytes, and no entry for one that does not
  -- occur.
  pub main-counts :
      (db : Db) (file : List ℕ)
      → ((j : Key) → get db j ≡ not_found)
      → length (keys_of (read_lines file)) < u64
      → (counted : Db) × (main store (some (some db)) (some file) ≡ ok counted)
        × ((j : Key) → get counted j ≡ entry (occurrences j (keys_of (read_lines file))))
  unfolding main
  main-counts db file empty few = (
    read_hashes store (read_lines file) db,
    refl,
    λ j.
        read_hashes-entry (read_lines file) db j 0 (empty j) (omega arith) ∙ ap entry (omega arith),
  )
