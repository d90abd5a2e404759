-- ===== src/Attack/Pipeline/Listed.antt =====
-- How many entries a frequency store has.
use freqanalysis.Common.{
  ℕ, ◌+◌, ◌≤◌, ◌≡◌, refl, ap, ◌∙◌, Bool, true, false, List, [], ◌∷◌, length, Bool-cases, inl, inr,
  to_nat, total, All, arith,
}
use freqanalysis.Attack.BasicCount.Frequency.{occurrences, entry}
use freqanalysis.Attack.Inference.Universe.{is_in}
use freqanalysis.Bytes.{Key, key_eq, key_eq_refl}
use freqanalysis.LevelDb.{LevelDb, IsSound, IsListed, is_found}

abbrev Entry : Type 0
Entry = Key × List ℕ

abbrev at_key : Key → Entry → ℕ
at_key k e = to_nat (key_eq k e.0)

abbrev in_keys : List Key → Entry → ℕ
in_keys ks e = to_nat (is_in ks e.0)

in_keys-cons :
    (k : Key) (ks : List Key) (es : List Entry)
    → total (in_keys (k ∷ ks)) es ≤ total (at_key k) es + total (in_keys ks) es
in_keys-cons k ks [] = omega arith
in_keys-cons k ks (e ∷ es) = ground (arith, in_keys-cons k ks es)

in_keys-nil : (es : List Entry) → total (in_keys []) es ≡ 0
in_keys-nil [] = refl
in_keys-nil (e ∷ es) = omega (arith, in_keys-nil es)

-- Entries that have each key once are no more than the keys.
in_keys-le :
    (ks : List Key) (es : List Entry)
    → ((k : Key) → total (at_key k) es ≤ 1)
    → total (in_keys ks) es ≤ length ks
in_keys-le [] es once = omega (arith, in_keys-nil es)
in_keys-le (k ∷ ks) es once = omega (arith, in_keys-cons k ks es, once k, in_keys-le ks es once)

-- A test of keys that the entries with each key are within is passed by all of them.
All-visited :
    (test : Key → Bool) (es : List Entry)
    → ((k : Key) → total (at_key k) es ≤ to_nat (test k))
    → All (λ e. test e.0 ≡ true) es
All-visited test [] within = tt
All-visited test ((k, v) ∷ es) within =
    (ground (arith, within k, key_eq_refl k), All-visited test es (λ j. omega (arith, within j)))

length-in_keys :
    (ks : List Key) (es : List Entry)
    → All (λ e. is_in ks e.0 ≡ true) es
    → length es ≤ total (in_keys ks) es
length-in_keys ks [] h = omega arith
length-in_keys ks (e ∷ es) h = ground (arith, length-in_keys ks es h.1)

occurrences-in : (k : Key) (ks : List Key) → is_in ks k ≡ false → occurrences k ks ≡ 0
occurrences-in k [] h = refl
occurrences-in k (j ∷ ks) h = ground (arith, occurrences-in k ks)

module _ (store : LevelDb) (sound : IsSound store) where
  open store use {Db, get, entries}

  found-in :
      (db : Db) (ks : List Key) (k : Key)
      → get db k ≡ entry (occurrences k ks)
      → to_nat (is_found (get db k)) ≤ to_nat (is_in ks k)
  found-in db ks k e = elim (Bool-cases (is_in ks k)) [
    | inl known ↦ ground arith
    | inr new ↦
        let none : get db k ≡ entry 0 = e ∙ ap entry (occurrences-in k ks new) in
        rw (none, new) (omega arith)
  ]

  to_nat-le : (b : Bool) → to_nat b ≤ 1
  to_nat-le b = ground arith

  -- The keys of the entries are fingerprints of the trace.
  pub entries-in :
      (listed : IsListed store) (db : Db) (ks : List Key)
      → ((k : Key) → get db k ≡ entry (occurrences k ks))
      → All (λ e. is_in ks e.0 ≡ true) (entries db)
  entries-in listed db ks counted =
      All-visited (is_in ks) (entries db)
        (λ k. omega (arith, listed.visits db k, found-in db ks k (counted k)))

  -- A frequency store has at most an entry for each chunk of the trace.
  pub length-entries_counted :
      (listed : IsListed store) (db : Db) (ks : List Key)
      → ((k : Key) → get db k ≡ entry (occurrences k ks))
      → length (entries db) ≤ length ks
  length-entries_counted listed db ks counted =
      let once : (k : Key) → total (at_key k) (entries db) ≤ 1 =
        λ k. omega (arith, listed.visits db k, to_nat-le (is_found (get db k))) in
      omega (
        arith,
        length-in_keys ks (entries db) (entries-in listed db ks counted),
        in_keys-le ks (entries db) once,
      )
