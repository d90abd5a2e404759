-- ===== src/Prototype/FpIndex.antt =====
-- prototype/fp_index.cc: the index from fingerprints to the containers that hold them.
use freqanalysis.Common.{
  ℕ, ◌-◌, ◌^◌, ◌<◌, ◌≡◌, ◌≢◌, refl, sym, ap, ◌∙◌, ◌⊎◌, Bool, not, ◌||◌, true, false, List,
  if◌then◌else◌, Bool-cases, inl, inr,
}
use freqanalysis.Bytes.{Key, key_eq, eq_of_key_eq, store_int, load_int, load-store_int}
use freqanalysis.LevelDb.{LevelDb, IsSound, Got, is_found, found, not_found, failed}

-- The results `1`, `0` and `-1` of `insert`.
pub data Inserted : Type 0 where
  done put_failed present : Inserted

-- `FPI.insert(…) == 0`
abbrev pub is_failure : Inserted → Bool
is_failure done = false
is_failure put_failed = true
is_failure present = false

-- `-1` as an `int`
abbrev pub minus_one : ℕ
minus_one = 2 ^ 32 - 1

module _ (store : LevelDb) where
  open store use {Db, get, put}

  -- A fingerprint that is in the index keeps its container.
  unfoldable pub insert : Db → Key → ℕ → Db × Inserted
  insert db str id =
      let added : Db × Inserted =
        let (db', done_) = put db str (store_int id) in (db', if done_ then done else put_failed) in
      elim (get db str) [
        | found existing_value ↦ (db, present)
        | not_found ↦ added
        | failed ↦ added
      ]

  -- The container of a fingerprint as the bit pattern of an `int`; `-1` if there is none.
  unfoldable pub find : Db → Key → ℕ
  find db str = elim (get db str) [
    | found existing_value ↦ load_int existing_value
    | not_found ↦ minus_one
    | failed ↦ minus_one
  ]

module _ (store : LevelDb) (sound : IsSound store) where
  open store use {Db, get, put}

  Got-cases : (db : Db) (k : Key) → ((v : List ℕ) × (get db k ≡ found v)) ⊎ (get db k ≡ not_found)
  Got-cases db k = cases (get db k) refl
    where
      cases :
          (g : Got) → get db k ≡ g → ((v : List ℕ) × (get db k ≡ found v)) ⊎ (get db k ≡ not_found)
      cases (found v) e = inl (v, e)
      cases not_found e = inr e
      cases failed e = absurd (sound.get_works db k e)

  turn : (b : Bool) (x y : ℕ) → (if b then x else y) ≡ (if not b then y else x)
  turn true x y = refl
  turn false x y = refl

  pub insert_works : (db : Db) (k : Key) (id : ℕ) → is_failure (insert store db k id).1 ≡ false
  unfolding insert
  insert_works db k id = elim (Got-cases db k) [
    | inl (v, e) ↦ rw (insert, e) refl
    | inr e ↦ rw (insert, e, sound.put_ok db k (store_int id)) refl
  ]

  insert-fresh :
      (db : Db) (str : Key) (id : ℕ)
      → get db str ≡ not_found
      → insert store db str id ≡ ((put db str (store_int id)).0, done)
  unfolding insert
  insert-fresh db str id fresh = rw (insert, fresh, sound.put_ok db str (store_int id)) refl

  insert-present :
      (db : Db) (str : Key) (id : ℕ) (v : List ℕ)
      → get db str ≡ found v
      → insert store db str id ≡ (db, present)
  unfolding insert
  insert-present db str id v there = rw (insert, there) refl

  find-put :
      (db : Db) (str j : Key) (id : ℕ)
      → id < 2 ^ 32
      → find store (put db str (store_int id)).0 j ≡ (if key_eq str j then id else find store db j)
  unfolding find
  find-put db str j id small = elim (Bool-cases (key_eq str j)) [
    | inl same ↦ rw (find, sound.get-put db str j (store_int id), same) (load-store_int id small)
    | inr other ↦ rw (find, sound.get-put db str j (store_int id), other) refl
  ]

  -- On a store without errors, an insertion says whether the fingerprint was in the index; if it
  -- was, every fingerprint keeps its container, and if not, this one has the container inserted, a
  -- number below 2 ^ 32, and the others keep theirs.
  pub find-insert :
      (db : Db) (str j : Key) (id : ℕ)
      → id < 2 ^ 32
      → ((insert store db str id).1 ≡ (if is_found (get db str) then present else done))
        × (find store (insert store db str id).0 j
            ≡ (if is_found (get db str) || not (key_eq str j) then find store db j else id))
  find-insert db str j id small = elim (Got-cases db str) [
    | inl (v, there) ↦ rw (insert-present db str id v there, there) (refl, refl)
    | inr fresh ↦
        rw (insert-fresh db str id fresh, fresh)
          (refl, find-put db str j id small ∙ turn (key_eq str j) id (find store db j))
  ]

  -- The fingerprint inserted is in the index, and no other enters.
  pub is_found-insert :
      (db : Db) (str j : Key) (id : ℕ)
      → is_found (get (insert store db str id).0 j) ≡ (key_eq str j || is_found (get db j))
  is_found-insert db str j id = elim (Got-cases db str) [
    | inl (v, there) ↦ elim (Bool-cases (key_eq str j)) [
      | inl same ↦
          let e : get db j ≡ found v = ap (get db) (sym (eq_of_key_eq str j same)) ∙ there in
          rw (insert-present db str id v there, same, e) refl
      | inr other ↦ rw (insert-present db str id v there, other) refl
    ]
    | inr fresh ↦ elim (Bool-cases (key_eq str j)) [
      | inl same ↦
          rw (insert-fresh db str id fresh, sound.get-put db str j (store_int id), same) refl
      | inr other ↦
          rw (insert-fresh db str id fresh, sound.get-put db str j (store_int id), other) refl
    ]
  ]

  -- A fingerprint with a container is in the index.
  pub is_found-of-find :
      (db : Db) (k : Key) → find store db k ≢ minus_one → is_found (get db k) ≡ true
  unfolding find
  is_found-of-find db k named = elim (Got-cases db k) [
    | inl (v, there) ↦ rw there refl
    | inr missing ↦ absurd (named (rw (find, missing) refl))
  ]
