-- ===== src/LevelDb.antt =====
-- LevelDB as the programs use it. Its code is a copy of another project (util/leveldb), so the
-- store is a parameter: its calls, and the laws that its documentation states of them.
use freqanalysis.Common.{ℕ, ◌≡◌, ◌≢◌, Bool, true, false, List, if◌then◌else◌, to_nat, total}
use freqanalysis.Bytes.{Key, key_eq}

-- The `Status` and the value of `Get`.
pub data Got : Type 0 where
  found : List ℕ → Got
  not_found failed : Got

-- `put` also returns `status.ok()`; no program reads the status of `Delete`. `entries` is the
-- order of an iterator from `SeekToFirst`.
pub record LevelDb : Type 1 where
  pub Db : Type 0
  pub get : Db → Key → Got
  pub put : Db → Key → List ℕ → Db × Bool
  pub delete : Db → Key → Db
  pub entries : Db → List (Key × List ℕ)

-- A store without input or output errors.
pub record IsSound (store : LevelDb) : Type 0 where
  pub put_ok : (d : store.Db) (k : Key) (v : List ℕ) → (store.put d k v).1 ≡ true
  pub get-put :
      (d : store.Db) (k j : Key) (v : List ℕ)
      → store.get (store.put d k v).0 j ≡ (if key_eq k j then found v else store.get d j)
  pub get-delete :
      (d : store.Db) (k j : Key)
      → store.get (store.delete d k) j ≡ (if key_eq k j then not_found else store.get d j)
  pub get_works : (d : store.Db) (k : Key) → store.get d k ≢ failed

-- `Get` found the key.
abbrev pub is_found : Got → Bool
is_found (found v) = true
is_found not_found = false
is_found failed = false

-- An iterator visits each key of the store once, and no other.
pub record IsListed (store : LevelDb) : Type 0 where
  pub visits :
      (d : store.Db) (k : Key)
      → total (λ e. to_nat (key_eq k e.0)) (store.entries d) ≡ to_nat (is_found (store.get d k))
