-- ===== src/Checks/Store.antt =====
-- A store in memory that meets the laws asked of LevelDB.
use freqanalysis.Common.{
  ℕ, ◌≡◌, ◌≢◌, refl, true, List, [], ◌∷◌, if◌then◌else◌, Bool-cases, inl, inr, arith,
}
use freqanalysis.Bytes.{Key, key_eq, eq_of_key_eq, key_eq_refl}
use freqanalysis.LevelDb.{LevelDb, IsSound, Got, found, not_found, failed}

unfoldable pub lookup : List (Key × List ℕ) → Key → Got
lookup [] k = not_found
lookup ((j, v) ∷ d) k = let rest = lookup d k in if key_eq j k then found v else rest

unfoldable pub remove : List (Key × List ℕ) → Key → List (Key × List ℕ)
remove [] k = []
remove ((j, v) ∷ d) k = let rest = remove d k in if key_eq j k then rest else (j, v) ∷ rest

abbrev pub memory : LevelDb
memory = record {
  Db = List (Key × List ℕ);
  get = lookup;
  put = λ d k v. ((k, v) ∷ remove d k, true);
  delete = remove;
  entries = λ d. d;
}

lookup-remove :
    (d : List (Key × List ℕ)) (k j : Key)
    → lookup (remove d k) j ≡ (if key_eq k j then not_found else lookup d j)
unfolding lookup remove
lookup-remove [] k j = ground arith
lookup-remove ((i, v) ∷ d) k j = ground (
  arith,
  lookup-remove d k j,
  eq_of_key_eq i k,
  eq_of_key_eq i j,
  eq_of_key_eq k j,
  key_eq_refl k,
  key_eq_refl j,
)

lookup-put :
    (d : List (Key × List ℕ)) (k j : Key) (v : List ℕ)
    → lookup ((k, v) ∷ remove d k) j ≡ (if key_eq k j then found v else lookup d j)
unfolding lookup
lookup-put d k j v = ground (arith, lookup-remove d k j)

lookup_works : (d : List (Key × List ℕ)) (k : Key) → lookup d k ≢ failed
unfolding lookup
lookup_works [] k = λ e. cc
lookup_works ((j, v) ∷ d) k = elim (Bool-cases (key_eq j k)) [
  | inl same ↦ λ e. ground arith
  | inr other ↦ λ e. ground (arith, lookup_works d k)
]

pub memory-IsSound : IsSound memory
memory-IsSound = record {
  put_ok = λ d k v. refl;
  get-put = lookup-put;
  get-delete = lookup-remove;
  get_works = lookup_works;
}
