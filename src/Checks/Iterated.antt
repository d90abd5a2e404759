-- ===== src/Checks/Iterated.antt =====
-- The store in memory with an iterator that visits each key once.
use freqanalysis.Common.{ℕ, ◌≡◌, refl, List, [], ◌∷◌, if◌then◌else◌, to_nat, total, arith}
use freqanalysis.Bytes.{Key, key_eq, eq_of_key_eq, key_eq_refl}
use freqanalysis.Checks.Store.{memory, memory-IsSound, lookup, remove}
use freqanalysis.LevelDb.{LevelDb, IsSound, IsListed, is_found}

-- The first entry of each key.
unfoldable pub tidy : List (Key × List ℕ) → List (Key × List ℕ)
unfolding remove
tidy [] = []
tidy ((j, v) ∷ d) = (j, v) ∷ remove (tidy d) j

abbrev pub iterated : LevelDb
iterated = record memory { entries = tidy }

pub iterated-IsSound : IsSound iterated
iterated-IsSound = record {
  put_ok = memory-IsSound.put_ok;
  get-put = memory-IsSound.get-put;
  get-delete = memory-IsSound.get-delete;
  get_works = memory-IsSound.get_works;
}

abbrev at_key : Key → Key × List ℕ → ℕ
at_key k e = to_nat (key_eq k e.0)

total-remove :
    (d : List (Key × List ℕ)) (j k : Key)
    → total (at_key k) (remove d j) ≡ (if key_eq j k then 0 else total (at_key k) d)
unfolding remove
total-remove [] j k = ground arith
total-remove ((i, v) ∷ d) j k = ground (
  arith,
  total-remove d j k,
  eq_of_key_eq i j,
  eq_of_key_eq j k,
  eq_of_key_eq k i,
  key_eq_refl i,
  key_eq_refl j,
  key_eq_refl k,
)

total-tidy :
    (d : List (Key × List ℕ)) (k : Key) → total (at_key k) (tidy d) ≡ to_nat (is_found (lookup d k))
unfolding tidy lookup
total-tidy [] k = refl
total-tidy ((j, v) ∷ d) k = ground (
  arith,
  total-tidy d k,
  total-remove (tidy d) j k,
  eq_of_key_eq j k,
  eq_of_key_eq k j,
  key_eq_refl k,
)

pub iterated-IsListed : IsListed iterated
iterated-IsListed = record { visits = total-tidy }
