-- ===== src/Attack/Neighbours/Table.antt =====
-- The abstract view of a value: a table from fingerprints to counters.
use freqanalysis.Common.{
  ℕ, ◌+◌, ◌%◌, ◌≡◌, ◌<◌, List, [], ◌∷◌, if◌then◌else◌, length, to_nat, All, arith,
}
use freqanalysis.Bytes.{Key, u64, key_eq, key_eq_refl, eq_of_key_eq, fp_size}

abbrev pub Table : Type 0
Table = List (Key × ℕ)

unfoldable pub bump : Key → Table → Table
bump key [] = (key, 1) ∷ []
bump key ((j, n) ∷ t) =
    let rest = bump key t in if key_eq j key then (j, (n + 1) % u64) ∷ t else (j, n) ∷ rest

unfoldable pub count : Key → Table → ℕ
count key [] = 0
count key ((j, n) ∷ t) = let rest = count key t in if key_eq j key then n else rest

-- The keys of a table have their full length.
abbrev pub IsTable : Table → Type 0
IsTable t = All (λ (e : Key × ℕ). length e.0 ≡ fp_size) t

pub bump-IsTable : (key : Key) (t : Table) → length key ≡ fp_size → IsTable t → IsTable (bump key t)
unfolding bump
bump-IsTable key [] h v = (h, tt)
bump-IsTable key ((j, n) ∷ t) h v = ground (arith, bump-IsTable key t h v.1)

-- The counter of the key goes up by one, and no other changes.
pub count-bump :
    (key k : Key) (t : Table)
    → count key t + 1 < u64
    → count k (bump key t) ≡ count k t + to_nat (key_eq key k)
unfolding count bump
count-bump key k [] h = ground arith
count-bump key k ((j, n) ∷ t) h = ground (
  arith,
  eq_of_key_eq j key,
  eq_of_key_eq j k,
  eq_of_key_eq key k,
  key_eq_refl key,
  key_eq_refl j,
  count-bump key k t,
)
