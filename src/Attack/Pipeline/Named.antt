-- ===== src/Attack/Pipeline/Named.antt =====
-- The neighbour stores of a counted trace name only neighbours of the trace.
use freqanalysis.Common.{
  ℕ, ◌≡◌, refl, ap, true, List, [], ◌∷◌, ◌++◌, length, All, Bool-cases, inl, inr, ◌⊎◌, arith,
}
use freqanalysis.Attack.Inference.Loop.{IsNeighbours, Names}
use freqanalysis.Attack.Inference.Records.{HasCounters}
use freqanalysis.Attack.Inference.Universe.{is_in, is_in-append}
use freqanalysis.Attack.LocalityCount.Adjacent.{
  adjacent, pairs_of, add_neighbour, tables_of, left_events, right_events,
}
use freqanalysis.Attack.LocalityCount.Tables.{entry_of, Holds}
use freqanalysis.Attack.Neighbours.Codec.{encode}
use freqanalysis.Attack.Neighbours.Table.{Table, IsTable, bump}
use freqanalysis.Attack.Neighbours.Names.{neighbour_name}
use freqanalysis.Bytes.{Key, key_eq, key_eq_refl}
use freqanalysis.LevelDb.{LevelDb, IsSound, found, not_found}

-- The names of the fingerprints of a trace, as its neighbour stores spell them.
abbrev pub names_of : List Key → List Key
names_of [] = []
names_of (k ∷ ks) = neighbour_name k ∷ names_of ks

pub length-names_of : (ks : List Key) → length (names_of ks) ≡ length ks
length-names_of [] = refl
length-names_of (k ∷ ks) = ap ℕ.suc (length-names_of ks)

-- Each fingerprint of the list is in the universe.
abbrev pub AllNamed : List Key → List Key → Type 0
AllNamed universe ks = All (λ (k : Key). is_in universe (neighbour_name k) ≡ true) ks

AllNamed-skip :
    (u : Key) (universe ks : List Key) → AllNamed universe ks → AllNamed (u ∷ universe) ks
AllNamed-skip u universe [] h = tt
AllNamed-skip u universe (k ∷ ks) h = (ground (arith, h.0), AllNamed-skip u universe ks h.1)

pub names_of-AllNamed : (ks : List Key) → AllNamed (names_of ks) ks
names_of-AllNamed [] = tt
names_of-AllNamed (k ∷ ks) = (
  ground (arith, key_eq_refl (neighbour_name k)),
  AllNamed-skip (neighbour_name k) (names_of ks) ks (names_of-AllNamed ks),
)

pub AllNamed-before :
    (before universe ks : List Key) → AllNamed universe ks → AllNamed (before ++ universe) ks
AllNamed-before [] universe ks h = h
AllNamed-before (u ∷ before) universe ks h =
    AllNamed-skip u (before ++ universe) ks (AllNamed-before before universe ks h)

pub AllNamed-after :
    (universe after ks : List Key) → AllNamed universe ks → AllNamed (universe ++ after) ks
AllNamed-after universe after [] h = tt
AllNamed-after universe after (k ∷ ks) h = (
  ground (arith, is_in-append universe after (neighbour_name k), h.0),
  AllNamed-after universe after ks h.1,
)

-- A table as the inference reads it.
abbrev IsNamed : List Key → Table → Type 0
IsNamed universe t = HasCounters t × Names universe t

bump-IsNamed :
    (universe : List Key) (key : Key) (t : Table)
    → is_in universe key ≡ true
    → IsNamed universe t
    → IsNamed universe (bump key t)
unfolding bump
bump-IsNamed universe key [] known h = ((omega arith, tt), (known, tt))
bump-IsNamed universe key ((j, n) ∷ t) known (small, names) =
    let (rest_small, rest_names) = bump-IsNamed universe key t known (small.1, names.1) in
    elim (Bool-cases (key_eq j key)) [
      | inl same ↦ rw same ((omega arith, small.1), names)
      | inr other ↦ rw other ((small.0, rest_small), (names.0, rest_names))
    ]

-- The neighbours to count are named.
abbrev pub AreNamed : List Key → List (Key × Key) → Type 0
AreNamed universe es = All (λ (e : Key × Key). is_in universe e.1 ≡ true) es

tables_of-IsNamed :
    (universe : List Key) (es : List (Key × Key)) (tables : Key → Table)
    → AreNamed universe es
    → ((k : Key) → IsNamed universe (tables k))
    → (k : Key) → IsNamed universe (tables_of es tables k)
tables_of-IsNamed universe [] tables known h k = h k
tables_of-IsNamed universe ((key, value) ∷ es) tables known h k =
    tables_of-IsNamed universe es (add_neighbour tables key value) known.1 step k
  where
    step : (j : Key) → IsNamed universe (add_neighbour tables key value j)
    step j = elim (Bool-cases (key_eq key j)) [
      | inl same ↦ rw same (bump-IsNamed universe value (tables j) known.0 (h j))
      | inr other ↦ rw other (h j)
    ]

left_events-AreNamed :
    (universe : List Key) (last : Key) (ks : List Key)
    → AllNamed universe (last ∷ ks)
    → AreNamed universe (left_events (adjacent last ks))
left_events-AreNamed universe last [] h = tt
left_events-AreNamed universe last (k ∷ ks) h = (h.0, left_events-AreNamed universe k ks h.1)

right_events-AreNamed :
    (universe : List Key) (last : Key) (ks : List Key)
    → AllNamed universe ks
    → AreNamed universe (right_events (adjacent last ks))
right_events-AreNamed universe last [] h = tt
right_events-AreNamed universe last (k ∷ ks) h = (h.0, right_events-AreNamed universe k ks h.1)

pub left_tables-AreNamed :
    (universe ks : List Key) → AllNamed universe ks → AreNamed universe (left_events (pairs_of ks))
left_tables-AreNamed universe [] h = tt
left_tables-AreNamed universe (k ∷ ks) h = left_events-AreNamed universe k ks h

pub right_tables-AreNamed :
    (universe ks : List Key) → AllNamed universe ks → AreNamed universe (right_events (pairs_of ks))
right_tables-AreNamed universe [] h = tt
right_tables-AreNamed universe (k ∷ ks) h = right_events-AreNamed universe k ks h.1

module _ (store : LevelDb) (sound : IsSound store) where
  open store use {Db, get}

  -- A store that holds the tables of named neighbours is one that the inference can read.
  pub tables_of-IsNeighbours :
      (universe : List Key) (es : List (Key × Key)) (db : Db)
      → AreNamed universe es
      → Holds store sound db (tables_of es (λ _. []))
      → IsNeighbours store universe db
  tables_of-IsNeighbours universe es db known holds k =
      go (tables_of es (λ _. []) k) (holds k).0 (holds k).1
        (tables_of-IsNamed universe es (λ _. []) known (λ j. (tt, tt)) k)
    where
      go :
          (t : Table)
          → get db k ≡ entry_of t
          → IsTable t
          → IsNamed universe t
          → (get db k ≡ not_found)
            ⊎ (t : Table) × (get db k ≡ found (encode t))
              × IsTable t
              × HasCounters t
              × Names universe t
      go [] e v h = inl e
      go (r ∷ t) e v h = inr (r ∷ t, e, v, h.0, h.1)
