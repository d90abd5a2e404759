-- ===== src/Attack/LocalityCount/Adjacent.antt =====
-- The neighbours in a trace, and the tables of neighbour counts that they make.
use freqanalysis.Common.{
  ◌*◌, ◌^◌, ℕ, ◌+◌, ◌≡◌, ◌<◌, ◌≤◌, refl, ap, ◌∙◌, List, [], ◌∷◌, if◌then◌else◌, length, to_nat,
  Bool-cases, inl, inr, arith,
}
use freqanalysis.Attack.Neighbours.Table.{Table, bump, count, count-bump}
use freqanalysis.Attack.Neighbours.Names.{neighbour_name}
use freqanalysis.Attack.Neighbours.{record_size}
use freqanalysis.Bytes.{Key, u64, key_eq}

-- Each fingerprint with the one before it; the first has `last` before it.
abbrev pub adjacent : Key → List Key → List (Key × Key)
adjacent last [] = []
adjacent last (k ∷ ks) = (last, k) ∷ adjacent k ks

abbrev pub pairs_of : List Key → List (Key × Key)
pairs_of [] = []
pairs_of (k ∷ ks) = adjacent k ks

-- How many pairs have `k` second and a neighbour stored as `j` first.
abbrev pub left_count : Key → Key → List (Key × Key) → ℕ
left_count j k [] = 0
left_count j k ((p, c) ∷ ps) =
    (if key_eq c k then to_nat (key_eq (neighbour_name p) j) else 0) + left_count j k ps

-- How many pairs have `k` first and a neighbour stored as `j` second.
abbrev pub right_count : Key → Key → List (Key × Key) → ℕ
right_count j k [] = 0
right_count j k ((p, c) ∷ ps) =
    (if key_eq p k then to_nat (key_eq (neighbour_name c) j) else 0) + right_count j k ps

-- One neighbour more in the table of a key.
abbrev pub add_neighbour : (Key → Table) → Key → Key → Key → Table
add_neighbour tables key value k = if key_eq key k then bump value (tables k) else tables k

-- The neighbours to count, each with the key that it is counted under.
abbrev pub tables_of : List (Key × Key) → (Key → Table) → Key → Table
tables_of [] tables = tables
tables_of ((key, value) ∷ es) tables = tables_of es (add_neighbour tables key value)

abbrev pub left_events : List (Key × Key) → List (Key × Key)
left_events [] = []
left_events ((p, c) ∷ ps) = (c, neighbour_name p) ∷ left_events ps

abbrev pub right_events : List (Key × Key) → List (Key × Key)
right_events [] = []
right_events ((p, c) ∷ ps) = (p, neighbour_name c) ∷ right_events ps

event_count : Key → Key → List (Key × Key) → ℕ
event_count j k [] = 0
event_count j k ((key, value) ∷ es) =
    (if key_eq key k then to_nat (key_eq value j) else 0) + event_count j k es

count-add_neighbour :
    (tables : Key → Table) (key value j k : Key)
    → count value (tables k) + 1 < u64
    → count j (add_neighbour tables key value k)
      ≡ (if key_eq key k then to_nat (key_eq value j) else 0) + count j (tables k)
count-add_neighbour tables key value j k h = elim (Bool-cases (key_eq key k)) [
  | inl same ↦ rw same (omega (arith, count-bump value j (tables k) h))
  | inr other ↦ rw other (omega arith)
]

count-tables_of :
    (es : List (Key × Key)) (tables : Key → Table) (m : ℕ) (j k : Key)
    → ((j k : Key) → count j (tables k) ≤ m)
    → m + length es < u64
    → count j (tables_of es tables k) ≡ event_count j k es + count j (tables k)
unfolding event_count
count-tables_of [] tables m j k bound few = omega arith
count-tables_of ((key, value) ∷ es) tables m j k bound few =
    let step : (i l : Key)
        → count i (add_neighbour tables key value l)
          ≡ (if key_eq key l then to_nat (key_eq value i) else 0) + count i (tables l) =
      λ i l. count-add_neighbour tables key value i l (omega (arith, bound value l)) in
    count-tables_of es (add_neighbour tables key value) (m + 1) j k
      (λ i l. ground (arith, step i l, bound i l)) (omega arith)
    ∙ omega (arith, step j k)

event_count-left :
    (j k : Key) (ps : List (Key × Key)) → event_count j k (left_events ps) ≡ left_count j k ps
unfolding event_count
event_count-left j k [] = refl
event_count-left j k ((p, c) ∷ ps) = rw (event_count-left j k ps)

event_count-right :
    (j k : Key) (ps : List (Key × Key)) → event_count j k (right_events ps) ≡ right_count j k ps
unfolding event_count
event_count-right j k [] = refl
event_count-right j k ((p, c) ∷ ps) = rw (event_count-right j k ps)

length-left_events : (ps : List (Key × Key)) → length (left_events ps) ≡ length ps
length-left_events [] = refl
length-left_events ((p, c) ∷ ps) = ap ℕ.suc (length-left_events ps)

length-right_events : (ps : List (Key × Key)) → length (right_events ps) ≡ length ps
length-right_events [] = refl
length-right_events ((p, c) ∷ ps) = ap ℕ.suc (length-right_events ps)

-- From no neighbours, the tables hold the numbers of pairs.
pub count-left_tables :
    (ps : List (Key × Key)) (j k : Key)
    → length ps < u64
    → count j (tables_of (left_events ps) (λ _. []) k) ≡ left_count j k ps
unfolding count
count-left_tables ps j k few =
    count-tables_of (left_events ps) (λ _. []) 0 j k (λ i l. omega arith)
      (omega (arith, length-left_events ps))
    ∙ omega (arith, event_count-left j k ps)

pub count-right_tables :
    (ps : List (Key × Key)) (j k : Key)
    → length ps < u64
    → count j (tables_of (right_events ps) (λ _. []) k) ≡ right_count j k ps
unfolding count
count-right_tables ps j k few =
    count-tables_of (right_events ps) (λ _. []) 0 j k (λ i l. omega arith)
      (omega (arith, length-right_events ps))
    ∙ omega (arith, event_count-right j k ps)

-- The lists of the different neighbours of a fingerprint, in both stores, have fewer than 2 ^ 31 bytes,
-- that is at most 153391689 records, beside those of before.
abbrev pub HasFew : List (Key × Key) → (Key → Table) → (Key → Table) → Type 0
HasFew pairs tl tr =
    (k : Key)
    → (record_size * length (tables_of (left_events pairs) tl k) < 2 ^ 31)
      × (record_size * length (tables_of (right_events pairs) tr k) < 2 ^ 31)

-- Of a trace
abbrev pub HasFewNeighbours : List Key → Type 0
HasFewNeighbours keys = HasFew (pairs_of keys) (λ _. []) (λ _. [])

length-bump :
    (value : Key) (t : Table)
    → (length t ≤ length (bump value t)) × (length (bump value t) ≤ length t + 1)
unfolding bump
length-bump value [] = (omega arith, omega arith)
length-bump value ((j, n) ∷ t) = elim (Bool-cases (key_eq j value)) [
  | inl same ↦ rw same (omega arith, omega arith)
  | inr other ↦
      let (ge, le) = length-bump value t in rw other (omega (arith, ge), omega (arith, le))
]

length-add_neighbour :
    (tables : Key → Table) (key value k : Key)
    → (length (tables k) ≤ length (add_neighbour tables key value k))
      × (length (add_neighbour tables key value k) ≤ length (tables k) + 1)
length-add_neighbour tables key value k = elim (Bool-cases (key_eq key k)) [
  | inl same ↦ rw same (length-bump value (tables k))
  | inr other ↦ rw other (omega arith, omega arith)
]

-- Tables grow, and by at most one entry for a neighbour.
pub length-tables_of :
    (es : List (Key × Key)) (tables : Key → Table) (k : Key)
    → (length (tables k) ≤ length (tables_of es tables k))
      × (length (tables_of es tables k) ≤ length (tables k) + length es)
length-tables_of [] tables k = (omega arith, omega arith)
length-tables_of ((key, value) ∷ es) tables k =
    let (ge, le) = length-add_neighbour tables key value k in
    let (ge', le') = length-tables_of es (add_neighbour tables key value) k in
    (omega (arith, ge, ge'), omega (arith, le, le'))

pub length-adjacent : (last : Key) (ks : List Key) → length (adjacent last ks) ≡ length ks
length-adjacent last [] = refl
length-adjacent last (k ∷ ks) = ap ℕ.suc (length-adjacent k ks)

pub length-pairs_of : (ks : List Key) → length (pairs_of ks) ≤ length ks
length-pairs_of [] = omega arith
length-pairs_of (k ∷ ks) = omega (arith, length-adjacent k ks)

-- A trace of at most 153391689 chunks has no fingerprint with more neighbours.
pub short-HasFewNeighbours :
    (keys : List Key) → record_size * length keys < 2 ^ 31 → HasFewNeighbours keys
short-HasFewNeighbours keys small k =
    let pairs = pairs_of keys in
    (
      omega (
        arith,
        (length-tables_of (left_events pairs) (λ _. []) k).1,
        length-left_events pairs,
        length-pairs_of keys,
      ),
      omega (
        arith,
        (length-tables_of (right_events pairs) (λ _. []) k).1,
        length-right_events pairs,
        length-pairs_of keys,
      ),
    )
