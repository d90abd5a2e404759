-- ===== src/Attack/Neighbours/Codec.antt =====
-- The update of a value is the update of the table that it encodes.
use freqanalysis.Common.{
  leb, ◌&&◌, ap, ◌∙◌, ◌^◌, ◌<◌, ◌>>=◌, ℕ, zero, suc, ◌+◌, ◌-◌, ◌*◌, ◌%◌, ◌≡◌, ◌≢◌, refl, sym, true,
  false, Option, none, some, List, [], ◌∷◌, ◌++◌, append_assoc, append-nil, ltb, ◌==◌,
  if◌then◌else◌, length, length-append, take, drop, take-append, drop-append, ok, Bool-cases, inl,
  inr, arith,
}
use freqanalysis.Attack.Neighbours.Table.{Table, IsTable, bump}
use freqanalysis.Attack.Neighbours.{record_size, find_record, replace, update_record, bump_value}
use freqanalysis.Bytes.{
  Key, u64, fp_size, key_eq, store_u64, load_u64, length-store_u64, load-store_u64,
}

-- The bytes of a table.
unfoldable pub encode : Table → List ℕ
encode [] = []
encode ((k, n) ∷ t) = k ++ (store_u64 n ++ encode t)

pub length-encode : (t : Table) → IsTable t → length (encode t) ≡ record_size * length t
unfolding encode
length-encode [] v = refl
length-encode ((k, n) ∷ t) v = omega (
  arith,
  length-append k (store_u64 n ++ encode t),
  length-append (store_u64 n) (encode t),
  length-store_u64 n,
  v.0,
  length-encode t v.1,
)

-- Where the search ends in the table, counted from `pos`.
position : Key → Table → ℕ → Option ℕ
position key [] pos = none
position key ((j, n) ∷ t) pos =
    let later = position key t (pos + record_size) in if key_eq j key then some pos else later

take_key : (j rest : List ℕ) → length j ≡ fp_size → take fp_size (j ++ rest) ≡ j
take_key j rest h = rw (← h) (take-append j rest)

find_record-position :
    (f : ℕ) (key : Key) (before : List ℕ) (t : Table)
    → IsTable t
    → length t < f
    → length before + record_size * length t < 2 ^ 31
    → find_record f key (before ++ encode t) (length before) ≡ ok (position key t (length before))
unfolding find_record position encode
find_record-position zero key before t v h small = absurd (omega arith)
find_record-position (suc f) key before [] v h small =
    let e : ltb (length before) (length (before ++ []) - 1) ≡ false =
      ground (arith, length-append before []) in
    rw e
find_record-position (suc f) key before ((j, n) ∷ t) v h small =
    let rest = store_u64 n ++ encode t in
    let before' = before ++ (j ++ store_u64 n) in
    let split : before ++ (j ++ rest) ≡ before' ++ encode t = simp append_assoc in
    let end : length before + record_size ≡ length before' = omega (
      arith,
      length-append before (j ++ store_u64 n),
      length-append j (store_u64 n),
      length-store_u64 n,
      v.0,
    ) in
    let inside : ltb (length before) (length (before ++ (j ++ rest)) - 1) ≡ true = ground (
      arith,
      length-append before (j ++ rest),
      length-append j rest,
      length-append (store_u64 n) (encode t),
      length-store_u64 n,
      v.0,
    ) in
    let value : List ℕ = before ++ (j ++ rest) in
    let low : (ltb (length before) (2 ^ 31) && leb (length before + fp_size) (length value + 1))
        ≡ true =
      ground (
        arith,
        length-append before (j ++ rest),
        length-append j rest,
        length-append (store_u64 n) (encode t),
        length-store_u64 n,
        v.0,
      ) in
    let next : (length before + record_size) % 2 ^ 32 ≡ length before' = omega (arith, end) in
    let ih = find_record-position f key before' t v.1 (omega arith) (omega (arith, end)) in
    let later = ap (find_record f key (before ++ (j ++ rest))) next ∙ rw split ih in
    elim (Bool-cases (key_eq j key)) [
      | inl same ↦ rw (inside, low, drop-append before (j ++ rest), take_key j rest v.0, same) refl
      | inr other ↦
          rw (inside, low, drop-append before (j ++ rest), take_key j rest v.0, other)
            (later ∙ ap (λ p. ok (position key t p)) (sym end))
    ]

-- The bytes of a counter that stands behind `front` are rewritten in place.
replace-counter :
    (front rest : List ℕ) (p n m : ℕ)
    → length front ≡ p
    → replace (front ++ (store_u64 n ++ rest)) p (store_u64 m) ≡ front ++ (store_u64 m ++ rest)
unfolding replace
replace-counter front rest p n m h =
    let value = front ++ (store_u64 n ++ rest) in
    let ends : p + length (store_u64 m) ≡ length (front ++ store_u64 n) =
      omega (arith, length-append front (store_u64 n), length-store_u64 n, length-store_u64 m) in
    let tail : drop (p + length (store_u64 m)) value ≡ rest =
      rw (ends, ← append_assoc front (store_u64 n) rest)
        (drop-append (front ++ store_u64 n) rest) in
    let head : take p value ≡ front = rw (← h) (take-append front (store_u64 n ++ rest)) in
    rw (head, tail)

update-hit :
    (before j : List ℕ) (key : Key) (n : ℕ) (rest : List ℕ)
    → length j ≡ fp_size
    → length before + fp_size < 2 ^ 31
    → update_record key (before ++ (j ++ (store_u64 n ++ rest))) (some (length before))
      ≡ ok (before ++ (j ++ (store_u64 ((n + 1) % u64) ++ rest)))
unfolding update_record
update-hit before j key n rest h small =
    let whole : List ℕ = before ++ (j ++ (store_u64 n ++ rest)) in
    let low : (ltb (length before + fp_size) (2 ^ 31)
          && leb (length before + record_size) (length whole + 1))
        ≡ true =
      ground (
        arith,
        length-append before (j ++ (store_u64 n ++ rest)),
        length-append j (store_u64 n ++ rest),
        length-append (store_u64 n) rest,
        length-store_u64 n,
        h,
      ) in
    let front = before ++ j in
    let p : length front ≡ length before + fp_size = omega (arith, length-append before j, h) in
    let split : (l : List ℕ) → before ++ (j ++ l) ≡ front ++ l =
      λ l. sym (append_assoc before j l) in
    let value : drop (length before + fp_size) (front ++ (store_u64 n ++ rest))
        ≡ store_u64 n ++ rest =
      rw (← p) (drop-append front (store_u64 n ++ rest)) in
    let icm : (load_u64 (store_u64 n ++ rest) + 1) % u64 ≡ (n + 1) % u64 =
      omega (arith, load-store_u64 n rest) in
    rw (low, split (store_u64 n ++ rest), value, icm, split (store_u64 ((n + 1) % u64) ++ rest))
      (ap ok (replace-counter front rest (length before + fp_size) n ((n + 1) % u64) p))

update-position :
    (key : Key) (before : List ℕ) (t : Table)
    → IsTable t
    → length before + record_size * length t < 2 ^ 31
    → update_record key (before ++ encode t) (position key t (length before))
      ≡ ok (before ++ encode (bump key t))
unfolding update_record position bump encode
update-position key before [] v small = simp append-nil
update-position key before ((j, n) ∷ t) v small =
    let before' = before ++ (j ++ store_u64 n) in
    let end : length before + record_size ≡ length before' = omega (
      arith,
      length-append before (j ++ store_u64 n),
      length-append j (store_u64 n),
      length-store_u64 n,
      v.0,
    ) in
    let split : (l : List ℕ) → before ++ (j ++ (store_u64 n ++ l)) ≡ before' ++ l =
      λ l. simp append_assoc in
    elim (Bool-cases (key_eq j key)) [
      | inl same ↦ rw same (update-hit before j key n (encode t) v.0 (omega arith))
      | inr other ↦
          rw (other, split (encode t), split (encode (bump key t)), end)
            (update-position key before' t v.1 (omega (arith, end)))
    ]

pub encode-bump_nil : (value : Key) → encode (bump value []) ≡ value ++ store_u64 1
unfolding encode bump
encode-bump_nil value = simp append-nil

-- On the bytes of a table that is not empty, that has fewer than 2 ^ 31 bytes (at most 153391689
-- entries) and whose keys have their full length, the search and the update of a neighbour are the
-- update of the table: one more for the neighbour, or a new entry of 1.
pub bump_value-encode :
    (key : Key) (t : Table)
    → t ≢ []
    → IsTable t
    → record_size * length t < 2 ^ 31
    → bump_value key (encode t) ≡ ok (encode (bump key t))
unfolding bump_value
bump_value-encode key [] some_record v small = absurd (some_record refl)
bump_value-encode key (e ∷ t) some_record v small =
    let size = length-encode (e ∷ t) v in
    let filled : (length (encode (e ∷ t)) == 0) ≡ false = ground (arith, size) in
    let found =
      find_record-position (length (encode (e ∷ t))) key [] (e ∷ t) v (omega (arith, size))
        (omega arith) in
    rw (filled, found, ◌>>=◌) (update-position key [] (e ∷ t) v (omega arith))
