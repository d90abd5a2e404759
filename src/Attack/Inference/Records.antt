-- ===== src/Attack/Inference/Records.antt =====
-- The neighbours that a value yields: reading the records of an encoded table gives its entries.
use mathlib.Core.Path.{fun_ext}
use freqanalysis.Common.{
  ℕ, zero, suc, ◌≤◌, ◌<◌, ◌≡◌, refl, sym, ap, ◌∙◌, List, [], ◌∷◌, ◌++◌, append_assoc, length, take,
  drop, take-append, drop-append, length-append, All, ◌>>=◌, arith,
}
use freqanalysis.Attack.Neighbours.Codec.{encode}
use freqanalysis.Attack.Neighbours.Table.{Table, IsTable}
use freqanalysis.Attack.Neighbours.{record_size}
use freqanalysis.Attack.Ranking.{Node, insert_records, insert_all, insert_top}
use freqanalysis.Bytes.{Key, fp_size, u64, store_u64, load_u64, length-store_u64, load-store_u64}
use freqanalysis.PriorityQueue.{Extract}

-- The entries of a table as nodes; the counters are numbers below 2 ^ 64.
abbrev pub nodes_of : Table → List Node
nodes_of [] = []
nodes_of ((k, n) ∷ t) = record { key = k; count = n } ∷ nodes_of t

abbrev pub HasCounters : Table → Type 0
HasCounters t = All (λ (e : Key × ℕ). e.1 < u64) t

module _ (extract : Extract Node) where
  -- One record of the bytes is one node.
  insert_records-cons :
      (f k : ℕ) (pq : List Node) (j : Key) (n : ℕ) (bytes : List ℕ)
      → length j ≡ fp_size
      → n < u64
      → insert_records extract (suc f) k pq (j ++ (store_u64 n ++ bytes)) ≡ (
          insert_top extract k pq (record { key = j; count = n }) >>= λ q.
          insert_records extract f k q bytes)
  unfolding insert_records
  insert_records-cons f k pq [] n bytes size small = absurd (omega arith)
  insert_records-cons f k pq (b ∷ j) n bytes size small =
      let all = (b ∷ j) ++ (store_u64 n ++ bytes) in
      let key : take fp_size all ≡ b ∷ j =
        ap (λ m. take m all) (sym size) ∙ take-append (b ∷ j) (store_u64 n ++ bytes) in
      let behind : drop fp_size all ≡ store_u64 n ++ bytes =
        ap (λ m. drop m all) (sym size) ∙ drop-append (b ∷ j) (store_u64 n ++ bytes) in
      let counter : load_u64 (drop fp_size all) ≡ n =
        ap load_u64 behind ∙ omega (arith, load-store_u64 n bytes) in
      let width : record_size ≡ length ((b ∷ j) ++ store_u64 n) =
        omega (arith, length-append (b ∷ j) (store_u64 n), length-store_u64 n, size) in
      let rest : drop record_size all ≡ bytes =
        ap (drop record_size) (sym (append_assoc (b ∷ j) (store_u64 n) bytes))
        ∙ ap (λ m. drop m (((b ∷ j) ++ store_u64 n) ++ bytes)) width
        ∙ drop-append ((b ∷ j) ++ store_u64 n) bytes in
      λ i. insert_top extract k pq (record { key = key i; count = counter i }) >>= λ q.
      insert_records extract f k q (rest i)

  -- Reading the records in the bytes of a table whose keys have their full length and whose
  -- counters fit eight bytes, with fuel for its entries, inserts the entries of the table in order.
  pub insert_records-encode :
      (f k : ℕ) (pq : List Node) (t : Table)
      → length t ≤ f
      → IsTable t
      → HasCounters t
      → insert_records extract f k pq (encode t) ≡ insert_all extract k pq (nodes_of t)
  unfolding encode insert_all insert_records
  insert_records-encode zero k pq [] enough v small = refl
  insert_records-encode (suc f) k pq [] enough v small = refl
  insert_records-encode zero k pq (e ∷ t) enough v small = absurd (omega arith)
  insert_records-encode (suc f) k pq ((j, n) ∷ t) enough v small =
      insert_records-cons f k pq j n (encode t) v.0 small.0
      ∙ ap (λ g. insert_top extract k pq (record { key = j; count = n }) >>= g)
          (fun_ext λ q. insert_records-encode f k q t (omega arith) v.1 small.1)
