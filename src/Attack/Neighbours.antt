-- ===== src/Attack/Neighbours.antt =====
-- The values of the left and right stores: records of a fingerprint and an eight-byte counter, one
-- behind another (the searches and updates of attack/locality/locality_count.cc).
pub mod Names
pub mod Codec
pub mod Table
use freqanalysis.Common.{
  ℕ, zero, suc, ◌+◌, ◌-◌, ◌%◌, ◌^◌, Option, none, some, List, [], ◌∷◌, ◌++◌, ltb, leb, ◌&&◌, ◌==◌,
  if◌then◌else◌, length, take, drop, replicate, Run, ok, stop, undefined, out_of_fuel, ◌>>=◌,
}
use freqanalysis.Bytes.{Key, u64, fp_size, key_eq, store_u64, load_u64}
use freqanalysis.Trace.Text.{c_string}

-- `FP_SIZE + sizeof(uint64_t)`
abbrev pub record_size : ℕ
record_size = fp_size + 8

-- `resize(FP_SIZE)`
abbrev pub resized : List ℕ → Key
resized text = take fp_size (text ++ replicate (fp_size - length text) 0)

-- `last_value.assign(last); last_value.resize(FP_SIZE)`: the text up to a zero byte, filled up with
-- zeros. Without a zero byte `assign` reads on behind the array: that is undefined (`none`), except
-- in a memory where `behind` are the bytes that stand there.
unfoldable pub neighbour_key : Option (List ℕ) → Key → Run Key
unfolding c_string
neighbour_key behind last =
    let text = c_string last in
    let over_read : Run Key = elim behind [
      | none ↦ stop undefined
      | some bytes ↦ ok (resized (text ++ c_string bytes))
    ] in
    if ltb (length text) fp_size then ok (resized text) else over_read

-- The search `while ((unsigned int)pos < existing_value.size()-1)`, from the bit pattern `pos` of an
-- `int`. It is undefined to read before the value, at a negative `pos`, or behind the zero byte that
-- ends it. Fuel for the length is enough.
unfoldable pub find_record : ℕ → Key → List ℕ → ℕ → Run (Option ℕ)
find_record zero key value pos = stop out_of_fuel
find_record (suc f) key value pos =
    let later = find_record f key value ((pos + record_size) % 2 ^ 32) in
    let here : Run (Option ℕ) =
      if key_eq (take fp_size (drop pos value)) key then ok (some pos) else later in
    if ltb pos (length value - 1)
    then (if ltb pos (2 ^ 31) && leb (pos + fp_size) (length value + 1)
        then here
        else stop undefined)
    else ok none

-- `existing_value.replace(pos, t.size(), t)`
unfoldable pub replace : List ℕ → ℕ → List ℕ → List ℕ
replace value pos t = take pos value ++ (t ++ drop (pos + length t) value)

-- The branches `xi == 0` and `xi == 1`; `pos+FP_SIZE` is an `int` and must not overflow, and the
-- counter must stand in the value.
unfoldable pub update_record : Key → List ℕ → Option ℕ → Run (List ℕ)
unfolding replace
update_record key value none = ok (value ++ (key ++ store_u64 1))
update_record key value (some pos) =
    let icm = (load_u64 (drop (pos + fp_size) value) + 1) % u64 in
    if ltb (pos + fp_size) (2 ^ 31) && leb (pos + record_size) (length value + 1)
    then ok (replace value (pos + fp_size) (store_u64 icm))
    else stop undefined

-- The value with one more for `key`. On an empty value `size()-1` wraps, and the search reads
-- outside it.
unfoldable pub bump_value : Key → List ℕ → Run (List ℕ)
unfolding find_record update_record
bump_value key value =
    if length value == 0
    then stop undefined
    else find_record (length value) key value 0 >>= update_record key value
