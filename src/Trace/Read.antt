-- ===== src/Trace/Read.antt =====
-- The body that every `read_hashes` of the repository begins with: skip a title line, split the
-- line into tokens, and take six bytes as the hash (attack/basic/basic_count.cc).
pub mod Fingerprints
use freqanalysis.Common.{
  ℕ, zero, suc, ◌%◌, Option, none, some, List, [], ◌∷◌, map, if◌then◌else◌, length, replicate,
}
use freqanalysis.Bytes.{Key, fp_size}
use freqanalysis.Trace.Text.{buffers, strpbrk, strtok, strtol}

-- `":\t\n "` for the first call of `strtok`, `":\t\n"` for the others
abbrev pub first_delims : List ℕ
first_delims = 58 ∷ 9 ∷ 10 ∷ 32 ∷ []

abbrev pub next_delims : List ℕ
next_delims = 58 ∷ 9 ∷ 10 ∷ []

-- `"Chunk"`
abbrev pub title : List ℕ
title = 67 ∷ 104 ∷ 117 ∷ 110 ∷ 107 ∷ []

-- The loop `while (item != NULL && idx < FP_SIZE)` with `n = FP_SIZE - idx`: the rest of `hash`,
-- whose unwritten bytes are 0, and the last `item`.
unfoldable pub fill_hash : ℕ → Option (List ℕ × List ℕ) → List ℕ × Option (List ℕ × List ℕ)
unfolding strtok strtol
fill_hash zero item = ([], item)
fill_hash (suc n) none = (replicate (suc n) 0, none)
fill_hash (suc n) (some (item, rest)) =
    let later = fill_hash n (strtok next_delims rest) in (strtol 16 item % 256 ∷ later.0, later.1)

-- `hash` and `item` after the loop; the text behind `item` is kept in the pair.
unfoldable pub parse_hash : List ℕ → Key × Option (List ℕ × List ℕ)
unfolding fill_hash strtok
parse_hash read_buffer = fill_hash fp_size (strtok first_delims read_buffer)

-- One round of the loop as a program sees it: no chunk on a line that `strpbrk` skips.
pub data Line : Type 0 where
  skipped : Line
  chunk : Key → Option (List ℕ) → Line

unfoldable pub parse_line : List ℕ → Line
unfolding parse_hash strpbrk
parse_line read_buffer =
    let parsed = parse_hash read_buffer in
    let item : Option (List ℕ) = elim parsed.1 [ none ↦ none | some (t, _) ↦ some t ] in
    if strpbrk read_buffer title then skipped else chunk parsed.0 item

-- The lines of a file, as the loops over `fgets` go through them.
unfoldable pub read_lines : List ℕ → List Line
unfolding buffers parse_line
read_lines file = map parse_line (buffers (length file) file)
