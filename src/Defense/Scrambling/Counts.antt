-- ===== src/Defense/Scrambling/Counts.antt =====
-- Scrambling hides no frequency: counting the printed trace gives what counting the trace gives.
use freqanalysis.Common.{
  ℕ, ◌<◌, ◌≤◌, ◌≡◌, refl, sym, ap, ◌∙◌, some, List, [], ◌∷◌, ◌++◌, map, length, All, ok, SameItems,
  total, total-append, to_nat, arith,
}
use freqanalysis.Attack.BasicCount.Frequency.{keys_of, occurrences, entry, main-counts}
use freqanalysis.Attack.BasicCount
use freqanalysis.Bytes.{Key, key_eq, u64}
use freqanalysis.Defense.Printable.{IsPrintable-SameItems}
use freqanalysis.Defense.Printed.{
  keys_of-printed_lines, read_lines-print_chunks, read_lines-IsPrintable, keys_of-chunks_of,
}
use freqanalysis.Defense.Scrambling.Order.{
  Segment, all_before, all_after, IsScrambled, main-scrambles,
}
use freqanalysis.Defense.Scrambling
use freqanalysis.Defense.Segment.{Chunk, chunks_of, HasSize, IsSmall, print_chunks, title_line}
use freqanalysis.LevelDb.{LevelDb, IsSound, not_found}
use freqanalysis.Trace.Read.{read_lines}

all_after-SameItems :
    (gs : List Segment) → All IsScrambled gs → SameItems (all_after gs) (all_before gs)
all_after-SameItems [] h w = refl
all_after-SameItems (g ∷ gs) h w = omega (
  arith,
  total-append w g.after (all_after gs),
  total-append w g.before (all_before gs),
  h.0.0 w,
  all_after-SameItems gs h.1 w,
)

abbrev has_key : Key → Chunk → ℕ
has_key k c = to_nat (key_eq c.key k)

occurrences-total :
    (k : Key) (cs : List Chunk) → occurrences k (map (λ c. c.key) cs) ≡ total (has_key k) cs
occurrences-total k [] = refl
occurrences-total k (c ∷ cs) = omega (arith, occurrences-total k cs)

length-keys : (cs : List Chunk) → length (map (λ (c : Chunk). c.key) cs) ≡ total (λ _. 1) cs
length-keys [] = refl
length-keys (c ∷ cs) = omega (arith, length-keys cs)

-- What a printed trace holds, beside the trace it was made from.
record SameCounts (out file : List ℕ) : Type 0 where
  occur :
      (k : Key)
      → occurrences k (keys_of (read_lines out)) ≡ occurrences k (keys_of (read_lines file))
  number : length (keys_of (read_lines out)) ≡ length (keys_of (read_lines file))

printed-SameCounts :
    (cs : List Chunk) (file : List ℕ)
    → SameItems cs (chunks_of (read_lines file))
    → All HasSize (read_lines file)
    → All IsSmall (chunks_of (read_lines file))
    → SameCounts (title_line ++ print_chunks cs) file
printed-SameCounts cs file same sized small =
    let original = chunks_of (read_lines file) in
    let printable = IsPrintable-SameItems cs original same (read_lines-IsPrintable file small) in
    let keys_out : keys_of (read_lines (title_line ++ print_chunks cs)) ≡ map (λ c. c.key) cs =
      ap keys_of (read_lines-print_chunks cs printable).0 ∙ keys_of-printed_lines cs in
    let keys_in = keys_of-chunks_of (read_lines file) sized in
    record {
      occur = λ k.
          ap (occurrences k) keys_out
          ∙ occurrences-total k cs
          ∙ same (has_key k)
          ∙ sym (ap (occurrences k) keys_in ∙ occurrences-total k original);
      number =
          ap length keys_out
          ∙ length-keys cs
          ∙ same (λ _. 1)
          ∙ sym (ap length keys_in ∙ length-keys original);
    }

module _ (store : LevelDb) (sound : IsSound store) (rand : ℕ → ℕ) where
  open store use {Db, get}

  -- On a trace of fewer than 2 ^ 64 chunks whose lines all carry a size below 2 ^ 31, on a store
  -- without errors and from an empty store, scrambling ends normally, and `basic_count` of its
  -- output leaves under every fingerprint what `basic_count` of the trace itself leaves.
  pub main-keeps_counts :
      (argc : ℕ) (file : List ℕ) (db : Db)
      → 2 ≤ argc
      → All HasSize (read_lines file)
      → All IsSmall (chunks_of (read_lines file))
      → ((j : Key) → get db j ≡ not_found)
      → length (keys_of (read_lines file)) < u64
      → (out : List ℕ) × (counted : Db) × (recounted : Db) × (Scrambling.main rand argc (some file)
          ≡ ok out)
        × (BasicCount.main store (some (some db)) (some file) ≡ ok counted)
        × (BasicCount.main store (some (some db)) (some out) ≡ ok recounted)
        × ((k : Key) → get recounted k ≡ get counted k)
  main-keeps_counts argc file db enough sized small empty few =
      let (gs, run, read, scrambled) = main-scrambles rand argc file enough sized small in
      let out = title_line ++ print_chunks (all_after gs) in
      let same =
        printed-SameCounts (all_after gs) file
          (λ w. all_after-SameItems gs scrambled w ∙ ap (total w) read) sized small in
      let (counted, count, entries) = main-counts store sound db file empty few in
      let (recounted, recount, entries') =
        main-counts store sound db out empty (omega (arith, same.number)) in
      (
        out,
        counted,
        recounted,
        run,
        count,
        recount,
        λ k. entries' k ∙ ap entry (same.occur k) ∙ sym (entries k),
      )
