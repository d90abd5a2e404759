-- ===== src/Defense/Scrambling.antt =====
pub mod Order
pub mod Counts
-- defense/scrambling/scrambling.cc: each segment is printed in an order that random draws decide.
use freqanalysis.Common.{
  ℕ, ◌+◌, ◌%◌, Option, none, some, List, [], ◌∷◌, ◌++◌, leb, if◌then◌else◌, Run, ok, stop,
  undefined, assertion, ◌>>=◌,
}
use freqanalysis.Bytes.{u64}
use freqanalysis.Defense.Segment.{Chunk, ends_segment, scatter, print_chunks, title_line}
use freqanalysis.Trace.Read.{Line, skipped, chunk, read_lines}
use freqanalysis.Trace.Text.{atoi, int_to_u64}

-- The globals, with what is printed and the number of calls of `rand`.
pub record State : Type 0 where
  pub sq : List Chunk
  pub sq_size : ℕ
  pub out : List ℕ
  pub draws : ℕ

module _ (rand : ℕ → ℕ) where
  unfoldable pub process_seg : State → State
  process_seg s =
      let (deq, draws) = scatter rand s.draws s.sq [] in
      record s { sq = []; out = s.out ++ print_chunks deq; draws = draws }

  -- The chunk ends the segment before it, or joins it.
  unfoldable pub add_chunk : State → Chunk → State
  unfolding process_seg
  add_chunk s c =
      let t =
        if ends_segment s.sq_size c.size c.key then record (process_seg s) { sq_size = 0 } else s in
      record t { sq = t.sq ++ (c ∷ []); sq_size = (t.sq_size + c.size) % u64 }

  -- `atoi` of a null pointer is undefined.
  unfoldable pub read_hashes : List Line → State → Run State
  unfolding add_chunk
  read_hashes [] s = ok s
  read_hashes (skipped ∷ lines) s = read_hashes lines s
  read_hashes (chunk hash none ∷ lines) s = stop undefined
  read_hashes (chunk hash (some item) ∷ lines) s =
      read_hashes lines (add_chunk s (record { key = hash; size = int_to_u64 (atoi item) }))

  -- What the program prints for the file that `argv[1]` names, if it can be opened.
  unfoldable pub main : ℕ → Option (List ℕ) → Run (List ℕ)
  unfolding read_hashes process_seg
  main argc none = stop assertion
  main argc (some file) =
      if leb 2 argc
      then (do
        s ←
            read_hashes (read_lines file)
              (record { sq = []; sq_size = 0; out = title_line; draws = 0 })
        ok (process_seg s).out)
      else stop assertion
