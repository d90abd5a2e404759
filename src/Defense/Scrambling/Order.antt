-- ===== src/Defense/Scrambling/Order.antt =====
-- Scrambling prints every chunk, and moves it only inside its segment.
use freqanalysis.Common.{
  ℕ, ◌≤◌, ◌≡◌, refl, sym, ap, ◌∙◌, none, some, List, [], ◌∷◌, ◌++◌, append_assoc, append-nil, leb,
  ok, ◌>>=◌, All, All-append, SameItems, Bool-cases, inl, inr, true, arith, Returns, total,
}
use freqanalysis.Defense.Scrambling.{State, process_seg, add_chunk, read_hashes, main}
use freqanalysis.Defense.Segment.{
  Chunk, ends_segment, scatter, scatter-SameItems, print_chunks, print_chunks-append, title_line,
  chunks_of, HasSize, IsSmall, IsBounded, IsPending, IsPending-first, IsPending-join,
}
use freqanalysis.Trace.Read.{Line, skipped, chunk, read_lines}
use freqanalysis.Trace.Text.{atoi, int_to_u64}

-- A segment as it was read and as it was printed.
pub record Segment : Type 0 where
  pub before : List Chunk
  pub after : List Chunk

abbrev pub all_before : List Segment → List Chunk
all_before [] = []
all_before (g ∷ gs) = g.before ++ all_before gs

abbrev pub all_after : List Segment → List Chunk
all_after [] = []
all_after (g ∷ gs) = g.after ++ all_after gs

-- The printed order is a permutation of the order read, and the segment is not too long.
abbrev pub IsScrambled : Segment → Type 0
IsScrambled g = SameItems g.after g.before × IsBounded g.before

all_before-append : (xs ys : List Segment) → all_before (xs ++ ys) ≡ all_before xs ++ all_before ys
all_before-append [] ys = refl
all_before-append (x ∷ xs) ys = simp (all_before-append xs ys, append_assoc)

all_after-append : (xs ys : List Segment) → all_after (xs ++ ys) ≡ all_after xs ++ all_after ys
all_after-append [] ys = refl
all_after-append (x ∷ xs) ys = simp (all_after-append xs ys, append_assoc)

-- What was printed and what is pending, after the chunks `seen`.
record Progress (s : State) (seen : List Chunk) : Type 0 where
  segments : List Segment
  printed : s.out ≡ title_line ++ print_chunks (all_after segments)
  read : all_before segments ++ s.sq ≡ seen
  scrambled : All IsScrambled segments
  pending : IsPending s.sq s.sq_size

-- The globals when `read_hashes` is called.
abbrev start : State
start = record { sq = []; sq_size = 0; out = title_line; draws = 0 }

module _ (rand : ℕ → ℕ) where
  -- The segment that `process_seg` ends.
  ended : State → Segment
  ended s = record { before = s.sq; after = (scatter rand s.draws s.sq []).0 }

  ended-IsScrambled : (s : State) → IsPending s.sq s.sq_size → IsScrambled (ended s)
  unfolding ended
  ended-IsScrambled s p =
      (λ w. scatter-SameItems rand s.draws s.sq [] w ∙ ap (total w) (append-nil s.sq), p.bounded)

  process_seg-prints :
      (s : State) (gs : List Segment)
      → s.out ≡ title_line ++ print_chunks (all_after gs)
      → (process_seg rand s).out ≡ title_line ++ print_chunks (all_after (gs ++ (ended s ∷ [])))
  unfolding process_seg ended
  process_seg-prints s gs e =
      rw e (simp (all_after-append, print_chunks-append, append_assoc, append-nil))

  all_before-ended :
      (s : State) (gs : List Segment) → all_before (gs ++ (ended s ∷ [])) ≡ all_before gs ++ s.sq
  unfolding ended
  all_before-ended s gs = simp (all_before-append, append-nil)

  add_chunk-Progress :
      (s : State) (c : Chunk) (seen : List Chunk)
      → IsSmall c
      → Progress s seen
      → Progress (add_chunk rand s c) (seen ++ (c ∷ []))
  unfolding add_chunk
  add_chunk-Progress s c seen small p = elim (Bool-cases (ends_segment s.sq_size c.size c.key)) [
    | inl e ↦ rw e (record {
      segments = p.segments ++ (ended s ∷ []);
      printed = unfold process_seg in process_seg-prints s p.segments p.printed;
      read = ap (λ l. l ++ (c ∷ [])) (all_before-ended s p.segments ∙ p.read);
      scrambled =
          All-append IsScrambled p.segments _ p.scrambled (ended-IsScrambled s p.pending, tt);
      pending = IsPending-first c small;
    })
    | inr e ↦ rw e (record {
      segments = p.segments;
      printed = p.printed;
      read =
          sym (append_assoc (all_before p.segments) s.sq (c ∷ [])) ∙ ap (λ l. l ++ (c ∷ [])) p.read;
      scrambled = p.scrambled;
      pending = IsPending-join s.sq s.sq_size c p.pending small e;
    })
  ]

  read_hashes-Progress :
      (lines : List Line) (s : State) (seen : List Chunk)
      → All HasSize lines
      → All IsSmall (chunks_of lines)
      → Progress s seen
      → Returns (read_hashes rand lines s) λ t. Progress t (seen ++ chunks_of lines)
  unfolding read_hashes
  read_hashes-Progress [] s seen sized small p = (s, refl, rw append-nil p)
  read_hashes-Progress (skipped ∷ lines) s seen sized small p =
      read_hashes-Progress lines s seen sized.1 small p
  read_hashes-Progress (chunk hash none ∷ lines) s seen sized small p = absurd sized.0
  read_hashes-Progress (chunk hash (some item) ∷ lines) s seen sized small p =
      let c : Chunk = record { key = hash; size = int_to_u64 (atoi item) } in
      let (t, run, q) =
        read_hashes-Progress lines (add_chunk rand s c) (seen ++ (c ∷ [])) sized.1 small.1
          (add_chunk-Progress s c seen small.0 p) in
      (t, run, rw append_assoc at q)

  start-Progress : Progress start []
  unfolding print_chunks
  start-Progress = record {
    segments = [];
    printed = sym (append-nil title_line);
    read = refl;
    scrambled = tt;
    pending = record { counted = refl; small = omega arith; bounded = inl (omega arith) };
  }

  -- On a trace whose lines all carry a size below 2 ^ 31, scrambling ends normally; the trace falls
  -- into segments, read in order, each of at most `SEG_MAX` bytes or of one chunk, and what is
  -- printed after the title is, segment by segment, a permutation of the chunks read.
  pub main-scrambles :
      (argc : ℕ) (file : List ℕ)
      → 2 ≤ argc
      → All HasSize (read_lines file)
      → All IsSmall (chunks_of (read_lines file))
      → (segments : List Segment) × (main rand argc (some file)
          ≡ ok (title_line ++ print_chunks (all_after segments)))
        × (all_before segments ≡ chunks_of (read_lines file))
        × All IsScrambled segments
  unfolding main
  main-scrambles argc file enough sized small =
      let (t, run, p) =
        read_hashes-Progress (read_lines file) start [] sized small start-Progress in
      let enough' : leb 2 argc ≡ true = ground arith in
      (
        p.segments ++ (ended t ∷ []),
        rw (enough', run, ◌>>=◌) (ap ok (process_seg-prints t p.segments p.printed)),
        all_before-ended t p.segments ∙ p.read,
        All-append IsScrambled p.segments _ p.scrambled (ended-IsScrambled t p.pending, tt),
      )
