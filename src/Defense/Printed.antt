-- ===== src/Defense/Printed.antt =====
-- A trace that a defense printed, read again: `read_hashes` finds the chunks that were printed.
use freqanalysis.Common.{
  ℕ, zero, suc, ◌+◌, none, Bool-cases, Option-cases, inl, inr, ◌<◌, ◌≤◌, ◌≡◌, refl, ap, ◌∙◌, some,
  List, [], ◌∷◌, ◌++◌, map, length, length-append, All, arith,
}
use freqanalysis.Attack.BasicCount.Frequency.{keys_of}
use freqanalysis.Defense.Printable.{IsPrintable}
use freqanalysis.Defense.Segment.{Chunk, print_chunks, title_line, chunks_of, HasSize, IsSmall}
use freqanalysis.Trace.Print.Characters.{
  IsInner, line_text, line_text-IsInner, length-line_text, print_chunk-line_text,
}
use freqanalysis.Trace.Read.{Line, skipped, chunk, title, parse_hash, parse_line, read_lines}
use freqanalysis.Trace.Read.Fingerprints.{parse_hash-IsFingerprint}
use freqanalysis.Trace.RoundTrip.{parse_line-line_text, size_item, size_item-decimal}
use freqanalysis.Trace.Text.Lines.{IsText, buffers-line}
use freqanalysis.Trace.Text.{buffers, codes, strpbrk, one_of}

-- The lines as the programs see them.
abbrev pub printed_lines : List Chunk → List Line
printed_lines [] = []
printed_lines (c ∷ cs) = chunk c.key (some (size_item c.size)) ∷ printed_lines cs

All-IsText : (s : List ℕ) → All IsInner s → All IsText s
All-IsText [] h = tt
All-IsText (c ∷ s) h = ((h.0.0, h.0.1), All-IsText s h.1)

buffers-print_chunks :
    (f : ℕ) (cs : List Chunk)
    → length (print_chunks cs) ≤ f
    → All IsPrintable cs
    → map parse_line (buffers f (print_chunks cs)) ≡ printed_lines cs
unfolding print_chunks
buffers-print_chunks zero [] enough h = unfold buffers in refl
buffers-print_chunks (suc f) [] enough h = unfold buffers in refl
buffers-print_chunks zero (c ∷ cs) enough h = absurd (
    omega (
      arith,
      ap length (print_chunk-line_text c.key c.size (print_chunks cs)),
      length-append (line_text c.key c.size) (10 ∷ print_chunks cs),
    ))
buffers-print_chunks (suc f) (c ∷ cs) enough h =
    let text = line_text c.key c.size in
    let whole = print_chunk-line_text c.key c.size (print_chunks cs) in
    let size = ap length whole in
    let round =
      buffers-line f text (print_chunks cs)
        (All-IsText text (line_text-IsInner c.key c.size h.0.key.bytes))
        (length-line_text c.key c.size h.0.key.size h.0.size) in
    let rest =
      buffers-print_chunks f cs (omega (arith, size, length-append text (10 ∷ print_chunks cs)))
        h.1 in
    rw (whole, round, parse_line-line_text c.key c.size h.0.key, rest) refl

title_text : List ℕ
title_text =
    codes "Chunk Hash"
    ++ (9 ∷ 9 ∷ 9 ∷ (codes "Chunk Size (bytes)" ++ (9 ∷ codes "Compression Ratio (tenth)")))

title_line-title_text : (rest : List ℕ) → title_line ++ rest ≡ title_text ++ (10 ∷ rest)
unfolding title_line title_text
title_line-title_text rest = refl

title_text-IsText : All IsText title_text
unfolding title_text
title_text-IsText = omega arith

length-title_text : length title_text < 255
unfolding title_text
length-title_text = omega arith

parse_line-title_text : parse_line (title_text ++ (10 ∷ [])) ≡ skipped
unfolding parse_line title_text strpbrk one_of
parse_line-title_text = refl

chunks_of-printed_lines : (cs : List Chunk) → All IsPrintable cs → chunks_of (printed_lines cs) ≡ cs
chunks_of-printed_lines [] h = refl
chunks_of-printed_lines (c ∷ cs) h =
    rw (size_item-decimal c.size h.0.size, chunks_of-printed_lines cs h.1) refl

pub printed_lines-HasSize : (cs : List Chunk) → All HasSize (printed_lines cs)
printed_lines-HasSize [] = tt
printed_lines-HasSize (c ∷ cs) = (tt, printed_lines-HasSize cs)

pub keys_of-printed_lines : (cs : List Chunk) → keys_of (printed_lines cs) ≡ map (λ c. c.key) cs
keys_of-printed_lines [] = refl
keys_of-printed_lines (c ∷ cs) = ap (λ ks. c.key ∷ ks) (keys_of-printed_lines cs)

-- Chunks with fingerprints of six bytes and sizes below 2 ^ 31, printed behind the title line, are
-- read as a skipped line and then one line for each chunk, in order and with no others, from which
-- every program gets the fingerprints and the sizes that were printed.
pub read_lines-print_chunks :
    (cs : List Chunk)
    → All IsPrintable cs
    → (read_lines (title_line ++ print_chunks cs) ≡ skipped ∷ printed_lines cs)
      × (chunks_of (read_lines (title_line ++ print_chunks cs)) ≡ cs)
unfolding read_lines
read_lines-print_chunks cs h = (lines, ap chunks_of lines ∙ chunks_of-printed_lines cs h)
  where
    lines : read_lines (title_line ++ print_chunks cs) ≡ skipped ∷ printed_lines cs
    lines =
        let whole = title_line-title_text (print_chunks cs) in
        let rest = length-append title_text (10 ∷ print_chunks cs) in
        let f = length title_text + length (print_chunks cs) in
        let fuel : length (title_text ++ (10 ∷ print_chunks cs)) ≡ suc f = omega (arith, rest) in
        rw
          (
            whole,
            fuel,
            buffers-line f title_text (print_chunks cs) title_text-IsText length-title_text,
            parse_line-title_text,
            buffers-print_chunks f cs (omega arith) h,
          )
          refl

IsPrintable-chunks_of :
    (read : List (List ℕ))
    → All IsSmall (chunks_of (map parse_line read))
    → All IsPrintable (chunks_of (map parse_line read))
unfolding parse_line
IsPrintable-chunks_of [] h = tt
IsPrintable-chunks_of (b ∷ bs) h = elim (Bool-cases (strpbrk b title)) [
  | inl skip ↦ rw skip (IsPrintable-chunks_of bs (rw skip at h))
  | inr plain ↦ elim (Option-cases (parse_hash b).1) [
    | inl nothing ↦ rw (plain, nothing) (IsPrintable-chunks_of bs (rw (plain, nothing) at h))
    | inr (item, e) ↦
        let h' = rw (plain, e) at h in
        rw (plain, e)
          (record { key = parse_hash-IsFingerprint b; size = h'.0 }, IsPrintable-chunks_of bs h'.1)
  ]
]

-- What is read can be printed.
pub read_lines-IsPrintable :
    (file : List ℕ)
    → All IsSmall (chunks_of (read_lines file))
    → All IsPrintable (chunks_of (read_lines file))
unfolding read_lines
read_lines-IsPrintable file h = IsPrintable-chunks_of (buffers (length file) file) h

pub keys_of-chunks_of :
    (lines : List Line) → All HasSize lines → keys_of lines ≡ map (λ c. c.key) (chunks_of lines)
keys_of-chunks_of [] h = refl
keys_of-chunks_of (skipped ∷ lines) h = keys_of-chunks_of lines h.1
keys_of-chunks_of (chunk hash none ∷ lines) h = absurd h.0
keys_of-chunks_of (chunk hash (some item) ∷ lines) h =
    ap (λ ks. hash ∷ ks) (keys_of-chunks_of lines h.1)
