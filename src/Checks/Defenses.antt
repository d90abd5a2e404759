-- ===== src/Checks/Defenses.antt =====
-- The defenses on a trace of three chunks.
use freqanalysis.Common.{
  ℕ, ◌+◌, ◌≡◌, ◌≢◌, refl, some, List, [], ◌∷◌, ◌++◌, ok, stop, undefined, All, SameItems, arith,
  sym, ◌∙◌, ◌*◌, ◌==◌,
}
use freqanalysis.Bytes.{Key}
use freqanalysis.Checks.Queues.{take_first, take_first-IsSingleQueue}
use freqanalysis.Checks.Store.{memory, memory-IsSound, lookup}
use freqanalysis.LevelDb.{not_found}
use freqanalysis.Defense.Combined
use freqanalysis.Defense.Combined.Encryption.{main-scrambles-IsEncrypted, main-undefined_combined}
use freqanalysis.Defense.Hashing.Progress.{
  Segment, all_before, all_ciphers, all_recorded, Fits, IsEncrypted,
}
use freqanalysis.Defense.MinHash
use freqanalysis.Defense.MinHash.Encryption.{main-encrypts, main-undefined}
use freqanalysis.Defense.Scrambling
use freqanalysis.Defense.Scrambling.Order
use freqanalysis.Defense.Scrambling.Order.{main-scrambles, IsScrambled, all_after}
use freqanalysis.Defense.Segment.{
  Chunk, print_chunks, title_line, chunks_of, HasSize, IsSmall, low_bits_set, low_bits_set_lem,
}
use freqanalysis.Trace.Read.{skipped, read_lines}
use freqanalysis.Trace.Text.{codes, atoi, int_to_u64}

-- A line of a trace, with tabs and a newline.
abbrev line : List ℕ → List ℕ → List ℕ
line key size = key ++ (9 ∷ 9 ∷ (size ++ (10 ∷ [])))

abbrev pub trace : List ℕ
trace =
    codes "Chunk Hash"
    ++ (10 ∷ [])
    ++ line (codes "0a:1b:2c:3d:4e:5f") (codes "4096")
    ++ line (codes "00:11:22:33:44:3f") (codes "8192")
    ++ line (codes "0a:1b:2c:3d:4e:5f") (codes "4096")

abbrev pub first_chunk : Chunk
first_chunk = record { key = 10 ∷ 27 ∷ 44 ∷ 61 ∷ 78 ∷ 95 ∷ []; size = 4096 }

abbrev pub second_chunk : Chunk
second_chunk = record { key = 0 ∷ 17 ∷ 34 ∷ 51 ∷ 68 ∷ 63 ∷ []; size = 8192 }

-- The title line is skipped, and three chunks are read.
pub trace_chunks : chunks_of (read_lines trace) ≡ first_chunk ∷ second_chunk ∷ first_chunk ∷ []
unfolding read_lines atoi int_to_u64
trace_chunks = refl

pub trace-HasSize : All HasSize (read_lines trace)
unfolding read_lines
trace-HasSize = (tt, (tt, (tt, (tt, tt))))

pub trace-IsSmall : All IsSmall (chunks_of (read_lines trace))
trace-IsSmall = rw trace_chunks (omega arith, (omega arith, (omega arith, tt)))

pub trace-Fits : All Fits (chunks_of (read_lines trace))
trace-Fits = rw trace_chunks (omega arith, (omega arith, (omega arith, tt)))

pub trace_nonempty : chunks_of (read_lines trace) ≢ []
trace_nonempty =
    λ e. let e' : first_chunk ∷ second_chunk ∷ first_chunk ∷ [] ≡ [] = sym trace_chunks ∙ e in cc e'

-- A file with a title line and no chunk.
abbrev title_only : List ℕ
title_only = codes "Chunk Hash" ++ (10 ∷ [])

title_only_skipped : All (λ l. l ≡ skipped) (read_lines title_only)
unfolding read_lines
title_only_skipped = (refl, tt)

abbrev pub draws : ℕ → ℕ
draws n = n * 7 + 3

-- A digest that is easy to compute.
abbrev reversed : List ℕ → List ℕ
reversed [] = []
reversed (x ∷ xs) = reversed xs ++ (x ∷ [])

low_bits_set_lem_example : low_bits_set 191 ≡ (191 == 63)
low_bits_set_lem_example = low_bits_set_lem 191 (omega arith)

main-scrambles_example :
    (segments : List Order.Segment) × (Scrambling.main draws 2 (some trace)
      ≡ ok (title_line ++ print_chunks (all_after segments)))
    × (Order.all_before segments ≡ chunks_of (read_lines trace))
    × All IsScrambled segments
main-scrambles_example = main-scrambles draws 2 trace (omega arith) trace-HasSize trace-IsSmall

main-encrypts_example :
    (segments : List Segment) × (truth : List (Key × List ℕ)) × (MinHash.main memory reversed draws
        take_first 2
        (some trace)
        (some [])
      ≡ ok (title_line ++ print_chunks (all_ciphers reversed segments), truth))
    × (all_before segments ≡ chunks_of (read_lines trace))
    × All (IsEncrypted ◌≡◌) segments
    × ((j : Key) → lookup truth j ≡ all_recorded reversed segments j not_found)
unfolding lookup
main-encrypts_example =
    main-encrypts memory memory-IsSound reversed draws take_first take_first-IsSingleQueue 2 trace
      [] (omega arith) trace-HasSize trace-Fits trace_nonempty

main-scrambles-IsEncrypted_example :
    (segments : List Segment) × (truth : List (Key × List ℕ)) × (Combined.main memory reversed draws
        take_first 2
        (some trace)
        (some [])
      ≡ ok (title_line ++ print_chunks (all_ciphers reversed segments), truth))
    × (all_before segments ≡ chunks_of (read_lines trace))
    × All (IsEncrypted SameItems) segments
    × ((j : Key) → lookup truth j ≡ all_recorded reversed segments j not_found)
unfolding lookup
main-scrambles-IsEncrypted_example =
    main-scrambles-IsEncrypted memory memory-IsSound reversed draws take_first
      take_first-IsSingleQueue 2 trace [] (omega arith) trace-HasSize trace-Fits trace_nonempty

main-undefined_example :
    MinHash.main memory reversed draws take_first 2 (some title_only) (some []) ≡ stop undefined
main-undefined_example =
    main-undefined memory memory-IsSound reversed draws take_first take_first-IsSingleQueue 2
      title_only [] (omega arith) title_only_skipped

main-undefined_combined_example :
    Combined.main memory reversed draws take_first 2 (some title_only) (some []) ≡ stop undefined
main-undefined_combined_example =
    main-undefined_combined memory memory-IsSound reversed draws take_first take_first-IsSingleQueue
      2 title_only [] (omega arith) title_only_skipped
