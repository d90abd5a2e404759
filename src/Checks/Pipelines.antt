-- ===== src/Checks/Pipelines.antt =====
-- The programs one after another, on a trace of three chunks.
use freqanalysis.Common.{
  ℕ, zero, suc, ◌+◌, ◌*◌, ◌%◌, ◌<◌, ◌≤◌, ◌≡◌, refl, ap, some, List, [], ◌∷◌, ◌++◌, ok, All, length,
  arith,
}
use freqanalysis.Attack.BasicCount
use freqanalysis.Attack.LocalityAttack
use freqanalysis.Attack.LocalityAttack.{print_from_back}
use freqanalysis.Attack.LocalityCount
use freqanalysis.Attack.Pipeline.Attacked
use freqanalysis.Attack.Pipeline.Attacked.{stores_of, main-attacks_traces}
use freqanalysis.Attack.Pipeline.Encrypted.{Experiment}
use freqanalysis.Attack.Pipeline.Experiments.{main-attacks_minhash, main-attacks_combined}
use freqanalysis.Attack.Pipeline.Truth.{IsDigest}
use freqanalysis.Attack.Ranking.{Node}
use freqanalysis.Bytes.{Key, u64}
use freqanalysis.Checks.Attacks.{trace-HasFewNeighbours, trace_keys, lookup_empty}
use freqanalysis.Checks.Defenses.{
  trace, draws, first_chunk, second_chunk, trace_chunks, trace-HasSize, trace-IsSmall, trace-Fits,
  trace_nonempty,
}
use freqanalysis.Checks.Inferences.{limits, leakage, zeros}
use freqanalysis.Checks.Iterated.{iterated, iterated-IsSound, iterated-IsListed}
use freqanalysis.Checks.Queues.{
  take_first, take_first-IsSingleQueue, take_least, take_least-IsPriorityQueue,
}
use freqanalysis.Checks.Store.{memory, memory-IsSound, lookup}
use freqanalysis.Defense.Combined
use freqanalysis.Defense.MinHash
use freqanalysis.Defense.Printable.{IsPrintable}
use freqanalysis.Defense.Printed.{printed_lines, read_lines-print_chunks}
use freqanalysis.Defense.Scrambling
use freqanalysis.Defense.Scrambling.Counts.{main-keeps_counts}
use freqanalysis.Defense.Segment.{Chunk, chunks_of, print_chunks, title_line}
use freqanalysis.Trace.Read.{skipped, read_lines}

-- Sixteen bytes that depend on the text.
abbrev sums : ℕ → ℕ → List ℕ → List ℕ
sums zero acc s = []
sums (suc n) acc [] = acc % 256 ∷ sums n (acc * 5 + n) []
sums (suc n) acc (c ∷ s) = (acc + c) % 256 ∷ sums n (acc * 3 + c) s

abbrev digest : List ℕ → List ℕ
digest s = sums 16 7 s

length-sums : (n acc : ℕ) (s : List ℕ) → length (sums n acc s) ≡ n
length-sums zero acc s = refl
length-sums (suc n) acc [] = ap ℕ.suc (length-sums n (acc * 5 + n) [])
length-sums (suc n) acc (c ∷ s) = ap ℕ.suc (length-sums n (acc * 3 + c) s)

sums-bytes : (n acc : ℕ) (s : List ℕ) → All (λ b. b < 256) (sums n acc s)
sums-bytes zero acc s = tt
sums-bytes (suc n) acc [] = (omega arith, sums-bytes n (acc * 5 + n) [])
sums-bytes (suc n) acc (c ∷ s) = (omega arith, sums-bytes n (acc * 3 + c) s)

digest-IsDigest : IsDigest digest
digest-IsDigest = record { size = λ s. length-sums 16 7 s; bytes = λ s. sums-bytes 16 7 s }

first_chunk-IsPrintable : IsPrintable first_chunk
first_chunk-IsPrintable = record {
  key = record { size = refl; bytes = omega arith };
  size = omega arith;
}

second_chunk-IsPrintable : IsPrintable second_chunk
second_chunk-IsPrintable = record {
  key = record { size = refl; bytes = omega arith };
  size = omega arith;
}

abbrev two_chunks : List Chunk
two_chunks = first_chunk ∷ second_chunk ∷ []

read_lines-print_chunks_example :
    (read_lines (title_line ++ print_chunks two_chunks) ≡ skipped ∷ printed_lines two_chunks)
    × (chunks_of (read_lines (title_line ++ print_chunks two_chunks)) ≡ two_chunks)
read_lines-print_chunks_example =
    read_lines-print_chunks two_chunks (first_chunk-IsPrintable, (second_chunk-IsPrintable, tt))

main-keeps_counts_example :
    (out : List ℕ) × (counted : memory.Db) × (recounted : memory.Db) × (Scrambling.main draws 2
        (some trace)
      ≡ ok out)
    × (BasicCount.main memory (some (some [])) (some trace) ≡ ok counted)
    × (BasicCount.main memory (some (some [])) (some out) ≡ ok recounted)
    × ((k : Key) → lookup recounted k ≡ lookup counted k)
main-keeps_counts_example =
    main-keeps_counts memory memory-IsSound draws 2 trace [] (omega arith) trace-HasSize
      trace-IsSmall lookup_empty (rw trace_keys (omega arith))

main-attacks_traces_example :
    (o : LocalityCount.State iterated.Db) × (t : LocalityCount.State iterated.Db) × (answers : List
      Node)
    × (missing : ℕ) × (LocalityCount.main iterated
          (some (7 ∷ 0 ∷ []))
          5
          (some [])
          (some [])
          (some [])
          (some trace)
        ≡ ok o)
    × (LocalityCount.main iterated (some (7 ∷ 0 ∷ [])) 5 (some []) (some []) (some []) (some trace)
        ≡ ok t)
    × (LocalityAttack.main iterated take_least zeros limits leakage (some (stores_of o t, [])) 20
        ≡ ok (
          length (iterated.entries t.db),
          (length answers + missing) % u64,
          print_from_back answers,
        ))
    × (missing ≤ length (Attacked.trace_keys trace))
main-attacks_traces_example =
    main-attacks_traces iterated iterated-IsSound [] lookup_empty (7 ∷ 0 ∷ []) iterated-IsListed
      take_least-IsPriorityQueue zeros limits leakage [] trace trace 20
      (rw trace_keys (omega arith)) (rw trace_keys (omega arith)) trace-HasFewNeighbours
      trace-HasFewNeighbours (omega arith) (omega arith) (rw trace_keys (omega arith))

main-attacks_minhash_example :
    (out : List ℕ) × (truth : memory.Db) × (MinHash.main iterated digest draws take_first 2
        (some trace)
        (some [])
      ≡ ok (out, truth))
    × Experiment iterated iterated-IsSound iterated-IsListed [] lookup_empty
        (7 ∷ 0 ∷ [])
        take_least-IsPriorityQueue
        zeros
        limits
        leakage
        []
        trace
        out
        truth
        20
        (length (chunks_of (read_lines trace)))
main-attacks_minhash_example =
    main-attacks_minhash iterated iterated-IsSound iterated-IsListed [] lookup_empty (7 ∷ 0 ∷ [])
      take_least-IsPriorityQueue zeros limits digest digest-IsDigest draws take_first
      take_first-IsSingleQueue leakage [] trace trace 20 trace-HasSize trace-Fits trace_nonempty
      (rw trace_keys (omega arith)) trace-HasFewNeighbours (rw trace_chunks (omega arith))
      (omega arith) (omega arith) (rw (trace_keys, trace_chunks) (omega arith))

main-attacks_combined_example :
    (out : List ℕ) × (truth : memory.Db) × (Combined.main iterated digest draws take_first 2
        (some trace)
        (some [])
      ≡ ok (out, truth))
    × Experiment iterated iterated-IsSound iterated-IsListed [] lookup_empty
        (7 ∷ 0 ∷ [])
        take_least-IsPriorityQueue
        zeros
        limits
        leakage
        []
        trace
        out
        truth
        20
        (length (chunks_of (read_lines trace)))
main-attacks_combined_example =
    main-attacks_combined iterated iterated-IsSound iterated-IsListed [] lookup_empty (7 ∷ 0 ∷ [])
      take_least-IsPriorityQueue zeros limits digest digest-IsDigest draws take_first
      take_first-IsSingleQueue leakage [] trace trace 20 trace-HasSize trace-Fits trace_nonempty
      (rw trace_keys (omega arith)) trace-HasFewNeighbours (rw trace_chunks (omega arith))
      (omega arith) (omega arith) (rw (trace_keys, trace_chunks) (omega arith))
