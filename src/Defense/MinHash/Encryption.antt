-- ===== src/Defense/MinHash/Encryption.antt =====
-- MinHash encryption prints every chunk, in order, encrypted under the core of its segment.
use freqanalysis.Common.{
  ℕ, ◌+◌, ◌≤◌, ◌≡◌, ◌≢◌, refl, ap, ◌∙◌, some, List, [], ◌++◌, leb, true, ok, stop, undefined, ◌>>=◌,
  All, bind_then, arith,
}
use freqanalysis.Bytes.{Key}
use freqanalysis.Defense.Hashing.Core.{IsSingleQueue, choose_core-single, choose_core-empty}
use freqanalysis.Defense.Hashing.Loop.{finish, read_hashes-skips}
use freqanalysis.Defense.Hashing.Progress.{
  Segment, all_before, all_ciphers, all_recorded, Fits, IsEncrypted, Processes, start,
  start-Progress,
}
use freqanalysis.Defense.MinHash.{process_seg, read_hashes, main}
use freqanalysis.Defense.Segment.{Chunk, print_chunks, title_line, chunks_of, HasSize}
use freqanalysis.LevelDb.{LevelDb, IsSound}
use freqanalysis.PriorityQueue.{Extract}
use freqanalysis.Trace.Read.{skipped, read_lines}

module _ (store : LevelDb) (sound : IsSound store) (md5 : List ℕ → List ℕ) (rand : ℕ → ℕ)
    (extract : Extract Chunk) (queue : IsSingleQueue extract) where
  open store use {Db, get}

  process_seg-Processes : Processes store md5 ◌≡◌ (process_seg store md5 rand extract)
  unfolding process_seg
  process_seg-Processes s m one =
      (s.sq, s.draws + 1, refl, rw (one, choose_core-single queue rand s.draws m))

  -- On a trace of chunks with sizes up to `SEG_MAX`, at least one, MinHash encryption ends
  -- normally: the trace falls into segments of at most `SEG_MAX` bytes, each is encrypted in order
  -- under a chunk with its smallest fingerprint, and the ground truth maps each ciphertext to the
  -- last plaintext encrypted to it and is otherwise as it was.
  pub main-encrypts :
      (argc : ℕ) (file : List ℕ) (relate : Db)
      → 2 ≤ argc
      → All HasSize (read_lines file)
      → All Fits (chunks_of (read_lines file))
      → chunks_of (read_lines file) ≢ []
      → (segments : List Segment) × (truth : Db) × (main store md5 rand extract argc
            (some file)
            (some relate)
          ≡ ok (title_line ++ print_chunks (all_ciphers md5 segments), truth))
        × (all_before segments ≡ chunks_of (read_lines file))
        × All (IsEncrypted ◌≡◌) segments
        × ((j : Key) → get truth j ≡ all_recorded md5 segments j (get relate j))
  unfolding main read_hashes
  main-encrypts argc file relate enough sized fit some_chunk =
      let (t, run, f) =
        finish store sound md5 ◌≡◌ title_line relate process_seg-Processes queue (read_lines file)
          (start relate) sized fit some_chunk (start-Progress store md5 ◌≡◌ relate) in
      let enough' : leb 2 argc ≡ true = ground arith in
      (
        f.segments,
        t.relate,
        rw enough' (
            bind_then (read_hashes store md5 rand extract (read_lines file) (start relate))
              (process_seg store md5 rand extract) _ run
            ∙ ap (λ o. ok (o, t.relate)) f.printed),
        f.read,
        f.encrypted,
        f.truth,
      )

  -- On a file without a chunk, `main` of MinHash encryption takes the top of an empty priority
  -- queue.
  pub main-undefined :
      (argc : ℕ) (file : List ℕ) (relate : Db)
      → 2 ≤ argc
      → All (λ l. l ≡ skipped) (read_lines file)
      → main store md5 rand extract argc (some file) (some relate) ≡ stop undefined
  unfolding main process_seg
  main-undefined argc file relate enough titles =
      let enough' : leb 2 argc ≡ true = ground arith in
      rw enough' (
        rw (
          read_hashes-skips store extract (process_seg store md5 rand extract) (read_lines file)
              (start relate) titles,
          ◌>>=◌,
          choose_core-empty queue rand 0,
        ))
