-- ===== src/Defense/Hashing/Loop.antt =====
-- `read_hashes` keeps the invariant, for any `process_seg` that encrypts one segment.
use freqanalysis.Common.{
  ℕ, ◌≡◌, refl, sym, ◌∙◌, none, some, List, [], ◌∷◌, ◌++◌, append_assoc, append-nil, Run, ok, ◌>>=◌,
  Returns, All, ◌≢◌, inl, inr,
}
use freqanalysis.Defense.Hashing.Chunks.{process_seg-Flushed, add_chunk-Progress}
use freqanalysis.Defense.Hashing.Core.{IsSingleQueue}
use freqanalysis.Defense.Hashing.Progress.{Fits, Flushed, Progress, Processes}
use freqanalysis.Defense.Hashing.{State, read_hashes}
use freqanalysis.Defense.Segment.{Chunk, chunks_of, HasSize}
use freqanalysis.LevelDb.{LevelDb, IsSound}
use freqanalysis.PriorityQueue.{Extract}
use freqanalysis.Trace.Read.{Line, skipped, chunk}
use freqanalysis.Trace.Text.{atoi, int_to_u64}

-- Lines without a chunk change nothing.
pub read_hashes-skips :
    (store : LevelDb) (extract : Extract Chunk)
    (process_seg : State store.Db → Run (State store.Db)) (lines : List Line) (s : State store.Db)
    → All (λ l. l ≡ skipped) lines
    → read_hashes extract process_seg lines s ≡ ok s
unfolding read_hashes
read_hashes-skips store extract process_seg [] s h = refl
read_hashes-skips store extract process_seg (l ∷ lines) s h =
    rw h.0 (read_hashes-skips store extract process_seg lines s h.1)

module _ (store : LevelDb) (sound : IsSound store) (md5 : List ℕ → List ℕ)
    (Reorders : List Chunk → List Chunk → Type 0) (title : List ℕ) (relate : store.Db) where
  open store use {Db, get}

  module _ {process_seg : State Db → Run (State Db)}
      (process : Processes store md5 Reorders process_seg) {extract : Extract Chunk}
      (queue : IsSingleQueue extract) where
    -- Every chunk of the lines is read.
    pub read_hashes-Progress :
        (lines : List Line) (s : State Db) (seen : List Chunk)
        → All HasSize lines
        → All Fits (chunks_of lines)
        → Progress store md5 Reorders title relate s seen
        → Returns
            (read_hashes extract process_seg lines s)
            (λ t. Progress store md5 Reorders title relate t (seen ++ chunks_of lines))
    unfolding read_hashes
    read_hashes-Progress [] s seen sized fit p = (s, refl, rw append-nil p)
    read_hashes-Progress (skipped ∷ lines) s seen sized fit p =
        read_hashes-Progress lines s seen sized.1 fit p
    read_hashes-Progress (chunk hash none ∷ lines) s seen sized fit p = absurd sized.0
    read_hashes-Progress (chunk hash (some item) ∷ lines) s seen sized fit p =
        let c : Chunk = record { key = hash; size = int_to_u64 (atoi item) } in
        let (t, run, q) =
          add_chunk-Progress store sound md5 Reorders title relate process queue s c seen fit.0 p in
        let (u, rest, r) = read_hashes-Progress lines t (seen ++ (c ∷ [])) sized.1 fit.1 q in
        (u, rw (run, ◌>>=◌) rest, rw append_assoc at r)

    -- `main` from `read_hashes` on: the last segment is processed too.
    pub finish :
        (lines : List Line) (s : State Db)
        → All HasSize lines
        → All Fits (chunks_of lines)
        → chunks_of lines ≢ []
        → Progress store md5 Reorders title relate s []
        → Returns
            (read_hashes extract process_seg lines s >>= process_seg)
            (λ t. Flushed store md5 Reorders title relate t (chunks_of lines))
    finish lines s sized fit some_chunk p =
        let (t, run, q) = read_hashes-Progress lines s [] sized fit p in
        elim q.pending [
          | inl (none_ended, nothing, _) ↦
              absurd (some_chunk (sym q.read ∙ (rw (none_ended, nothing))))
          | inr (m, one, core) ↦
              let (u, last, f) =
                process_seg-Flushed store sound md5 Reorders title relate process t
                  (chunks_of lines) m q one core in
              (u, rw (run, ◌>>=◌) last, f)
        ]
