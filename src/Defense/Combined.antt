-- ===== src/Defense/Combined.antt =====
-- defense/combined/combined.cc (prototype/combined.cc is the same file): the chunks of a segment are
-- scrambled, and then encrypted under the smallest fingerprint.
pub mod Encryption
use freqanalysis.Common.{
  ℕ, ◌+◌, Option, none, some, List, [], leb, if◌then◌else◌, Run, ok, stop, assertion, ◌>>=◌,
}
use freqanalysis.Defense.Hashing
use freqanalysis.Defense.Hashing.{State, choose_core, encrypt_all}
use freqanalysis.Defense.Segment.{Chunk, scatter, title_line}
use freqanalysis.LevelDb.{LevelDb}
use freqanalysis.PriorityQueue.{Extract}
use freqanalysis.Trace.Read.{Line, read_lines}

module _ (store : LevelDb) (md5 : List ℕ → List ℕ) (rand : ℕ → ℕ) (extract : Extract Chunk) where
  open store use {Db}

  unfoldable pub process_seg : State Db → Run (State Db)
  unfolding choose_core scatter encrypt_all
  process_seg s = do
    core ← choose_core extract rand s.draws s.pq
    let d = scatter rand (s.draws + 1) s.sq []
    ok (encrypt_all store md5 core.key d.0 (record s { sq = []; draws = d.1 }))

  unfoldable pub read_hashes : List Line → State Db → Run (State Db)
  unfolding Hashing.read_hashes process_seg
  read_hashes = Hashing.read_hashes extract process_seg

  -- What is printed and the ground truth, if the file that `argv[1]` names can be opened and
  -- `relate` is the store that `init_relate` opens.
  unfoldable pub main : ℕ → Option (List ℕ) → Option Db → Run (List ℕ × Db)
  unfolding read_hashes
  main argc none relate = stop assertion
  main argc (some file) none = stop assertion
  main argc (some file) (some relate) =
      if leb 2 argc
      then (do
        s ←
            read_hashes (read_lines file) (record {
              sq = [];
              pq = [];
              sq_size = 0;
              out = title_line;
              relate = relate;
              draws = 0;
            })
        t ← process_seg s
        ok (t.out, t.relate))
      else stop assertion
