-- ===== src/Defense/Hashing/Progress.antt =====
-- The invariant of `read_hashes` in the two programs that encrypt: whatever order `process_seg`
-- takes the chunks of a segment in, every one is encrypted under the segment's core.
use freqanalysis.Common.{
  ℕ, ◌≤◌, ◌≡◌, refl, sym, List, [], ◌∷◌, ◌++◌, append_assoc, append-nil, map, if◌then◌else◌, Run,
  ok, All, ◌⊎◌, inl, total, arith,
}
use freqanalysis.Bytes.{Key, key_eq}
use freqanalysis.Defense.Hashing.Core.{IsCore}
use freqanalysis.Defense.Hashing.{State, encrypt, encrypt_all}
use freqanalysis.Defense.Segment.{Chunk, seg_max, print_chunks, size_of, title_line}
use freqanalysis.LevelDb.{LevelDb, IsSound, Got, found}

-- A segment: its core, and its chunks in the order read and in the order encrypted.
pub record Segment : Type 0 where
  pub core : Chunk
  pub before : List Chunk
  pub after : List Chunk

abbrev pub all_before : List Segment → List Chunk
all_before [] = []
all_before (g ∷ gs) = g.before ++ all_before gs

-- A chunk whose size `SEG_MAX` allows.
abbrev pub Fits : Chunk → Type 0
Fits c = c.size ≤ seg_max

module _ (md5 : List ℕ → List ℕ) where
  -- The chunk as it is printed: its ciphertext fingerprint beside its size.
  abbrev pub cipher : Key → Chunk → Chunk
  cipher core c = record c { key = encrypt md5 core c.key }

  abbrev pub all_ciphers : List Segment → List Chunk
  all_ciphers [] = []
  all_ciphers (g ∷ gs) = map (cipher g.core.key) g.after ++ all_ciphers gs

  -- What the ground truth holds for a ciphertext after a segment: the last plaintext of the
  -- segment that has it.
  abbrev pub recorded : Key → List Chunk → Key → Got → Got
  recorded core [] j before = before
  recorded core (c ∷ cs) j before =
      recorded core cs j (if key_eq (encrypt md5 core c.key) j then found c.key else before)

  abbrev pub all_recorded : List Segment → Key → Got → Got
  all_recorded [] j before = before
  all_recorded (g ∷ gs) j before = all_recorded gs j (recorded g.core.key g.after j before)

  pub all_ciphers-append :
      (xs ys : List Segment) → all_ciphers (xs ++ ys) ≡ all_ciphers xs ++ all_ciphers ys
  all_ciphers-append [] ys = refl
  all_ciphers-append (x ∷ xs) ys = simp (all_ciphers-append xs ys, append_assoc)

  pub all_recorded-append :
      (xs ys : List Segment) (j : Key) (g : Got)
      → all_recorded (xs ++ ys) j g ≡ all_recorded ys j (all_recorded xs j g)
  all_recorded-append [] ys j g = refl
  all_recorded-append (x ∷ xs) ys j g =
      all_recorded-append xs ys j (recorded x.core.key x.after j g)

pub all_before-append :
    (xs ys : List Segment) → all_before (xs ++ ys) ≡ all_before xs ++ all_before ys
all_before-append [] ys = refl
all_before-append (x ∷ xs) ys = simp (all_before-append xs ys, append_assoc)

module _ (store : LevelDb) (sound : IsSound store) (md5 : List ℕ → List ℕ) (core : Key) where
  open store use {Db, get, put}

  -- The loop of `process_seg` prints every ciphertext.
  pub encrypt_all-prints :
      (sq : List Chunk) (s : State Db)
      → (encrypt_all store md5 core sq s).out ≡ s.out ++ print_chunks (map (cipher md5 core) sq)
  unfolding encrypt_all print_chunks
  encrypt_all-prints [] s = sym (append-nil s.out)
  encrypt_all-prints (c ∷ sq) s = rw (encrypt_all-prints sq _, append_assoc)

  -- It records every pair.
  pub encrypt_all-records :
      (sq : List Chunk) (s : State Db) (j : Key)
      → get (encrypt_all store md5 core sq s).relate j ≡ recorded md5 core sq j (get s.relate j)
  unfolding encrypt_all
  encrypt_all-records [] s j = refl
  encrypt_all-records (c ∷ sq) s j = rw (encrypt_all-records sq _ j, sound.get-put)

-- The pending segment and its core in `pq`: both are empty only before the first chunk.
abbrev pub Pending : List Chunk → List Chunk → List Chunk → Type 0
Pending ended sq pq =
    (ended ≡ []) × (sq ≡ []) × (pq ≡ []) ⊎ (m : Chunk) × (pq ≡ m ∷ []) × IsCore m sq

-- The core is the segment's smallest chunk, the chunks encrypted are those read, and they are at
-- most `SEG_MAX` bytes.
pub record IsEncrypted (Reorders : List Chunk → List Chunk → Type 0) (g : Segment) : Type 0 where
  pub core : IsCore g.core g.before
  pub order : Reorders g.after g.before
  pub bounded : total size_of g.before ≤ seg_max

-- The globals when `read_hashes` is called.
abbrev pub start : {Db : Type 0} → Db → State Db
start relate = record {
  sq = [];
  pq = [];
  sq_size = 0;
  out = title_line;
  relate = relate;
  draws = 0;
}

module _ (store : LevelDb) (md5 : List ℕ → List ℕ)
    (Reorders : List Chunk → List Chunk → Type 0) where
  open store use {Db, get}

  -- What has been printed and recorded of the segments that make up `seen`.
  pub record Flushed (title : List ℕ) (relate : Db) (s : State Db) (seen : List Chunk)
      : Type 0 where
    pub segments : List Segment
    pub printed : s.out ≡ title ++ print_chunks (all_ciphers md5 segments)
    pub read : all_before segments ≡ seen
    pub encrypted : All (IsEncrypted Reorders) segments
    pub truth : (j : Key) → get s.relate j ≡ all_recorded md5 segments j (get relate j)

  pub record Progress (title : List ℕ) (relate : Db) (s : State Db) (seen : List Chunk)
      : Type 0 where
    pub ended : List Chunk
    pub flushed : Flushed title relate s ended
    pub read : ended ++ s.sq ≡ seen
    pub pending : Pending ended s.sq s.pq
    pub counted : s.sq_size ≡ total size_of s.sq
    pub bounded : total size_of s.sq ≤ seg_max

  -- What `process_seg` does: one pass of `encrypt_all` under the core, in some order.
  abbrev pub Processes : (State Db → Run (State Db)) → Type 0
  Processes process_seg =
      (s : State Db) (m : Chunk)
      → s.pq ≡ m ∷ []
      → (after : List Chunk) × (draws : ℕ) × Reorders after s.sq
        × (process_seg s
            ≡ ok (encrypt_all store md5 m.key after (record s { sq = []; draws = draws })))

  pub start-Progress : (relate : Db) → Progress title_line relate (start relate) []
  unfolding print_chunks
  start-Progress relate = record {
    ended = [];
    flushed = record {
      segments = [];
      printed = sym (append-nil title_line);
      read = refl;
      encrypted = tt;
      truth = λ j. refl;
    };
    read = refl;
    pending = inl (refl, refl, refl);
    counted = refl;
    bounded = omega arith;
  }
