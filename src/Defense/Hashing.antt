-- ===== src/Defense/Hashing.antt =====
-- What MinHash encryption and the combined scheme share: the globals, the encryption of a segment
-- under its core, and `read_hashes` (defense/minhash/k_minhash.cc; defense/combined/combined.cc has
-- the same lines). MD5 belongs to OpenSSL and is a parameter.
pub mod Core
pub mod Progress
pub mod Chunks
pub mod Loop
use freqanalysis.Common.{
  ℕ, zero, suc, ◌+◌, ◌%◌, Option, none, some, List, [], ◌∷◌, ◌++◌, ltb, if◌then◌else◌, length, take,
  Run, ok, stop, undefined, ◌>>=◌,
}
use freqanalysis.Bytes.{Key, u64, fp_size, memcmp_lt}
use freqanalysis.Defense.Segment.{Chunk, ends_segment, print_chunks}
use freqanalysis.LevelDb.{LevelDb}
use freqanalysis.PriorityQueue.{Extract, pop_top}
use freqanalysis.Trace.Print.{print_chunk}
use freqanalysis.Trace.Read.{Line, skipped, chunk}
use freqanalysis.Trace.Text.{atoi, int_to_u64}

-- `K_MINHASH`
abbrev pub k_minhash : ℕ
k_minhash = 1

-- The globals, with what is printed and the number of calls of `rand`.
pub record State (Db : Type 0) : Type 0 where
  pub sq : List Chunk
  pub pq : List Chunk
  pub sq_size : ℕ
  pub out : List ℕ
  pub relate : Db
  pub draws : ℕ

-- The loop that pops `k` items of `pq`.
unfoldable pub pop_k : Extract Chunk → ℕ → List Chunk → Run (List Chunk)
unfolding pop_top
pop_k extract zero pq = ok pq
pop_k extract (suc k) pq = do t ← pop_top extract pq; pop_k extract k t.1

-- `core`: the top of `pq` behind `rand() % K_MINHASH` others.
unfoldable pub choose_core : Extract Chunk → (ℕ → ℕ) → ℕ → List Chunk → Run Chunk
unfolding pop_k pop_top
choose_core extract rand draws pq = do
  rest ← pop_k extract (rand draws % k_minhash) pq
  t ← pop_top extract rest
  ok t.0

-- `ft` holds the chunk's fingerprint and that of the core; `ret` is the head of its digest.
unfoldable pub encrypt : (List ℕ → List ℕ) → Key → Key → Key
encrypt md5 core now = take fp_size (md5 (now ++ core))

module _ (store : LevelDb) (md5 : List ℕ → List ℕ) where
  open store use {Db, put}

  -- The loop that encrypts the chunks, records each pair in `relate` and prints the ciphertext.
  unfoldable pub encrypt_all : Key → List Chunk → State Db → State Db
  unfolding encrypt
  encrypt_all core [] s = s
  encrypt_all core (now ∷ rest) s =
      let ret = encrypt md5 core now.key in
      encrypt_all core rest (record s {
        relate = (put s.relate ret now.key).0;
        out = s.out ++ print_chunk ret now.size;
      })

-- How `read_hashes` keeps the smallest fingerprint of the segment in `pq`.
unfoldable pub insert_min : Extract Chunk → Chunk → List Chunk → Run (List Chunk)
unfolding pop_top
insert_min extract entry pq =
    let full = (do
      t ← pop_top extract pq
      if memcmp_lt entry.key t.0.key then ok (entry ∷ t.1) else ok pq) in
    if ltb (length pq) k_minhash then ok (entry ∷ pq) else full

module _ {Db : Type 0} (extract : Extract Chunk) (process_seg : State Db → Run (State Db)) where
  -- The chunk joins the segment, after `process_seg` and the clearing of the queues if it ends one.
  unfoldable pub start_segment : State Db → Chunk → Run (State Db)
  start_segment s c =
      let ended = (do t ← process_seg s; ok (record t { pq = []; sq = []; sq_size = 0 })) in
      if ends_segment s.sq_size c.size c.key then ended else ok s

  unfoldable pub add_chunk : State Db → Chunk → Run (State Db)
  add_chunk s c = do
    t ← start_segment s c
    pq ← insert_min extract c t.pq
    ok (record t { sq_size = (t.sq_size + c.size) % u64; sq = t.sq ++ (c ∷ []); pq = pq })

  -- `atoi` of a null pointer is undefined.
  unfoldable pub read_hashes : List Line → State Db → Run (State Db)
  unfolding add_chunk start_segment insert_min
  read_hashes [] s = ok s
  read_hashes (skipped ∷ lines) s = read_hashes lines s
  read_hashes (chunk hash none ∷ lines) s = stop undefined
  read_hashes (chunk hash (some item) ∷ lines) s = do
    t ← add_chunk s (record { key = hash; size = int_to_u64 (atoi item) })
    read_hashes lines t
