-- ===== src/Defense/Hashing/Chunks.antt =====
-- One chunk keeps the invariant, for any `process_seg` that encrypts one segment.
use freqanalysis.Common.{
  ℕ, ◌+◌, ◌%◌, ◌≤◌, ◌≡◌, refl, sym, ap, ◌∙◌, List, [], ◌∷◌, ◌++◌, append_assoc, append-nil, true,
  false, Run, ok, ◌>>=◌, Returns, All-append, Bool-cases, inl, inr, total, total-append, arith,
}
use freqanalysis.Bytes.{u64, memcmp_lt}
use freqanalysis.Defense.Hashing.Core.{
  IsSingleQueue, IsCore, IsCore-first, IsCore-keep, IsCore-replace, insert_min-empty,
  insert_min-single,
}
use freqanalysis.Defense.Hashing.Progress.{
  Segment, all_before-append, all_ciphers-append, all_recorded-append, Fits, Flushed, Progress,
  Processes, encrypt_all-prints, encrypt_all-records,
}
use freqanalysis.Defense.Hashing.{State, encrypt_all, start_segment, add_chunk, insert_min}
use freqanalysis.Defense.Segment.{Chunk, ends_segment, seg_max, print_chunks-append, size_of}
use freqanalysis.LevelDb.{LevelDb, IsSound}
use freqanalysis.PriorityQueue.{Extract}

-- A chunk that fits does not end an empty segment.
not_ended : (c : Chunk) → Fits c → ends_segment 0 c.size c.key ≡ false
unfolding ends_segment
not_ended c h = ground arith

joins :
    (q : ℕ) (c : Chunk)
    → q ≤ seg_max
    → Fits c
    → ends_segment q c.size c.key ≡ false
    → (q + c.size) % u64 ≤ seg_max
unfolding ends_segment
joins q c h k e = ground arith

module _ (store : LevelDb) (sound : IsSound store) (md5 : List ℕ → List ℕ)
    (Reorders : List Chunk → List Chunk → Type 0) (title : List ℕ) (relate : store.Db) where
  open store use {Db, get}

  -- `process_seg` on a segment that has a core.
  pub process_seg-Flushed :
      {process_seg : State Db → Run (State Db)}
      → Processes store md5 Reorders process_seg
      → (s : State Db) (seen : List Chunk) (m : Chunk)
      → Progress store md5 Reorders title relate s seen
      → s.pq ≡ m ∷ []
      → IsCore m s.sq
      → Returns (process_seg s) (λ t. Flushed store md5 Reorders title relate t seen)
  process_seg-Flushed process s seen m p e core =
      let (after, draws, order, run) = process s m e in
      let g : Segment = record { core = m; before = s.sq; after = after } in
      let gs = p.flushed.segments in
      let s' : State Db = record s { sq = []; draws = draws } in
      (
        encrypt_all store md5 m.key after s',
        run,
        record {
          segments = gs ++ (g ∷ []);
          printed =
              encrypt_all-prints store sound md5 m.key after s'
              ∙ rw p.flushed.printed
                  (simp (all_ciphers-append, print_chunks-append, append_assoc, append-nil));
          read = rw all_before-append (rw append-nil (ap (λ l. l ++ s.sq) p.flushed.read ∙ p.read));
          encrypted =
              All-append _ gs _ p.flushed.encrypted
                (record { core = core; order = order; bounded = p.bounded }, tt);
          truth = λ j.
              encrypt_all-records store sound md5 m.key after s' j
              ∙ rw (p.flushed.truth j, all_recorded-append md5 gs (g ∷ []) j (get relate j));
        },
      )

  module _ {process_seg : State Db → Run (State Db)}
      (process : Processes store md5 Reorders process_seg) {extract : Extract Chunk}
      (queue : IsSingleQueue extract) where
    -- The first chunk of a segment, after `s` has cleared the queues.
    first_chunk :
        (s : State Db) (c : Chunk) (seen : List Chunk)
        → Fits c
        → Flushed store md5 Reorders title relate s seen
        → Progress store md5 Reorders title relate
            (record s { sq = c ∷ []; pq = c ∷ []; sq_size = (0 + c.size) % u64 })
            (seen ++ (c ∷ []))
    first_chunk s c seen fits f = record {
      ended = seen;
      flushed = record {
        segments = f.segments;
        printed = f.printed;
        read = f.read;
        encrypted = f.encrypted;
        truth = f.truth;
      };
      read = refl;
      pending = inr (c, refl, IsCore-first c);
      counted = omega arith;
      bounded = omega arith;
    }

    -- A chunk that joins the pending segment, whose core becomes `m'`.
    join_chunk :
        (s : State Db) (c m' : Chunk) (seen : List Chunk)
        → Fits c
        → Progress store md5 Reorders title relate s seen
        → ends_segment s.sq_size c.size c.key ≡ false
        → IsCore m' (s.sq ++ (c ∷ []))
        → Progress store md5 Reorders title relate
            (record s { sq = s.sq ++ (c ∷ []); pq = m' ∷ []; sq_size = (s.sq_size + c.size) % u64 })
            (seen ++ (c ∷ []))
    join_chunk s c m' seen fits p e core =
        let small : s.sq_size ≤ seg_max = omega (arith, p.counted, p.bounded) in
        let f = p.flushed in
        record {
          ended = p.ended;
          flushed = record {
            segments = f.segments;
            printed = f.printed;
            read = f.read;
            encrypted = f.encrypted;
            truth = f.truth;
          };
          read = sym (append_assoc p.ended s.sq (c ∷ [])) ∙ ap (λ l. l ++ (c ∷ [])) p.read;
          pending = inr (m', refl, core);
          counted = omega (arith, total-append size_of s.sq (c ∷ []), p.counted, fits, small);
          bounded = omega (
            arith,
            total-append size_of s.sq (c ∷ []),
            p.counted,
            fits,
            small,
            joins s.sq_size c small fits e,
          );
        }

    add_chunk_lem :
        (s t : State Db) (c : Chunk) {pq : List Chunk}
        → start_segment extract process_seg s c ≡ ok t
        → insert_min extract c t.pq ≡ ok pq
        → add_chunk extract process_seg s c
          ≡ ok (record t { sq_size = (t.sq_size + c.size) % u64; sq = t.sq ++ (c ∷ []); pq = pq })
    unfolding add_chunk
    add_chunk_lem s t c e d = rw (e, ◌>>=◌, d)

    -- Whether the chunk ends the pending segment, joins it as its core, or leaves the core.
    keep_segment :
        (s : State Db) (c : Chunk)
        → ends_segment s.sq_size c.size c.key ≡ false
        → start_segment extract process_seg s c ≡ ok s
    unfolding start_segment
    keep_segment s c e = rw e

    end_segment :
        (s t : State Db) (c : Chunk)
        → ends_segment s.sq_size c.size c.key ≡ true
        → process_seg s ≡ ok t
        → start_segment extract process_seg s c ≡ ok (record t { pq = []; sq = []; sq_size = 0 })
    unfolding start_segment
    end_segment s t c e run = rw (e, run)

    insert-Progress :
        (s : State Db) (c m : Chunk) (seen : List Chunk)
        → Fits c
        → Progress store md5 Reorders title relate s seen
        → ends_segment s.sq_size c.size c.key ≡ false
        → s.pq ≡ m ∷ []
        → IsCore m s.sq
        → Returns
            (add_chunk extract process_seg s c)
            (λ t. Progress store md5 Reorders title relate t (seen ++ (c ∷ [])))
    insert-Progress s c m seen fits p e one core = elim (Bool-cases (memcmp_lt c.key m.key)) [
      | inl less ↦
          let inserted : insert_min extract c s.pq ≡ ok (c ∷ []) =
            rw one (insert_min-single queue c m ∙ rw less) in
          (
            _,
            add_chunk_lem s s c (keep_segment s c e) inserted,
            join_chunk s c c seen fits p e (IsCore-replace m c s.sq less core),
          )
      | inr more ↦
          let inserted : insert_min extract c s.pq ≡ ok (m ∷ []) =
            rw one (insert_min-single queue c m ∙ rw more) in
          (
            _,
            add_chunk_lem s s c (keep_segment s c e) inserted,
            join_chunk s c m seen fits p e (IsCore-keep m c s.sq more core),
          )
    ]

    pub add_chunk-Progress :
        (s : State Db) (c : Chunk) (seen : List Chunk)
        → Fits c
        → Progress store md5 Reorders title relate s seen
        → Returns
            (add_chunk extract process_seg s c)
            (λ t. Progress store md5 Reorders title relate t (seen ++ (c ∷ [])))
    add_chunk-Progress s c seen fits p = elim p.pending [
      | inl (_, nothing, no_core) ↦
          let zero_size : s.sq_size ≡ 0 = p.counted ∙ ap (total size_of) nothing in
          let e : ends_segment s.sq_size c.size c.key ≡ false = rw zero_size (not_ended c fits) in
          let inserted : insert_min extract c s.pq ≡ ok (c ∷ []) =
            rw no_core (insert_min-empty queue c) in
          (
            _,
            add_chunk_lem s s c (keep_segment s c e) inserted,
            join_chunk s c c seen fits p e (rw nothing (IsCore-first c)),
          )
      | inr (m, one, core) ↦ elim (Bool-cases (ends_segment s.sq_size c.size c.key)) [
        | inl e ↦
            let (t, run, f) = process_seg-Flushed process s seen m p one core in
            let t' : State Db = record t { pq = []; sq = []; sq_size = 0 } in
            (
              _,
              add_chunk_lem s t' c (end_segment s t c e run) (insert_min-empty queue c),
              first_chunk t c seen fits f,
            )
        | inr e ↦ insert-Progress s c m seen fits p e one core
      ]
    ]
