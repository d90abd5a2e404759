-- ===== src/Prototype/Deduplication/Complete.antt =====
-- `read_hashes` of the prototype loses no chunk: every fingerprint of the trace is afterwards in the
-- container that the index names.
use freqanalysis.Common.{
  differ, ℕ, ◌+◌, ◌^◌, ◌<◌, ◌≤◌, ◌≡◌, refl, ◌∙◌, true, none, some, List, [], ◌∷◌, length, All,
  ◌>>=◌, Returns, inl, inr, arith,
}
use freqanalysis.Bytes.{Key}
use freqanalysis.LevelDb.{LevelDb, IsSound}
use freqanalysis.Prototype.BloomFilter.{Bloom}
use freqanalysis.Prototype.Container.Collected.{Flushed, Flushed-AllPass, Holds, pocessw-Flushed}
use freqanalysis.Prototype.Container.{Manager}
use freqanalysis.Prototype.Deduplication.Covered.{known_bytes, IsCovered, Extends}
use freqanalysis.Prototype.Deduplication.Chunks.{add_chunk-Covers}
use freqanalysis.Prototype.Deduplication.Covering.{is_known}
use freqanalysis.Prototype.Deduplication.Points.{PointsAt-Flushed}
use freqanalysis.Prototype.Deduplication.{State, read_lines_into, read_hashes}
use freqanalysis.Prototype.Deduplication.Indexed.{IsPlainLine}
use freqanalysis.Trace.Read.{Line, skipped, chunk}
use freqanalysis.Trace.Text.{atoi}
use freqanalysis.Prototype.FpIndex
use freqanalysis.Prototype.FpIndex.{minus_one, find-insert, is_found-insert, is_found-of-find}

module _ (bloom : Bloom) (store : LevelDb) (sound : IsSound store) (container_path : List ℕ) where
  open bloom use {Filter}
  open store use {Db, get}

  -- The index names a container, written or current, and loading it gives the fingerprint.
  abbrev pub IsStored : State Filter Db → Key → Type 0
  IsStored s k =
      (FpIndex.find store s.fpi k ≤ s.cmr.now_id)
      × Holds container_path s.cmr (FpIndex.find store s.fpi k) k

  abbrev pub AreStored : State Filter Db → List Line → Type 0
  AreStored s [] = Unit
  AreStored s (skipped ∷ lines) = AreStored s lines
  AreStored s (chunk hash item ∷ lines) = IsStored s hash × AreStored s lines

  abbrev pub AreKnown : Db → List Line → Type 0
  AreKnown fpi [] = Unit
  AreKnown fpi (skipped ∷ lines) = AreKnown fpi lines
  AreKnown fpi (chunk hash item ∷ lines) =
      (is_known bloom store sound container_path fpi hash ≡ true) × AreKnown fpi lines

  IsStored-of-known :
      (s : State Filter Db) (k : Key)
      → IsCovered bloom store sound container_path s
      → is_known bloom store sound container_path s.fpi k ≡ true
      → IsStored s k
  IsStored-of-known s k h there = elim (h.indexed.points k) [
    | inl absent ↦ absurd (differ (h.named k there) absent)
    | inr held ↦ held
  ]

  pub AreStored-of-known :
      (s : State Filter Db) (lines : List Line)
      → IsCovered bloom store sound container_path s
      → AreKnown s.fpi lines
      → AreStored s lines
  AreStored-of-known s [] h all = tt
  AreStored-of-known s (skipped ∷ lines) h all = AreStored-of-known s lines h all
  AreStored-of-known s (chunk hash item ∷ lines) h all =
      (IsStored-of-known s hash h all.0, AreStored-of-known s lines h all.1)

  pub AreKnown-more :
      (fpi fpi' : Db) (lines : List Line)
      → Extends bloom store sound container_path fpi fpi'
      → AreKnown fpi lines
      → AreKnown fpi' lines
  AreKnown-more fpi fpi' [] more all = tt
  AreKnown-more fpi fpi' (skipped ∷ lines) more all = AreKnown-more fpi fpi' lines more all
  AreKnown-more fpi fpi' (chunk hash item ∷ lines) more all =
      (more hash all.0, AreKnown-more fpi fpi' lines more all.1)

  -- After the lines, their fingerprints are in the index, and so are those of before.
  record Reads (lines : List Line) (s t : State Filter Db) : Type 0 where
    covered : IsCovered bloom store sound container_path t
    all : AreKnown t.fpi lines
    more : Extends bloom store sound container_path s.fpi t.fpi
    number-le : t.cmr.now_id ≤ s.cmr.now_id + length lines
    quiet : t.printed ≡ s.printed

  read_lines_into-Reads :
      (lines : List Line) (s : State Filter Db)
      → IsCovered bloom store sound container_path s
      → All IsPlainLine lines
      → s.cmr.now_id + length lines < 2 ^ 31
      → Returns (read_lines_into bloom store container_path lines s) (Reads lines s)
  unfolding read_lines_into
  read_lines_into-Reads [] s h plain small = (
    s,
    refl,
    record { covered = h; all = tt; more = λ k e. e; number-le = omega arith; quiet = refl },
  )
  read_lines_into-Reads (skipped ∷ lines) s h plain small =
      let (t, run, r) = read_lines_into-Reads lines s h plain.1 (omega arith) in
      (
        t,
        run,
        record {
          covered = r.covered;
          all = r.all;
          more = r.more;
          number-le = omega (arith, r.number-le);
          quiet = r.quiet;
        },
      )
  read_lines_into-Reads (chunk hash none ∷ lines) s h plain small = absurd plain.0
  read_lines_into-Reads (chunk hash (some item) ∷ lines) s h plain small =
      let (a, first, c) =
        add_chunk-Covers bloom store sound container_path hash (atoi item) s h plain.0
          (omega arith) in
      let (t, run, r) =
        read_lines_into-Reads lines a c.covered plain.1 (omega (arith, c.number-le)) in
      (
        t,
        rw (first, ◌>>=◌) run,
        record {
          covered = r.covered;
          all = (r.more hash c.here, r.all);
          more = λ k e. r.more k (c.more k e);
          number-le = omega (arith, r.number-le, c.number-le);
          quiet = r.quiet ∙ c.quiet;
        },
      )

  Flushed-IsCovered :
      (s : State Filter Db) (m : Manager)
      → IsCovered bloom store sound container_path s
      → Flushed container_path s.cmr m
      → IsCovered bloom store sound container_path (record s { cmr = m })
  Flushed-IsCovered s m h f = record {
    indexed = record {
      collects = f.collects;
      points = λ k.
          PointsAt-Flushed bloom store sound container_path s.cmr m k (FpIndex.find store s.fpi k) f
            (h.indexed.points k);
    };
    cache = h.cache;
    cached = h.cached;
    contained =
        Flushed-AllPass container_path s.cmr m (known_bytes bloom store sound container_path s.fpi)
          f h.contained;
    recorded = f.recorded h.recorded;
    named = h.named;
  }

  -- After `read_hashes`, the last container is written too.
  pub record Finishes (lines : List Line) (s t : State Filter Db) : Type 0 where
    pub covered : IsCovered bloom store sound container_path t
    pub all : AreKnown t.fpi lines
    pub more : Extends bloom store sound container_path s.fpi t.fpi
    pub number-le : t.cmr.now_id ≤ s.cmr.now_id + length lines + 1
    pub quiet : t.printed ≡ s.printed
    pub emptied : t.cmr.tmp ≡ []

  pub read_hashes-Finishes :
      (lines : List Line) (s : State Filter Db)
      → IsCovered bloom store sound container_path s
      → All IsPlainLine lines
      → s.cmr.now_id + length lines + 1 < 2 ^ 31
      → Returns (read_hashes bloom store container_path lines s) (Finishes lines s)
  unfolding read_hashes
  read_hashes-Finishes lines s h plain small =
      let (t, run, r) = read_lines_into-Reads lines s h plain (omega arith) in
      let (m, flush, f) =
        pocessw-Flushed container_path t.cmr r.covered.indexed.collects
          (omega (arith, r.number-le)) in
      (
        record t { cmr = m.0 },
        rw (run, ◌>>=◌, flush) refl,
        record {
          covered = Flushed-IsCovered t m.0 r.covered f;
          all = r.all;
          more = r.more;
          number-le = omega (arith, r.number-le, f.number-le);
          quiet = r.quiet;
          emptied = f.emptied;
        },
      )

  -- From a state in which the index names containers that hold its fingerprints, the cache is in
  -- order, and the index has what the cache and the containers hold (as after `sys_ini` in an empty
  -- directory), on lines that carry a size and a fingerprint without zero bytes, `read_hashes` of
  -- the prototype ends normally in such a state, and every fingerprint of the lines is then in the
  -- container that the index names for it, with numbers below 2 ^ 31 and whatever the Bloom filter
  -- answers; nothing is printed.
  pub read_hashes-stores_each :
      (lines : List Line) (s : State Filter Db)
      → IsCovered bloom store sound container_path s
      → All IsPlainLine lines
      → s.cmr.now_id + length lines + 1 < 2 ^ 31
      → Returns (read_hashes bloom store container_path lines s) (λ t.
        IsCovered bloom store sound container_path t × AreStored t lines × (t.printed ≡ s.printed))
  read_hashes-stores_each lines s h plain small =
      let (t, run, f) = read_hashes-Finishes lines s h plain small in
      (t, run, (f.covered, AreStored-of-known t lines f.covered f.all, f.quiet))
