-- ===== src/Prototype/Deduplication/Indexed.antt =====
-- The index names, for each fingerprint that it has, a container that holds the fingerprint, so a
-- duplicate never fails to load.
use mathlib.Core.Path.{subst}
use freqanalysis.Common.{
  differ, ℕ, ◌+◌, ◌<◌, ◌≤◌, ◌≡◌, ◌%◌, refl, sym, ap, inl, inr, none, some, List, [], ◌∷◌, ◌==◌, ◌^◌,
  length, All, ◌>>=◌, Returns, Bool-cases, arith,
}
use freqanalysis.Bytes.{Key, u64}
use freqanalysis.LevelDb.{LevelDb, IsSound}
use freqanalysis.Prototype.BloomFilter.{Bloom}
use freqanalysis.Prototype.Container.Collected.{Collects, pocessw-Flushed}
use freqanalysis.Prototype.Container.Inserted.{insert-Inserts}
use freqanalysis.Prototype.Container.Stored.{IsPlain}
use freqanalysis.Prototype.Container.{Manager}
use freqanalysis.Prototype.Deduplication.Points.{Points, IsIndexed, PointsAt-Flushed, Points-insert}
use freqanalysis.Prototype.Deduplication.{
  State, punique, load_all, look_up_index, add_chunk, read_lines_into, read_hashes,
}
use freqanalysis.Prototype.FpIndex
use freqanalysis.Prototype.FpIndex.{minus_one, find-insert, insert_works}
use freqanalysis.Prototype.LruCache
use freqanalysis.Trace.Read.{Line, skipped, chunk}
use freqanalysis.Trace.Text.{atoi}

-- Every line that is read as a chunk has a fingerprint without zero bytes and a size.
abbrev pub IsPlainLine : Line → Type 0
IsPlainLine skipped = Unit
IsPlainLine (chunk hash none) = ⊥
IsPlainLine (chunk hash (some item)) = IsPlain hash

module _ (bloom : Bloom) (store : LevelDb) (sound : IsSound store) (container_path : List ℕ) where
  open bloom use {Filter}
  open store use {Db, get}

  -- `t` is the state of an index and containers that come from `s`.
  record Steps (s t : State Filter Db) : Type 0 where
    indexed : IsIndexed bloom store sound container_path t
    number-ge : s.cmr.now_id ≤ t.cmr.now_id
    number-le : t.cmr.now_id ≤ s.cmr.now_id + 1

  load_all-keeps :
      (keys : List Key) (s : State Filter Db)
      → ((load_all bloom store keys s).cmr ≡ s.cmr) × ((load_all bloom store keys s).fpi ≡ s.fpi)
  unfolding load_all
  load_all-keeps [] s = (refl, refl)
  load_all-keeps (k ∷ keys) s = load_all-keeps keys _

  punique-Steps :
      (key : Key) (size : ℕ) (s : State Filter Db)
      → IsIndexed bloom store sound container_path s
      → IsPlain key
      → s.cmr.now_id + 1 < 2 ^ 31
      → Returns (punique bloom store container_path key size s) (Steps s)
  unfolding punique
  punique-Steps key size s h plain small =
      let (cmr, run, ins) = insert-Inserts container_path key size s.cmr h.collects plain small in
      (
        record s {
          blm = bloom.add s.blm key;
          cmr = cmr;
          fpi = (FpIndex.insert store s.fpi key cmr.now_id).0;
          update_access = (s.update_access + 1) % u64;
          printed = s.printed;
        },
        rw (run, insert_works store sound s.fpi key cmr.now_id) refl,
        record {
          indexed = record {
            collects = ins.collects;
            points = λ j.
                Points-insert bloom store sound container_path s.fpi s.cmr cmr key j ins
                  (omega (arith, ins.number-le)) (h.points j);
          };
          number-ge = ins.number-ge;
          number-le = ins.number-le;
        },
      )

  -- Only the containers and the index count.
  IsIndexed-of :
      (s t : State Filter Db)
      → t.cmr ≡ s.cmr
      → t.fpi ≡ s.fpi
      → IsIndexed bloom store sound container_path s
      → IsIndexed bloom store sound container_path t
  IsIndexed-of s t same_cmr same_fpi h = record {
    collects = subst (Collects container_path) (sym same_cmr) h.collects;
    points = λ k.
        subst (λ m. Points bloom store sound container_path t.fpi m k) (sym same_cmr)
          (subst (λ d. Points bloom store sound container_path d s.cmr k) (sym same_fpi)
            (h.points k));
  }

  Steps-of :
      (s t r : State Filter Db)
      → t.cmr.now_id ≡ s.cmr.now_id
      → t.fpi ≡ s.fpi
      → Steps t r
      → Steps s r
  Steps-of s t r same_number same_fpi p = record {
    indexed = p.indexed;
    number-ge = omega (arith, same_number, p.number-ge);
    number-le = omega (arith, same_number, p.number-le);
  }

  -- A duplicate loads the container that the index names.
  look_up_index-Steps :
      (key : Key) (size : ℕ) (s : State Filter Db)
      → IsIndexed bloom store sound container_path s
      → IsPlain key
      → s.cmr.now_id + 1 < 2 ^ 31
      → Returns (look_up_index bloom store container_path key size s) (Steps s)
  unfolding look_up_index
  look_up_index-Steps key size s h plain small =
      let t : State Filter Db = record s { index_access = (s.index_access + 1) % u64 } in
      elim (Bool-cases (FpIndex.find store s.fpi key == minus_one)) [
        | inl unique ↦
            let (r, run, p) =
              punique-Steps key size t (record { collects = h.collects; points = h.points }) plain
                small in
            (r, rw (look_up_index, unique) run, Steps-of s t r refl refl p)
        | inr present ↦ elim (h.points key) [
          | inl absent ↦ absurd (differ present absent)
          | inr (le, (keys, loads, inside)) ↦
              let kept = load_all-keeps keys t in
              (
                load_all bloom store keys t,
                rw (look_up_index, present, loads) refl,
                record {
                  indexed = IsIndexed-of s (load_all bloom store keys t) kept.0 kept.1 h;
                  number-ge = omega (arith, ap (λ (m : Manager). m.now_id) kept.0);
                  number-le = omega (arith, ap (λ (m : Manager). m.now_id) kept.0);
                },
              )
        ]
      ]

  add_chunk-Steps :
      (key : Key) (size : ℕ) (s : State Filter Db)
      → IsIndexed bloom store sound container_path s
      → IsPlain key
      → s.cmr.now_id + 1 < 2 ^ 31
      → Returns (add_chunk bloom store container_path key size s) (Steps s)
  unfolding add_chunk
  add_chunk-Steps key size s h plain small =
      let t : State Filter Db = record s { lpc = (LruCache.find key s.lpc).0 } in
      let h' : IsIndexed bloom store sound container_path t = record {
        collects = h.collects;
        points = h.points;
      } in
      elim (Bool-cases (LruCache.find key s.lpc).1) [
        | inl cached ↦ (
          t,
          rw (add_chunk, cached) refl,
          record { indexed = h'; number-ge = omega arith; number-le = omega arith },
        )
        | inr absent ↦ elim (Bool-cases (bloom.check s.blm key)) [
          | inl maybe ↦
              let (r, run, p) = look_up_index-Steps key size t h' plain small in
              (r, rw (add_chunk, absent, maybe) run, Steps-of s t r refl refl p)
          | inr unique ↦
              let (r, run, p) = punique-Steps key size t h' plain small in
              (r, rw (add_chunk, absent, unique) run, Steps-of s t r refl refl p)
        ]
      ]

  read_lines_into-IsIndexed :
      (lines : List Line) (s : State Filter Db)
      → IsIndexed bloom store sound container_path s
      → All IsPlainLine lines
      → s.cmr.now_id + length lines < 2 ^ 31
      → Returns (read_lines_into bloom store container_path lines s) (λ t.
        IsIndexed bloom store sound container_path t × (t.cmr.now_id ≤ s.cmr.now_id + length lines))
  unfolding read_lines_into
  read_lines_into-IsIndexed [] s h plain small = (s, refl, (h, omega arith))
  read_lines_into-IsIndexed (skipped ∷ lines) s h plain small =
      let (t, run, (h', le)) = read_lines_into-IsIndexed lines s h plain.1 (omega arith) in
      (t, run, (h', omega (arith, le)))
  read_lines_into-IsIndexed (chunk hash none ∷ lines) s h plain small = absurd plain.0
  read_lines_into-IsIndexed (chunk hash (some item) ∷ lines) s h plain small =
      let (a, first, step) = add_chunk-Steps hash (atoi item) s h plain.0 (omega arith) in
      let (t, run, (h', le)) =
        read_lines_into-IsIndexed lines a step.indexed plain.1 (omega (arith, step.number-le)) in
      (t, rw (first, ◌>>=◌) run, (h', omega (arith, le, step.number-le)))

  -- From a state in which the index points to containers that hold its fingerprints, on lines that
  -- carry a size and a fingerprint without zero bytes, `read_hashes` of the prototype ends
  -- normally, so no container fails to load, and afterwards too every fingerprint of the index is
  -- in the container that the index names, with numbers below 2 ^ 31.
  pub read_hashes-IsIndexed :
      (lines : List Line) (s : State Filter Db)
      → IsIndexed bloom store sound container_path s
      → All IsPlainLine lines
      → s.cmr.now_id + length lines + 1 < 2 ^ 31
      → Returns
          (read_hashes bloom store container_path lines s)
          (IsIndexed bloom store sound container_path)
  unfolding read_hashes
  read_hashes-IsIndexed lines s h plain small =
      let (t, run, (h', le)) = read_lines_into-IsIndexed lines s h plain (omega arith) in
      let (r, flush, f) = pocessw-Flushed container_path t.cmr h'.collects (omega (arith, le)) in
      (
        record t { cmr = r.0 },
        rw (run, ◌>>=◌, flush) refl,
        record {
          collects = f.collects;
          points = λ k.
              PointsAt-Flushed bloom store sound container_path t.cmr r.0 k
                (FpIndex.find store t.fpi k) f (h'.points k);
        },
      )
