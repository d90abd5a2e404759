-- ===== src/Prototype/Deduplication/Chunks.antt =====
-- One chunk of the trace: whichever branch it takes, its fingerprint is in the index afterwards.
use freqanalysis.Common.{
  differ, ℕ, ◌+◌, ◌%◌, ◌^◌, ◌<◌, ◌≡◌, refl, sym, ap, ◌∙◌, false, ◌==◌, List, Returns, Bool-cases,
  inl, inr, arith,
}
use freqanalysis.Bytes.{Key, u64, is_fingerprint-of-Is}
use freqanalysis.LevelDb.{LevelDb, IsSound}
use freqanalysis.Prototype.BloomFilter.{Bloom}
use freqanalysis.Prototype.Container.Stored.{IsPlain}
use freqanalysis.Prototype.Container.{Manager}
use freqanalysis.Prototype.Deduplication.Covered.{IsCovered, known_sized, IsPlain-IsFingerprint}
use freqanalysis.Prototype.Deduplication.Covering.{
  is_known, Covers, punique-Covers, with_cache-IsCovered, load_all-Covered,
}
use freqanalysis.Prototype.Deduplication.{State, load_all, look_up_index, add_chunk}
use freqanalysis.Prototype.FpIndex
use freqanalysis.Prototype.FpIndex.{minus_one, find-insert, is_found-insert, is_found-of-find}
use freqanalysis.Prototype.LruCache
use freqanalysis.Prototype.LruCache.Known.{holds-passed, find-passed}
use freqanalysis.Prototype.LruCache.Refined.{find-refines}
use freqanalysis.Prototype.LruCache.Used.{keys_of}
use freqanalysis.Prototype.LruCache.{Cache, putdata}

module _ (bloom : Bloom) (store : LevelDb) (sound : IsSound store) (container_path : List ℕ) where
  open bloom use {Filter}
  open store use {Db, get}

  Covers-of :
      (key : Key) (s t r : State Filter Db)
      → t.fpi ≡ s.fpi
      → t.cmr ≡ s.cmr
      → t.printed ≡ s.printed
      → Covers bloom store sound container_path key t r
      → Covers bloom store sound container_path key s r
  Covers-of key s t r fpi cmr printed c = record {
    covered = c.covered;
    here = c.here;
    more = λ k h. c.more k (ap (λ d. is_known bloom store sound container_path d k) fpi ∙ h);
    number-le = omega (arith, c.number-le, ap (λ (m : Manager). m.now_id) cmr);
    quiet = c.quiet ∙ printed;
  }

  -- A fingerprint of the index: its container is loaded.
  load-Covers :
      (key : Key) (size : ℕ) (s : State Filter Db)
      → IsCovered bloom store sound container_path s
      → IsPlain key
      → (FpIndex.find store s.fpi key == minus_one) ≡ false
      → Returns
          (look_up_index bloom store container_path key size s)
          (Covers bloom store sound container_path key s)
  unfolding look_up_index
  load-Covers key size s h plain present =
      let t : State Filter Db = record s { index_access = (s.index_access + 1) % u64 } in
      elim (h.indexed.points key) [
        | inl absent ↦ absurd (differ present absent)
        | inr (le, (keys, loads, inside)) ↦
            let covered =
              with_cache-IsCovered bloom store sound container_path s s.lpc
                ((s.index_access + 1) % u64) s.loading_access h h.cache h.cached in
            let (r, fpi, cmr, printed) =
              load_all-Covered bloom store sound container_path keys t covered
                (h.contained (FpIndex.find store s.fpi key) keys le loads) in
            (
              load_all bloom store keys t,
              rw (look_up_index, present, loads) refl,
              record {
                covered = r;
                here =
                    ap (λ d. is_known bloom store sound container_path d key) fpi
                    ∙ ground (
                      arith,
                      is_found-of-find store sound s.fpi key (differ present),
                      is_fingerprint-of-Is key (IsPlain-IsFingerprint key plain),
                    );
                more =
                    λ k there. ap (λ d. is_known bloom store sound container_path d k) fpi ∙ there;
                number-le = omega (arith, ap (λ (m : Manager). m.now_id) cmr);
                quiet = printed;
              },
            )
      ]

  look_up_index-Covers :
      (key : Key) (size : ℕ) (s : State Filter Db)
      → IsCovered bloom store sound container_path s
      → IsPlain key
      → s.cmr.now_id + 1 < 2 ^ 31
      → Returns
          (look_up_index bloom store container_path key size s)
          (Covers bloom store sound container_path key s)
  unfolding look_up_index
  look_up_index-Covers key size s h plain small =
      elim (Bool-cases (FpIndex.find store s.fpi key == minus_one)) [
        | inl unique ↦
            let t : State Filter Db = record s { index_access = (s.index_access + 1) % u64 } in
            let covered =
              with_cache-IsCovered bloom store sound container_path s s.lpc
                ((s.index_access + 1) % u64) s.loading_access h h.cache h.cached in
            let (r, run, c) =
              punique-Covers bloom store sound container_path key size t covered plain small in
            (r, rw (look_up_index, unique) run, Covers-of key s t r refl refl refl c)
        | inr present ↦ load-Covers key size s h plain present
      ]

  pub add_chunk-Covers :
      (key : Key) (size : ℕ) (s : State Filter Db)
      → IsCovered bloom store sound container_path s
      → IsPlain key
      → s.cmr.now_id + 1 < 2 ^ 31
      → Returns
          (add_chunk bloom store container_path key size s)
          (Covers bloom store sound container_path key s)
  unfolding add_chunk
  add_chunk-Covers key size s h plain small =
      let t : State Filter Db = record s { lpc = (LruCache.find key s.lpc).0 } in
      let test = is_known bloom store sound container_path s.fpi in
      let sized = known_sized bloom store sound container_path s.fpi in
      let (there, cache, keys, max) = find-refines key s.lpc h.cache in
      let covered =
        with_cache-IsCovered bloom store sound container_path s (LruCache.find key s.lpc).0
          s.index_access s.loading_access h cache
          (find-passed test key s.lpc sized h.cache plain h.cached) in
      elim (Bool-cases (LruCache.find key s.lpc).1) [
        | inl cached ↦ (
          t,
          rw (add_chunk, cached) refl,
          record {
            covered = covered;
            here =
                holds-passed test (keys_of s.lpc.list) key sized plain h.cached
                  (sym there ∙ cached);
            more = λ k known_before. known_before;
            number-le = omega arith;
            quiet = refl;
          },
        )
        | inr absent ↦ elim (Bool-cases (bloom.check s.blm key)) [
          | inl maybe ↦
              let (r, run, c) = look_up_index-Covers key size t covered plain small in
              (r, rw (add_chunk, absent, maybe) run, Covers-of key s t r refl refl refl c)
          | inr unique ↦
              let (r, run, c) =
                punique-Covers bloom store sound container_path key size t covered plain small in
              (r, rw (add_chunk, absent, unique) run, Covers-of key s t r refl refl refl c)
        ]
      ]
