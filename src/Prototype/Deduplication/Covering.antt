-- ===== src/Prototype/Deduplication/Covering.antt =====
-- A unique chunk goes into the index; loading a container fills the cache with fingerprints of the
-- index.
use freqanalysis.Common.{
  ℕ, ◌+◌, ◌%◌, ◌^◌, ◌<◌, ◌≤◌, ◌≡◌, refl, ap, ◌∙◌, true, Bool, List, [], ◌∷◌, All, Returns, arith,
}
use freqanalysis.Bytes.{Key, u64}
use freqanalysis.LevelDb.{LevelDb, IsSound}
use freqanalysis.Prototype.BloomFilter.{Bloom}
use freqanalysis.Prototype.Container.Inserted.{insert-Passes}
use freqanalysis.Prototype.Container.Stored.{IsPlain}
use freqanalysis.Prototype.Deduplication.Covered.{
  known, known_bytes, IsCovered, Extends, ArePassed-more, All-more, insert-Extends, insert-known,
  insert-named,
}
use freqanalysis.Prototype.Deduplication.Points.{Points-insert}
use freqanalysis.Prototype.Deduplication.{State, punique, load_all}
use freqanalysis.Prototype.FpIndex
use freqanalysis.Prototype.FpIndex.{minus_one, find-insert, is_found-insert, insert_works}
use freqanalysis.Prototype.LruCache.Added.{IsCache}
use freqanalysis.Prototype.LruCache.Known.{ArePassed, take-plain, putdata-passed}
use freqanalysis.Prototype.LruCache.Refined.{putdata-refines}
use freqanalysis.Prototype.LruCache.Used.{keys_of}
use freqanalysis.Prototype.LruCache.{Cache, putdata}

module _ (bloom : Bloom) (store : LevelDb) (sound : IsSound store) (container_path : List ℕ) where
  open bloom use {Filter}
  open store use {Db, get}

  abbrev pub is_known : Db → Key → Bool
  is_known = known bloom store sound container_path

  -- What a chunk does: it is in the index afterwards, and what was there stays.
  pub record Covers (key : Key) (s t : State Filter Db) : Type 0 where
    pub covered : IsCovered bloom store sound container_path t
    pub here : is_known t.fpi key ≡ true
    pub more : Extends bloom store sound container_path s.fpi t.fpi
    pub number-le : t.cmr.now_id ≤ s.cmr.now_id + 1
    pub quiet : t.printed ≡ s.printed

  pub punique-Covers :
      (key : Key) (size : ℕ) (s : State Filter Db)
      → IsCovered bloom store sound container_path s
      → IsPlain key
      → s.cmr.now_id + 1 < 2 ^ 31
      → Returns (punique bloom store container_path key size s) (Covers key s)
  unfolding punique
  punique-Covers key size s h plain small =
      let (cmr, run, (ins, passes)) =
        insert-Passes container_path key size s.cmr h.indexed.collects plain small in
      let fpi = (FpIndex.insert store s.fpi key cmr.now_id).0 in
      let more = insert-Extends bloom store sound container_path s.fpi key cmr.now_id in
      let here = insert-known bloom store sound container_path s.fpi key cmr.now_id plain in
      let low : cmr.now_id < 2 ^ 31 = omega (arith, ins.number-le) in
      (
        record s {
          blm = bloom.add s.blm key;
          cmr = cmr;
          fpi = fpi;
          update_access = (s.update_access + 1) % u64;
          printed = s.printed;
        },
        rw (run, insert_works store sound s.fpi key cmr.now_id) refl,
        record {
          covered = record {
            indexed = record {
              collects = ins.collects;
              points = λ j.
                  Points-insert bloom store sound container_path s.fpi s.cmr cmr key j ins low
                    (h.indexed.points j);
            };
            cache = h.cache;
            cached =
                ArePassed-more bloom store sound container_path s.fpi fpi (keys_of s.lpc.list) more
                  h.cached;
            contained =
                passes (known_bytes bloom store sound container_path fpi)
                  (ap (is_known fpi) (take-plain key plain) ∙ here)
                  (λ id keys le loads.
                    All-more bloom store sound container_path s.fpi fpi keys more
                      (h.contained id keys le loads));
            recorded = ins.recorded h.recorded;
            named = insert-named bloom store sound container_path s.fpi key cmr.now_id low h.named;
          };
          here = here;
          more = more;
          number-le = ins.number-le;
          quiet = refl;
        },
      )

  -- The cache may change as long as it holds fingerprints of the index.
  pub with_cache-IsCovered :
      (s : State Filter Db) (lpc : Cache) (index_access loading_access : ℕ)
      → IsCovered bloom store sound container_path s
      → IsCache lpc
      → ArePassed (is_known s.fpi) (keys_of lpc.list)
      → IsCovered bloom store sound container_path
          (record s { lpc = lpc; index_access = index_access; loading_access = loading_access })
  with_cache-IsCovered s lpc index_access loading_access h cache cached = record {
    indexed = record { collects = h.indexed.collects; points = h.indexed.points };
    cache = cache;
    cached = cached;
    contained = h.contained;
    recorded = h.recorded;
    named = h.named;
  }

  pub load_all-Covered :
      (keys : List Key) (s : State Filter Db)
      → IsCovered bloom store sound container_path s
      → All (λ k. known_bytes bloom store sound container_path s.fpi k ≡ true) keys
      → IsCovered bloom store sound container_path (load_all bloom store keys s)
        × ((load_all bloom store keys s).fpi ≡ s.fpi)
        × ((load_all bloom store keys s).cmr ≡ s.cmr)
        × ((load_all bloom store keys s).printed ≡ s.printed)
  unfolding load_all
  load_all-Covered [] s h all = (h, refl, refl, refl)
  load_all-Covered (it ∷ keys) s h all =
      let (added, cache, keys', max) = putdata-refines it s.lpc h.cache in
      load_all-Covered keys _
        (with_cache-IsCovered s (putdata it s.lpc).0 s.index_access ((s.loading_access + 1) % u64) h
          cache (putdata-passed (is_known s.fpi) it s.lpc h.cache all.0 h.cached))
        all.1
