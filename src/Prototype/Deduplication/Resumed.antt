-- ===== src/Prototype/Deduplication/Resumed.antt =====
-- A second run of prototype/ddfs.cc, on the containers, the index and the files in `./conf` that the
-- first one left.
use freqanalysis.Common.{
  ℕ, ◌+◌, ◌^◌, ◌<◌, ◌≤◌, ◌≡◌, refl, true, none, some, List, [], ◌∷◌, ◌++◌, length, All, ok, arith,
}
use freqanalysis.Bytes.Decimal.{decimal}
use freqanalysis.Bytes.{Key, IsFingerprint, IsFingerprint-of-test}
use freqanalysis.LevelDb.{LevelDb, IsSound}
use freqanalysis.Prototype.BloomFilter.{Bloom, bloom_conf_out, bloom_init_conf-bloom_conf_out}
use freqanalysis.Prototype.Container
use freqanalysis.Prototype.Container.Collected.{IsRecorded}
use freqanalysis.Prototype.Container.{Manager, Files, manifest_name, starts_number, loadtonode}
use freqanalysis.Prototype.Deduplication.Complete.{AreStored, AreStored-of-known, AreKnown-more}
use freqanalysis.Prototype.Deduplication.Covered.{IsCovered, known}
use freqanalysis.Prototype.Deduplication.FirstRun.{IsNew, main-Ran-first}
use freqanalysis.Prototype.Deduplication.Indexed.{IsPlainLine}
use freqanalysis.Prototype.Deduplication.Ran.{main-Ran}
use freqanalysis.Prototype.Deduplication.{State, Outcome, lru_size, sys_ini, main, print_counters}
use freqanalysis.Prototype.LruCache.Loaded.{IsPassedCache, init_conf-IsPassedCache}
use freqanalysis.Prototype.LruCache.{Cache, output_conf}
use freqanalysis.Trace.Read.{read_lines}
use freqanalysis.Trace.Text.Numbers.{decimal-StartsDigit, atoi-decimal_line}

-- Filters that `bloom_init` makes: bytes, and the same number of them.
pub record IsFilter (bloom : Bloom) : Type 0 where
  pub bytes : (f : bloom.Filter) → All (λ b. b < 256) (bloom.bf f)
  pub size : (f g : bloom.Filter) → length (bloom.bf f) ≡ length (bloom.bf g)

starts_number-digit : (c : ℕ) (s : List ℕ) → 48 ≤ c → c < 58 → starts_number (c ∷ s) ≡ true
unfolding starts_number
starts_number-digit c s low high = ground arith

starts_number-decimal : (x : ℕ) (rest : List ℕ) → starts_number (decimal x ++ rest) ≡ true
starts_number-decimal x rest =
    let (c, s, e, low, high) = decimal-StartsDigit x rest in rw e (starts_number-digit c s low high)

module _ (bloom : Bloom) (filter : IsFilter bloom) (store : LevelDb) (sound : IsSound store)
    (container_path : List ℕ) where
  open bloom use {Filter, bf, with_bf}
  open store use {Db}

  -- The manifest gives back the number.
  init-recorded :
      (m : Manager)
      → IsRecorded container_path m
      → m.tmp ≡ []
      → m.now_id < 2 ^ 31
      → Container.init m.files container_path ≡ ok (record m { now_size = 0 }, 1)
  unfolding Container.init
  init-recorded m recorded emptied small =
      rw
        (
          Container.init,
          recorded,
          starts_number-decimal m.now_id (b'\n' ∷ []),
          atoi-decimal_line m.now_id [] small,
          emptied,
        )
        refl

  abbrev resumed_state : Filter → Cache → State Filter Db → State Filter Db
  resumed_state blm lpc t = record {
    blm = with_bf blm (bf t.blm);
    lpc = lpc;
    cmr = record t.cmr { now_size = 0 };
    fpi = t.fpi;
    index_access = 0;
    loading_access = 0;
    update_access = 0;
    printed = [];
  }

  resumed_state-IsCovered :
      (blm : Filter) (lpc : Cache) (t : State Filter Db)
      → IsCovered bloom store sound container_path t
      → IsPassedCache (known bloom store sound container_path t.fpi) lpc
      → IsCovered bloom store sound container_path (resumed_state blm lpc t)
  unfolding loadtonode
  resumed_state-IsCovered blm lpc t h loaded = record {
    indexed = record {
      collects = record { plain = h.indexed.collects.plain; fresh = h.indexed.collects.fresh };
      points = h.indexed.points;
    };
    cache = loaded.0;
    cached = loaded.1;
    contained = h.contained;
    recorded = h.recorded;
    named = h.named;
  }

  known-IsFingerprint :
      (fpi : Db) (k : Key) → known bloom store sound container_path fpi k ≡ true → IsFingerprint k
  known-IsFingerprint fpi k h = IsFingerprint-of-test k (ground arith)

  -- `sys_ini` finds the containers, the index, the filter and the cache that a run left.
  sys_ini-resumed :
      (blm : Filter) (t : State Filter Db)
      → IsCovered bloom store sound container_path t
      → t.cmr.tmp ≡ []
      → t.cmr.now_id < 2 ^ 31
      → (lpc : Cache) × IsPassedCache (known bloom store sound container_path t.fpi) lpc
        × (sys_ini bloom store blm t.cmr.files container_path
              (some t.fpi)
              (some (bloom_conf_out (bf t.blm)))
              (some (output_conf t.lpc.list))
            ≡ ok (resumed_state blm lpc t))
  unfolding sys_ini
  sys_ini-resumed blm t h emptied small =
      let (r, load, passed) =
        init_conf-IsPassedCache (known bloom store sound container_path t.fpi) lru_size t.lpc
          (known-IsFingerprint t.fpi) (omega arith) (h.cache, h.cached) in
      (
        r.0,
        passed,
        rw
            (
              sys_ini,
              bloom_init_conf-bloom_conf_out (bf t.blm) (bf blm) (filter.bytes t.blm)
                  (filter.size blm t.blm),
              init-recorded t.cmr h.recorded emptied small,
              load,
            )
            refl,
      )

  -- In a directory without a manifest and containers, with an empty index on a store without errors
  -- and no saved filter or cache, on two traces whose chunks, together fewer than 2 ^ 31 - 2, carry
  -- a size and a fingerprint without zero bytes, a run of the prototype on the first trace, and
  -- then one on the second with the containers, the index, the filter and the cache that the first
  -- one saved, end normally with status 0, and each prints its three counters and nothing else;
  -- every fingerprint of both traces is then in the container that the index names for it.
  pub main-stores_both :
      (blm later_blm : Filter) (files : Files) (fpi : Db) (text later_text : List ℕ)
      → IsNew bloom store sound container_path files fpi
      → All IsPlainLine (read_lines text)
      → All IsPlainLine (read_lines later_text)
      → length (read_lines text) + length (read_lines later_text) + 2 < 2 ^ 31
      → (r : Outcome Filter Db) × (q : Outcome Filter Db) × (main bloom store blm files
            container_path
            (some fpi)
            none
            none
            (some text)
          ≡ ok r)
        × (r.status ≡ 0)
        × (r.output ≡ print_counters bloom store r.final)
        × (main bloom store later_blm r.final.cmr.files container_path
              (some r.final.fpi)
              r.bloom_conf
              r.lru_conf
              (some later_text)
            ≡ ok q)
        × (q.status ≡ 0)
        × (q.output ≡ print_counters bloom store q.final)
        × AreStored bloom store sound container_path q.final (read_lines text)
        × AreStored bloom store sound container_path q.final (read_lines later_text)
  main-stores_both blm later_blm files fpi text later_text new plain later_plain few =
      let (r, run, ran) =
        main-Ran-first bloom store sound container_path blm files fpi text new plain
          (omega (arith, few)) in
      let t = r.final in
      let f = ran.finishes in
      let (lpc, passed, init) =
        sys_ini-resumed later_blm t f.covered f.emptied (omega (arith, f.number-le, few)) in
      let (q, later_run, later) =
        main-Ran bloom store sound container_path later_blm t.cmr.files (some t.fpi)
          (some (bloom_conf_out (bf t.blm))) (some (output_conf t.lpc.list)) later_text
          (resumed_state later_blm lpc t) init refl
          (resumed_state-IsCovered later_blm lpc t f.covered passed) later_plain
          (omega (arith, f.number-le, few)) in
      let g = later.finishes in
      let stored = AreStored-of-known bloom store sound container_path q.final in
      (
        r,
        q,
        run,
        ran.succeeds,
        ran.prints,
        rw (ran.saves_filter, ran.saves_cache) later_run,
        later.succeeds,
        later.prints,
        stored (read_lines text) g.covered (
            AreKnown-more bloom store sound container_path t.fpi q.final.fpi (read_lines text)
              g.more f.all),
        stored (read_lines later_text) g.covered g.all,
      )
