-- ===== src/Checks/Caches.antt =====
-- The cache and the deduplication of the prototype, from their first state.
use freqanalysis.Trace.Read.{skipped, chunk, read_lines}
use freqanalysis.Trace.Text.{codes}
use freqanalysis.Common.{
  ◌++◌, Bool, true, false, ℕ, ◌≡◌, refl, not, none, some, List, [], ◌∷◌, if◌then◌else◌, ok, Returns,
  ◌==◌, arith,
}
use freqanalysis.Bytes.{Key}
use freqanalysis.Checks.Prototypes.{plain_key, next_key, plain_key-IsPlain, next_key-IsPlain, lines}
use freqanalysis.Checks.Store.{memory, memory-IsSound, lookup}
use freqanalysis.Prototype.Deduplication.Complete.{AreStored, read_hashes-stores_each}
use freqanalysis.Prototype.Deduplication.Covered.{IsCovered}
use freqanalysis.Prototype.Deduplication
use freqanalysis.Prototype.Deduplication.FirstRun.{IsNew, first_state, first_state-IsCovered}
use freqanalysis.Prototype.Deduplication.Unique.{IsBloom}
use freqanalysis.Prototype.Deduplication.Once.{uniques, main-counts_unique}
use freqanalysis.Prototype.Deduplication.Resumed.{IsFilter, main-stores_both}
use freqanalysis.Prototype.BloomFilter.{Bloom}
use freqanalysis.Prototype.Deduplication.{State, Outcome, read_hashes, print_counters}
use freqanalysis.Prototype.LruCache.Added.{IsCache}
use freqanalysis.Prototype.LruCache.Histories.{
  Use, search, insertion, run_cache, run_keys, uses-refine,
}
use freqanalysis.Prototype.LruCache.Refined.{lrucache-IsCache, putdata-refines}
use freqanalysis.Prototype.LruCache.Used.{keys_of, holds, to_front}
use freqanalysis.Prototype.LruCache.{Cache, lrucache, putdata}

abbrev new_cache : Cache
new_cache = lrucache 2

new_cache-IsCache : IsCache new_cache
new_cache-IsCache = lrucache-IsCache 2 (omega arith)

putdata-refines_example :
    ((putdata plain_key new_cache).1 ≡ not (holds (keys_of new_cache.list) plain_key))
    × IsCache (putdata plain_key new_cache).0
    × (keys_of (putdata plain_key new_cache).0.list
        ≡ to_front new_cache.max_cache_size (keys_of new_cache.list) plain_key)
    × ((putdata plain_key new_cache).0.max_cache_size ≡ new_cache.max_cache_size)
putdata-refines_example = putdata-refines plain_key new_cache new_cache-IsCache

abbrev uses : List Use
uses = insertion plain_key ∷ insertion next_key ∷ search plain_key ∷ search (7 ∷ []) ∷ []

uses-refine_example :
    IsCache (run_cache uses (lrucache 2)).0
    × (keys_of (run_cache uses (lrucache 2)).0.list ≡ (run_keys 2 uses []).0)
    × ((run_cache uses (lrucache 2)).1 ≡ (run_keys 2 uses []).1)
uses-refine_example = uses-refine 2 uses (omega arith)

-- A filter of one byte: whether something was added.
abbrev byte_filter : Bloom
byte_filter = record {
  Filter = Bool;
  check = λ f k. f;
  add = λ f k. true;
  bf = λ f. (if f then 1 else 0) ∷ [];
  with_bf = λ f bytes. elim bytes [ [] ↦ f | b ∷ _ ↦ b == 1 ];
}

byte_filter-IsFilter : IsFilter byte_filter
byte_filter-IsFilter = record { bytes = λ f. (ground arith, tt); size = λ f g. refl }

directory-IsNew : IsNew byte_filter memory memory-IsSound (b'c' ∷ []) (λ p. none) []
unfolding lookup
directory-IsNew = record {
  no_manifest = refl;
  no_container = λ id. refl;
  no_fingerprint = λ k. refl;
}

abbrev new_state : State Bool (List (Key × List ℕ))
new_state = first_state byte_filter memory memory-IsSound (b'c' ∷ []) false (λ p. none) []

read_hashes-stores_each_example :
    Returns (read_hashes byte_filter memory (b'c' ∷ []) lines new_state) (λ t.
      IsCovered byte_filter memory memory-IsSound (b'c' ∷ []) t
      × AreStored byte_filter memory memory-IsSound (b'c' ∷ []) t lines
      × (t.printed ≡ new_state.printed))
read_hashes-stores_each_example =
    read_hashes-stores_each byte_filter memory memory-IsSound (b'c' ∷ []) lines new_state
      (first_state-IsCovered byte_filter memory memory-IsSound (b'c' ∷ []) false (λ p. none) []
        directory-IsNew)
      (tt, (next_key-IsPlain, (plain_key-IsPlain, (next_key-IsPlain, tt)))) (omega arith)

-- A trace of one chunk twice, and one that has another chunk as well.
abbrev small_trace : List ℕ
small_trace =
    codes "Chunk Hash"
    ++ (10 ∷ [])
    ++ codes "01:02:03:04:05:06\t\t8\n"
    ++ codes "01:02:03:04:05:06\t\t8\n"

abbrev later_trace : List ℕ
later_trace = codes "c8:02:03:04:05:ff\t\t9\n" ++ codes "01:02:03:04:05:06\t\t8\n"

small_trace_lines :
    read_lines small_trace
    ≡ skipped ∷ chunk plain_key (some (b'8' ∷ [])) ∷ chunk plain_key (some (b'8' ∷ [])) ∷ []
unfolding read_lines
small_trace_lines = refl

later_trace_lines :
    read_lines later_trace
    ≡ chunk next_key (some (b'9' ∷ [])) ∷ chunk plain_key (some (b'8' ∷ [])) ∷ []
unfolding read_lines
later_trace_lines = refl

main-stores_both_example :
    (r : Outcome Bool memory.Db) × (q : Outcome Bool memory.Db) × (Deduplication.main byte_filter
        memory false
        (λ p. none)
        (b'c' ∷ [])
        (some [])
        none
        none
        (some small_trace)
      ≡ ok r)
    × (r.status ≡ 0)
    × (r.output ≡ print_counters byte_filter memory r.final)
    × (Deduplication.main byte_filter memory false r.final.cmr.files
          (b'c' ∷ [])
          (some r.final.fpi)
          r.bloom_conf
          r.lru_conf
          (some later_trace)
        ≡ ok q)
    × (q.status ≡ 0)
    × (q.output ≡ print_counters byte_filter memory q.final)
    × AreStored byte_filter memory memory-IsSound (b'c' ∷ []) q.final (read_lines small_trace)
    × AreStored byte_filter memory memory-IsSound (b'c' ∷ []) q.final (read_lines later_trace)
main-stores_both_example =
    main-stores_both byte_filter byte_filter-IsFilter memory memory-IsSound (b'c' ∷ []) false false
      (λ p. none) [] small_trace later_trace directory-IsNew
      (rw small_trace_lines (tt, (plain_key-IsPlain, (plain_key-IsPlain, tt))))
      (rw later_trace_lines (next_key-IsPlain, (plain_key-IsPlain, tt)))
      (rw (small_trace_lines, later_trace_lines) (omega arith))

byte_filter-IsBloom : IsBloom byte_filter
byte_filter-IsBloom = record { check-add = λ f k. refl; check-kept = λ f k j there. refl }

main-counts_unique_example :
    Returns
      (Deduplication.main byte_filter memory false
        (λ p. none)
        (b'c' ∷ [])
        (some [])
        none
        none
        (some small_trace))
      (λ r.
        (r.output ≡ print_counters byte_filter memory r.final)
        × (r.final.update_access ≡ uniques (λ k. false) (read_lines small_trace)))
main-counts_unique_example =
    main-counts_unique byte_filter byte_filter-IsBloom memory memory-IsSound (b'c' ∷ []) false
      (λ p. none) [] small_trace directory-IsNew
      (rw small_trace_lines (tt, (plain_key-IsPlain, (plain_key-IsPlain, tt))))
      (rw small_trace_lines (omega arith))
