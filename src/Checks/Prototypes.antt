-- ===== src/Checks/Prototypes.antt =====
-- The prototype on small containers, indexes and caches.
use freqanalysis.Common.{
  ◌≤◌, ℕ, inl, ◌+◌, ◌≡◌, ◌≢◌, refl, true, not, ◌||◌, none, some, List, [], ◌∷◌, ◌==◌, if◌then◌else◌,
  ok, Returns, arith,
}
use freqanalysis.Bytes.{Key, key_eq, IsFingerprint}
use freqanalysis.Checks.Store.{memory, memory-IsSound, lookup}
use freqanalysis.LevelDb.{is_found}
use freqanalysis.Prototype.BloomFilter.{
  Bloom, bloom_init_conf, bloom_conf_out, bloom_init_conf-bloom_conf_out,
}
use freqanalysis.Prototype.Container
use freqanalysis.Prototype.Container.Collected.{Collects}
use freqanalysis.Prototype.Container.Inserted.{Inserts, insert-Inserts}
use freqanalysis.Prototype.Container.Stored.{IsPlain, pocessw-loadtonode}
use freqanalysis.Prototype.Container.{Manager, pocessw, loadtonode}
use freqanalysis.Prototype.Deduplication.Points.{IsIndexed}
use freqanalysis.Prototype.Deduplication.Indexed.{read_hashes-IsIndexed}
use freqanalysis.Prototype.Deduplication.{State, read_hashes}
use freqanalysis.Prototype.FpIndex
use freqanalysis.Trace.Read.{Line, skipped, chunk}
use freqanalysis.Prototype.FpIndex.{done, present, find-insert}
use freqanalysis.Prototype.LruCache.Saved.{reversed_onto, init_conf-output_conf}
use freqanalysis.Prototype.LruCache.Used.{keys_of}
use freqanalysis.Prototype.LruCache.Bounded.{putdata-IsWithin}
use freqanalysis.Prototype.LruCache.{
  Cache, putdata, find, ListNode, lrucache, output_conf, init_conf,
}

abbrev pub plain_key : Key
plain_key = 1 ∷ 2 ∷ 3 ∷ 4 ∷ 5 ∷ 6 ∷ []

abbrev pub next_key : Key
next_key = 200 ∷ 2 ∷ 3 ∷ 4 ∷ 5 ∷ 255 ∷ []

pub plain_key-IsPlain : IsPlain plain_key
plain_key-IsPlain = record {
  size = refl;
  bytes =
      (omega arith, (omega arith, (omega arith, (omega arith, (omega arith, (omega arith, tt))))));
  nonzero = (refl, (refl, (refl, (refl, (refl, (refl, tt))))));
}

plain_key-IsFingerprint : IsFingerprint plain_key
plain_key-IsFingerprint = record { size = refl; bytes = plain_key-IsPlain.bytes }

pub next_key-IsPlain : IsPlain next_key
next_key-IsPlain = record {
  size = refl;
  bytes =
      (omega arith, (omega arith, (omega arith, (omega arith, (omega arith, (omega arith, tt))))));
  nonzero = (refl, (refl, (refl, (refl, (refl, (refl, tt))))));
}

abbrev collected : Manager
collected = record { now_id = 12; tmp = plain_key ∷ []; now_size = 4096; files = λ p. none }

collected-Collects : Collects (b'c' ∷ []) collected
collected-Collects = record { plain = (plain_key-IsPlain, tt); fresh = λ id later. refl }

collected-nonempty : collected.tmp ≢ []
collected-nonempty = λ e. cc

other_number : 12 ≢ collected.now_id + 1
other_number = λ e. omega arith

pocessw-loadtonode_example : Returns (pocessw (b'c' ∷ []) collected) λ r.
    (r.1 ≡ true)
    × (r.0.now_id ≡ 13)
    × (r.0.tmp ≡ [])
    × (loadtonode (b'c' ∷ []) 12 r.0
        ≡ (if 12 == 12 then ok (some (plain_key ∷ [])) else loadtonode (b'c' ∷ []) 12 collected))
pocessw-loadtonode_example =
    pocessw-loadtonode (b'c' ∷ []) collected 12 collected-nonempty (plain_key-IsPlain, tt)
      (omega arith) other_number

insert-Inserts_example :
    Returns
      (Container.insert (b'c' ∷ []) next_key 8192 collected)
      (Inserts (b'c' ∷ []) next_key collected)
insert-Inserts_example =
    insert-Inserts (b'c' ∷ []) next_key 8192 collected collected-Collects next_key-IsPlain
      (omega arith)

-- A filter that holds every fingerprint it is asked for.
abbrev pub full_filter : Bloom
full_filter = record {
  Filter = Unit;
  check = λ f k. true;
  add = λ f k. tt;
  bf = λ f. [];
  with_bf = λ f bytes. tt;
}

abbrev fresh_state : State Unit (List (Key × List ℕ))
fresh_state = record {
  blm = tt;
  lpc = lrucache 5;
  cmr = collected;
  fpi = [];
  index_access = 0;
  loading_access = 0;
  update_access = 0;
  printed = [];
}

fresh_state-IsIndexed : IsIndexed full_filter memory memory-IsSound (b'c' ∷ []) fresh_state
unfolding FpIndex.find lookup
fresh_state-IsIndexed = record { collects = collected-Collects; points = λ k. inl refl }

abbrev pub lines : List Line
lines =
    skipped
    ∷ chunk next_key (some (b'8' ∷ []))
    ∷ chunk plain_key (some (b'9' ∷ []))
    ∷ chunk next_key (some (b'8' ∷ []))
    ∷ []

read_hashes-IsIndexed_example :
    Returns
      (read_hashes full_filter memory (b'c' ∷ []) lines fresh_state)
      (IsIndexed full_filter memory memory-IsSound (b'c' ∷ []))
read_hashes-IsIndexed_example =
    read_hashes-IsIndexed full_filter memory memory-IsSound (b'c' ∷ []) lines fresh_state
      fresh_state-IsIndexed (tt, (next_key-IsPlain, (plain_key-IsPlain, (next_key-IsPlain, tt))))
      (omega arith)

find-insert_example :
    ((FpIndex.insert memory [] plain_key 7).1
      ≡ (if is_found (memory.get [] plain_key) then present else done))
    × (FpIndex.find memory (FpIndex.insert memory [] plain_key 7).0 next_key ≡ (
        if is_found (memory.get [] plain_key) || not (key_eq plain_key next_key)
        then FpIndex.find memory [] next_key
        else 7))
find-insert_example = find-insert memory memory-IsSound [] plain_key next_key 7 (omega arith)

abbrev cached : List ListNode
cached = record { address = 1; hash_key = plain_key } ∷ []

init_conf-output_conf_example :
    Returns
      (init_conf (some (output_conf cached)) (lrucache 5))
      (λ r. (r.1 ≡ true) × (keys_of r.0.list ≡ reversed_onto (keys_of cached) []))
init_conf-output_conf_example =
    init_conf-output_conf 5 cached (plain_key-IsFingerprint, tt) (omega arith) (omega arith)

bloom_init_conf-bloom_conf_out_example :
    bloom_init_conf (0 ∷ 0 ∷ []) (some (bloom_conf_out (255 ∷ 16 ∷ []))) ≡ ok (255 ∷ 16 ∷ [], true)
bloom_init_conf-bloom_conf_out_example =
    bloom_init_conf-bloom_conf_out (255 ∷ 16 ∷ []) (0 ∷ 0 ∷ []) (omega arith, (omega arith, tt))
      refl

abbrev small_cache : Cache
small_cache = lrucache 1

small_cache-size : (small_cache.now_cache_size ≡ 0) × (small_cache.max_cache_size ≡ 1)
unfolding lrucache
small_cache-size = (refl, refl)

putdata-IsWithin_example :
    ((putdata plain_key small_cache).0.now_cache_size ≤ small_cache.max_cache_size)
    × ((find plain_key small_cache).0.now_cache_size ≤ small_cache.max_cache_size)
    × ((putdata plain_key small_cache).0.max_cache_size ≡ small_cache.max_cache_size)
putdata-IsWithin_example =
    putdata-IsWithin plain_key small_cache (omega (arith, small_cache-size.0, small_cache-size.1))
      (omega (arith, small_cache-size.1))
