-- ===== src/Prototype/LruCache/Histories.antt =====
-- Any sequence of uses of a new cache.
use freqanalysis.Common.{ℕ, ◌^◌, ◌<◌, ◌≡◌, refl, ap, ◌∙◌, not, Bool, List, [], ◌∷◌, if◌then◌else◌}
use freqanalysis.Bytes.{Key}
use freqanalysis.Prototype.LruCache.Added.{IsCache}
use freqanalysis.Prototype.LruCache.Refined.{lrucache-IsCache, find-refines, putdata-refines}
use freqanalysis.Prototype.LruCache.Used.{keys_of, holds, to_front}
use freqanalysis.Prototype.LruCache.{Cache, lrucache, find, putdata}

pub data Use : Type 0 where
  search insertion : Key → Use

-- The cache after the uses, and their answers.
unfoldable pub run_cache : List Use → Cache → Cache × List Bool
run_cache [] c = (c, [])
run_cache (search str ∷ uses) c =
    let (d, there) = find str c in let later = run_cache uses d in (later.0, there ∷ later.1)
run_cache (insertion str ∷ uses) c =
    let (d, added) = putdata str c in let later = run_cache uses d in (later.0, added ∷ later.1)

-- The same on a list of fingerprints with the last used first.
unfoldable pub run_keys : ℕ → List Use → List Key → List Key × List Bool
run_keys size [] ks = (ks, [])
run_keys size (search str ∷ uses) ks =
    let later = run_keys size uses (if holds ks str then to_front size ks str else ks) in
    (later.0, holds ks str ∷ later.1)
run_keys size (insertion str ∷ uses) ks =
    let later = run_keys size uses (to_front size ks str) in (later.0, not (holds ks str) ∷ later.1)

abbrev Refines : List Use → Cache → Cache × List Bool → ℕ → List Key → Type 0
Refines uses c r size ks =
    IsCache r.0 × (keys_of r.0.list ≡ (run_keys size uses ks).0) × (r.1 ≡ (run_keys size uses ks).1)

run_cache-Refines :
    (uses : List Use) (c : Cache)
    → IsCache c
    → Refines uses c (run_cache uses c) c.max_cache_size (keys_of c.list)
unfolding run_cache run_keys
run_cache-Refines [] c h = (h, refl, refl)
run_cache-Refines (search str ∷ uses) c h =
    let (there, d, keys, max) = find-refines str c h in
    let (e, keys', answers) = run_cache-Refines uses (find str c).0 d in
    (
      e,
      keys'
          ∙ ap (λ n. (run_keys n uses (keys_of (find str c).0.list)).0) max
          ∙ ap (λ ks. (run_keys c.max_cache_size uses ks).0) keys,
      rw there (
          ap (λ bs. holds (keys_of c.list) str ∷ bs)
            (answers
              ∙ ap (λ n. (run_keys n uses (keys_of (find str c).0.list)).1) max
              ∙ ap (λ ks. (run_keys c.max_cache_size uses ks).1) keys)),
    )
run_cache-Refines (insertion str ∷ uses) c h =
    let (added, d, keys, max) = putdata-refines str c h in
    let (e, keys', answers) = run_cache-Refines uses (putdata str c).0 d in
    (
      e,
      keys'
          ∙ ap (λ n. (run_keys n uses (keys_of (putdata str c).0.list)).0) max
          ∙ ap (λ ks. (run_keys c.max_cache_size uses ks).0) keys,
      rw added (
          ap (λ bs. not (holds (keys_of c.list) str) ∷ bs)
            (answers
              ∙ ap (λ n. (run_keys n uses (keys_of (putdata str c).0.list)).1) max
              ∙ ap (λ ks. (run_keys c.max_cache_size uses ks).1) keys)),
    )

-- From a new cache of a size below 2 ^ 63, any sequence of `find` and `putdata` gives the answers,
-- and leaves the fingerprints, that a list of the last used ones gives and leaves, cut at the size;
-- the chains hold the nodes of the list, and the counter is its length.
pub uses-refine :
    (size : ℕ) (uses : List Use)
    → size < 2 ^ 63
    → IsCache (run_cache uses (lrucache size)).0
      × (keys_of (run_cache uses (lrucache size)).0.list ≡ (run_keys size uses []).0)
      × ((run_cache uses (lrucache size)).1 ≡ (run_keys size uses []).1)
unfolding lrucache
uses-refine size uses small = run_cache-Refines uses (lrucache size) (lrucache-IsCache size small)
