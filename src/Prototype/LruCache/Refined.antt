-- ===== src/Prototype/LruCache/Refined.antt =====
-- `find` and `putdata` refine the abstract view.
use freqanalysis.Common.{
  ℕ, ◌+◌, ◌^◌, ◌<◌, ◌≡◌, refl, sym, ap, ◌∙◌, false, not, none, some, List, [], ◌∷◌, take, length,
  Bool-cases, inl, inr, Option-cases, if◌then◌else◌, arith,
}
use freqanalysis.Bytes.{Key, fp_size}
use freqanalysis.Prototype.LruCache.Added.{IsCache, add_node_to_head-Added}
use freqanalysis.Prototype.LruCache.Linked.{delete_node-IsLinked}
use freqanalysis.Prototype.LruCache.Located.{length-remove_node}
use freqanalysis.Prototype.LruCache.Nodes.{
  same_key, find_node, remove_node, chain_of, find_in-chain_of,
}
use freqanalysis.Prototype.LruCache.Removed.{remove_node-IsNew}
use freqanalysis.Prototype.LruCache.Used.{
  keys_of, holds, without, to_front, keys_of-remove_node, holds-missing, holds-there,
}
use freqanalysis.Prototype.LruCache.{
  ListNode, Cache, lrucache, str_hash, find_in, delete_node, add_node_to_head, find, putdata,
}

without-missing : (ks : List Key) (str : Key) → holds ks str ≡ false → without ks str ≡ ks
without-missing [] str e = refl
without-missing (k ∷ ks) str e = elim (Bool-cases (same_key k str)) [
  | inl same ↦ ground arith
  | inr other ↦ rw other (ap (λ l. k ∷ l) (without-missing ks str (rw other at e)))
]

-- What using a fingerprint leaves: it is at the front.
abbrev pub IsUsed : Key → Cache → Cache → Type 0
IsUsed str c d =
    IsCache d
    × (keys_of d.list ≡ to_front c.max_cache_size (keys_of c.list) str)
    × (d.max_cache_size ≡ c.max_cache_size)

add_missing-IsUsed :
    (str : Key) (c : Cache)
    → IsCache c
    → find_node c.list str ≡ none
    → IsUsed str c (add_node_to_head str c)
add_missing-IsUsed str c h missing =
    let (absent, new) = holds-missing c.list str missing in
    let a = add_node_to_head-Added str c h new in
    (
      a.cache,
      a.keys
          ∙ ap (λ ks. take c.max_cache_size (take fp_size str ∷ ks))
              (sym (without-missing (keys_of c.list) str absent)),
      a.max,
    )

deleted-IsCache :
    (str : Key) (c : Cache) (t : ListNode)
    → IsCache c
    → find_node c.list str ≡ some t
    → IsCache (delete_node (some t) c)
      × ((delete_node (some t) c).list ≡ remove_node c.list str)
      × ((delete_node (some t) c).max_cache_size ≡ c.max_cache_size)
unfolding delete_node
deleted-IsCache str c t h there =
    let (d, gone) = delete_node-IsLinked c str t h.links there in
    let fewer = length-remove_node c.list str t there in
    let size : length (delete_node (some t) c).list + 1 ≡ length c.list =
      ap (λ l. length l + 1) gone ∙ fewer in
    (
      record {
        links = d;
        counted = omega (arith, size, h.counted, h.bounded, h.small);
        bounded = omega (arith, size, h.counted, h.bounded, h.small);
        small = h.small;
      },
      gone,
      refl,
    )

use_found-IsUsed :
    (str : Key) (c : Cache) (t : ListNode)
    → IsCache c
    → find_node c.list str ≡ some t
    → IsUsed str c (add_node_to_head str (delete_node (some t) c))
use_found-IsUsed str c t h there =
    let (d, gone, max) = deleted-IsCache str c t h there in
    let new = remove_node-IsNew c.list str h.links.apart in
    let a = add_node_to_head-Added str (delete_node (some t) c) d (rw gone new) in
    (
      a.cache,
      a.keys
          ∙ ap (λ n. take n (take fp_size str ∷ keys_of (delete_node (some t) c).list)) max
          ∙ ap (λ l. take c.max_cache_size (take fp_size str ∷ keys_of l)) gone
          ∙ ap (λ ks. take c.max_cache_size (take fp_size str ∷ ks))
              (keys_of-remove_node c.list str),
      a.max ∙ max,
    )

-- The search goes through the chain.
find_in-list :
    (c : Cache) (str : Key)
    → IsCache c
    → find_in (c.hash_table (str_hash str)) str ≡ find_node c.list str
find_in-list c str h =
    ap (λ chain. find_in chain str) (h.links.chains (str_hash str))
    ∙ find_in-chain_of c.list str h.links.apart

-- A new cache.
pub lrucache-IsCache : (size : ℕ) → size < 2 ^ 63 → IsCache (lrucache size)
unfolding lrucache chain_of
lrucache-IsCache size small = record {
  links = record { chains = λ pos. refl; apart = tt; fresh = tt };
  counted = refl;
  bounded = omega arith;
  small = small;
}

-- In a cache whose chains hold the nodes of its list and whose counter is the length of the list,
-- at most its size, `find` says whether the cache holds the fingerprint (one of the same chain and
-- text); if so, the fingerprint moves to the front of the cached ones and the others keep their
-- order, and if not, they stay as they are. The cache stays such a cache, of the same size.
pub find-refines :
    (str : Key) (c : Cache)
    → IsCache c
    → ((find str c).1 ≡ holds (keys_of c.list) str)
      × IsCache (find str c).0
      × (keys_of (find str c).0.list ≡ (
          if holds (keys_of c.list) str
          then to_front c.max_cache_size (keys_of c.list) str
          else keys_of c.list))
      × ((find str c).0.max_cache_size ≡ c.max_cache_size)
unfolding find
find-refines str c h = elim (Option-cases (find_node c.list str)) [
  | inl missing ↦
      let (absent, new) = holds-missing c.list str missing in
      rw (find_in-list c str h ∙ missing, find, absent) (refl, h, refl, refl)
  | inr (t, there) ↦
      let present = holds-there c.list str t there in
      let (d, keys, max) = use_found-IsUsed str c t h there in
      rw (find_in-list c str h ∙ there, find, present) (refl, d, keys, max)
]

-- In a cache whose chains hold the nodes of its list and whose counter is the length of the list,
-- at most its size, `putdata` puts the fingerprint before the others, which keep their order, less
-- an equal one and, beyond the size, the last; it says whether the fingerprint was not there
-- before. The cache stays such a cache, of the same size.
pub putdata-refines :
    (str : Key) (c : Cache)
    → IsCache c
    → ((putdata str c).1 ≡ not (holds (keys_of c.list) str))
      × IsCache (putdata str c).0
      × (keys_of (putdata str c).0.list ≡ to_front c.max_cache_size (keys_of c.list) str)
      × ((putdata str c).0.max_cache_size ≡ c.max_cache_size)
unfolding putdata find
putdata-refines str c h = elim (Option-cases (find_node c.list str)) [
  | inl missing ↦
      let (absent, new) = holds-missing c.list str missing in
      let (d, keys, max) = add_missing-IsUsed str c h missing in
      rw (find_in-list c str h ∙ missing, find, absent) (refl, d, keys, max)
  | inr (t, there) ↦
      let present = holds-there c.list str t there in
      let (d, keys, max) = use_found-IsUsed str c t h there in
      rw (find_in-list c str h ∙ there, find, present) (refl, d, keys, max)
]
