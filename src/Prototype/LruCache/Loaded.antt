-- ===== src/Prototype/LruCache/Loaded.antt =====
-- A cache that `init_conf` loads from what `output_conf` saved is in order.
use freqanalysis.Common.{
  arith, take_all, ℕ, zero, suc, ◌^◌, ◌<◌, ◌≡◌, refl, ap, ◌∙◌, true, false, Bool, some, List, [],
  ◌∷◌, map, take, All, ◌>>=◌, Returns,
}
use freqanalysis.Bytes.{Key, fp_size, IsFingerprint}
use freqanalysis.Prototype.Bits.{key_bits}
use freqanalysis.Prototype.LruCache.Added.{IsCache, add_node_to_head-Added}
use freqanalysis.Prototype.LruCache.Known.{ArePassed, take-ArePassed}
use freqanalysis.Prototype.LruCache.Nodes.{same_key, same_key_sym, IsNew, AreApart}
use freqanalysis.Prototype.LruCache.Refined.{lrucache-IsCache}
use freqanalysis.Prototype.LruCache.Saved.{read_key-bits, lines_of-output_conf}
use freqanalysis.Prototype.LruCache.Used.{keys_of}
use freqanalysis.Prototype.LruCache.{
  ListNode, Cache, lrucache, add_node_to_head, output_conf, add_lines, init_conf,
}

-- No key of the list stands for `k`.
abbrev IsNewKey : Key → List Key → Type 0
IsNewKey k ks = All (λ j. same_key j k ≡ false) ks

IsNewKey-take : (k : Key) (n : ℕ) (ks : List Key) → IsNewKey k ks → IsNewKey k (take n ks)
IsNewKey-take k zero ks h = tt
IsNewKey-take k (suc n) [] h = tt
IsNewKey-take k (suc n) (j ∷ ks) h = (h.0, IsNewKey-take k n ks h.1)

IsNewKey-of : (k : Key) (list : List ListNode) → IsNew k list → IsNewKey k (keys_of list)
IsNewKey-of k [] h = tt
IsNewKey-of k (q ∷ list) h = (h.0, IsNewKey-of k list h.1)

IsNew-of : (k : Key) (list : List ListNode) → IsNewKey k (keys_of list) → IsNew k list
IsNew-of k [] h = tt
IsNew-of k (q ∷ list) h = (h.0, IsNew-of k list h.1)

-- The nodes have fingerprints that the cache does not hold.
abbrev AreNew : List ListNode → Cache → Type 0
AreNew nodes c = All (λ (n : ListNode). IsNew n.hash_key c.list) nodes

AreNew-added :
    (k : Key) (nodes : List ListNode) (c d : Cache)
    → keys_of d.list ≡ take c.max_cache_size (k ∷ keys_of c.list)
    → IsNew k nodes
    → AreNew nodes c
    → AreNew nodes d
AreNew-added k [] c d keys new h = tt
AreNew-added k (n ∷ nodes) c d keys new h = (
  IsNew-of n.hash_key d.list (
      rw keys (
        IsNewKey-take n.hash_key c.max_cache_size (k ∷ keys_of c.list)
          (same_key_sym k n.hash_key ∙ new.0, IsNewKey-of n.hash_key c.list h.0))),
  AreNew-added k nodes c d keys new.1 h.1,
)

-- A cache in order, whose fingerprints pass the test.
abbrev pub IsPassedCache : (Key → Bool) → Cache → Type 0
IsPassedCache test c = IsCache c × ArePassed test (keys_of c.list)

add_lines-IsPassedCache :
    (test : Key → Bool) (nodes : List ListNode) (c : Cache)
    → ((k : Key) → test k ≡ true → IsFingerprint k)
    → AreApart nodes
    → ArePassed test (keys_of nodes)
    → IsPassedCache test c
    → AreNew nodes c
    → Returns (add_lines (map (λ n. key_bits n.hash_key) nodes) c) (IsPassedCache test)
unfolding add_lines
add_lines-IsPassedCache test [] c finger apart passed h new = (c, refl, h)
add_lines-IsPassedCache test (n ∷ nodes) c finger apart passed h new =
    let fp = finger n.hash_key passed.0 in
    let a = add_node_to_head-Added n.hash_key c h.0 new.0 in
    let d = add_node_to_head n.hash_key c in
    let keys : keys_of d.list ≡ take c.max_cache_size (n.hash_key ∷ keys_of c.list) =
      a.keys
      ∙ ap (λ k. take c.max_cache_size (k ∷ keys_of c.list))
          (take_all fp_size n.hash_key (omega (arith, fp.size))) in
    let (t, run, r) =
      add_lines-IsPassedCache test nodes d finger apart.2 passed.1
        (
          a.cache,
          rw keys
              (take-ArePassed test c.max_cache_size (n.hash_key ∷ keys_of c.list) (passed.0, h.1)),
        )
        (AreNew-added n.hash_key nodes c d keys apart.0 new.1) in
    (t, rw (read_key-bits n.hash_key fp, ◌>>=◌) run, r)

AreNew-empty : (nodes : List ListNode) (size : ℕ) → AreNew nodes (lrucache size)
unfolding lrucache
AreNew-empty [] size = tt
AreNew-empty (n ∷ nodes) size = (tt, AreNew-empty nodes size)

pub init_conf-IsPassedCache :
    (test : Key → Bool) (size : ℕ) (c : Cache)
    → ((k : Key) → test k ≡ true → IsFingerprint k)
    → size < 2 ^ 63
    → IsPassedCache test c
    → Returns (init_conf (some (output_conf c.list)) (lrucache size)) (λ r. IsPassedCache test r.0)
unfolding init_conf lrucache
init_conf-IsPassedCache test size c finger small h =
    let (t, run, r) =
      add_lines-IsPassedCache test c.list (lrucache size) finger h.0.links.apart h.1
        (lrucache-IsCache size small, tt) (AreNew-empty c.list size) in
    ((t, true), rw (init_conf, lines_of-output_conf c.list, run) refl, r)
