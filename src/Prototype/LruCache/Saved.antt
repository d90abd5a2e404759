-- ===== src/Prototype/LruCache/Saved.antt =====
-- Saving the cache and loading it again.
use freqanalysis.Common.{
  take_all, ℕ, ◌+◌, ◌^◌, ◌<◌, ◌≤◌, ◌≡◌, refl, sym, ap, ◌∙◌, true, false, some, List, [], ◌∷◌, map,
  ltb, length, take, All, ok, ◌>>=◌, Returns, arith,
}
use freqanalysis.Bytes.{Key, fp_size, IsFingerprint}
use freqanalysis.Prototype.Bits
use freqanalysis.Prototype.Bits.{
  key_bits, read_bytes-bits, length-key_bits, key_bits-NoNewline, lines_of, lines_of-line, read_key,
}
use freqanalysis.Prototype.LruCache.Used.{keys_of}
use freqanalysis.Prototype.LruCache.{
  ListNode, Cache, lrucache, signed_lt, add_node_to_head, output_conf, add_lines, init_conf,
}

abbrev pub reversed_onto : List Key → List Key → List Key
reversed_onto [] rest = rest
reversed_onto (k ∷ keys) rest = reversed_onto keys (k ∷ rest)

pub read_key-bits : (k : Key) → IsFingerprint k → read_key (key_bits k) ≡ ok k
unfolding read_key
read_key-bits k h =
    let long : ltb (length (key_bits k) + 1) 48 ≡ false =
      ground (arith, length-key_bits k, h.size) in
    rw long
      (ap ok (ap (λ n. Bits.read_bytes n (key_bits k)) (sym h.size) ∙ read_bytes-bits k h.bytes))

pub lines_of-output_conf :
    (list : List ListNode) → lines_of (output_conf list) ≡ map (λ n. key_bits n.hash_key) list
unfolding output_conf lines_of
lines_of-output_conf [] = refl
lines_of-output_conf (n ∷ list) =
    lines_of-line (key_bits n.hash_key) (output_conf list) (key_bits-NoNewline n.hash_key)
    ∙ ap (λ r. key_bits n.hash_key ∷ r) (lines_of-output_conf list)

-- A cache with room takes the new fingerprint at its head, and keeps the others.
record Added (k : Key) (c t : Cache) : Type 0 where
  keys : keys_of t.list ≡ k ∷ keys_of c.list
  size : t.now_cache_size ≡ c.now_cache_size + 1
  max : t.max_cache_size ≡ c.max_cache_size

add_node_to_head-Added :
    (k : Key) (c : Cache)
    → IsFingerprint k
    → c.now_cache_size < c.max_cache_size
    → c.max_cache_size < 2 ^ 63
    → Added k c (add_node_to_head k c)
unfolding add_node_to_head
add_node_to_head-Added k c h room small =
    let less : signed_lt c.now_cache_size c.max_cache_size ≡ true = ground arith in
    let whole : take fp_size k ≡ k = take_all fp_size k (omega (arith, h.size)) in
    rw less (record {
      keys = ap (λ r. r ∷ keys_of c.list) whole;
      size = omega (arith, room, small);
      max = refl;
    })

add_lines-keys :
    (list : List ListNode) (c : Cache)
    → All (λ n. IsFingerprint n.hash_key) list
    → c.now_cache_size + length list ≤ c.max_cache_size
    → c.max_cache_size < 2 ^ 63
    → Returns
        (add_lines (map (λ n. key_bits n.hash_key) list) c)
        (λ t. keys_of t.list ≡ reversed_onto (keys_of list) (keys_of c.list))
unfolding add_lines
add_lines-keys [] c h room small = (c, refl, refl)
add_lines-keys (n ∷ list) c h room small =
    let a = add_node_to_head-Added n.hash_key c h.0 (omega arith) small in
    let (t, run, keys) =
      add_lines-keys list (add_node_to_head n.hash_key c) h.1 (omega (arith, a.size, a.max))
        (omega (arith, a.max)) in
    (
      t,
      rw (read_key-bits n.hash_key h.0, ◌>>=◌) run,
      keys ∙ ap (reversed_onto (keys_of list)) a.keys,
    )

-- A list of fingerprints that fits the cache, saved by `output_conf` and loaded by `init_conf` into
-- an empty cache, comes back complete and in the opposite order.
pub init_conf-output_conf :
    (max : ℕ) (list : List ListNode)
    → All (λ n. IsFingerprint n.hash_key) list
    → length list ≤ max
    → max < 2 ^ 63
    → Returns
        (init_conf (some (output_conf list)) (lrucache max))
        (λ r. (r.1 ≡ true) × (keys_of r.0.list ≡ reversed_onto (keys_of list) []))
unfolding init_conf lrucache
init_conf-output_conf max list h room small =
    let (t, run, keys) = add_lines-keys list (lrucache max) h (omega arith) small in
    ((t, true), rw (init_conf, lines_of-output_conf list, run) refl, (refl, keys))
