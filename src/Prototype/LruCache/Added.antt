-- ===== src/Prototype/LruCache/Added.antt =====
-- The invariant of the cache, and a new fingerprint in it.
use freqanalysis.Common.{
  take_all, length-take_full, suc, ◌+◌, ◌%◌, ◌^◌, ◌<◌, ◌≤◌, ◌≡◌, refl, sym, ap, ◌∙◌, true, false,
  some, ◌∷◌, take, length, Bool-cases, inl, inr, arith,
}
use freqanalysis.Bytes.{Key, fp_size, u64}
use freqanalysis.Prototype.LruCache.Linked.{IsLinked, linked, linked-IsLinked, delete_node-IsLinked}
use freqanalysis.Prototype.LruCache.Located.{find_node-last, last_node-exists, remove_node-last}
use freqanalysis.Prototype.LruCache.Nodes.{IsNew}
use freqanalysis.Prototype.LruCache.Used.{keys_of, keys_of-take, length-keys_of}
use freqanalysis.Prototype.LruCache.{
  ListNode, Cache, signed_lt, delete_node, last_node, add_node_to_head,
}

-- Chains and list agree, and the counter is the length of the list.
pub record IsCache (c : Cache) : Type 0 where
  pub links : IsLinked c
  pub counted : c.now_cache_size ≡ length c.list
  pub bounded : c.now_cache_size ≤ c.max_cache_size
  pub small : c.max_cache_size < 2 ^ 63

-- What adding a fingerprint leaves.
pub record Added (str : Key) (c d : Cache) : Type 0 where
  pub cache : IsCache d
  pub keys : keys_of d.list ≡ take c.max_cache_size (take fp_size str ∷ keys_of c.list)
  pub max : d.max_cache_size ≡ c.max_cache_size

add_room :
    (str : Key) (c : Cache)
    → IsCache c
    → IsNew str c.list
    → signed_lt c.now_cache_size c.max_cache_size ≡ true
    → Added str c (record (linked str c) { now_cache_size = (c.now_cache_size + 1) % u64 })
add_room str c h new room =
    let l = linked-IsLinked str c h.links new in
    let less : c.now_cache_size < c.max_cache_size = ground (arith, h.small, h.bounded) in
    record {
      cache = record {
        links = record { chains = l.chains; apart = l.apart; fresh = l.fresh };
        counted = omega (arith, h.counted, less, h.small);
        bounded = omega (arith, less, h.small);
        small = h.small;
      };
      keys = sym (
          take_all c.max_cache_size (take fp_size str ∷ keys_of c.list)
            (omega (arith, length-keys_of c.list, h.counted, less)));
      max = refl;
    }

abbrev counted_again : Cache → Cache
counted_again d = record d { now_cache_size = (d.now_cache_size + 1) % u64 }

add_full :
    (str : Key) (c : Cache) (b : ListNode)
    → IsCache c
    → IsNew str c.list
    → signed_lt c.now_cache_size c.max_cache_size ≡ false
    → last_node (linked str c).list ≡ some b
    → Added str c (counted_again (delete_node (some b) (linked str c)))
unfolding delete_node
add_full str c b h new full last =
    let l = linked-IsLinked str c h.links new in
    let n = c.max_cache_size in
    let all = (linked str c).list in
    let same : c.now_cache_size ≡ n = ground (arith, h.small, h.bounded) in
    let size : length all ≡ suc n = omega (arith, h.counted, same) in
    let (d, taken) =
      delete_node-IsLinked (linked str c) b.hash_key b l (find_node-last all b l.apart last) in
    let kept : (delete_node (some b) (linked str c)).list ≡ take n all =
      taken ∙ remove_node-last all b n l.apart last size in
    record {
      cache = record {
        links = record { chains = d.chains; apart = d.apart; fresh = d.fresh };
        counted =
            omega (arith, same, h.small)
            ∙ sym (ap length kept ∙ length-take_full n all (omega (arith, size)));
        bounded = omega (arith, same, h.small);
        small = h.small;
      };
      keys = ap keys_of kept ∙ keys_of-take n all;
      max = refl;
    }

-- A fingerprint that the cache does not hold becomes its head.
pub add_node_to_head-Added :
    (str : Key) (c : Cache) → IsCache c → IsNew str c.list → Added str c (add_node_to_head str c)
unfolding add_node_to_head
add_node_to_head-Added str c h new =
    elim (Bool-cases (signed_lt c.now_cache_size c.max_cache_size)) [
      | inl room ↦ rw room (add_room str c h new room)
      | inr full ↦
          let (b, last) =
            last_node-exists (record { address = c.next_address; hash_key = take fp_size str })
              c.list in
          rw (full, last) (add_full str c b h new full last)
    ]
