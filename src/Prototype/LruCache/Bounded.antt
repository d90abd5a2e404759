-- ===== src/Prototype/LruCache/Bounded.antt =====
-- The counter `now_cache_size` stays within `max_cache_size`.
use freqanalysis.Common.{
  ◌+◌, ◌-◌, ◌%◌, ◌^◌, ◌<◌, ◌≤◌, ◌≡◌, refl, ap, ◌∙◌, ◌⊎◌, ◌∷◌, take, Option, none, some,
  if◌then◌else◌, Bool-cases, inl, inr, arith, ltb, Option-cases,
}
use freqanalysis.Bytes.{Key, u64, fp_size}
use freqanalysis.Prototype.LruCache.{
  ListNode, Cache, signed_lt, delete_node, add_node_to_head, find, find_in, str_hash, putdata,
  last_node, insert_hash,
}

IsWithin : Cache → Cache → Type 0
IsWithin c t = (t.max_cache_size ≡ c.max_cache_size) × (t.now_cache_size ≤ c.max_cache_size)

delete_node-counts :
    (p : Option ListNode) (c : Cache)
    → ((delete_node p c).now_cache_size ≡ (c.now_cache_size + (u64 - 1)) % u64)
      × ((delete_node p c).max_cache_size ≡ c.max_cache_size)
unfolding delete_node
delete_node-counts none c = (refl, refl)
delete_node-counts (some t) c = (refl, refl)

add_node_to_head-counts :
    (str : Key) (c : Cache)
    → ((add_node_to_head str c).now_cache_size ≡ (
        if signed_lt c.now_cache_size c.max_cache_size
        then (c.now_cache_size + 1) % u64
        else ((c.now_cache_size + (u64 - 1)) % u64 + 1) % u64))
      × ((add_node_to_head str c).max_cache_size ≡ c.max_cache_size)
unfolding add_node_to_head
add_node_to_head-counts str c = elim (Bool-cases (signed_lt c.now_cache_size c.max_cache_size)) [
  | inl room ↦ rw (add_node_to_head, room) (refl, refl)
  | inr full ↦
      let q : ListNode = record { address = c.next_address; hash_key = take fp_size str } in
      let linked : Cache = record c {
        list = q ∷ c.list;
        hash_table = insert_hash c.hash_table str q;
        next_address = c.next_address + 1;
      } in
      let d = delete_node-counts (last_node linked.list) linked in
      rw (add_node_to_head, full) (ap (λ n. (n + 1) % u64) d.0, d.1)
]

-- Adding a node to a cache whose counter is within the bound, or -1.
add_node_to_head-IsWithin :
    (str : Key) (c : Cache)
    → (c.now_cache_size ≤ c.max_cache_size) ⊎ (c.now_cache_size ≡ u64 - 1)
    → c.max_cache_size < 2 ^ 63
    → IsWithin c (add_node_to_head str c)
unfolding IsWithin
add_node_to_head-IsWithin str c (inl le) small =
    let a = add_node_to_head-counts str c in (a.1, ground (arith, a.0))
add_node_to_head-IsWithin str c (inr minus) small =
    let a = add_node_to_head-counts str c in (a.1, ground (arith, a.0, minus))

find-IsWithin :
    (str : Key) (c : Cache)
    → c.now_cache_size ≤ c.max_cache_size
    → c.max_cache_size < 2 ^ 63
    → IsWithin c (find str c).0
unfolding find IsWithin
find-IsWithin str c le small = elim (Option-cases (find_in (c.hash_table (str_hash str)) str)) [
  | inl missing ↦ rw (find, missing) (refl, le)
  | inr (r, there) ↦
      let d = delete_node (some r) c in
      let (now, max) = delete_node-counts (some r) c in
      let low : (d.now_cache_size ≤ d.max_cache_size) ⊎ (d.now_cache_size ≡ u64 - 1) =
        elim (Bool-cases (ltb 0 c.now_cache_size)) [
          | inl positive ↦ inl (ground (arith, now, max))
          | inr zero ↦ inr (ground (arith, now))
        ] in
      let w = add_node_to_head-IsWithin str d low (omega (arith, max)) in
      rw (find, there) (w.0 ∙ max, omega (arith, w.1, max))
]

-- If the counter `now_cache_size` is at most `max_cache_size`, and that is below 2 ^ 63, then
-- `putdata` and `find` leave the counter at most `max_cache_size`, also where it passes through -1,
-- and `putdata` leaves `max_cache_size` as it was.
pub putdata-IsWithin :
    (str : Key) (c : Cache)
    → c.now_cache_size ≤ c.max_cache_size
    → c.max_cache_size < 2 ^ 63
    → ((putdata str c).0.now_cache_size ≤ c.max_cache_size)
      × ((find str c).0.now_cache_size ≤ c.max_cache_size)
      × ((putdata str c).0.max_cache_size ≡ c.max_cache_size)
unfolding putdata IsWithin
putdata-IsWithin str c le small =
    let f = find-IsWithin str c le small in
    elim (Bool-cases (find str c).1) [
      | inl there ↦ rw (putdata, there) (f.1, f.1, f.0)
      | inr missing ↦
          let w =
            add_node_to_head-IsWithin str (find str c).0 (inl (omega (arith, f.0, f.1)))
              (omega (arith, f.0)) in
          rw (putdata, missing) (omega (arith, w.1, f.0), f.1, w.0 ∙ f.0)
    ]
