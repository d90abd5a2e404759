-- ===== src/Prototype/LruCache/Linked.antt =====
-- The chains hold the nodes of the list: what taking and adding a node do to both.
use freqanalysis.Common.{
  take-take, ℕ, ◌+◌, ◌%◌, ◌<◌, ◌≡◌, sym, ap, ◌∙◌, true, ◌==◌, some, List, [], ◌∷◌, ◌++◌, take, All,
  Bool-cases, inl, inr, arith,
}
use freqanalysis.Bytes.{Key, fp_size, key_eq_refl}
use freqanalysis.Prototype.LruCache.Located.{unlink-find_node}
use freqanalysis.Prototype.LruCache.Nodes.{
  same_key, find_node, remove_node, chain_of, IsNew, IsNew-same, AreApart,
}
use freqanalysis.Prototype.LruCache.Located.{find_node-key}
use freqanalysis.Prototype.LruCache.Removed.{
  remove_from-chain_of, chain_of-elsewhere, All-remove_node, remove_node-AreApart, remove_node-same,
}
use freqanalysis.Prototype.LruCache.{
  ListNode, Cache, str_hash, hash_from, hash_size, same_text, insert_hash, delete_hash, delete_node,
}
use freqanalysis.Trace.Text.{c_string}

-- The chains hold the nodes of the list, and a new node gets a new address.
pub record IsLinked (c : Cache) : Type 0 where
  pub chains : (pos : ℕ) → c.hash_table pos ≡ chain_of pos c.list
  pub apart : AreApart c.list
  pub fresh : All (λ (r : ListNode). r.address < c.next_address) c.list

-- The bytes that are kept are those that the cache looks at.
str_hash-take : (k : Key) → str_hash (take fp_size k) ≡ str_hash k
unfolding str_hash
str_hash-take k = ap (λ l. hash_from 0 l % hash_size) (take-take fp_size k)

same_text-take : (k : Key) → same_text k (take fp_size k) ≡ true
unfolding same_text
same_text-take k = rw (take-take fp_size k) (key_eq_refl (c_string (take fp_size k)))

pub same_key-take : (k : Key) → same_key k (take fp_size k) ≡ true
unfolding same_key
same_key-take k = ground (arith, str_hash-take k, same_text-take k)

delete_hash-chain_of :
    (table : ℕ → List ListNode) (list : List ListNode) (k : Key) (pos : ℕ)
    → ((pos : ℕ) → table pos ≡ chain_of pos list)
    → AreApart list
    → delete_hash table k pos ≡ chain_of pos (remove_node list k)
unfolding delete_hash
delete_hash-chain_of table list k pos chains apart = elim (Bool-cases (pos == str_hash k)) [
  | inl here ↦
      let e : pos ≡ str_hash k = ground arith in
      rw (here, chains (str_hash k), e) (remove_from-chain_of list k apart)
  | inr away ↦ rw away (chains pos ∙ sym (chain_of-elsewhere pos list k away))
]

-- Taking the node with a fingerprint.
pub delete_node-IsLinked :
    (c : Cache) (k : Key) (t : ListNode)
    → IsLinked c
    → find_node c.list k ≡ some t
    → IsLinked (delete_node (some t) c) × ((delete_node (some t) c).list ≡ remove_node c.list k)
unfolding delete_node
delete_node-IsLinked c k t h there =
    let gone = unlink-find_node c.list k t h.apart there in
    let same : remove_node c.list t.hash_key ≡ remove_node c.list k =
      remove_node-same c.list t.hash_key k (find_node-key c.list k t there) in
    (
      record {
        chains = λ pos.
            delete_hash-chain_of c.hash_table c.list t.hash_key pos h.chains h.apart
            ∙ ap (chain_of pos) (same ∙ sym gone);
        apart = rw gone (remove_node-AreApart c.list k h.apart);
        fresh =
            rw gone
              (All-remove_node (λ (r : ListNode). r.address < c.next_address) c.list k h.fresh);
      },
      gone,
    )

-- The cache with a new node before the others.
abbrev pub linked : Key → Cache → Cache
linked str c =
    let q : ListNode = record { address = c.next_address; hash_key = take fp_size str } in
    record c {
      list = q ∷ c.list;
      hash_table = insert_hash c.hash_table str q;
      next_address = c.next_address + 1;
    }

All-lt_suc :
    (n : ℕ) (list : List ListNode)
    → All (λ (r : ListNode). r.address < n) list
    → All (λ (r : ListNode). r.address < n + 1) list
All-lt_suc n [] h = tt
All-lt_suc n (r ∷ list) h = (omega (arith, h.0), All-lt_suc n list h.1)

insert_hash-chain_of :
    (table : ℕ → List ListNode) (list : List ListNode) (str : Key) (q : ListNode) (pos : ℕ)
    → ((pos : ℕ) → table pos ≡ chain_of pos list)
    → str_hash q.hash_key ≡ str_hash str
    → insert_hash table str q pos ≡ chain_of pos (q ∷ list)
unfolding insert_hash chain_of
insert_hash-chain_of table list str q pos chains e = elim (Bool-cases (pos == str_hash str)) [
  | inl here ↦
      let same : pos ≡ str_hash str = ground arith in
      rw (e, here)
        (ap (λ l. l ++ (q ∷ [])) (chains (str_hash str) ∙ ap (λ p. chain_of p list) (sym same)))
  | inr away ↦ rw (e, away) (chains pos)
]

pub linked-IsLinked :
    (str : Key) (c : Cache) → IsLinked c → IsNew str c.list → IsLinked (linked str c)
linked-IsLinked str c h new =
    let q : ListNode = record { address = c.next_address; hash_key = take fp_size str } in
    let same = same_key-take str in
    record {
      chains =
          λ pos. insert_hash-chain_of c.hash_table c.list str q pos h.chains (str_hash-take str);
      apart = (IsNew-same str (take fp_size str) c.list same new, h.fresh, h.apart);
      fresh = (omega arith, All-lt_suc c.next_address c.list h.fresh);
    }
