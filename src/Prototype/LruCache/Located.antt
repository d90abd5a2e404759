-- ===== src/Prototype/LruCache/Located.antt =====
-- The node that a search finds, and the last node.
use freqanalysis.Common.{
  ℕ, zero, suc, ◌+◌, ◌<◌, ◌≡◌, ◌≢◌, refl, ap, ◌∙◌, true, false, ◌==◌, none, some, List, [], ◌∷◌,
  take, length, All, Bool-cases, inl, inr, Option-cases, arith,
}
use freqanalysis.Bytes.{Key}
use freqanalysis.Prototype.LruCache.Nodes.{
  same_key, same_key_refl, same_key_sym, find_node, remove_node, AreApart,
}
use freqanalysis.Prototype.LruCache.{ListNode, unlink, last_node}

some_injective : {a b : ListNode} → some a ≡ some b → a ≡ b
some_injective e = cc e

-- What holds of every node holds of the one that is found.
pub find_node-All :
    (P : ListNode → Type 0) (list : List ListNode) (k : Key) (t : ListNode)
    → find_node list k ≡ some t
    → All P list
    → P t
unfolding find_node
find_node-All P [] k t e h = cc
find_node-All P (q ∷ list) k t e h = elim (Bool-cases (same_key q.hash_key k)) [
  | inl same ↦ rw (← some_injective (rw same at e)) h.0
  | inr other ↦ find_node-All P list k t (rw other at e) h.1
]

pub find_node-key :
    (list : List ListNode) (k : Key) (t : ListNode)
    → find_node list k ≡ some t
    → same_key t.hash_key k ≡ true
unfolding find_node
find_node-key [] k t e = cc
find_node-key (q ∷ list) k t e = elim (Bool-cases (same_key q.hash_key k)) [
  | inl same ↦ rw (← some_injective (rw same at e)) same
  | inr other ↦ find_node-key list k t (rw other at e)
]

-- Its address tells it apart.
pub unlink-find_node :
    (list : List ListNode) (k : Key) (t : ListNode)
    → AreApart list
    → find_node list k ≡ some t
    → unlink list t.address ≡ remove_node list k
unfolding find_node unlink remove_node
unlink-find_node [] k t apart e = cc
unlink-find_node (q ∷ list) k t apart e = elim (Bool-cases (same_key q.hash_key k)) [
  | inl same ↦
      let here : (q.address == t.address) ≡ true =
        rw (← some_injective (rw same at e)) (ground arith) in
      rw (same, here) refl
  | inr other ↦
      let e' = rw other at e in
      let older = find_node-All (λ r. r.address < q.address) list k t e' apart.1 in
      let away : (q.address == t.address) ≡ false = ground arith in
      rw (other, away) (ap (λ l. q ∷ l) (unlink-find_node list k t apart.2 e'))
]

pub length-remove_node :
    (list : List ListNode) (k : Key) (t : ListNode)
    → find_node list k ≡ some t
    → length (remove_node list k) + 1 ≡ length list
unfolding find_node remove_node
length-remove_node [] k t e = cc
length-remove_node (q ∷ list) k t e = elim (Bool-cases (same_key q.hash_key k)) [
  | inl same ↦ rw same (omega arith)
  | inr other ↦ rw other (omega (arith, length-remove_node list k t (rw other at e)))
]

last_node-none : (list : List ListNode) → last_node list ≡ none → list ≡ []
unfolding last_node
last_node-none [] e = refl
last_node-none (q ∷ list) e = elim (Option-cases (last_node list)) [
  | inl nothing ↦ ground arith
  | inr (b, there) ↦ ground arith
]

last_node-All :
    (P : ListNode → Type 0) (list : List ListNode) (b : ListNode)
    → last_node list ≡ some b
    → All P list
    → P b
unfolding last_node
last_node-All P [] b e h = cc
last_node-All P (q ∷ list) b e h = elim (Option-cases (last_node list)) [
  | inl nothing ↦ rw (← some_injective (rw (nothing, last_node) at e)) h.0
  | inr (c, there) ↦
      rw (← some_injective (rw (there, last_node) at e)) (last_node-All P list c there h.1)
]

pub last_node-exists :
    (q : ListNode) (list : List ListNode) → (b : ListNode) × (last_node (q ∷ list) ≡ some b)
unfolding last_node
last_node-exists q list = elim (Option-cases (last_node list)) [
  | inl nothing ↦ (q, rw nothing refl)
  | inr (b, there) ↦ (b, rw there refl)
]

-- The last node of a list is the last node of what follows its head, if anything does.
last_node-behind :
    (q c b : ListNode) (list : List ListNode)
    → last_node (q ∷ list) ≡ some b
    → last_node list ≡ some c
    → last_node list ≡ some b
unfolding last_node
last_node-behind q c b list e there = there ∙ (rw (there, last_node) at e)

last_is_other :
    (q b : ListNode) (list : List ListNode)
    → AreApart (q ∷ list)
    → last_node list ≡ some b
    → same_key q.hash_key b.hash_key ≡ false
last_is_other q b list apart there =
    same_key_sym q.hash_key b.hash_key
    ∙ last_node-All (λ r. same_key r.hash_key q.hash_key ≡ false) list b there apart.0

last_node-length : (list : List ListNode) {c : ListNode} → last_node list ≡ some c → length list ≢ 0
unfolding last_node
last_node-length [] there = cc
last_node-length (x ∷ list) there = λ e. omega arith

last_alone :
    (q b : ListNode) (list : List ListNode)
    → last_node (q ∷ list) ≡ some b
    → last_node list ≡ none
    → q ≡ b
unfolding last_node
last_alone q b list e nothing = some_injective (rw (nothing, last_node) at e)

-- The last node is found by its fingerprint, and taking it leaves the nodes before it.
pub find_node-last :
    (list : List ListNode) (b : ListNode)
    → AreApart list
    → last_node list ≡ some b
    → find_node list b.hash_key ≡ some b
unfolding find_node
find_node-last [] b apart e = unfold last_node in cc
find_node-last (q ∷ list) b apart e = elim (Option-cases (last_node list)) [
  | inl nothing ↦ rw (← last_alone q b list e nothing, same_key_refl q.hash_key) refl
  | inr (c, there) ↦
      let there' = last_node-behind q c b list e there in
      rw (last_is_other q b list apart there') (find_node-last list b apart.2 there')
]

pub remove_node-last :
    (list : List ListNode) (b : ListNode) (n : ℕ)
    → AreApart list
    → last_node list ≡ some b
    → length list ≡ suc n
    → remove_node list b.hash_key ≡ take n list
unfolding remove_node
remove_node-last [] b n apart e size = unfold last_node in cc
remove_node-last (q ∷ list) b zero apart e size = elim (Option-cases (last_node list)) [
  | inl nothing ↦
      rw (← last_alone q b list e nothing, same_key_refl q.hash_key) (last_node-none list nothing)
  | inr (c, there) ↦ absurd (last_node-length list there (omega arith))
]
remove_node-last (q ∷ list) b (suc n) apart e size = elim (Option-cases (last_node list)) [
  | inl nothing ↦ absurd (omega (arith, size, ap length (last_node-none list nothing)))
  | inr (c, there) ↦
      let there' = last_node-behind q c b list e there in
      rw (last_is_other q b list apart there')
        (ap (λ l. q ∷ l) (remove_node-last list b n apart.2 there' (omega (arith, size))))
]
