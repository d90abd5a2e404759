-- ===== src/Prototype/LruCache/Removed.antt =====
-- Taking a node from the list and from its chain.
use freqanalysis.Common.{
  ℕ, ◌≡◌, refl, ap, ◌∙◌, true, false, ◌==◌, none, List, [], ◌∷◌, ◌++◌, append-nil, All, Bool-cases,
  inl, inr, arith,
}
use freqanalysis.Bytes.{Key}
use freqanalysis.Prototype.LruCache.Nodes.{
  same_key, same_key-right, same_key-hash, same_key-text, other_text, remove_node, chain_of, IsNew,
  IsNew-same, AreApart, find_node-none, find_in-chain_of,
}
use freqanalysis.Prototype.LruCache.{ListNode, str_hash, same_text, find_in, remove_from}

pub remove_node-new : (list : List ListNode) (k : Key) → IsNew k list → remove_node list k ≡ list
unfolding remove_node
remove_node-new [] k new = refl
remove_node-new (q ∷ list) k new = rw (new.0, remove_node-new list k new.1) refl

remove_from-append :
    (xs ys : List ListNode) (k : Key)
    → find_in xs k ≡ none
    → remove_from (xs ++ ys) k ≡ xs ++ remove_from ys k
unfolding find_in remove_from
remove_from-append [] ys k h = refl
remove_from-append (x ∷ xs) ys k h = elim (Bool-cases (same_text x.hash_key k)) [
  | inl same ↦ ground arith
  | inr other ↦ rw (other, remove_from-append xs ys k (rw other at h)) refl
]

remove_from-last :
    (xs : List ListNode) (q : ListNode) (k : Key)
    → same_text q.hash_key k ≡ false
    → remove_from (xs ++ (q ∷ [])) k ≡ remove_from xs k ++ (q ∷ [])
unfolding remove_from
remove_from-last [] q k h = rw h refl
remove_from-last (x ∷ xs) q k h = elim (Bool-cases (same_text x.hash_key k)) [
  | inl same ↦ rw same refl
  | inr other ↦ rw (other, remove_from-last xs q k h) refl
]

-- The first node of the chain with the text is the node of the list.
pub remove_from-chain_of :
    (list : List ListNode) (k : Key)
    → AreApart list
    → remove_from (chain_of (str_hash k) list) k ≡ chain_of (str_hash k) (remove_node list k)
unfolding chain_of remove_node remove_from
remove_from-chain_of [] k apart = refl
remove_from-chain_of (q ∷ list) k apart =
    let chain = chain_of (str_hash k) list in
    let ih = remove_from-chain_of list k apart.2 in
    elim (Bool-cases (same_key q.hash_key k)) [
      | inl same ↦
          let here = same_key-hash q.hash_key k same in
          let text = same_key-text q.hash_key k same in
          let missing =
            find_in-chain_of list k apart.2
            ∙ find_node-none list k (IsNew-same q.hash_key k list same apart.0) in
          rw (same, here) (remove_from-append chain (q ∷ []) k missing ∙ rw text (append-nil chain))
      | inr other ↦ elim (Bool-cases (str_hash k == str_hash q.hash_key)) [
        | inl here ↦
            let text = other_text q.hash_key k other here in
            rw (other, chain_of, here)
              (remove_from-last chain q k text ∙ ap (λ l. l ++ (q ∷ [])) ih)
        | inr elsewhere ↦ rw (other, chain_of, elsewhere) ih
      ]
    ]

-- The other chains keep their nodes.
pub chain_of-elsewhere :
    (pos : ℕ) (list : List ListNode) (k : Key)
    → (pos == str_hash k) ≡ false
    → chain_of pos (remove_node list k) ≡ chain_of pos list
unfolding chain_of remove_node
chain_of-elsewhere pos [] k away = refl
chain_of-elsewhere pos (q ∷ list) k away = elim (Bool-cases (same_key q.hash_key k)) [
  | inl same ↦
      let here = same_key-hash q.hash_key k same in
      let apart : (pos == str_hash q.hash_key) ≡ false = ground arith in rw (same, apart) refl
  | inr other ↦ elim (Bool-cases (pos == str_hash q.hash_key)) [
    | inl here ↦
        rw (other, chain_of, here) (ap (λ l. l ++ (q ∷ [])) (chain_of-elsewhere pos list k away))
    | inr elsewhere ↦ rw (other, chain_of, elsewhere) (chain_of-elsewhere pos list k away)
  ]
]

pub All-remove_node :
    (P : ListNode → Type 0) (list : List ListNode) (k : Key)
    → All P list
    → All P (remove_node list k)
unfolding remove_node
All-remove_node P [] k h = tt
All-remove_node P (q ∷ list) k h = elim (Bool-cases (same_key q.hash_key k)) [
  | inl same ↦ rw same h.1
  | inr other ↦ rw other (h.0, All-remove_node P list k h.1)
]

pub remove_node-AreApart :
    (list : List ListNode) (k : Key) → AreApart list → AreApart (remove_node list k)
unfolding remove_node
remove_node-AreApart [] k apart = tt
remove_node-AreApart (q ∷ list) k apart = elim (Bool-cases (same_key q.hash_key k)) [
  | inl same ↦ rw same apart.2
  | inr other ↦ rw other (
    All-remove_node _ list k apart.0,
    All-remove_node _ list k apart.1,
    remove_node-AreApart list k apart.2,
  )
]

pub remove_node-IsNew :
    (list : List ListNode) (k : Key) → AreApart list → IsNew k (remove_node list k)
unfolding remove_node
remove_node-IsNew [] k apart = tt
remove_node-IsNew (q ∷ list) k apart = elim (Bool-cases (same_key q.hash_key k)) [
  | inl same ↦ rw same (IsNew-same q.hash_key k list same apart.0)
  | inr other ↦ rw other (other, remove_node-IsNew list k apart.2)
]

pub remove_node-same :
    (list : List ListNode) (a b : Key)
    → same_key a b ≡ true
    → remove_node list a ≡ remove_node list b
unfolding remove_node
remove_node-same [] a b h = refl
remove_node-same (q ∷ list) a b h =
    rw (same_key-right a b q.hash_key h, remove_node-same list a b h) refl
