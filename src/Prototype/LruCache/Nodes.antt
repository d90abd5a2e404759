-- ===== src/Prototype/LruCache/Nodes.antt =====
-- The nodes of the list and of a chain that hold a text.
use freqanalysis.Common.{
  ℕ, ◌<◌, ◌≡◌, refl, sym, ap, ◌∙◌, Bool, true, false, ◌&&◌, ◌==◌, if◌then◌else◌, Option, none, some,
  List, [], ◌∷◌, ◌++◌, take, All, Bool-cases, inl, inr, arith,
}
use freqanalysis.Bytes.{Key, fp_size, key_eq, key_eq_refl, eq_of_key_eq}
use freqanalysis.Prototype.LruCache.{ListNode, str_hash, same_text, find_in}
use freqanalysis.Trace.Text.{c_string}

-- The cache tells fingerprints apart by their chain and their text.
unfoldable pub same_key : Key → Key → Bool
same_key a b = str_hash a == str_hash b && same_text a b

pub same_key_refl : (a : Key) → same_key a a ≡ true
unfolding same_key same_text
same_key_refl a = ground (arith, key_eq_refl (c_string (take fp_size a)))

same_text-left : (a b c : Key) → same_text a b ≡ true → same_text a c ≡ same_text b c
unfolding same_text
same_text-left a b c h = ap (λ t. key_eq t (c_string (take fp_size c))) (eq_of_key_eq _ _ h)

same_text-right : (a b c : Key) → same_text a b ≡ true → same_text c a ≡ same_text c b
unfolding same_text
same_text-right a b c h = ap (λ t. key_eq (c_string (take fp_size c)) t) (eq_of_key_eq _ _ h)

-- The same fingerprint answers the test alike.
pub same_key-left : (a b c : Key) → same_key a b ≡ true → same_key a c ≡ same_key b c
unfolding same_key
same_key-left a b c h = ground (arith, same_text-left a b c)

pub same_key-right : (a b c : Key) → same_key a b ≡ true → same_key c a ≡ same_key c b
unfolding same_key
same_key-right a b c h = ground (arith, same_text-right a b c)

pub same_key_sym : (a b : Key) → same_key a b ≡ same_key b a
same_key_sym a b = elim (Bool-cases (same_key a b)) [
  | inl same ↦ same ∙ sym (sym (same_key-left a b a same) ∙ same_key_refl a)
  | inr other ↦ elim (Bool-cases (same_key b a)) [
    | inl same ↦ sym (same_key-left b a b same) ∙ same_key_refl b ∙ sym same
    | inr different ↦ other ∙ sym different
  ]
]

pub same_key-hash : (a b : Key) → same_key a b ≡ true → (str_hash b == str_hash a) ≡ true
unfolding same_key
same_key-hash a b h = ground arith

pub same_key-text : (a b : Key) → same_key a b ≡ true → same_text a b ≡ true
unfolding same_key
same_key-text a b h = ground arith

pub other_text :
    (a b : Key) → same_key a b ≡ false → (str_hash b == str_hash a) ≡ true → same_text a b ≡ false
unfolding same_key
other_text a b h e = ground arith

-- The node of the list with a fingerprint.
unfoldable pub find_node : List ListNode → Key → Option ListNode
find_node [] str = none
find_node (q ∷ list) str =
    let later = find_node list str in if same_key q.hash_key str then some q else later

unfoldable pub remove_node : List ListNode → Key → List ListNode
remove_node [] str = []
remove_node (q ∷ list) str =
    let rest = remove_node list str in if same_key q.hash_key str then list else q ∷ rest

-- The nodes of a chain, as the list has them: the head of the list is the end of its chain.
unfoldable pub chain_of : ℕ → List ListNode → List ListNode
chain_of pos [] = []
chain_of pos (q ∷ list) =
    let chain = chain_of pos list in if pos == str_hash q.hash_key then chain ++ (q ∷ []) else chain

-- No other node of the list has the fingerprint.
abbrev pub IsNew : Key → List ListNode → Type 0
IsNew k list = All (λ (r : ListNode). same_key r.hash_key k ≡ false) list

-- No two nodes have one fingerprint, and newer nodes, at higher addresses, stand before older ones.
abbrev pub AreApart : List ListNode → Type 0
AreApart [] = Unit
AreApart (q ∷ list) =
    IsNew q.hash_key list × All (λ (r : ListNode). r.address < q.address) list × AreApart list

pub IsNew-same :
    (a b : Key) (list : List ListNode) → same_key a b ≡ true → IsNew a list → IsNew b list
IsNew-same a b [] h new = tt
IsNew-same a b (r ∷ list) h new =
    (sym (same_key-right a b r.hash_key h) ∙ new.0, IsNew-same a b list h new.1)

pub find_node-none : (list : List ListNode) (k : Key) → IsNew k list → find_node list k ≡ none
unfolding find_node
find_node-none [] k new = refl
find_node-none (r ∷ list) k new = rw new.0 (find_node-none list k new.1)

find_in-append :
    (xs ys : List ListNode) (k : Key) → find_in xs k ≡ none → find_in (xs ++ ys) k ≡ find_in ys k
unfolding find_in
find_in-append [] ys k h = refl
find_in-append (x ∷ xs) ys k h = elim (Bool-cases (same_text x.hash_key k)) [
  | inl same ↦ ground arith
  | inr other ↦ rw other (find_in-append xs ys k (rw other at h))
]

find_in-last :
    (xs : List ListNode) (q : ListNode) (k : Key)
    → same_text q.hash_key k ≡ false
    → find_in (xs ++ (q ∷ [])) k ≡ find_in xs k
unfolding find_in
find_in-last [] q k h = rw h refl
find_in-last (x ∷ xs) q k h = elim (Bool-cases (same_text x.hash_key k)) [
  | inl same ↦ rw same refl
  | inr other ↦ rw other (find_in-last xs q k h)
]

-- The search of the chain is the search of the list.
pub find_in-chain_of :
    (list : List ListNode) (k : Key)
    → AreApart list
    → find_in (chain_of (str_hash k) list) k ≡ find_node list k
unfolding chain_of find_node find_in
find_in-chain_of [] k apart = refl
find_in-chain_of (q ∷ list) k apart =
    let ih = find_in-chain_of list k apart.2 in
    elim (Bool-cases (same_key q.hash_key k)) [
      | inl same ↦
          let here = same_key-hash q.hash_key k same in
          let text = same_key-text q.hash_key k same in
          let missing = ih ∙ find_node-none list k (IsNew-same q.hash_key k list same apart.0) in
          rw (same, here)
            (find_in-append (chain_of (str_hash k) list) (q ∷ []) k missing ∙ rw text refl)
      | inr other ↦ elim (Bool-cases (str_hash k == str_hash q.hash_key)) [
        | inl here ↦
            let text = other_text q.hash_key k other here in
            rw (other, here) (find_in-last (chain_of (str_hash k) list) q k text ∙ ih)
        | inr elsewhere ↦ rw (other, elsewhere) ih
      ]
    ]
