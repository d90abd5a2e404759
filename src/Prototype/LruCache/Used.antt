-- ===== src/Prototype/LruCache/Used.antt =====
-- The abstract view of the cache: its fingerprints, the last used first.
use freqanalysis.Common.{
  ℕ, zero, suc, ◌≡◌, refl, ap, true, false, ◌||◌, Bool, none, some, List, [], ◌∷◌, take, length,
  Bool-cases, inl, inr, if◌then◌else◌, arith,
}
use freqanalysis.Bytes.{Key, fp_size}
use freqanalysis.Prototype.LruCache.Nodes.{same_key, find_node, remove_node, IsNew}
use freqanalysis.Prototype.LruCache.{ListNode}

abbrev pub keys_of : List ListNode → List Key
keys_of [] = []
keys_of (q ∷ list) = q.hash_key ∷ keys_of list

-- The abstract view: is the fingerprint among the keys, and the keys without it.
abbrev pub holds : List Key → Key → Bool
holds [] str = false
holds (k ∷ ks) str = same_key k str || holds ks str

abbrev pub without : List Key → Key → List Key
without [] str = []
without (k ∷ ks) str = if same_key k str then ks else k ∷ without ks str

-- The fingerprint comes to the front, and what exceeds the size falls off the end.
abbrev pub to_front : ℕ → List Key → Key → List Key
to_front size ks str = take size (take fp_size str ∷ without ks str)

pub keys_of-remove_node :
    (list : List ListNode) (str : Key) → keys_of (remove_node list str) ≡ without (keys_of list) str
unfolding remove_node
keys_of-remove_node [] str = refl
keys_of-remove_node (q ∷ list) str = elim (Bool-cases (same_key q.hash_key str)) [
  | inl same ↦ rw same refl
  | inr other ↦ rw other (ap (λ ks. q.hash_key ∷ ks) (keys_of-remove_node list str))
]

pub keys_of-take : (n : ℕ) (list : List ListNode) → keys_of (take n list) ≡ take n (keys_of list)
keys_of-take zero list = refl
keys_of-take (suc n) [] = refl
keys_of-take (suc n) (q ∷ list) = ap (λ ks. q.hash_key ∷ ks) (keys_of-take n list)

pub length-keys_of : (list : List ListNode) → length (keys_of list) ≡ length list
length-keys_of [] = refl
length-keys_of (q ∷ list) = ap ℕ.suc (length-keys_of list)

pub holds-missing :
    (list : List ListNode) (str : Key)
    → find_node list str ≡ none
    → (holds (keys_of list) str ≡ false) × IsNew str list
unfolding find_node
holds-missing [] str e = (refl, tt)
holds-missing (q ∷ list) str e = elim (Bool-cases (same_key q.hash_key str)) [
  | inl same ↦ ground arith
  | inr other ↦ let (h, new) = holds-missing list str (rw other at e) in (rw other h, (other, new))
]

pub holds-there :
    (list : List ListNode) (str : Key) (t : ListNode)
    → find_node list str ≡ some t
    → holds (keys_of list) str ≡ true
unfolding find_node
holds-there [] str t e = cc
holds-there (q ∷ list) str t e = elim (Bool-cases (same_key q.hash_key str)) [
  | inl same ↦ rw same refl
  | inr other ↦ rw other (holds-there list str t (rw other at e))
]
