-- ===== src/Prototype/LruCache.antt =====
-- prototype/lrucache.cc: the cache of fingerprints. The doubly linked list from `head` to `back` is
-- a list of its nodes, each with the address that `new` gave it, and each chain of `hash_table` is
-- the list of the nodes that its `hashnode`s point to. Counters are `int64_t` bit patterns.
pub mod Saved
pub mod Bounded
pub mod Nodes
pub mod Removed
pub mod Located
pub mod Linked
pub mod Used
pub mod Added
pub mod Refined
pub mod Histories
pub mod Known
pub mod Loaded
use freqanalysis.Common.{
  ℕ, zero, suc, ◌+◌, ◌*◌, ◌-◌, ◌/◌, ◌%◌, ◌^◌, Bool, true, false, Option, none, some, List, [], ◌∷◌,
  ◌++◌, ltb, ◌==◌, if◌then◌else◌, length, take, Run, ok, stop, undefined, ◌>>=◌,
}
use freqanalysis.Bytes.{Key, key_eq, u64, fp_size}
use freqanalysis.Prototype.Bits.{key_bits, lines_of, read_key}
use freqanalysis.Trace.Text.{c_string}

-- `struct listnode`
pub record ListNode : Type 0 where
  pub address : ℕ
  pub hash_key : Key

pub record Cache : Type 0 where
  pub list : List ListNode
  pub hash_table : ℕ → List ListNode
  pub max_cache_size : ℕ
  pub now_cache_size : ℕ
  pub next_address : ℕ

-- `HASH_SIZE`
abbrev pub hash_size : ℕ
hash_size = 5_000_000

-- A `char` as an `unsigned long`, with its sign.
pub extend_char : ℕ → ℕ
extend_char b = if ltb b 128 then b else b + (u64 - 256)

pub hash_from : ℕ → List ℕ → ℕ
hash_from key [] = key
hash_from key (b ∷ str) = hash_from ((key * 5 + extend_char b) % u64) str

unfoldable pub str_hash : Key → ℕ
unfolding hash_from extend_char
str_hash str = hash_from 0 (take fp_size str) % hash_size

-- `strncmp(a, b, FP_SIZE) == 0`: a zero byte ends both strings.
unfoldable pub same_text : Key → Key → Bool
unfolding key_eq c_string
same_text a b = key_eq (c_string (take fp_size a)) (c_string (take fp_size b))

-- The constructor with a size
unfoldable pub lrucache : ℕ → Cache
lrucache size = record {
  list = [];
  hash_table = λ pos. [];
  max_cache_size = size;
  now_cache_size = 0;
  next_address = 1;
}

abbrev pub set_chain : (ℕ → List ListNode) → ℕ → List ListNode → ℕ → List ListNode
set_chain table pos chain = λ i. if i == pos then chain else table i

-- `insert_hash`: the new `hashnode` is the last of its chain.
unfoldable pub insert_hash : (ℕ → List ListNode) → Key → ListNode → ℕ → List ListNode
unfolding str_hash
insert_hash table str p = set_chain table (str_hash str) (table (str_hash str) ++ (p ∷ []))

-- The first node of a chain with the text.
unfoldable pub find_in : List ListNode → Key → Option ListNode
unfolding same_text
find_in [] str = none
find_in (q ∷ chain) str =
    let later = find_in chain str in if same_text q.hash_key str then some q else later

unfoldable pub remove_from : List ListNode → Key → List ListNode
unfolding same_text
remove_from [] str = []
remove_from (q ∷ chain) str =
    let rest = remove_from chain str in if same_text q.hash_key str then chain else q ∷ rest

-- `delete_hash`: the first node of the chain with the text leaves it.
unfoldable pub delete_hash : (ℕ → List ListNode) → Key → ℕ → List ListNode
unfolding str_hash remove_from
delete_hash table str = set_chain table (str_hash str) (remove_from (table (str_hash str)) str)

-- The list without the node at an address.
unfoldable pub unlink : List ListNode → ℕ → List ListNode
unlink [] address = []
unlink (q ∷ list) address =
    let rest = unlink list address in if q.address == address then list else q ∷ rest

unfoldable pub last_node : List ListNode → Option ListNode
last_node [] = none
last_node (q ∷ list) = elim (last_node list) [ none ↦ some q | some b ↦ some b ]

-- `delete_node`, of a node or of the null pointer that `back` is in an empty list
unfoldable pub delete_node : Option ListNode → Cache → Cache
unfolding delete_hash unlink
delete_node p c =
    let smaller : Cache = record c { now_cache_size = (c.now_cache_size + (u64 - 1)) % u64 } in
    elim p [
      | none ↦ smaller
      | some t ↦ record smaller {
        list = unlink c.list t.address;
        hash_table = delete_hash c.hash_table t.hash_key;
      }
    ]

-- `now_cache_size < max_cache_size`
abbrev pub signed_lt : ℕ → ℕ → Bool
signed_lt a b = ltb ((a + 2 ^ 63) % u64) ((b + 2 ^ 63) % u64)

-- The new node is the head; a full cache gives up its back.
unfoldable pub add_node_to_head : Key → Cache → Cache
unfolding insert_hash delete_node last_node
add_node_to_head str c =
    let q : ListNode = record { address = c.next_address; hash_key = take fp_size str } in
    let linked : Cache = record c {
      list = q ∷ c.list;
      hash_table = insert_hash c.hash_table str q;
      next_address = c.next_address + 1;
    } in
    let smaller = delete_node (last_node linked.list) linked in
    if signed_lt c.now_cache_size c.max_cache_size
    then record linked { now_cache_size = (c.now_cache_size + 1) % u64 }
    else record smaller { now_cache_size = (smaller.now_cache_size + 1) % u64 }

-- `find_hash`, and `find`: a fingerprint that is found becomes a new node at the head.
unfoldable pub find : Key → Cache → Cache × Bool
unfolding find_in delete_node add_node_to_head
find str c = elim (find_in (c.hash_table (str_hash str)) str) [
  | none ↦ (c, false)
  | some result ↦ (add_node_to_head str (delete_node (some result) c), true)
]

-- `putdata`: `true` if the fingerprint was added.
unfoldable pub putdata : Key → Cache → Cache × Bool
unfolding find
putdata str c =
    let (moved, there) = find str c in
    if there then (moved, false) else (add_node_to_head str moved, true)

-- The text that `output_conf` writes, one line for each node from the head.
unfoldable pub output_conf : List ListNode → List ℕ
unfolding key_bits
output_conf [] = []
output_conf (p ∷ list) = key_bits p.hash_key ++ (b'\n' ∷ output_conf list)

unfoldable pub add_lines : List (List ℕ) → Cache → Run Cache
unfolding read_key add_node_to_head
add_lines [] c = ok c
add_lines (temp ∷ rest) c = read_key temp >>= λ now. add_lines rest (add_node_to_head now c)

-- `init_conf`: every line of the file, if there is one, becomes a node at the head.
unfoldable pub init_conf : Option (List ℕ) → Cache → Run (Cache × Bool)
unfolding add_lines lines_of
init_conf none c = ok (c, false)
init_conf (some text) c = add_lines (lines_of text) c >>= λ filled. ok (filled, true)
