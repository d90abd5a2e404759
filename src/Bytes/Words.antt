-- ===== src/Bytes/Words.antt =====
-- `uint64_t` counters as the eight bytes that the programs store with `memcpy`, low byte first.
use freqanalysis.Common.{
  ℕ, zero, suc, ◌<◌, ◌+◌, ◌*◌, ◌/◌, ◌%◌, ◌^◌, ◌≡◌, refl, List, [], ◌∷◌, ◌++◌, arith, length, take,
}

abbrev pub u64 : ℕ
u64 = 2 ^ 64

-- The low `n` bytes of `x`.
pub store_bytes : ℕ → ℕ → List ℕ
store_bytes zero x = []
store_bytes (suc n) x = x % 256 ∷ store_bytes n (x / 256)

pub load_bytes : List ℕ → ℕ
load_bytes [] = 0
load_bytes (b ∷ bs) = b + 256 * load_bytes bs

-- `sizeof(uint64_t)` bytes: `assign((char *)&count, sizeof(uint64_t))`
unfoldable pub store_u64 : ℕ → List ℕ
unfolding store_bytes
store_u64 x = store_bytes 8 x

-- `*(uint64_t *)p`
unfoldable pub load_u64 : List ℕ → ℕ
unfolding load_bytes
load_u64 bs = load_bytes (take 8 bs)

pub length-store_u64 : (x : ℕ) → length (store_u64 x) ≡ 8
unfolding store_u64
length-store_u64 x = refl

pub load-store_u64 : (x : ℕ) (rest : List ℕ) → load_u64 (store_u64 x ++ rest) ≡ x % u64
unfolding load_u64 store_u64
load-store_u64 x rest = omega arith

-- `Slice((char *)&ID, sizeof(int))` and `*(int *)`
unfoldable pub store_int : ℕ → List ℕ
unfolding store_bytes
store_int id = store_bytes 4 id

unfoldable pub load_int : List ℕ → ℕ
unfolding load_bytes
load_int bs = load_bytes (take 4 bs)

pub load-store_int : (x : ℕ) → x < 2 ^ 32 → load_int (store_int x) ≡ x
unfolding load_int store_int load_bytes store_bytes
load-store_int x h = omega arith
