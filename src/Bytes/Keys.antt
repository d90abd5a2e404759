-- ===== src/Bytes/Keys.antt =====
-- Fingerprints and `memcmp` on them.
use freqanalysis.Common.{
  ℕ, ◌≡◌, refl, Bool, true, false, List, [], ◌∷◌, ◌&&◌, ◌<◌, arith, ◌==◌, ltb, if◌then◌else◌, All,
  length,
}

-- `#define FP_SIZE 6`
abbrev pub fp_size : ℕ
fp_size = 6

abbrev pub Key : Type 0
Key = List ℕ

-- `memcmp(a, b, n) == 0`
unfoldable pub key_eq : Key → Key → Bool
key_eq [] [] = true
key_eq (a ∷ as') (b ∷ bs) = a == b && key_eq as' bs
key_eq _ _ = false

-- `memcmp(a, b, n) < 0`: the first byte that differs decides, as an unsigned number.
unfoldable pub memcmp_lt : Key → Key → Bool
memcmp_lt [] bs = false
memcmp_lt (a ∷ as') [] = false
memcmp_lt (a ∷ as') (b ∷ bs) =
    let rest = memcmp_lt as' bs in if ltb a b then true else if a == b then rest else false

pub key_eq_refl : (k : Key) → key_eq k k ≡ true
unfolding key_eq
key_eq_refl [] = refl
key_eq_refl (a ∷ k) = ground (arith, key_eq_refl k)

pub eq_of_key_eq : (j k : Key) → key_eq j k ≡ true → j ≡ k
unfolding key_eq
eq_of_key_eq [] [] h = refl
eq_of_key_eq (a ∷ j) (b ∷ k) h = ground (arith, eq_of_key_eq j k)
eq_of_key_eq [] (b ∷ k) h = ground arith
eq_of_key_eq (a ∷ j) [] h = ground arith

pub memcmp_lt_irrefl : (k : Key) → memcmp_lt k k ≡ false
unfolding memcmp_lt
memcmp_lt_irrefl [] = refl
memcmp_lt_irrefl (a ∷ k) = ground (arith, memcmp_lt_irrefl k)

pub memcmp_lt_trans :
    (a b c : Key) → memcmp_lt a b ≡ true → memcmp_lt b c ≡ true → memcmp_lt a c ≡ true
unfolding memcmp_lt
memcmp_lt_trans (x ∷ a) (y ∷ b) (z ∷ c) h k = ground (arith, memcmp_lt_trans a b c)
memcmp_lt_trans [] b c h k = ground arith
memcmp_lt_trans (x ∷ a) [] c h k = ground arith
memcmp_lt_trans (x ∷ a) (y ∷ b) [] h k = ground arith

-- An array of `FP_SIZE` bytes.
pub record IsFingerprint (k : Key) : Type 0 where
  pub size : length k ≡ fp_size
  pub bytes : All (λ b. b < 256) k

-- The bytes of a fingerprint, as a test.
unfoldable pub are_bytes : List ℕ → Bool
are_bytes [] = true
are_bytes (b ∷ bs) = ltb b 256 && are_bytes bs

unfoldable pub is_fingerprint : Key → Bool
is_fingerprint k = length k == fp_size && are_bytes k

All-of-are_bytes : (bs : List ℕ) → are_bytes bs ≡ true → All (λ b. b < 256) bs
unfolding are_bytes
All-of-are_bytes [] h = tt
All-of-are_bytes (b ∷ bs) h = (ground arith, All-of-are_bytes bs (ground arith))

are_bytes-of-All : (bs : List ℕ) → All (λ b. b < 256) bs → are_bytes bs ≡ true
unfolding are_bytes
are_bytes-of-All [] h = refl
are_bytes-of-All (b ∷ bs) h = ground (arith, are_bytes-of-All bs h.1)

pub IsFingerprint-of-test : (k : Key) → is_fingerprint k ≡ true → IsFingerprint k
unfolding is_fingerprint
IsFingerprint-of-test k h = record {
  size = ground arith;
  bytes = All-of-are_bytes k (ground arith);
}

pub is_fingerprint-of-Is : (k : Key) → IsFingerprint k → is_fingerprint k ≡ true
unfolding is_fingerprint
is_fingerprint-of-Is k h = ground (arith, h.size, are_bytes-of-All k h.bytes)
