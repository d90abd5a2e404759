-- ===== src/Prototype/Bits.antt =====
-- Fingerprints as lines of the characters 0 and 1, in the containers and the saved cache
-- (prototype/container_manager.cc; prototype/lrucache.cc has the same loops).
use freqanalysis.Common.{
  ℕ, zero, suc, ◌+◌, ◌*◌, ◌/◌, ◌%◌, ◌^◌, ◌<◌, ◌≡◌, refl, ap, List, [], ◌∷◌, ◌++◌, ltb, ◌==◌,
  if◌then◌else◌, length, drop, All, All-append, false, Run, ok, stop, ◌>>=◌, undefined, arith,
}
use freqanalysis.Bytes.{Key, fp_size}

-- `(b & 1<<j) != 0`, as the character that is written
pub bit_char : ℕ → ℕ → ℕ
bit_char b j = if b / 2 ^ j % 2 == 1 then b'1' else b'0'

-- `for (int j = 7; j >= 0; j--)`
unfoldable pub byte_bits : ℕ → List ℕ
unfolding bit_char
byte_bits b =
    bit_char b 7
    ∷ bit_char b 6
    ∷ bit_char b 5
    ∷ bit_char b 4
    ∷ bit_char b 3
    ∷ bit_char b 2
    ∷ bit_char b 1
    ∷ bit_char b 0
    ∷ []

-- `for (int k = 0; k < FP_SIZE; k++)`
unfoldable pub key_bits : List ℕ → List ℕ
unfolding byte_bits
key_bits [] = []
key_bits (b ∷ bs) = byte_bits b ++ key_bits bs

-- The sum of `pow(2, 7-j)` over the characters 1, from the first of `n` characters.
pub bits_value : ℕ → List ℕ → ℕ
bits_value zero cs = 0
bits_value (suc n) [] = 0
bits_value (suc n) (c ∷ cs) = (if c == b'1' then 2 ^ n else 0) + bits_value n cs

-- The loop over `n` bytes of a line.
unfoldable pub read_bytes : ℕ → List ℕ → Key
unfolding bits_value
read_bytes zero temp = []
read_bytes (suc n) temp = bits_value 8 temp ∷ read_bytes n (drop 8 temp)

-- One line of a file. `temp[48 - 1]` may be the zero behind the text, and no character behind that.
unfoldable pub read_key : List ℕ → Run Key
unfolding read_bytes
read_key temp =
    if ltb (length temp + 1) (8 * fp_size) then stop undefined else ok (read_bytes fp_size temp)

-- A character before the lines that follow.
pub before_lines : ℕ → List (List ℕ) → List (List ℕ)
before_lines c [] = (c ∷ []) ∷ []
before_lines c (line ∷ rest) = (c ∷ line) ∷ rest

-- `getline` until the end of the file: each line without its newline.
unfoldable pub lines_of : List ℕ → List (List ℕ)
unfolding before_lines
lines_of [] = []
lines_of (c ∷ s) = let rest = lines_of s in if c == b'\n' then [] ∷ rest else before_lines c rest

unfoldable pub read_keys : List (List ℕ) → Run (List Key)
unfolding read_key
read_keys [] = ok []
read_keys (temp ∷ rest) = do now ← read_key temp; keys ← read_keys rest; ok (now ∷ keys)

pub length-key_bits : (k : List ℕ) → length (key_bits k) ≡ 8 * length k
unfolding key_bits
length-key_bits [] = refl
length-key_bits (b ∷ k) = omega (arith, length-key_bits k)

bit_worth : (q n : ℕ) → q < 2 → (if (if q == 1 then b'1' else b'0') == b'1' then n else 0) ≡ n * q
bit_worth zero n h = omega arith
bit_worth (suc zero) n h = omega arith
bit_worth (suc (suc q)) n h = absurd (omega arith)

bits_value-bits : (b : ℕ) (s : List ℕ) → b < 256 → bits_value 8 (byte_bits b ++ s) ≡ b
unfolding bits_value byte_bits bit_char
bits_value-bits b s h = omega (
  arith,
  bit_worth (b / 2 ^ 7 % 2) 128 (omega arith),
  bit_worth (b / 2 ^ 6 % 2) 64 (omega arith),
  bit_worth (b / 2 ^ 5 % 2) 32 (omega arith),
  bit_worth (b / 2 ^ 4 % 2) 16 (omega arith),
  bit_worth (b / 2 ^ 3 % 2) 8 (omega arith),
  bit_worth (b / 2 ^ 2 % 2) 4 (omega arith),
  bit_worth (b / 2 ^ 1 % 2) 2 (omega arith),
  bit_worth (b / 2 ^ 0 % 2) 1 (omega arith),
)

pub read_bytes-bits : (k : Key) → All (λ b. b < 256) k → read_bytes (length k) (key_bits k) ≡ k
unfolding read_bytes key_bits
read_bytes-bits [] h = refl
read_bytes-bits (b ∷ k) h =
    rw (bits_value-bits b (key_bits k) h.0) (ap (λ r. b ∷ r) (read_bytes-bits k h.1))

-- No character of the text is a newline.
abbrev pub NoNewline : List ℕ → Type 0
NoNewline = All (λ c. (c == b'\n') ≡ false)

bit_char-NoNewline : (b j : ℕ) → (bit_char b j == b'\n') ≡ false
unfolding bit_char
bit_char-NoNewline b j = ground arith

byte_bits-NoNewline : (b : ℕ) → NoNewline (byte_bits b)
unfolding byte_bits
byte_bits-NoNewline b = (
  bit_char-NoNewline b 7,
  (
    bit_char-NoNewline b 6,
    (
      bit_char-NoNewline b 5,
      (
        bit_char-NoNewline b 4,
        (
          bit_char-NoNewline b 3,
          (bit_char-NoNewline b 2, (bit_char-NoNewline b 1, (bit_char-NoNewline b 0, tt))),
        ),
      ),
    ),
  ),
)

pub key_bits-NoNewline : (k : List ℕ) → NoNewline (key_bits k)
unfolding key_bits
key_bits-NoNewline [] = tt
key_bits-NoNewline (b ∷ k) =
    All-append _ (byte_bits b) (key_bits k) (byte_bits-NoNewline b) (key_bits-NoNewline k)

pub lines_of-line :
    (text rest : List ℕ) → NoNewline text → lines_of (text ++ (b'\n' ∷ rest)) ≡ text ∷ lines_of rest
unfolding lines_of before_lines
lines_of-line [] rest h = refl
lines_of-line (c ∷ text) rest h = rw (h.0, lines_of-line text rest h.1) refl
