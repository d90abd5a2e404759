-- ===== src/Trace/Print/Characters.antt =====
-- The characters of a printed chunk, and how many they are.
use freqanalysis.Common.{
  ℕ, zero, suc, ◌+◌, ◌*◌, ◌/◌, ◌%◌, ◌^◌, ◌<◌, ◌≤◌, ◌≡◌, ◌≢◌, refl, some, List, [], ◌∷◌, ◌++◌,
  append_assoc, true, false, ltb, length, length-append, All, All-append, Bool-cases, inl, inr,
  arith,
}
use freqanalysis.Bytes.Decimal.{decimal, digits_onto}
use freqanalysis.Bytes.{Key}
use freqanalysis.Trace.Print.{hex_digit, print_byte, print_more, print_key, print_chunk}
use freqanalysis.Trace.Read.{title}
use freqanalysis.Trace.Text.{one_of, digit_of}

-- A character that neither ends a line nor marks a title.
abbrev pub IsInner : ℕ → Type 0
IsInner c = (c ≢ 10) × (c ≢ 0) × (one_of c title ≡ false)

pub hex_digit-IsInner : (x : ℕ) → x < 16 → IsInner (hex_digit x)
unfolding hex_digit one_of
hex_digit-IsInner x h = (λ e. ground arith, λ e. ground arith, ground arith)

pub digit_of-hex_digit : (x : ℕ) → x < 16 → digit_of 16 (hex_digit x) ≡ some x
unfolding hex_digit digit_of
digit_of-hex_digit x h = ground arith

pub hex_digit-ge : (x : ℕ) → x < 16 → 48 ≤ hex_digit x
unfolding hex_digit
hex_digit-ge x h = ground arith

print_more-IsInner : (bs : List ℕ) → All (λ b. b < 256) bs → All IsInner (print_more bs)
unfolding print_more print_byte one_of
print_more-IsInner [] h = tt
print_more-IsInner (b ∷ bs) h = (
  (λ e. omega arith, λ e. omega arith, refl),
  (
    hex_digit-IsInner (b / 16) (omega (arith, h.0)),
    (hex_digit-IsInner (b % 16) (omega arith), print_more-IsInner bs h.1),
  ),
)

print_key-IsInner : (k : Key) → All (λ b. b < 256) k → All IsInner (print_key k)
unfolding print_key print_byte
print_key-IsInner [] h = tt
print_key-IsInner (b ∷ bs) h = (
  hex_digit-IsInner (b / 16) (omega (arith, h.0)),
  (hex_digit-IsInner (b % 16) (omega arith), print_more-IsInner bs h.1),
)

digit-IsInner : (d : ℕ) → d < 10 → IsInner (48 + d)
unfolding one_of
digit-IsInner d h = (λ e. omega arith, λ e. omega arith, ground arith)

-- What holds of every digit holds of a number.
pub All-digits_onto :
    (P : ℕ → Type 0) (each : (d : ℕ) → d < 10 → P (48 + d)) (f x : ℕ) (rest : List ℕ)
    → All P rest
    → All P (digits_onto f x rest)
unfolding digits_onto
All-digits_onto P each zero x rest h = h
All-digits_onto P each (suc f) x rest h = elim (Bool-cases (ltb x 10)) [
  | inl one ↦ rw one (each x (ground arith), h)
  | inr more ↦
      rw more
        (All-digits_onto P each f (x / 10) ((48 + x % 10) ∷ rest) (each (x % 10) (omega arith), h))
]

abbrev tens : ℕ → ℕ
tens zero = 1
tens (suc n) = 10 * tens n

length-digits_onto :
    (f n x : ℕ) (rest : List ℕ)
    → x < tens (suc n)
    → length (digits_onto f x rest) ≤ suc n + length rest
unfolding digits_onto
length-digits_onto zero n x rest h = omega arith
length-digits_onto (suc f) zero x rest h =
    let one : ltb x 10 ≡ true = ground arith in rw one (omega arith)
length-digits_onto (suc f) (suc n) x rest h = elim (Bool-cases (ltb x 10)) [
  | inl one ↦ rw one (omega arith)
  | inr more ↦
      let left : x / 10 < tens (suc n) = omega arith in
      rw more (omega (arith, length-digits_onto f n (x / 10) ((48 + x % 10) ∷ rest) left))
]

length-print_more : (bs : List ℕ) → length (print_more bs) ≡ 3 * length bs
unfolding print_more print_byte
length-print_more [] = refl
length-print_more (b ∷ bs) = omega (arith, length-print_more bs)

length-print_key : (k : Key) → length (print_key k) ≤ 3 * length k
unfolding print_key print_byte
length-print_key [] = omega arith
length-print_key (b ∷ bs) = omega (arith, length-print_more bs)

-- What stands behind the fingerprint, without the newline.
abbrev pub size_text : ℕ → List ℕ
size_text size = 9 ∷ 9 ∷ (decimal size ++ (32 ∷ 9 ∷ 9 ∷ 9 ∷ 49 ∷ 48 ∷ []))

-- The line of a chunk, without the newline.
abbrev pub line_text : Key → ℕ → List ℕ
line_text key size = print_key key ++ size_text size

pub print_chunk-line_text :
    (key : Key) (size : ℕ) (rest : List ℕ)
    → print_chunk key size ++ rest ≡ line_text key size ++ (10 ∷ rest)
unfolding print_chunk
print_chunk-line_text key size rest = simp append_assoc

size_text-IsInner : (size : ℕ) → All IsInner (size_text size)
unfolding decimal one_of
size_text-IsInner size =
    let tab : IsInner 9 = (λ e. omega arith, λ e. omega arith, refl) in
    let tail : All IsInner (32 ∷ 9 ∷ 9 ∷ 9 ∷ 49 ∷ 48 ∷ []) = (
      (λ e. omega arith, λ e. omega arith, refl),
      (tab, (tab, (tab, (digit-IsInner 1 (omega arith), (digit-IsInner 0 (omega arith), tt))))),
    ) in
    let number = All-digits_onto IsInner digit-IsInner (size + 1) size [] tt in
    (tab, (tab, All-append IsInner (decimal size) (32 ∷ 9 ∷ 9 ∷ 9 ∷ 49 ∷ 48 ∷ []) number tail))

pub line_text-IsInner :
    (key : Key) (size : ℕ) → All (λ b. b < 256) key → All IsInner (line_text key size)
line_text-IsInner key size h =
    All-append IsInner (print_key key) (size_text size) (print_key-IsInner key h)
      (size_text-IsInner size)

-- The line fits the buffer of 256 characters.
pub length-line_text :
    (key : Key) (size : ℕ) → length key ≡ 6 → size < 2 ^ 31 → length (line_text key size) < 255
unfolding decimal
length-line_text key size h small =
    let tail : List ℕ = 32 ∷ 9 ∷ 9 ∷ 9 ∷ 49 ∷ 48 ∷ [] in
    omega (
      arith,
      length-append (print_key key) (size_text size),
      length-append (decimal size) tail,
      length-print_key key,
      length-digits_onto (size + 1) 9 size [] (omega arith),
    )
