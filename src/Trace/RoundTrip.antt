-- ===== src/Trace/RoundTrip.antt =====
-- Reading back a printed chunk: the fingerprint and the size.
use freqanalysis.Common.{
  ℕ, zero, suc, ◌+◌, ◌*◌, ◌/◌, ◌%◌, ◌^◌, ◌<◌, ◌≡◌, refl, ap, ◌∙◌, Option, some, List, [], ◌∷◌, ◌++◌,
  true, false, length, All, append_assoc, arith,
}
use freqanalysis.Bytes.Decimal.{decimal, digits_onto}
use freqanalysis.Bytes.{Key, IsFingerprint, fp_size}
use freqanalysis.Trace.Print.Characters.{
  IsInner, digit_of-hex_digit, hex_digit-ge, line_text, line_text-IsInner, All-digits_onto,
}
use freqanalysis.Trace.Print.{hex_digit, print_byte, print_more, print_key}
use freqanalysis.Trace.Read.{
  chunk, title, first_delims, next_delims, fill_hash, parse_hash, parse_line,
}
use freqanalysis.Trace.Text.Lines.{strpbrk-none}
use freqanalysis.Trace.Text.Numbers.{
  strtol-two_digits, digits_onto-StartsDigit, digits_onto-append, atoi-decimal,
}
use freqanalysis.Trace.Text.Tokens.{IsOutside, strtok-word, strtok-skip}
use freqanalysis.Trace.Text.{one_of, strtok, strtol, strpbrk, atoi, int_to_u64}

-- A byte is what `strtol` reads from its two digits.
strtol-print_byte : (b : ℕ) → b < 256 → strtol 16 (print_byte b) % 256 ≡ b
unfolding print_byte
strtol-print_byte b h =
    let read : strtol 16 (hex_digit (b / 16) ∷ hex_digit (b % 16) ∷ []) ≡ 16 * (b / 16) + b % 16 =
      strtol-two_digits (hex_digit (b / 16)) (hex_digit (b % 16)) (b / 16) (b % 16)
        (hex_digit-ge (b / 16) (omega arith)) (digit_of-hex_digit (b / 16) (omega arith))
        (digit_of-hex_digit (b % 16) (omega arith)) (omega arith) (omega arith) in
    omega (arith, read)

-- Delimiters that end the tokens of a fingerprint.
record Delimits (delims : List ℕ) : Type 0 where
  digit : (x : ℕ) → x < 16 → IsOutside delims (hex_digit x)
  colon : one_of 58 delims ≡ true
  tab : one_of 9 delims ≡ true

first_delims-Delimits : Delimits first_delims
unfolding one_of hex_digit
first_delims-Delimits = record { digit = λ x h. ground arith; colon = refl; tab = refl }

next_delims-Delimits : Delimits next_delims
unfolding one_of hex_digit
next_delims-Delimits = record { digit = λ x h. ground arith; colon = refl; tab = refl }

-- Where `strtok` goes on after a byte that `bs` follow.
abbrev after : List ℕ → List ℕ → List ℕ
after [] rest = rest
after (b ∷ bs) rest = print_key (b ∷ bs) ++ (9 ∷ rest)

strtok-print_key :
    (delims : List ℕ) (b : ℕ) (bs rest : List ℕ)
    → Delimits delims
    → b < 256
    → strtok delims (print_key (b ∷ bs) ++ (9 ∷ rest)) ≡ some (print_byte b, after bs rest)
unfolding print_key print_byte print_more
strtok-print_key delims b [] rest d h =
    strtok-word delims (hex_digit (b % 16) ∷ []) rest (hex_digit (b / 16)) 9
      (d.digit (b / 16) (omega arith), (d.digit (b % 16) (omega arith), tt)) d.tab
strtok-print_key delims b (c ∷ bs) rest d h =
    strtok-word delims (hex_digit (b % 16) ∷ []) (print_key (c ∷ bs) ++ (9 ∷ rest))
      (hex_digit (b / 16)) 58 (d.digit (b / 16) (omega arith), (d.digit (b % 16) (omega arith), tt))
      d.colon

-- One byte before what the rest of the loop gives.
abbrev byte_before : ℕ → List ℕ × Option (List ℕ × List ℕ) → List ℕ × Option (List ℕ × List ℕ)
byte_before b later = (b ∷ later.0, later.1)

fill_hash-some :
    (n : ℕ) (item rest : List ℕ)
    → fill_hash (suc n) (some (item, rest))
      ≡ byte_before (strtol 16 item % 256) (fill_hash n (strtok next_delims rest))
unfolding fill_hash
fill_hash-some n item rest = refl

fill_hash-zero : (item : Option (List ℕ × List ℕ)) → fill_hash zero item ≡ ([], item)
unfolding fill_hash
fill_hash-zero item = refl

fill_hash-print_key :
    (b : ℕ) (bs rest : List ℕ)
    → b < 256
    → All (λ b. b < 256) bs
    → fill_hash (suc (length bs)) (some (print_byte b, after bs rest))
      ≡ (b ∷ bs, strtok next_delims rest)
fill_hash-print_key b [] rest h k =
    fill_hash-some 0 (print_byte b) rest
    ∙ rw (strtol-print_byte b h, fill_hash-zero (strtok next_delims rest)) refl
fill_hash-print_key b (c ∷ bs) rest h k =
    let item = strtok-print_key next_delims c bs rest next_delims-Delimits k.0 in
    fill_hash-some (suc (length bs)) (print_byte b) (print_key (c ∷ bs) ++ (9 ∷ rest))
    ∙ rw (strtol-print_byte b h, item, fill_hash-print_key c bs rest k.0 k.1) refl

-- The token behind the fingerprint.
pub size_item : ℕ → List ℕ
size_item size = decimal size ++ (32 ∷ [])

strtok-size_item :
    (size : ℕ) (rest : List ℕ)
    → strtok next_delims (size_item size ++ (9 ∷ rest)) ≡ some (size_item size, rest)
unfolding size_item decimal one_of
strtok-size_item size rest =
    let text = digits_onto (size + 1) size (32 ∷ []) in
    let (c, w, e, low, high) = digits_onto-StartsDigit (size + 1) size (32 ∷ []) (omega arith) in
    let outside : All (IsOutside next_delims) text =
      All-digits_onto (IsOutside next_delims) (λ d h. ground arith) (size + 1) size (32 ∷ [])
        (refl, tt) in
    let word : All (IsOutside next_delims) (c ∷ w) = rw e at outside in
    rw (digits_onto-append (size + 1) size [] (32 ∷ []), e)
      (strtok-word next_delims w rest c 9 word refl)

parse_hash-print_key :
    (key : Key) (size : ℕ) (rest : List ℕ)
    → IsFingerprint key
    → parse_hash (print_key key ++ (9 ∷ 9 ∷ (size_item size ++ (9 ∷ rest))))
      ≡ (key, some (size_item size, rest))
unfolding parse_hash
parse_hash-print_key [] size rest h = absurd (omega (arith, h.size))
parse_hash-print_key (b ∷ bs) size rest h =
    let more = 9 ∷ (size_item size ++ (9 ∷ rest)) in
    let six : fp_size ≡ suc (length bs) = omega (arith, h.size) in
    let item = strtok-print_key first_delims b bs more first_delims-Delimits h.bytes.0 in
    rw item (
      ap (λ n. fill_hash n (some (print_byte b, after bs more))) six
      ∙ fill_hash-print_key b bs more h.bytes.0 h.bytes.1
      ∙ ap (λ t. (b ∷ bs, t))
          (strtok-skip next_delims (size_item size ++ (9 ∷ rest)) 9 next_delims-Delimits.tab
            ∙ strtok-size_item size rest))

line_text-split :
    (key : Key) (size : ℕ)
    → line_text key size ++ (10 ∷ [])
      ≡ print_key key ++ (9 ∷ 9 ∷ (size_item size ++ (9 ∷ 9 ∷ 9 ∷ 49 ∷ 48 ∷ 10 ∷ [])))
unfolding size_item
line_text-split key size = simp append_assoc

no_title : (s : List ℕ) → All IsInner s → All (λ c. one_of c title ≡ false) (s ++ (10 ∷ []))
unfolding one_of
no_title [] h = (refl, tt)
no_title (c ∷ s) h = (h.0.2, no_title s h.1)

-- Reading the line of a printed chunk gives its fingerprint, and its size behind it.
pub parse_line-line_text :
    (key : Key) (size : ℕ)
    → IsFingerprint key
    → parse_line (line_text key size ++ (10 ∷ [])) ≡ chunk key (some (size_item size))
unfolding parse_line
parse_line-line_text key size h =
    let tail : List ℕ = 9 ∷ 9 ∷ 49 ∷ 48 ∷ 10 ∷ [] in
    let plain : strpbrk (line_text key size ++ (10 ∷ [])) title ≡ false =
      strpbrk-none title (line_text key size ++ (10 ∷ []))
        (no_title (line_text key size) (line_text-IsInner key size h.bytes)) in
    let parsed : parse_hash (line_text key size ++ (10 ∷ [])) ≡ (key, some (size_item size, tail)) =
      ap parse_hash (line_text-split key size) ∙ parse_hash-print_key key size tail h in
    rw (plain, parsed) refl

pub size_item-decimal : (size : ℕ) → size < 2 ^ 31 → int_to_u64 (atoi (size_item size)) ≡ size
unfolding size_item
size_item-decimal size small = atoi-decimal size [] small
