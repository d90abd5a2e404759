-- ===== src/Trace/Text/Numbers.antt =====
-- `strtol` on what `printf` writes.
use freqanalysis.Common.{
  ℕ, zero, suc, ◌+◌, ◌-◌, ◌*◌, ◌/◌, ◌%◌, ◌^◌, ◌<◌, ◌≤◌, ◌≡◌, refl, ap, ◌∙◌, none, some, List, [],
  ◌∷◌, ◌++◌, false, ltb, ◌==◌, min, Bool-cases, inl, inr, arith,
}
use freqanalysis.Bytes.Decimal.{decimal, digits_onto}
use freqanalysis.Trace.Text.{
  is_space, digit_of, digits, skip_prefix, signed_long, after_space, strtol, atoi, int_to_u64,
}

digit_of-decimal : (d : ℕ) → d < 10 → digit_of 10 (48 + d) ≡ some d
unfolding digit_of
digit_of-decimal d h = ground arith

digits-cons :
    (base acc c d : ℕ) (s : List ℕ)
    → digit_of base c ≡ some d
    → digits base acc (c ∷ s) ≡ digits base (acc * base + d) s
unfolding digits
digits-cons base acc c d s e = rw (e, digits) refl

digits-nil : (base acc : ℕ) → digits base acc [] ≡ acc
unfolding digits
digits-nil base acc = refl

digits-digits_onto :
    (f x : ℕ) (rest : List ℕ) → x < f → digits 10 0 (digits_onto f x rest) ≡ digits 10 x rest
unfolding digits_onto
digits-digits_onto zero x rest h = absurd (omega arith)
digits-digits_onto (suc f) x rest h = elim (Bool-cases (ltb x 10)) [
  | inl one ↦ rw one (
      digits-cons 10 0 (48 + x) x rest (digit_of-decimal x (ground arith))
      ∙ ap (λ a. digits 10 a rest) (omega arith))
  | inr more ↦ rw more (
      digits-digits_onto f (x / 10) ((48 + x % 10) ∷ rest) (ground arith)
      ∙ digits-cons 10 (x / 10) (48 + x % 10) (x % 10) rest
          (digit_of-decimal (x % 10) (omega arith))
      ∙ ap (λ a. digits 10 a rest) (omega arith))
]

pub digits_onto-append :
    (f x : ℕ) (a b : List ℕ) → digits_onto f x a ++ b ≡ digits_onto f x (a ++ b)
unfolding digits_onto
digits_onto-append zero x a b = refl
digits_onto-append (suc f) x a b = elim (Bool-cases (ltb x 10)) [
  | inl one ↦ rw one refl
  | inr more ↦ rw more (digits_onto-append f (x / 10) ((48 + x % 10) ∷ a) b)
]

-- A digit stands first.
abbrev pub StartsDigit : List ℕ → Type 0
StartsDigit s = (c : ℕ) × (t : List ℕ) × (s ≡ c ∷ t) × (48 ≤ c) × (c < 58)

pub digits_onto-StartsDigit : (f x : ℕ) (rest : List ℕ) → x < f → StartsDigit (digits_onto f x rest)
unfolding digits_onto
digits_onto-StartsDigit zero x rest h = absurd (omega arith)
digits_onto-StartsDigit (suc f) x rest h = elim (Bool-cases (ltb x 10)) [
  | inl one ↦ rw one (48 + x, rest, refl, omega arith, ground arith)
  | inr more ↦ rw more (digits_onto-StartsDigit f (x / 10) ((48 + x % 10) ∷ rest) (ground arith))
]

strtol-digit :
    (c : ℕ) (s : List ℕ)
    → 48 ≤ c
    → c < 58
    → strtol 10 (c ∷ s) ≡ min (digits 10 0 (c ∷ s)) (2 ^ 63 - 1)
unfolding strtol after_space is_space signed_long
strtol-digit c s h k = ground arith

-- A number below 2 ^ 63, in decimal digits before a character that is no digit, is what `strtol`
-- reads.
pub strtol-decimal :
    (x end : ℕ) (rest : List ℕ)
    → digit_of 10 end ≡ none
    → x < 2 ^ 63
    → strtol 10 (decimal x ++ (end ∷ rest)) ≡ x
unfolding decimal digits
strtol-decimal x end rest stops small =
    let text = digits_onto (x + 1) x (end ∷ rest) in
    let (c, s, e, low, high) = digits_onto-StartsDigit (x + 1) x (end ∷ rest) (omega arith) in
    let number : digits 10 0 text ≡ x =
      digits-digits_onto (x + 1) x (end ∷ rest) (omega arith) ∙ rw (digits, stops) refl in
    let read : strtol 10 text ≡ min (digits 10 0 text) (2 ^ 63 - 1) =
      rw e (strtol-digit c s low high) in
    ap (strtol 10) (digits_onto-append (x + 1) x [] (end ∷ rest)) ∙ omega (arith, read, number)

pub atoi-decimal :
    (x : ℕ) (rest : List ℕ) → x < 2 ^ 31 → int_to_u64 (atoi (decimal x ++ (32 ∷ rest))) ≡ x
unfolding int_to_u64 atoi digit_of
atoi-decimal x rest small = ground (arith, strtol-decimal x 32 rest refl (omega arith))

-- A number below 2 ^ 31 at the end of a line.
pub atoi-decimal_line : (x : ℕ) (rest : List ℕ) → x < 2 ^ 31 → atoi (decimal x ++ (10 ∷ rest)) ≡ x
unfolding atoi digit_of
atoi-decimal_line x rest small = omega (arith, strtol-decimal x 10 rest refl (omega arith))

pub decimal-StartsDigit : (x : ℕ) (rest : List ℕ) → StartsDigit (decimal x ++ rest)
unfolding decimal
decimal-StartsDigit x rest =
    rw (digits_onto-append (x + 1) x [] rest) (digits_onto-StartsDigit (x + 1) x rest (omega arith))

strtol-two :
    (c d : ℕ) → 48 ≤ c → strtol 16 (c ∷ d ∷ []) ≡ min (digits 16 0 (c ∷ d ∷ [])) (2 ^ 63 - 1)
unfolding strtol after_space is_space signed_long skip_prefix
strtol-two c d low =
    let no_space : is_space c ≡ false = ground arith in
    let no_minus : (c == 45) ≡ false = ground arith in
    let no_plus : (c == 43) ≡ false = ground arith in rw (no_space, no_minus, no_plus) refl

-- Two hexadecimal digits.
pub strtol-two_digits :
    (c d x y : ℕ)
    → 48 ≤ c
    → digit_of 16 c ≡ some x
    → digit_of 16 d ≡ some y
    → x < 16
    → y < 16
    → strtol 16 (c ∷ d ∷ []) ≡ 16 * x + y
strtol-two_digits c d x y low e g small_x small_y =
    let number : digits 16 0 (c ∷ d ∷ []) ≡ digits 16 ((0 * 16 + x) * 16 + y) [] =
      digits-cons 16 0 c x (d ∷ []) e ∙ digits-cons 16 (0 * 16 + x) d y [] g in
    omega (arith, strtol-two c d low, number, digits-nil 16 ((0 * 16 + x) * 16 + y))
