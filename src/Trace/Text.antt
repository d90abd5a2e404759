-- ===== src/Trace/Text.antt =====
-- What the programs use of the C library on text: a C string is the list of its characters.
pub mod Lines
pub mod Tokens
pub mod Numbers
use Prim.Native.Char.{code}
use Prim.Native.String.{String}
use freqanalysis.Common.{
  ℕ, zero, suc, ◌+◌, ◌-◌, ◌*◌, ◌%◌, ◌^◌, Bool, true, false, ◌&&◌, ◌||◌, Option, none, some, List,
  [], ◌∷◌, ltb, leb, ◌==◌, if◌then◌else◌, min,
}

-- The characters of a literal.
abbrev pub codes : String → List ℕ
codes String.[] = []
codes (String.◌∷◌ c s) = code c ∷ codes s

-- `fgets` reads at most `n` characters, up to and with the first newline.
pub take_line : ℕ → List ℕ → List ℕ × List ℕ
take_line zero s = ([], s)
take_line (suc n) [] = ([], [])
take_line (suc n) (c ∷ s) =
    let rest = take_line n s in if c == b'\n' then (c ∷ [], s) else (c ∷ rest.0, rest.1)

-- What a string function sees of a buffer: the characters before the first NUL.
unfoldable pub c_string : List ℕ → List ℕ
c_string [] = []
c_string (c ∷ s) = if c == 0 then [] else c ∷ c_string s

-- The buffers of `while (fgets(read_buffer, 256, fp))`. Each round reads a character at least, so
-- the length of the file is enough fuel.
unfoldable pub buffers : ℕ → List ℕ → List (List ℕ)
unfolding take_line c_string
buffers zero s = []
buffers (suc f) [] = []
buffers (suc f) (c ∷ s) = let line = take_line 255 (c ∷ s) in c_string line.0 ∷ buffers f line.1

unfoldable pub one_of : ℕ → List ℕ → Bool
one_of c [] = false
one_of c (d ∷ ds) = c == d || one_of c ds

-- `strpbrk(s, set) != NULL`
unfoldable pub strpbrk : List ℕ → List ℕ → Bool
unfolding one_of
strpbrk [] set = false
strpbrk (c ∷ s) set = one_of c set || strpbrk s set

-- The part of a token that is left in `s`, and what follows the delimiter that ends it.
pub token : List ℕ → List ℕ → List ℕ × List ℕ
token delims [] = ([], [])
token delims (c ∷ s) =
    let rest = token delims s in if one_of c delims then ([], s) else (c ∷ rest.0, rest.1)

-- `strtok`: the token and the text where the next call goes on, or a null pointer.
unfoldable pub strtok : List ℕ → List ℕ → Option (List ℕ × List ℕ)
unfolding one_of token
strtok delims [] = none
strtok delims (c ∷ s) =
    let later = strtok delims s in if one_of c delims then later else some (token delims (c ∷ s))

pub is_space : ℕ → Bool
is_space c = c == 32 || leb 9 c && leb c 13

-- The value of a digit in base 10 or 16.
unfoldable pub digit_of : ℕ → ℕ → Option ℕ
digit_of base c =
    let decimal_digit = if ltb (c - 48) base then some (c - 48) else none in
    if leb 48 c && leb c 57
    then decimal_digit
    else if base == 10
    then none
    else if leb 97 c && leb c 102
    then some (c - 87)
    else if leb 65 c && leb c 70
    then some (c - 55)
    else none

pub digits : ℕ → ℕ → List ℕ → ℕ
digits base acc [] = acc
digits base acc (c ∷ s) = elim (digit_of base c) [
  | none ↦ acc
  | some d ↦ digits base (acc * base + d) s
]

-- A prefix `0x` or `0X` counts only before a hexadecimal digit.
pub skip_prefix : ℕ → List ℕ → List ℕ
skip_prefix base (z ∷ x ∷ d ∷ s) =
    if base == 16 && z == 48 && (x == 120 || x == 88)
    then elim (digit_of base d) [ none ↦ z ∷ x ∷ d ∷ s | some _ ↦ d ∷ s ]
    else z ∷ x ∷ d ∷ s
skip_prefix base s = s

-- The magnitude saturates at `LONG_MAX` and `LONG_MIN`; the result is the bit pattern of a `long`.
pub signed_long : Bool → ℕ → ℕ
signed_long false v = min v (2 ^ 63 - 1)
signed_long true v = (2 ^ 64 - min v (2 ^ 63)) % 2 ^ 64

pub after_space : ℕ → List ℕ → ℕ
unfolding digit_of digits skip_prefix signed_long
after_space base [] = 0
after_space base (c ∷ s) =
    if c == b'-'
    then signed_long true (digits base 0 (skip_prefix base s))
    else if c == b'+'
    then signed_long false (digits base 0 (skip_prefix base s))
    else signed_long false (digits base 0 (skip_prefix base (c ∷ s)))

-- `strtol(s, NULL, base)`, as a 64-bit pattern
unfoldable pub strtol : ℕ → List ℕ → ℕ
unfolding is_space after_space
strtol base [] = 0
strtol base (c ∷ s) =
    let rest = strtol base s in if is_space c then rest else after_space base (c ∷ s)

-- `atoi`, the low half of `strtol` in base 10: the bit pattern of an `int`
unfoldable pub atoi : List ℕ → ℕ
unfolding strtol
atoi s = strtol 10 s % 2 ^ 32

-- The conversion of an `int` to `uint64_t` extends the sign.
unfoldable pub int_to_u64 : ℕ → ℕ
int_to_u64 x = if ltb x (2 ^ 31) then x else x + (2 ^ 64 - 2 ^ 32)
