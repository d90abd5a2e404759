-- ===== src/Defense/Segment.antt =====
-- What the three defenses share: the chunk, the segment boundary and the random deque
-- (the same lines stand in defense/scrambling, defense/minhash and defense/combined).
use freqanalysis.Common.{
  none, some, total, length, ◌≤◌, ◌⊎◌, inl, inr, false, ℕ, ◌+◌, ◌-◌, ◌*◌, ◌/◌, ◌%◌, ◌^◌, ◌≡◌, ◌<◌,
  Bool, List, [], ◌∷◌, ◌++◌, ◌&&◌, ◌||◌, arith, ltb, leb, ◌==◌, if◌then◌else◌, get_or, SameItems,
  total-append, append_assoc, refl,
}
use freqanalysis.Bytes.{Key, u64}
use freqanalysis.Trace.Print.{print_chunk}
use freqanalysis.Trace.Text.{codes, atoi, int_to_u64}
use freqanalysis.Trace.Read.{Line, skipped, chunk}

-- `struct node`
pub record Chunk : Type 0 where
  pub key : Key
  pub size : ℕ

-- `SEG_MIN` is `2 << 19` and `SEG_MAX` is `2 << 21`.
abbrev pub seg_min : ℕ
seg_min = 2 * 2 ^ 19

abbrev pub seg_max : ℕ
seg_max = 2 * 2 ^ 21

-- `(c << 2) >> 2 == 0x3f` for a `char` c: promoted to `int` with its sign, shifted as 32 bits.
unfoldable pub low_bits_set : ℕ → Bool
low_bits_set c =
    let promoted = if ltb c 128 then c else c + (2 ^ 32 - 256) in
    let left = promoted * 4 % 2 ^ 32 in
    let right = if ltb left (2 ^ 31) then left / 4 else left / 4 + (2 ^ 32 - 2 ^ 30) in right == 63

-- The condition under which a chunk ends the segment before it; `sq_size + size` is a `uint64_t`.
unfoldable pub ends_segment : ℕ → ℕ → Key → Bool
unfolding low_bits_set
ends_segment sq_size size hash =
    ltb seg_max ((sq_size + size) % u64) || leb seg_min sq_size && low_bits_set (get_or hash 5 0)

-- `(rand() * rand()) % 2 == 0`: the product wraps at 32 bits, which keeps its parity, and a
-- negative odd product has the remainder -1.
pub is_even_draw : ℕ → ℕ → Bool
is_even_draw a b = a * b % 2 ^ 32 % 2 == 0

-- The loop that empties `sq` into `deq`. `rand` gives the results of the calls in order, and the
-- number is how many calls were made.
unfoldable pub scatter : (ℕ → ℕ) → ℕ → List Chunk → List Chunk → List Chunk × ℕ
unfolding is_even_draw
scatter rand draws [] deq = (deq, draws)
scatter rand draws (tmp ∷ sq) deq =
    scatter rand (draws + 2) sq
      (if is_even_draw (rand draws) (rand (draws + 1)) then tmp ∷ deq else deq ++ (tmp ∷ []))

-- `printf` of one chunk after another
unfoldable pub print_chunks : List Chunk → List ℕ
print_chunks [] = []
print_chunks (c ∷ cs) = print_chunk c.key c.size ++ print_chunks cs

-- The title that each `main` prints first.
unfoldable pub title_line : List ℕ
title_line =
    codes "Chunk Hash"
    ++ (9
        ∷ 9
        ∷ 9
        ∷ (codes "Chunk Size (bytes)" ++ (9 ∷ (codes "Compression Ratio (tenth)" ++ (10 ∷ [])))))

-- The deque holds the chunks of the queue and those that it held.
pub scatter-SameItems :
    (rand : ℕ → ℕ) (draws : ℕ) (sq deq : List Chunk)
    → SameItems (scatter rand draws sq deq).0 (sq ++ deq)
unfolding scatter
scatter-SameItems rand draws [] deq w = omega arith
scatter-SameItems rand draws (tmp ∷ sq) deq w = ground (
  arith,
  scatter-SameItems rand (draws + 2) sq (tmp ∷ deq) w,
  scatter-SameItems rand (draws + 2) sq (deq ++ (tmp ∷ [])) w,
  total-append w sq (tmp ∷ deq),
  total-append w sq deq,
  total-append w sq (deq ++ (tmp ∷ [])),
  total-append w deq (tmp ∷ []),
)

pub print_chunks-append :
    (xs ys : List Chunk) → print_chunks (xs ++ ys) ≡ print_chunks xs ++ print_chunks ys
unfolding print_chunks
print_chunks-append [] ys = refl
print_chunks-append (x ∷ xs) ys = simp (print_chunks-append xs ys, append_assoc)

-- For a byte, the test with the two shifts holds exactly if the byte is 0x3f.
pub low_bits_set_lem : (c : ℕ) → c < 256 → low_bits_set c ≡ (c == 63)
unfolding low_bits_set
low_bits_set_lem c h = ground arith

-- The chunks of a trace, in the order of its lines.
abbrev pub chunks_of : List Line → List Chunk
chunks_of [] = []
chunks_of (skipped ∷ lines) = chunks_of lines
chunks_of (chunk hash none ∷ lines) = chunks_of lines
chunks_of (chunk hash (some item) ∷ lines) =
    record { key = hash; size = int_to_u64 (atoi item) } ∷ chunks_of lines

-- Every line that is read as a chunk has a size behind its fingerprint.
abbrev pub HasSize : Line → Type 0
HasSize skipped = Unit
HasSize (chunk hash none) = ⊥
HasSize (chunk hash (some item)) = Unit

abbrev pub size_of : Chunk → ℕ
size_of c = c.size

-- The size of a chunk that fits an `int`.
abbrev pub IsSmall : Chunk → Type 0
IsSmall c = c.size < 2 ^ 31

-- A segment holds at most `SEG_MAX` bytes, or one chunk.
abbrev pub IsBounded : List Chunk → Type 0
IsBounded sq = (total size_of sq ≤ seg_max) ⊎ (length sq ≤ 1)

-- The counter `sq_size` of a pending segment does not wrap.
pub record IsPending (sq : List Chunk) (sq_size : ℕ) : Type 0 where
  pub counted : sq_size ≡ total size_of sq
  pub small : sq_size < 2 ^ 32
  pub bounded : IsBounded sq

pub IsPending-first : (c : Chunk) → IsSmall c → IsPending (c ∷ []) ((0 + c.size) % u64)
IsPending-first c h = record {
  counted = omega arith;
  small = omega arith;
  bounded = inr (omega arith);
}

pub IsPending-join :
    (sq : List Chunk) (sq_size : ℕ) (c : Chunk)
    → IsPending sq sq_size
    → IsSmall c
    → ends_segment sq_size c.size c.key ≡ false
    → IsPending (sq ++ (c ∷ [])) ((sq_size + c.size) % u64)
unfolding ends_segment
IsPending-join sq sq_size c p h e =
    let fits : sq_size + c.size ≤ seg_max = ground (arith, p.small) in
    record {
      counted = omega (arith, total-append size_of sq (c ∷ []), p.counted);
      small = omega arith;
      bounded = inl (omega (arith, total-append size_of sq (c ∷ []), p.counted));
    }
