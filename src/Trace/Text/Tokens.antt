-- ===== src/Trace/Text/Tokens.antt =====
-- `strtok` on a word before a delimiter.
use freqanalysis.Common.{ℕ, ◌≡◌, refl, some, List, [], ◌∷◌, ◌++◌, true, false, All}
use freqanalysis.Trace.Text.{one_of, token, strtok}

abbrev pub IsOutside : List ℕ → ℕ → Type 0
IsOutside delims c = one_of c delims ≡ false

token-word :
    (delims w rest : List ℕ) (d : ℕ)
    → All (IsOutside delims) w
    → one_of d delims ≡ true
    → token delims (w ++ (d ∷ rest)) ≡ (w, rest)
unfolding token
token-word delims [] rest d h e = rw e refl
token-word delims (c ∷ w) rest d h e = rw (h.0, token-word delims w rest d h.1 e) refl

-- The word, and what follows the delimiter behind it.
pub strtok-word :
    (delims w rest : List ℕ) (c d : ℕ)
    → All (IsOutside delims) (c ∷ w)
    → one_of d delims ≡ true
    → strtok delims ((c ∷ w) ++ (d ∷ rest)) ≡ some (c ∷ w, rest)
unfolding strtok
strtok-word delims w rest c d h e = rw (h.0, token-word delims w rest d h.1 e) refl

-- A delimiter before the word is skipped.
pub strtok-skip :
    (delims rest : List ℕ) (d : ℕ)
    → one_of d delims ≡ true
    → strtok delims (d ∷ rest) ≡ strtok delims rest
unfolding strtok
strtok-skip delims rest d e = rw e refl
