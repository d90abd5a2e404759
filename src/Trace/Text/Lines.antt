-- ===== src/Trace/Text/Lines.antt =====
-- `fgets` and `strpbrk` on lines of harmless characters.
use freqanalysis.Common.{
  ℕ, zero, suc, ◌<◌, ◌≡◌, ◌≢◌, refl, ap, ◌∙◌, List, [], ◌∷◌, ◌++◌, false, ◌==◌, length, All, arith,
}
use freqanalysis.Trace.Text.{take_line, c_string, buffers, one_of, strpbrk}

-- No newline and no NUL.
abbrev pub IsText : ℕ → Type 0
IsText c = (c ≢ 10) × (c ≢ 0)

pub take_line-newline :
    (n : ℕ) (body rest : List ℕ)
    → All IsText body
    → length body < n
    → take_line n (body ++ (10 ∷ rest)) ≡ (body ++ (10 ∷ []), rest)
unfolding take_line
take_line-newline zero body rest h short = absurd (omega arith)
take_line-newline (suc n) [] rest h short = refl
take_line-newline (suc n) (c ∷ body) rest h short =
    let other : (c == 10) ≡ false = ground (arith, h.0.0) in
    rw (other, take_line-newline n body rest h.1 (omega arith)) refl

pub c_string-text : (s : List ℕ) → All (λ c. c ≢ 0) s → c_string s ≡ s
unfolding c_string
c_string-text [] h = refl
c_string-text (c ∷ s) h =
    let other : (c == 0) ≡ false = ground (arith, h.0) in rw (other, c_string-text s h.1) refl

-- The rounds of the loop over `fgets`.
rounds : ℕ → List ℕ × List ℕ → List (List ℕ)
rounds f line = c_string line.0 ∷ buffers f line.1

buffers-round :
    (f : ℕ) (body rest : List ℕ)
    → buffers (suc f) (body ++ (10 ∷ rest)) ≡ rounds f (take_line 255 (body ++ (10 ∷ rest)))
unfolding buffers rounds
buffers-round f [] rest = refl
buffers-round f (c ∷ body) rest = refl

nonzero : (s : List ℕ) → All IsText s → All (λ c. c ≢ 0) (s ++ (10 ∷ []))
nonzero [] h = ((λ e. omega arith), tt)
nonzero (c ∷ s) h = (h.0.1, nonzero s h.1)

-- A line that fits the buffer is one round of the loop over `fgets`.
pub buffers-line :
    (f : ℕ) (body rest : List ℕ)
    → All IsText body
    → length body < 255
    → buffers (suc f) (body ++ (10 ∷ rest)) ≡ (body ++ (10 ∷ [])) ∷ buffers f rest
unfolding rounds
buffers-line f body rest h short =
    buffers-round f body rest
    ∙ ap (rounds f) (take_line-newline 255 body rest h short)
    ∙ ap (λ l. l ∷ buffers f rest) (c_string-text (body ++ (10 ∷ [])) (nonzero body h))

pub strpbrk-none : (set s : List ℕ) → All (λ c. one_of c set ≡ false) s → strpbrk s set ≡ false
unfolding strpbrk
strpbrk-none set [] h = refl
strpbrk-none set (c ∷ s) h = rw (h.0, strpbrk-none set s h.1) refl
