-- ===== src/Bytes/Decimal.antt =====
-- Decimal digits, as `printf("%lu")` and `stringstream` write them.
use freqanalysis.Common.{ℕ, zero, suc, ◌+◌, ◌/◌, ◌%◌, List, [], ◌∷◌, ltb, if◌then◌else◌}

-- The digits of `x` before the text `rest`; ten steps of fuel for each decimal digit.
unfoldable pub digits_onto : ℕ → ℕ → List ℕ → List ℕ
digits_onto zero x rest = rest
digits_onto (suc f) x rest =
    let more = digits_onto f (x / 10) ((48 + x % 10) ∷ rest) in
    if ltb x 10 then (48 + x) ∷ rest else more

-- Fuel `x + 1` is enough: each step divides by ten.
unfoldable pub decimal : ℕ → List ℕ
unfolding digits_onto
decimal x = digits_onto (x + 1) x []
