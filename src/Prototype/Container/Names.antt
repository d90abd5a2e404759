-- ===== src/Prototype/Container/Names.antt =====
-- The names of container files: the digits that `pocessw` writes are those that `loadtonode` looks
-- for, and no two containers, nor a container and the manifest, share a name.
use freqanalysis.Common.{
  ℕ, zero, suc, ◌+◌, ◌-◌, ◌*◌, ◌/◌, ◌%◌, ◌<◌, ◌≡◌, ◌≢◌, refl, sym, ap, ◌∙◌, true, false, List, [],
  ◌∷◌, ◌++◌, ltb, ◌==◌, All, Bool-cases, inl, inr, arith,
}
use freqanalysis.Bytes.Decimal.{decimal, digits_onto}
use freqanalysis.Bytes.{key_eq, key_eq_refl, eq_of_key_eq}
use freqanalysis.Prototype.Container.{digits_up, reverse_onto, file_number, manifest_name}

digits_up-zero : (f : ℕ) → digits_up f 0 ≡ []
unfolding digits_up
digits_up-zero zero = refl
digits_up-zero (suc f) = refl

reverse_onto-digits_up :
    (f g e : ℕ) (rest : List ℕ)
    → e < f
    → e < g
    → reverse_onto (digits_up f (suc e)) rest ≡ digits_onto g (suc e) rest
unfolding digits_up reverse_onto digits_onto
reverse_onto-digits_up (suc f) (suc g) e rest h k =
    let flip : suc e % 10 + 48 ≡ 48 + suc e % 10 = omega arith in
    elim (Bool-cases (ltb (suc e) 10)) [
      | inl one ↦
          let none_left : suc e / 10 ≡ 0 = ground arith in
          let digit : suc e % 10 + 48 ≡ 48 + suc e = ground arith in
          rw (one, none_left, digits_up-zero f) (ap (λ c. c ∷ rest) digit)
      | inr more ↦
          let left : suc e / 10 ≡ suc (suc e / 10 - 1) = ground arith in
          rw (more, left, flip)
            (reverse_onto-digits_up f g (suc e / 10 - 1) ((48 + suc e % 10) ∷ rest) (omega arith)
              (omega arith))
    ]
reverse_onto-digits_up zero g e rest h k = absurd (omega arith)
reverse_onto-digits_up (suc f) zero e rest h k = absurd (omega arith)

pub file_number-decimal : (id : ℕ) → file_number id ≡ decimal id
unfolding file_number decimal digits_onto
file_number-decimal zero = refl
file_number-decimal (suc e) =
    reverse_onto-digits_up (suc e) (suc e + 1) e [] (omega arith) (omega arith)

true≢false : true ≢ false
true≢false e = cc

-- The number that a text of digits stands for, behind `acc`.
value : ℕ → List ℕ → ℕ
value acc [] = acc
value acc (c ∷ s) = value (acc * 10 + (c - 48)) s

value-digits_onto :
    (f x : ℕ) (rest : List ℕ) → x < f → value 0 (digits_onto f x rest) ≡ value x rest
unfolding value digits_onto
value-digits_onto zero x rest h = absurd (omega arith)
value-digits_onto (suc f) x rest h = elim (Bool-cases (ltb x 10)) [
  | inl one ↦ rw one (ap (λ a. value a rest) (omega arith))
  | inr more ↦ rw more (
      value-digits_onto f (x / 10) ((48 + x % 10) ∷ rest) (ground arith)
      ∙ ap (λ a. value a rest) (omega arith))
]

IsDigit : ℕ → Type 0
IsDigit c = c < 58

digits_onto-IsDigit :
    (f x : ℕ) (rest : List ℕ) → All IsDigit rest → All IsDigit (digits_onto f x rest)
unfolding digits_onto IsDigit
digits_onto-IsDigit zero x rest h = h
digits_onto-IsDigit (suc f) x rest h = elim (Bool-cases (ltb x 10)) [
  | inl one ↦ rw one (ground arith, h)
  | inr more ↦ rw more (digits_onto-IsDigit f (x / 10) ((48 + x % 10) ∷ rest) (omega arith, h))
]

-- Different numbers have different names.
pub decimal_injective : (a b : ℕ) → decimal a ≡ decimal b → a ≡ b
unfolding decimal value
decimal_injective a b e =
    sym (value-digits_onto (a + 1) a [] (omega arith))
    ∙ ap (value 0) e
    ∙ value-digits_onto (b + 1) b [] (omega arith)

pub key_eq-append : (p a b : List ℕ) → key_eq (p ++ a) (p ++ b) ≡ key_eq a b
unfolding key_eq
key_eq-append [] a b = refl
key_eq-append (c ∷ p) a b = ground (arith, key_eq-append p a b)

pub key_eq-decimal : (p : List ℕ) (a b : ℕ) → key_eq (p ++ decimal a) (p ++ decimal b) ≡ (a == b)
key_eq-decimal p a b = key_eq-append p (decimal a) (decimal b) ∙ same_test
  where
    same_test : key_eq (decimal a) (decimal b) ≡ (a == b)
    same_test = elim (Bool-cases (key_eq (decimal a) (decimal b))) [
      | inl same ↦
          let e : a ≡ b = decimal_injective a b (eq_of_key_eq (decimal a) (decimal b) same) in
          rw same (ground (arith, e))
      | inr other ↦ elim (Bool-cases (a == b)) [
        | inl same ↦
            let e : a ≡ b = ground arith in
            absurd (
              true≢false (
                sym (key_eq_refl (decimal a)) ∙ ap (λ c. key_eq (decimal a) (decimal c)) e ∙ other))
        | inr different ↦ rw (other, different) refl
      ]
    ]

pub key_eq-manifest : (p : List ℕ) (a : ℕ) → key_eq (p ++ decimal a) (p ++ manifest_name) ≡ false
unfolding key_eq decimal IsDigit
key_eq-manifest p a =
    key_eq-append p (decimal a) manifest_name
    ∙ not_manifest (decimal a) (digits_onto-IsDigit (a + 1) a [] tt)
  where
    not_manifest : (s : List ℕ) → All IsDigit s → key_eq s manifest_name ≡ false
    not_manifest [] h = refl
    not_manifest (c ∷ s) h = ground arith
