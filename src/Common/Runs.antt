-- ===== src/Common/Runs.antt =====
-- How a run of the program ends: in a value, by `exit(1)` or a failed `assert`, in undefined
-- behaviour, or, for a `while` loop that the model gives fuel, out of fuel.
use mathlib.Core.Path.{◌≡◌, refl}

pub data Stop : Type 0 where
  exit_1 assertion undefined out_of_fuel : Stop

pub data Run {ℓ} (A : Type ℓ) : Type ℓ where
  stop : Stop → Run A
  ok : A → Run A

infixl 5 ◌>>=◌
abbrev pub ◌>>=◌ {ℓ κ} : {A : Type ℓ} {B : Type κ} → Run A → (A → Run B) → Run B
stop why >>= next = stop why
ok a >>= next = next a

-- The run ends normally, in a value that satisfies `P`.
abbrev pub Returns {ℓ μ} : {A : Type ℓ} (run : Run A) (P : A → Type μ) → Type (ℓ ⊔ μ)
Returns {A} run P = (value : A) × (run ≡ ok value) × P value

-- Two steps that end in `t`, before a third.
pub bind_then {ℓ κ μ} :
    {A : Type ℓ} {B : Type κ} {C : Type μ} (m : Run A) (f : A → Run B) (g : B → Run C) {t : B}
    → (m >>= f) ≡ ok t
    → (m >>= λ s. f s >>= g) ≡ g t
bind_then (ok a) f g h = rw h
bind_then (stop e) f g h = cc

pub ok_injective {ℓ} : {A : Type ℓ} {a b : A} → ok a ≡ ok b → a ≡ b
ok_injective e = cc e

-- What a normal end of two steps tells of them.
pub bind_ok {ℓ κ} :
    {A : Type ℓ} {B : Type κ} (m : Run A) (f : A → Run B) (b : B)
    → (m >>= f) ≡ ok b
    → (a : A) × (m ≡ ok a) × (f a ≡ ok b)
bind_ok (ok a) f b h = (a, refl, h)
bind_ok (stop e) f b h = cc
