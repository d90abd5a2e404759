-- ===== src/Attack/Neighbours/Names.antt =====
-- The name under which a neighbour is counted.
use freqanalysis.Common.{
  ℕ, zero, suc, ◌-◌, ◌≤◌, ◌≡◌, refl, sym, ap, ◌∙◌, some, List, [], ◌∷◌, ◌++◌, append_assoc, ltb,
  length, length-append, length-replicate, length-take_full, take, replicate, ok, Bool-cases, inl,
  inr, arith,
}
use freqanalysis.Attack.Neighbours.{resized, neighbour_key}
use freqanalysis.Bytes.{Key, fp_size}
use freqanalysis.Trace.Text.{c_string}

-- The text of a fingerprint up to a zero byte, filled up with zeros.
unfoldable pub neighbour_name : Key → Key
neighbour_name k = resized (c_string k)

take-before : (n : ℕ) (xs ys : List ℕ) → n ≤ length xs → take n (xs ++ ys) ≡ take n xs
take-before zero xs ys h = refl
take-before (suc n) [] ys h = absurd (omega arith)
take-before (suc n) (x ∷ xs) ys h = ap (λ r. x ∷ r) (take-before n xs ys (omega arith))

-- What is read behind the array does not matter.
pub neighbour_key-name :
    (bytes : List ℕ) (k : Key) → neighbour_key (some bytes) k ≡ ok (neighbour_name k)
unfolding neighbour_key neighbour_name
neighbour_key-name bytes k = elim (Bool-cases (ltb (length (c_string k)) fp_size)) [
  | inl short ↦ rw short refl
  | inr long ↦
      let text = c_string k in
      let whole : fp_size ≤ length text = ground arith in
      let more = c_string bytes in
      let zeros : List ℕ = replicate (fp_size - length (text ++ more)) 0 in
      let e : take fp_size ((text ++ more) ++ zeros) ≡ resized text =
        ap (take fp_size) (append_assoc text more zeros)
        ∙ take-before fp_size text (more ++ zeros) whole
        ∙ sym (take-before fp_size text (replicate (fp_size - length text) 0) whole) in
      rw long (ap ok e)
]

pub length-neighbour_name : (k : Key) → length (neighbour_name k) ≡ fp_size
unfolding neighbour_name
length-neighbour_name k =
    let text = c_string k in
    let zeros : List ℕ = replicate (fp_size - length text) 0 in
    length-take_full fp_size (text ++ zeros)
      (omega (arith, length-append text zeros, length-replicate {A = ℕ} (fp_size - length text) 0))
