-- ===== src/Defense/Printable.antt =====
-- Chunks that `printf` and `strtol` carry without loss, in any order.
use freqanalysis.Common.{
  ◌^◌, ◌<◌, ◌≡◌, ◌&&◌, ltb, true, Bool, List, [], ◌∷◌, SameItems, All-SameItems, All, arith,
}
use freqanalysis.Bytes.{IsFingerprint, is_fingerprint, IsFingerprint-of-test, is_fingerprint-of-Is}
use freqanalysis.Defense.Segment.{Chunk}

-- A fingerprint of six bytes and a size that fits an `int`.
pub record IsPrintable (c : Chunk) : Type 0 where
  pub key : IsFingerprint c.key
  pub size : c.size < 2 ^ 31

is_printable : Chunk → Bool
is_printable c = is_fingerprint c.key && ltb c.size (2 ^ 31)

IsPrintable-of-test : (c : Chunk) → is_printable c ≡ true → IsPrintable c
unfolding is_printable
IsPrintable-of-test c h = record {
  key = IsFingerprint-of-test c.key (ground arith);
  size = ground arith;
}

is_printable-of-Is : (c : Chunk) → IsPrintable c → is_printable c ≡ true
unfolding is_printable
is_printable-of-Is c h = ground (arith, h.size, is_fingerprint-of-Is c.key h.key)

All-map {ℓ} :
    {A : Type ℓ} (P Q : A → Type 0) (f : (x : A) → P x → Q x) (xs : List A) → All P xs → All Q xs
All-map P Q f [] h = tt
All-map P Q f (x ∷ xs) h = (f x h.0, All-map P Q f xs h.1)

-- Printable chunks in another order.
pub IsPrintable-SameItems :
    (xs ys : List Chunk) → SameItems xs ys → All IsPrintable ys → All IsPrintable xs
IsPrintable-SameItems xs ys same h =
    All-map (λ c. is_printable c ≡ true) IsPrintable IsPrintable-of-test xs
      (All-SameItems is_printable xs ys same
        (All-map IsPrintable (λ c. is_printable c ≡ true) is_printable-of-Is ys h))
