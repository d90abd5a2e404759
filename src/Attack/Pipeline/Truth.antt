-- ===== src/Attack/Pipeline/Truth.antt =====
-- The ground truth that the encrypting defenses leave is what the attack with a ground truth reads.
use freqanalysis.Common.{
  length-take_full, ℕ, zero, suc, ◌<◌, ◌≡◌, refl, ap, ◌∙◌, sym, true, false, ◌||◌, List, [], ◌∷◌,
  ◌++◌, map, length, take, All, All-append, ◌⊎◌, inl, inr, Bool-cases, arith,
}
use freqanalysis.Attack.Inference.Universe.{is_in, is_in-append}
use freqanalysis.Bytes.{Key, key_eq, fp_size, IsFingerprint}
use freqanalysis.Defense.Hashing.Progress.{Segment, cipher, all_ciphers, recorded, all_recorded}
use freqanalysis.Defense.Hashing.{encrypt}
use freqanalysis.Defense.Printable.{IsPrintable}
use freqanalysis.Defense.Segment.{Chunk}
use freqanalysis.LevelDb.{Got, found, not_found, is_found}

-- MD5 gives sixteen bytes.
pub record IsDigest (md5 : List ℕ → List ℕ) : Type 0 where
  pub size : (s : List ℕ) → length (md5 s) ≡ 16
  pub bytes : (s : List ℕ) → All (λ b. b < 256) (md5 s)

All-take : (P : ℕ → Type 0) (n : ℕ) (xs : List ℕ) → All P xs → All P (take n xs)
All-take P zero xs h = tt
All-take P (suc n) [] h = tt
All-take P (suc n) (x ∷ xs) h = (h.0, All-take P n xs h.1)

-- What the ground truth may hold under a key.
abbrev pub IsPlain : Got → Type 0
IsPlain g = (g ≡ not_found) ⊎ (plain : Key) × (g ≡ found plain) × (length plain ≡ fp_size)

pub found-IsPlain :
    (g : Got)
    → IsPlain g
    → is_found g ≡ true
    → (plain : Key) × (g ≡ found plain) × (length plain ≡ fp_size)
found-IsPlain g (inl missing) h = absurd (false≢true (sym (ap is_found missing) ∙ h))
  where
    false≢true : false ≡ true → ⊥
    false≢true e = cc
found-IsPlain g (inr there) h = there

-- The fingerprints of chunks.
abbrev pub keys : List Chunk → List Key
keys cs = map (λ c. c.key) cs

keys-append : (xs ys : List Chunk) → keys (xs ++ ys) ≡ keys xs ++ keys ys
keys-append [] ys = refl
keys-append (x ∷ xs) ys = ap (λ ks. x.key ∷ ks) (keys-append xs ys)

-- The chunks of the segments can be printed.
abbrev pub ArePrintable : List Segment → Type 0
ArePrintable gs = All (λ (g : Segment). All IsPrintable g.after) gs

module _ (md5 : List ℕ → List ℕ) where
  recorded-IsPlain :
      (core : Key) (cs : List Chunk) (j : Key) (g : Got)
      → All IsPrintable cs
      → IsPlain g
      → IsPlain (recorded md5 core cs j g)
  recorded-IsPlain core [] j g h p = p
  recorded-IsPlain core (c ∷ cs) j g h p = elim (Bool-cases (key_eq (encrypt md5 core c.key) j)) [
    | inl same ↦
        rw same (recorded-IsPlain core cs j (found c.key) h.1 (inr (c.key, refl, h.0.key.size)))
    | inr other ↦ rw other (recorded-IsPlain core cs j g h.1 p)
  ]

  pub all_recorded-IsPlain :
      (gs : List Segment) (j : Key) (g : Got)
      → ArePrintable gs
      → IsPlain g
      → IsPlain (all_recorded md5 gs j g)
  all_recorded-IsPlain [] j g h p = p
  all_recorded-IsPlain (x ∷ gs) j g h p =
      all_recorded-IsPlain gs j _ h.1 (recorded-IsPlain x.core.key x.after j g h.0 p)

  is_found-recorded :
      (core : Key) (cs : List Chunk) (j : Key) (g : Got)
      → is_found (recorded md5 core cs j g)
        ≡ (is_in (keys (map (cipher md5 core) cs)) j || is_found g)
  is_found-recorded core [] j g = refl
  is_found-recorded core (c ∷ cs) j g = elim (Bool-cases (key_eq (encrypt md5 core c.key) j)) [
    | inl same ↦ rw same (ground (arith, is_found-recorded core cs j (found c.key)))
    | inr other ↦ rw other (is_found-recorded core cs j g)
  ]

  -- The ground truth knows the ciphertexts.
  pub is_found-all_recorded :
      (gs : List Segment) (j : Key) (g : Got)
      → is_found (all_recorded md5 gs j g) ≡ (is_in (keys (all_ciphers md5 gs)) j || is_found g)
  is_found-all_recorded [] j g = refl
  is_found-all_recorded (x ∷ gs) j g =
      let here = map (cipher md5 x.core.key) x.after in
      let split : is_in (keys (here ++ all_ciphers md5 gs)) j
          ≡ (is_in (keys here) j || is_in (keys (all_ciphers md5 gs)) j) =
        ap (λ ks. is_in ks j) (keys-append here (all_ciphers md5 gs))
        ∙ is_in-append (keys here) (keys (all_ciphers md5 gs)) j in
      ground (
        arith,
        is_found-all_recorded gs j (recorded md5 x.core.key x.after j g),
        is_found-recorded x.core.key x.after j g,
        split,
      )

  module _ (digest : IsDigest md5) where
    encrypt-IsFingerprint : (core now : Key) → IsFingerprint (encrypt md5 core now)
    unfolding encrypt
    encrypt-IsFingerprint core now = record {
      size =
          length-take_full fp_size (md5 (now ++ core)) (omega (arith, digest.size (now ++ core)));
      bytes = All-take (λ b. b < 256) fp_size (md5 (now ++ core)) (digest.bytes (now ++ core));
    }

    ciphers-ArePrintable :
        (core : Key) (cs : List Chunk)
        → All IsPrintable cs
        → All IsPrintable (map (cipher md5 core) cs)
    ciphers-ArePrintable core [] h = tt
    ciphers-ArePrintable core (c ∷ cs) h = (
      record { key = encrypt-IsFingerprint core c.key; size = h.0.size },
      ciphers-ArePrintable core cs h.1,
    )

    pub all_ciphers-ArePrintable :
        (gs : List Segment) → ArePrintable gs → All IsPrintable (all_ciphers md5 gs)
    all_ciphers-ArePrintable [] h = tt
    all_ciphers-ArePrintable (g ∷ gs) h =
        All-append IsPrintable (map (cipher md5 g.core.key) g.after) (all_ciphers md5 gs)
          (ciphers-ArePrintable g.core.key g.after h.0) (all_ciphers-ArePrintable gs h.1)
