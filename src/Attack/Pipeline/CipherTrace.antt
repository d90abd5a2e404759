-- ===== src/Attack/Pipeline/CipherTrace.antt =====
-- A trace that an encrypting defense printed, with the ground truth that it left.
use freqanalysis.Common.{
  ℕ, ◌≡◌, refl, ap, ◌∙◌, sym, true, false, List, [], ◌∷◌, ◌++◌, map, length, length-append, All,
  inl, inr, total, total-append, length-eq-total, SameItems, Bool-cases, arith,
}
use freqanalysis.Attack.BasicCount.Frequency.{keys_of}
use freqanalysis.Attack.Inference.Universe.{is_in}
use freqanalysis.Attack.Pipeline.Attacked.{trace_keys}
use freqanalysis.Attack.Pipeline.Truth.{
  IsDigest, IsPlain, keys, ArePrintable, all_recorded-IsPlain, is_found-all_recorded,
  all_ciphers-ArePrintable,
}
use freqanalysis.Bytes.{Key, key_eq, eq_of_key_eq, fp_size}
use freqanalysis.Defense.Hashing.Progress.{
  Segment, all_before, cipher, all_ciphers, all_recorded, IsEncrypted,
}
use freqanalysis.Defense.Printable.{IsPrintable, IsPrintable-SameItems}
use freqanalysis.Defense.Printed.{keys_of-printed_lines, read_lines-print_chunks}
use freqanalysis.Defense.Segment.{Chunk, print_chunks, title_line}
use freqanalysis.LevelDb.{LevelDb, is_found, not_found}

before-of-All :
    (xs ys : List Chunk) → All IsPrintable (xs ++ ys) → All IsPrintable xs × All IsPrintable ys
before-of-All [] ys h = (tt, h)
before-of-All (x ∷ xs) ys h = let (l, r) = before-of-All xs ys h.1 in ((h.0, l), r)

keys-have_size :
    (cs : List Chunk) (k : Key) → All IsPrintable cs → is_in (keys cs) k ≡ true → length k ≡ fp_size
keys-have_size [] k h e = absurd (false≢true e)
  where
    false≢true : false ≡ true → ⊥
    false≢true e = cc
keys-have_size (c ∷ cs) k h e = elim (Bool-cases (key_eq c.key k)) [
  | inl same ↦ ap length (sym (eq_of_key_eq c.key k same)) ∙ h.0.key.size
  | inr other ↦ keys-have_size cs k h.1 (ground arith)
]

length-ciphers :
    (md5 : List ℕ → List ℕ) (core : Key) (cs : List Chunk)
    → length (map (cipher md5 core) cs) ≡ total (λ _. 1) cs
length-ciphers md5 core [] = refl
length-ciphers md5 core (c ∷ cs) = omega (arith, length-ciphers md5 core cs)

length-keys : (cs : List Chunk) → length (keys cs) ≡ length cs
length-keys [] = refl
length-keys (c ∷ cs) = ap ℕ.suc (length-keys cs)

-- An encrypted trace, and the ground truth beside it.
pub record IsCipherTrace (store : LevelDb) (out : List ℕ) (truth : store.Db) (n : ℕ) : Type 0 where
  pub plain : (k : Key) → IsPlain (store.get truth k)
  pub known : (k : Key) → is_found (store.get truth k) ≡ is_in (trace_keys out) k
  pub size : (k : Key) → is_in (trace_keys out) k ≡ true → length k ≡ fp_size
  pub number : length (trace_keys out) ≡ n

module _ {Reorders : List Chunk → List Chunk → Type 0}
    (same : (xs ys : List Chunk) → Reorders xs ys → SameItems xs ys) where
  encrypted-ArePrintable :
      (gs : List Segment)
      → All (IsEncrypted Reorders) gs
      → All IsPrintable (all_before gs)
      → ArePrintable gs
  encrypted-ArePrintable [] h p = tt
  encrypted-ArePrintable (g ∷ gs) h p =
      let (here, later) = before-of-All g.before (all_before gs) p in
      (
        IsPrintable-SameItems g.after g.before (same g.after g.before h.0.order) here,
        encrypted-ArePrintable gs h.1 later,
      )

  length-all_ciphers :
      (md5 : List ℕ → List ℕ) (gs : List Segment)
      → All (IsEncrypted Reorders) gs
      → length (all_ciphers md5 gs) ≡ total (λ _. 1) (all_before gs)
  length-all_ciphers md5 [] h = refl
  length-all_ciphers md5 (g ∷ gs) h = omega (
    arith,
    length-append (map (cipher md5 g.core.key) g.after) (all_ciphers md5 gs),
    length-ciphers md5 g.core.key g.after,
    total-append (λ _. 1) g.before (all_before gs),
    same g.after g.before h.0.order (λ _. 1),
    length-all_ciphers md5 gs h.1,
  )

  -- What an encrypting defense prints and records, from an empty ground truth.
  pub encrypted-IsCipherTrace :
      (store : LevelDb) (md5 : List ℕ → List ℕ) (relate truth : store.Db) (gs : List Segment)
      (cs : List Chunk)
      → IsDigest md5
      → ((j : Key) → store.get relate j ≡ not_found)
      → ((j : Key) → store.get truth j ≡ all_recorded md5 gs j (store.get relate j))
      → All (IsEncrypted Reorders) gs
      → all_before gs ≡ cs
      → All IsPrintable cs
      → IsCipherTrace store (title_line ++ print_chunks (all_ciphers md5 gs)) truth (length cs)
  encrypted-IsCipherTrace store md5 relate truth gs cs digest none records h read p =
      let out = title_line ++ print_chunks (all_ciphers md5 gs) in
      let after : ArePrintable gs = encrypted-ArePrintable gs h (rw read p) in
      let ciphers = all_ciphers-ArePrintable md5 digest gs after in
      let printed : trace_keys out ≡ keys (all_ciphers md5 gs) =
        ap keys_of (read_lines-print_chunks (all_ciphers md5 gs) ciphers).0
        ∙ keys_of-printed_lines (all_ciphers md5 gs) in
      let from_empty : (k : Key) → store.get truth k ≡ all_recorded md5 gs k not_found =
        λ k. records k ∙ ap (all_recorded md5 gs k) (none k) in
      record {
        plain = λ k. rw (from_empty k) (all_recorded-IsPlain md5 gs k not_found after (inl refl));
        known = λ k.
            ap is_found (from_empty k)
            ∙ ground
                (arith, is_found-all_recorded md5 gs k not_found, ap (λ ks. is_in ks k) printed);
        size = λ k e.
            keys-have_size (all_ciphers md5 gs) k ciphers (ap (λ ks. is_in ks k) (sym printed) ∙ e);
        number =
            ap length printed
            ∙ length-keys (all_ciphers md5 gs)
            ∙ length-all_ciphers md5 gs h
            ∙ ap (total (λ _. 1)) read
            ∙ sym (length-eq-total cs);
      }
