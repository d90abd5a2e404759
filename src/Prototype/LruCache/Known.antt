-- ===== src/Prototype/LruCache/Known.antt =====
-- What the fingerprints in the cache pass. A fingerprint without zero bytes is told apart from all
-- others.
use freqanalysis.Common.{
  take_all, length-take_le, ℕ, zero, suc, ◌≤◌, ◌≡◌, refl, sym, ap, ◌∙◌, true, ◌==◌, Bool, List, [],
  ◌∷◌, take, length, All, Bool-cases, inl, inr, if◌then◌else◌, arith,
}
use freqanalysis.Bytes.{Key, fp_size, eq_of_key_eq}
use freqanalysis.Prototype.Container.Stored.{IsPlain, c_string-plain}
use freqanalysis.Prototype.LruCache.Added.{IsCache}
use freqanalysis.Prototype.LruCache.Nodes.{same_key, same_key-text}
use freqanalysis.Prototype.LruCache.Refined.{find-refines, putdata-refines}
use freqanalysis.Prototype.LruCache.Used.{keys_of, holds, without, to_front}
use freqanalysis.Prototype.LruCache.{Cache, find, putdata, same_text}
use freqanalysis.Trace.Text.{c_string}

c_string-whole : (n : ℕ) (s : List ℕ) → length s ≤ n → length (c_string s) ≡ n → c_string s ≡ s
unfolding c_string
c_string-whole n [] le e = refl
c_string-whole zero (c ∷ s) le e = absurd (omega arith)
c_string-whole (suc n) (c ∷ s) le e = elim (Bool-cases (c == 0)) [
  | inl end ↦ absurd (omega (arith, (rw end at e)))
  | inr more ↦
      rw more (ap (λ l. c ∷ l) (c_string-whole n s (omega arith) (omega (arith, (rw more at e)))))
]

pub take-plain : (str : Key) → IsPlain str → take fp_size str ≡ str
take-plain str p = take_all fp_size str (omega (arith, p.size))

same_text-plain : (k str : Key) → IsPlain str → same_text k str ≡ true → take fp_size k ≡ str
unfolding same_text
same_text-plain k str p e =
    let texts : c_string (take fp_size k) ≡ str =
      eq_of_key_eq (c_string (take fp_size k)) (c_string (take fp_size str)) e
      ∙ ap c_string (take-plain str p)
      ∙ c_string-plain str p.nonzero in
    sym (
      c_string-whole fp_size (take fp_size k) (length-take_le fp_size k) (ap length texts ∙ p.size))
    ∙ texts

-- Fingerprints that pass a test.
abbrev pub ArePassed : (Key → Bool) → List Key → Type 0
ArePassed test ks = All (λ k. test k ≡ true) ks

-- What passes the test has six bytes.
abbrev pub PassesSized : (Key → Bool) → Type 0
PassesSized test = (k : Key) → test k ≡ true → length k ≡ fp_size

pub holds-passed :
    (test : Key → Bool) (ks : List Key) (str : Key)
    → PassesSized test
    → IsPlain str
    → ArePassed test ks
    → holds ks str ≡ true
    → test str ≡ true
holds-passed test [] str sized p h e = cc
holds-passed test (k ∷ ks) str sized p h e = elim (Bool-cases (same_key k str)) [
  | inl same ↦
      let e : k ≡ str =
        sym (take_all fp_size k (omega (arith, sized k h.0)))
        ∙ same_text-plain k str p (same_key-text k str same) in
      ap test (sym e) ∙ h.0
  | inr other ↦ holds-passed test ks str sized p h.1 (rw other at e)
]

without-ArePassed :
    (test : Key → Bool) (ks : List Key) (str : Key)
    → ArePassed test ks
    → ArePassed test (without ks str)
without-ArePassed test [] str h = tt
without-ArePassed test (k ∷ ks) str h = elim (Bool-cases (same_key k str)) [
  | inl same ↦ rw same h.1
  | inr other ↦ rw other (h.0, without-ArePassed test ks str h.1)
]

pub take-ArePassed :
    (test : Key → Bool) (n : ℕ) (ks : List Key) → ArePassed test ks → ArePassed test (take n ks)
take-ArePassed test zero ks h = tt
take-ArePassed test (suc n) [] h = tt
take-ArePassed test (suc n) (k ∷ ks) h = (h.0, take-ArePassed test n ks h.1)

to_front-ArePassed :
    (test : Key → Bool) (n : ℕ) (ks : List Key) (str : Key)
    → test (take fp_size str) ≡ true
    → ArePassed test ks
    → ArePassed test (to_front n ks str)
to_front-ArePassed test n ks str pass h =
    take-ArePassed test n (take fp_size str ∷ without ks str)
      (pass, without-ArePassed test ks str h)

pub find-passed :
    (test : Key → Bool) (str : Key) (c : Cache)
    → PassesSized test
    → IsCache c
    → IsPlain str
    → ArePassed test (keys_of c.list)
    → ArePassed test (keys_of (find str c).0.list)
find-passed test str c sized h p passed =
    let (there, d, keys, max) = find-refines str c h in
    elim (Bool-cases (holds (keys_of c.list) str)) [
      | inl present ↦
          rw
            (keys
              ∙ ap
                  (λ b.
                    if b then to_front c.max_cache_size (keys_of c.list) str else keys_of c.list)
                  present)
            (to_front-ArePassed test c.max_cache_size (keys_of c.list) str
              (ap test (take-plain str p)
                ∙ holds-passed test (keys_of c.list) str sized p passed present)
              passed)
      | inr absent ↦
          rw
            (keys
              ∙ ap
                  (λ b.
                    if b then to_front c.max_cache_size (keys_of c.list) str else keys_of c.list)
                  absent)
            passed
    ]

pub putdata-passed :
    (test : Key → Bool) (str : Key) (c : Cache)
    → IsCache c
    → test (take fp_size str) ≡ true
    → ArePassed test (keys_of c.list)
    → ArePassed test (keys_of (putdata str c).0.list)
putdata-passed test str c h pass passed =
    let (added, d, keys, max) = putdata-refines str c h in
    rw keys (to_front-ArePassed test c.max_cache_size (keys_of c.list) str pass passed)
