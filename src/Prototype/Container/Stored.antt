-- ===== src/Prototype/Container/Stored.antt =====
-- What a container file holds: the fingerprints that were collected.
use freqanalysis.Common.{
  ℕ, ◌+◌, ◌%◌, ◌^◌, ◌<◌, ◌≡◌, ◌≢◌, refl, sym, ap, ◌∙◌, true, false, Option, some, List, [], ◌∷◌,
  ◌++◌, append_assoc, ltb, ◌==◌, if◌then◌else◌, length, take, take-append, All, ok, Returns,
  Bool-cases, Option-cases, ◌⊎◌, inl, inr, arith,
}
use freqanalysis.Bytes.Decimal.{decimal}
use freqanalysis.Bytes.{Key, fp_size}
use freqanalysis.Prototype.Bits
use freqanalysis.Prototype.Bits.{
  key_bits, read_bytes-bits, length-key_bits, key_bits-NoNewline, lines_of, lines_of-line, read_key,
  read_keys,
}
use freqanalysis.Prototype.Container.Names.{file_number-decimal, key_eq-decimal, key_eq-manifest}
use freqanalysis.Prototype.Container.{
  Manager, manifest_name, write_file, container_line, container_text, pocessw, loadtonode,
  file_number,
}
use freqanalysis.Trace.Text.{c_string}

-- A fingerprint without a zero byte.
pub record IsPlain (k : Key) : Type 0 where
  pub size : length k ≡ fp_size
  pub bytes : All (λ b. b < 256) k
  pub nonzero : All (λ b. (b == 0) ≡ false) k

pub c_string-plain : (k : List ℕ) → All (λ b. (b == 0) ≡ false) k → c_string k ≡ k
unfolding c_string
c_string-plain [] h = refl
c_string-plain (b ∷ k) h = rw h.0 (ap (λ s. b ∷ s) (c_string-plain k h.1))

container_line-plain : (k : Key) → IsPlain k → container_line k ≡ ok (key_bits k ++ (b'\n' ∷ []))
unfolding container_line
container_line-plain k h =
    let long : ltb (length k + 1) fp_size ≡ false = ground (arith, h.size) in
    let whole : take fp_size (k ++ (0 ∷ [])) ≡ k =
      ap (λ n. take n (k ++ (0 ∷ []))) (sym h.size) ∙ take-append k (0 ∷ []) in
    rw (c_string-plain k h.nonzero, long, whole) refl

read_key-plain : (k : Key) → IsPlain k → read_key (key_bits k) ≡ ok k
unfolding read_key
read_key-plain k h =
    let long : ltb (length (key_bits k) + 1) 48 ≡ false =
      ground (arith, length-key_bits k, h.size) in
    rw long
      (ap ok (ap (λ n. Bits.read_bytes n (key_bits k)) (sym h.size) ∙ read_bytes-bits k h.bytes))

pub container_text-plain :
    (keys : List Key)
    → All IsPlain keys
    → Returns (container_text keys) (λ text. read_keys (lines_of text) ≡ ok keys)
unfolding container_text read_keys lines_of
container_text-plain [] h = ([], refl, refl)
container_text-plain (k ∷ keys) h =
    let (more, run, back) = container_text-plain keys h.1 in
    (
      (key_bits k ++ (b'\n' ∷ [])) ++ more,
      rw (container_line-plain k h.0, run) refl,
      rw
          (
            append_assoc (key_bits k) (b'\n' ∷ []) more,
            lines_of-line (key_bits k) more (key_bits-NoNewline k),
            read_keys,
            read_key-plain k h.0,
            back,
          )
          refl,
    )

-- The files after `pocessw`, looked up by the number of a container.
pub look_up :
    (files : List ℕ → Option (List ℕ)) (path text manifest : List ℕ) (now id : ℕ)
    → write_file
        (write_file files (path ++ file_number now) text)
        (path ++ manifest_name)
        manifest
        (path ++ decimal id)
      ≡ (if id == now then some text else files (path ++ decimal id))
look_up files path text manifest now id =
    rw (key_eq-manifest path id, file_number-decimal now, key_eq-decimal path id now) refl

loadtonode-file :
    (path : List ℕ) (id : ℕ) (s : Manager) (text : List ℕ) (keys : List Key)
    → s.files (path ++ decimal id) ≡ some text
    → read_keys (lines_of text) ≡ ok keys
    → loadtonode path id s ≡ ok (some keys)
unfolding loadtonode
loadtonode-file path id s text keys there back = rw (loadtonode, there, back) refl

pub loadtonode-same :
    (path : List ℕ) (id : ℕ) (s t : Manager)
    → t.files (path ++ decimal id) ≡ s.files (path ++ decimal id)
    → (id == s.now_id) ≡ false
    → (id == t.now_id) ≡ false
    → loadtonode path id t ≡ loadtonode path id s
unfolding loadtonode
loadtonode-same path id s t same old new = elim (Option-cases (s.files (path ++ decimal id))) [
  | inl missing ↦ rw (loadtonode, same, missing, old, new) refl
  | inr (text, there) ↦ rw (loadtonode, same, there) refl
]

-- The state after the file is written.
abbrev pub written : List ℕ → Manager → List ℕ → Manager
written path s text = record {
  now_id = (s.now_id + 1) % 2 ^ 32;
  tmp = [];
  now_size = 0;
  files =
      write_file (write_file s.files (path ++ file_number s.now_id) text) (path ++ manifest_name)
        (decimal ((s.now_id + 1) % 2 ^ 32) ++ (b'\n' ∷ []));
}

pub nil_or_cons :
    (keys : List Key) → (keys ≡ []) ⊎ ((k : Key) × (rest : List Key) × (keys ≡ k ∷ rest))
nil_or_cons [] = inl refl
nil_or_cons (k ∷ rest) = inr (k, rest, refl)

pub pocessw-written :
    (path : List ℕ) (s : Manager) (text : List ℕ)
    → s.tmp ≢ []
    → container_text s.tmp ≡ ok text
    → pocessw path s ≡ ok (written path s text, true)
unfolding pocessw
pocessw-written path s text some_key run = elim (nil_or_cons s.tmp) [
  | inl empty ↦ absurd (some_key empty)
  | inr (k, keys, e) ↦ rw (pocessw, e, run) refl
]

pub written-loads :
    (path : List ℕ) (s : Manager) (text : List ℕ) (id : ℕ)
    → s.now_id + 1 < 2 ^ 31
    → id ≢ s.now_id + 1
    → read_keys (lines_of text) ≡ ok s.tmp
    → loadtonode path id (written path s text)
      ≡ (if id == s.now_id then ok (some s.tmp) else loadtonode path id s)
written-loads path s text id small other back =
    let t = written path s text in
    let found = look_up s.files path text (decimal t.now_id ++ (b'\n' ∷ [])) s.now_id id in
    elim (Bool-cases (id == s.now_id)) [
      | inl same ↦ rw same (
          loadtonode-file path id t text s.tmp
            (found ∙ ap (λ b. if b then some text else s.files (path ++ decimal id)) same) back)
      | inr differs ↦ rw differs (
          loadtonode-same path id s t
            (found ∙ ap (λ b. if b then some text else s.files (path ++ decimal id)) differs)
            differs (ground arith))
    ]

-- `pocessw` on a container of fingerprints without zero bytes ends normally and begins the next
-- container; loading the number that was current gives these fingerprints from the file, and every
-- number but the new one gives what it gave before, with numbers below 2 ^ 31.
pub pocessw-loadtonode :
    (path : List ℕ) (s : Manager) (id : ℕ)
    → s.tmp ≢ []
    → All IsPlain s.tmp
    → s.now_id + 1 < 2 ^ 31
    → id ≢ s.now_id + 1
    → Returns (pocessw path s) λ r.
      (r.1 ≡ true)
      × (r.0.now_id ≡ s.now_id + 1)
      × (r.0.tmp ≡ [])
      × (loadtonode path id r.0
          ≡ (if id == s.now_id then ok (some s.tmp) else loadtonode path id s))
pocessw-loadtonode path s id some_key plain small other =
    let (text, run, back) = container_text-plain s.tmp plain in
    let t = written path s text in
    (
      (t, true),
      pocessw-written path s text some_key run,
      (refl, omega arith, refl, written-loads path s text id small other back),
    )
