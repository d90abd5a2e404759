-- ===== src/Prototype/Container/Collected.antt =====
-- The containers while fingerprints are collected, and what writing one to its file leaves.
use freqanalysis.Common.{
  ℕ, ◌+◌, ◌^◌, ◌<◌, ◌≤◌, ◌≡◌, ◌≢◌, refl, sym, ap, ◌∙◌, true, false, none, some, List, [], ◌∷◌, ◌++◌,
  ◌==◌, if◌then◌else◌, All, total, to_nat, ok, Returns, Bool-cases, inl, inr, ◌⊎◌, ltb, Bool, arith,
}
use freqanalysis.Bytes.Decimal.{decimal}
use freqanalysis.Bytes.{Key, key_eq, key_eq_refl}
use freqanalysis.Prototype.Bits.{lines_of, read_keys}
use freqanalysis.Prototype.Container.Stored.{
  IsPlain, written, look_up, container_text-plain, pocessw-written, nil_or_cons, written-loads,
}
use freqanalysis.Prototype.Container.{Manager, manifest_name, pocessw, loadtonode}

-- The fingerprints in memory have no zero bytes, and neither the current container nor a later one
-- has a file.
pub record Collects (path : List ℕ) (s : Manager) : Type 0 where
  pub plain : All IsPlain s.tmp
  pub fresh : (id : ℕ) → s.now_id ≤ id → s.files (path ++ decimal id) ≡ none

pub loadtonode-memory :
    (path : List ℕ) (s : Manager) → Collects path s → loadtonode path s.now_id s ≡ ok (some s.tmp)
unfolding loadtonode
loadtonode-memory path s c =
    let current : (s.now_id == s.now_id) ≡ true = ground arith in
    rw (loadtonode, c.fresh s.now_id (omega arith), current) refl

abbrev pub same_as : Key → Key → ℕ
same_as k j = to_nat (key_eq j k)

-- The manifest has the current number.
abbrev pub IsRecorded : List ℕ → Manager → Type 0
IsRecorded path s = s.files (path ++ manifest_name) ≡ some (decimal s.now_id ++ (b'\n' ∷ []))

-- Loading the container gives fingerprints that `k` is one of.
abbrev pub Holds : List ℕ → Manager → ℕ → Key → Type 0
Holds path m id k =
    (keys : List Key) × (loadtonode path id m ≡ ok (some keys)) × (0 < total (same_as k) keys)

-- From `s` to `r` no container changes but those with a later number, and none is left in memory.
pub record Flushed (path : List ℕ) (s r : Manager) : Type 0 where
  pub collects : Collects path r
  pub same : (id : ℕ) → id ≤ s.now_id → loadtonode path id r ≡ loadtonode path id s
  pub number-ge : s.now_id ≤ r.now_id
  pub number-le : r.now_id ≤ s.now_id + 1
  pub next : (id : ℕ) → id ≤ r.now_id → (id ≤ s.now_id) ⊎ (loadtonode path id r ≡ ok (some []))
  pub recorded : IsRecorded path s → IsRecorded path r
  pub emptied : r.tmp ≡ []

-- A test that the fingerprints of every container pass.
abbrev pub AllPass : List ℕ → (Key → Bool) → Manager → Type 0
AllPass path test s =
    (id : ℕ) (keys : List Key)
    → id ≤ s.now_id
    → loadtonode path id s ≡ ok (some keys)
    → All (λ k. test k ≡ true) keys

written-same :
    (path : List ℕ) (s : Manager) (text : List ℕ) (id : ℕ)
    → Collects path s
    → s.now_id + 1 < 2 ^ 31
    → read_keys (lines_of text) ≡ ok s.tmp
    → id ≤ s.now_id
    → loadtonode path id (written path s text) ≡ loadtonode path id s
written-same path s text id c small back le =
    let other : id ≢ s.now_id + 1 = λ e. omega (arith, e) in
    written-loads path s text id small other back ∙ elim (Bool-cases (id == s.now_id)) [
      | inl same ↦
          let e : id ≡ s.now_id = ground arith in
          rw same (sym (ap (λ i. loadtonode path i s) e ∙ loadtonode-memory path s c))
      | inr differs ↦ rw differs refl
    ]

written-Collects :
    (path : List ℕ) (s : Manager) (text : List ℕ)
    → Collects path s
    → s.now_id + 1 < 2 ^ 31
    → Collects path (written path s text)
written-Collects path s text c small = record {
  plain = tt;
  fresh = λ id later.
      let later' : s.now_id + 1 ≤ id = omega arith in
      let differs : (id == s.now_id) ≡ false = ground arith in
      look_up s.files path text _ s.now_id id
      ∙ ap (λ b. if b then some text else s.files (path ++ decimal id)) differs
      ∙ c.fresh id (omega arith);
}

written-IsRecorded :
    (path : List ℕ) (s : Manager) (text : List ℕ) → IsRecorded path (written path s text)
written-IsRecorded path s text = rw (key_eq_refl (path ++ manifest_name)) refl

-- The next container is empty.
written-next :
    (path : List ℕ) (s : Manager) (text : List ℕ) (id : ℕ)
    → Collects path (written path s text)
    → s.now_id + 1 < 2 ^ 31
    → id ≤ (written path s text).now_id
    → (id ≤ s.now_id) ⊎ (loadtonode path id (written path s text) ≡ ok (some []))
written-next path s text id c small le = elim (Bool-cases (ltb s.now_id id)) [
  | inl later ↦
      let t = written path s text in
      let e : id ≡ t.now_id = ground arith in
      inr (ap (λ i. loadtonode path i t) e ∙ loadtonode-memory path t c)
  | inr before ↦ inl (ground arith)
]

-- `pocessw` keeps the invariant, also when there is nothing to write.
pub pocessw-Flushed :
    (path : List ℕ) (s : Manager)
    → Collects path s
    → s.now_id + 1 < 2 ^ 31
    → Returns (pocessw path s) (λ r. Flushed path s r.0)
unfolding pocessw
pocessw-Flushed path s c small = elim (nil_or_cons s.tmp) [
  | inl empty ↦ (
    (s, false),
    simp (pocessw, empty),
    record {
      collects = c;
      same = λ id le. refl;
      number-ge = omega arith;
      number-le = omega arith;
      next = λ id le. inl le;
      recorded = λ h. h;
      emptied = empty;
    },
  )
  | inr (k, keys, e) ↦
      let (text, run, back) = container_text-plain s.tmp c.plain in
      let some_key : s.tmp ≢ [] = λ empty. let e' : k ∷ keys ≡ [] = sym e ∙ empty in cc e' in
      (
        (written path s text, true),
        pocessw-written path s text some_key run,
        record {
          collects = written-Collects path s text c small;
          same = λ id le. written-same path s text id c small back le;
          number-ge = omega arith;
          number-le = omega arith;
          next =
              λ id le. written-next path s text id (written-Collects path s text c small) small le;
          recorded = λ h. written-IsRecorded path s text;
          emptied = refl;
        },
      )
]

pub some_injective : (a b : List Key) → ok (some a) ≡ ok (some b) → a ≡ b
some_injective a b e = cc e

-- Writing the container changes none.
pub Flushed-AllPass :
    (path : List ℕ) (s r : Manager) (test : Key → Bool)
    → Flushed path s r
    → AllPass path test s
    → AllPass path test r
Flushed-AllPass path s r test f all id keys le loads = elim (f.next id le) [
  | inl before ↦ all id keys before (sym (f.same id before) ∙ loads)
  | inr empty ↦
      let nothing : keys ≡ [] = some_injective keys [] (sym loads ∙ empty) in rw nothing tt
]
