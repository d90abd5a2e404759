-- ===== src/Prototype/Deduplication/Covered.antt =====
-- Every chunk of the trace is in a container that the index names: what the cache, the index and
-- the containers know of one another.
use freqanalysis.Common.{
  ℕ, ◌^◌, ◌<◌, ◌≡◌, sym, ap, ◌∙◌, true, false, not, ◌&&◌, ◌||◌, ◌==◌, Bool, List, [], ◌∷◌, take,
  All, Bool-cases, inl, inr, if◌then◌else◌, arith,
}
use freqanalysis.Bytes.{
  Key, fp_size, key_eq, key_eq_refl, eq_of_key_eq, is_fingerprint, IsFingerprint,
  IsFingerprint-of-test, is_fingerprint-of-Is,
}
use freqanalysis.Prototype.Container.Stored.{IsPlain}
use freqanalysis.LevelDb.{LevelDb, IsSound, is_found}
use freqanalysis.Prototype.BloomFilter.{Bloom}
use freqanalysis.Prototype.Container.Collected.{AllPass, IsRecorded}
use freqanalysis.Prototype.Deduplication.Points.{IsIndexed}
use freqanalysis.Prototype.Deduplication.{State}
use freqanalysis.Prototype.FpIndex
use freqanalysis.Prototype.FpIndex.{minus_one, find-insert, is_found-insert}
use freqanalysis.Prototype.LruCache.Added.{IsCache}
use freqanalysis.Prototype.LruCache.Known.{ArePassed, PassesSized}
use freqanalysis.Prototype.LruCache.Used.{keys_of}

pub IsPlain-IsFingerprint : (k : Key) → IsPlain k → IsFingerprint k
IsPlain-IsFingerprint k p = record { size = p.size; bytes = p.bytes }

module _ (bloom : Bloom) (store : LevelDb) (sound : IsSound store) (container_path : List ℕ) where
  open bloom use {Filter}
  open store use {Db, get}

  -- The fingerprint, of six bytes, is in the index.
  abbrev pub known : Db → Key → Bool
  known fpi k = is_found (get fpi k) && is_fingerprint k

  abbrev pub known_bytes : Db → Key → Bool
  known_bytes fpi k = known fpi (take fp_size k)

  pub known_sized : (fpi : Db) → PassesSized (known fpi)
  known_sized fpi k h = (IsFingerprint-of-test k (ground arith)).size

  -- What the cache and the containers hold is in the index, the index has a container for it, and
  -- the manifest has the number of the current one.
  pub record IsCovered (s : State Filter Db) : Type 0 where
    pub indexed : IsIndexed bloom store sound container_path s
    pub cache : IsCache s.lpc
    pub cached : ArePassed (known s.fpi) (keys_of s.lpc.list)
    pub contained : AllPass container_path (known_bytes s.fpi) s.cmr
    pub recorded : IsRecorded container_path s.cmr
    pub named : (k : Key) → known s.fpi k ≡ true → (FpIndex.find store s.fpi k == minus_one) ≡ false

  -- An index with more fingerprints.
  abbrev pub Extends : Db → Db → Type 0
  Extends fpi fpi' = (k : Key) → known fpi k ≡ true → known fpi' k ≡ true

  pub ArePassed-more :
      (fpi fpi' : Db) (ks : List Key)
      → Extends fpi fpi'
      → ArePassed (known fpi) ks
      → ArePassed (known fpi') ks
  ArePassed-more fpi fpi' [] more h = tt
  ArePassed-more fpi fpi' (k ∷ ks) more h = (more k h.0, ArePassed-more fpi fpi' ks more h.1)

  pub All-more :
      (fpi fpi' : Db) (ks : List Key)
      → Extends fpi fpi'
      → All (λ k. known_bytes fpi k ≡ true) ks
      → All (λ k. known_bytes fpi' k ≡ true) ks
  All-more fpi fpi' [] more h = tt
  All-more fpi fpi' (k ∷ ks) more h = (more (take fp_size k) h.0, All-more fpi fpi' ks more h.1)

  pub insert-Extends :
      (fpi : Db) (key : Key) (id : ℕ) → Extends fpi (FpIndex.insert store fpi key id).0
  insert-Extends fpi key id k h = ground (arith, is_found-insert store sound fpi key k id)

  pub insert-known :
      (fpi : Db) (key : Key) (id : ℕ)
      → IsPlain key
      → known (FpIndex.insert store fpi key id).0 key ≡ true
  insert-known fpi key id plain = ground (
    arith,
    is_found-insert store sound fpi key key id,
    key_eq_refl key,
    is_fingerprint-of-Is key (IsPlain-IsFingerprint key plain),
  )

  -- A number that is inserted is no -1.
  pub insert-named :
      (fpi : Db) (key : Key) (id : ℕ)
      → id < 2 ^ 31
      → ((k : Key) → known fpi k ≡ true → (FpIndex.find store fpi k == minus_one) ≡ false)
      → (k : Key) → known (FpIndex.insert store fpi key id).0 k ≡ true
      → (FpIndex.find store (FpIndex.insert store fpi key id).0 k == minus_one) ≡ false
  insert-named fpi key id small named k there =
      let found = (find-insert store sound fpi key k id (omega arith)).1 in
      elim (Bool-cases (is_found (get fpi key) || not (key_eq key k))) [
        | inl kept ↦
            let old : known fpi k ≡ true = old_known kept in
            rw (found ∙ ap (λ b. if b then FpIndex.find store fpi k else id) kept) (named k old)
        | inr new ↦
            rw (found ∙ ap (λ b. if b then FpIndex.find store fpi k else id) new) (ground arith)
      ]
    where
      old_known : (is_found (get fpi key) || not (key_eq key k)) ≡ true → known fpi k ≡ true
      old_known kept = elim (Bool-cases (key_eq key k)) [
        | inl same ↦
            let e : key ≡ k = eq_of_key_eq key k same in
            let k_known : known fpi key ≡ true = ground arith in ap (known fpi) (sym e) ∙ k_known
        | inr other ↦ ground (arith, is_found-insert store sound fpi key k id, there)
      ]
