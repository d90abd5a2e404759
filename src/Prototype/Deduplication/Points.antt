-- ===== src/Prototype/Deduplication/Points.antt =====
-- Where the index points: a fingerprint of the index is in the container that it names.
use mathlib.Core.Path.{subst}
use freqanalysis.Common.{
  ℕ, ◌<◌, ◌≤◌, ◌≡◌, sym, ap, ◌∙◌, ◌⊎◌, inl, inr, true, not, ◌||◌, List, ◌^◌, if◌then◌else◌,
  Bool-cases, arith,
}
use freqanalysis.Bytes.{Key, key_eq, eq_of_key_eq}
use freqanalysis.LevelDb.{LevelDb, IsSound, is_found}
use freqanalysis.Prototype.BloomFilter.{Bloom}
use freqanalysis.Prototype.Container.Collected.{Collects, Holds, Flushed}
use freqanalysis.Prototype.Container.Inserted.{Inserts}
use freqanalysis.Prototype.Container.{Manager}
use freqanalysis.Prototype.Deduplication.{State}
use freqanalysis.Prototype.FpIndex
use freqanalysis.Prototype.FpIndex.{minus_one, find-insert}

module _ (bloom : Bloom) (store : LevelDb) (sound : IsSound store) (container_path : List ℕ) where
  open bloom use {Filter}
  open store use {Db, get}

  -- A fingerprint is not in the index, or its container, the current one or one before, holds it.
  abbrev pub PointsAt : Manager → Key → ℕ → Type 0
  PointsAt cmr k id = (id ≡ minus_one) ⊎ ((id ≤ cmr.now_id) × Holds container_path cmr id k)

  abbrev pub Points : Db → Manager → Key → Type 0
  Points fpi cmr k = PointsAt cmr k (FpIndex.find store fpi k)

  pub record IsIndexed (s : State Filter Db) : Type 0 where
    pub collects : Collects container_path s.cmr
    pub points : (k : Key) → Points s.fpi s.cmr k

  pub PointsAt-keeps :
      (m t : Manager) (key j : Key) (id : ℕ)
      → Inserts container_path key m t
      → PointsAt m j id
      → PointsAt t j id
  PointsAt-keeps m t key j id ins (inl absent) = inl absent
  PointsAt-keeps m t key j id ins (inr (le, held)) =
      inr (omega (arith, le, ins.number-ge), ins.keeps id j le held)

  pub PointsAt-Flushed :
      (m t : Manager) (k : Key) (id : ℕ)
      → Flushed container_path m t
      → PointsAt m k id
      → PointsAt t k id
  PointsAt-Flushed m t k id f (inl absent) = inl absent
  PointsAt-Flushed m t k id f (inr (le, (keys, loads, inside))) =
      inr (omega (arith, le, f.number-ge), (keys, f.same id le ∙ loads, inside))

  pub Points-insert :
      (fpi : Db) (m t : Manager) (key j : Key)
      → Inserts container_path key m t
      → t.now_id < 2 ^ 31
      → Points fpi m j
      → Points (FpIndex.insert store fpi key t.now_id).0 t j
  Points-insert fpi m t key j ins small p =
      let found = (find-insert store sound fpi key j t.now_id (omega arith)).1 in
      elim (Bool-cases (is_found (get fpi key) || not (key_eq key j))) [
        | inl kept ↦
            subst (PointsAt t j)
              (sym (found ∙ ap (λ b. if b then FpIndex.find store fpi j else t.now_id) kept))
              (PointsAt-keeps m t key j (FpIndex.find store fpi j) ins p)
        | inr new ↦
            let same : key_eq key j ≡ true = ground arith in
            subst (PointsAt t j)
              (sym (found ∙ ap (λ b. if b then FpIndex.find store fpi j else t.now_id) new))
              (inr (
                omega arith,
                subst (Holds container_path t t.now_id) (eq_of_key_eq key j same) ins.holds,
              ))
      ]
