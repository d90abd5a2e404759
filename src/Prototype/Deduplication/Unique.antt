-- ===== src/Prototype/Deduplication/Unique.antt =====
-- The deduplication of prototype/ddfs.cc: a fingerprint is stored the first time that it is read, and
-- no other time, when the Bloom filter knows what was added to it.
use freqanalysis.Common.{
  ℕ, ◌+◌, ◌%◌, ◌≡◌, refl, sym, ap, ◌∙◌, Bool, true, false, ◌||◌, ◌==◌, List, [], ◌∷◌, ok,
  ok_injective, bind_ok, Bool-cases, inl, inr, differ, if◌then◌else◌, arith,
}
use freqanalysis.Bytes.{Key, key_eq, u64, is_fingerprint, is_fingerprint-of-Is, eq_of_key_eq}
use freqanalysis.LevelDb.{LevelDb, IsSound}
use freqanalysis.Prototype.BloomFilter.{Bloom}
use freqanalysis.Prototype.Container
use freqanalysis.Prototype.Container.Stored.{IsPlain}
use freqanalysis.Prototype.Container.{Manager}
use freqanalysis.Prototype.Deduplication.Covered.{
  IsCovered, known, known_sized, IsPlain-IsFingerprint,
}
use freqanalysis.Prototype.Deduplication.{State, punique, load_all, look_up_index, add_chunk}
use freqanalysis.Prototype.FpIndex
use freqanalysis.Prototype.FpIndex.{minus_one, is_found-insert, is_found-of-find}
use freqanalysis.Prototype.LruCache
use freqanalysis.Prototype.LruCache.Known.{holds-passed, find-passed}
use freqanalysis.Prototype.Deduplication.Covering.{with_cache-IsCovered}
use freqanalysis.Prototype.LruCache.Refined.{find-refines}
use freqanalysis.Prototype.LruCache.Used.{keys_of}
use freqanalysis.Prototype.LruCache.{Cache}

-- A filter without false negatives.
pub record IsBloom (bloom : Bloom) : Type 0 where
  pub check-add : (f : bloom.Filter) (k : Key) → bloom.check (bloom.add f k) k ≡ true
  pub check-kept :
      (f : bloom.Filter) (k j : Key) → bloom.check f j ≡ true → bloom.check (bloom.add f k) j ≡ true

module _ (bloom : Bloom) (filter : IsBloom bloom) (store : LevelDb) (sound : IsSound store)
    (container_path : List ℕ) where
  open bloom use {Filter, check}
  open store use {Db, get}

  abbrev pub is_known : Db → Key → Bool
  is_known = known bloom store sound container_path

  -- The filter has what the index has.
  abbrev pub IsFiltered : State Filter Db → Type 0
  IsFiltered s = (k : Key) → is_known s.fpi k ≡ true → check s.blm k ≡ true

  -- One chunk: it is counted if the index did not have it, and the index has it afterwards.
  pub record Deduplicates (key : Key) (s t : State Filter Db) : Type 0 where
    pub filtered : IsFiltered t
    pub counts :
        t.update_access
        ≡ (if is_known s.fpi key then s.update_access else (s.update_access + 1) % u64)
    pub knows : (j : Key) → is_known t.fpi j ≡ is_known s.fpi j || key_eq key j

  known-insert :
      (fpi : Db) (key j : Key) (id : ℕ)
      → IsPlain key
      → is_known (FpIndex.insert store fpi key id).0 j ≡ is_known fpi j || key_eq key j
  known-insert fpi key j id plain = elim (Bool-cases (key_eq key j)) [
    | inl same ↦
        let e : is_fingerprint j ≡ true =
          ap is_fingerprint (sym (eq_of_key_eq key j same))
          ∙ is_fingerprint-of-Is key (IsPlain-IsFingerprint key plain) in
        ground (arith, is_found-insert store sound fpi key j id, e)
    | inr other ↦ ground (arith, is_found-insert store sound fpi key j id)
  ]

  load_all-keeps :
      (keys : List Key) (s : State Filter Db)
      → ((load_all bloom store keys s).blm ≡ s.blm)
        × ((load_all bloom store keys s).fpi ≡ s.fpi)
        × ((load_all bloom store keys s).update_access ≡ s.update_access)
  unfolding load_all
  load_all-keeps [] s = (refl, refl, refl)
  load_all-keeps (k ∷ keys) s = load_all-keeps keys _

  stored-Deduplicates :
      (key : Key) (id : ℕ) (s t : State Filter Db)
      → IsPlain key
      → IsFiltered s
      → is_known s.fpi key ≡ false
      → t.blm ≡ bloom.add s.blm key
      → t.fpi ≡ (FpIndex.insert store s.fpi key id).0
      → t.update_access ≡ (s.update_access + 1) % u64
      → Deduplicates key s t
  stored-Deduplicates key id s t plain filtered new blm fpi counts =
      let knows : (j : Key) → is_known t.fpi j ≡ is_known s.fpi j || key_eq key j =
        λ j. ap (λ d. is_known d j) fpi ∙ known-insert s.fpi key j id plain in
      record {
        filtered = λ j there. ap (λ f. check f j) blm ∙ elim (Bool-cases (key_eq key j)) [
          | inl same ↦
              ap (check (bloom.add s.blm key)) (sym (eq_of_key_eq key j same))
              ∙ filter.check-add s.blm key
          | inr other ↦ filter.check-kept s.blm key j (filtered j (ground (arith, knows j)))
        ];
        counts = rw new counts;
        knows = knows;
      }

  punique-Deduplicates :
      (key : Key) (size : ℕ) (s t : State Filter Db)
      → IsPlain key
      → IsFiltered s
      → is_known s.fpi key ≡ false
      → punique bloom store container_path key size s ≡ ok t
      → Deduplicates key s t
  unfolding punique
  punique-Deduplicates key size s t plain filtered new run =
      let (cmr, first, rest) = bind_ok (Container.insert container_path key size s.cmr) _ t run in
      let e = sym (ok_injective rest) in
      stored-Deduplicates key cmr.now_id s t plain filtered new
        (ap (λ (x : State Filter Db). x.blm) e) (ap (λ (x : State Filter Db). x.fpi) e)
        (ap (λ (x : State Filter Db). x.update_access) e)

  -- A fingerprint of the index changes neither the index nor the filter.
  kept-Deduplicates :
      (key : Key) (s t : State Filter Db)
      → IsFiltered s
      → is_known s.fpi key ≡ true
      → t.blm ≡ s.blm
      → t.fpi ≡ s.fpi
      → t.update_access ≡ s.update_access
      → Deduplicates key s t
  kept-Deduplicates key s t filtered there blm fpi counts = record {
    filtered = λ j known_j.
        ap (λ f. check f j) blm ∙ filtered j (sym (ap (λ d. is_known d j) fpi) ∙ known_j);
    counts = rw there counts;
    knows = λ j. ap (λ d. is_known d j) fpi ∙ elim (Bool-cases (key_eq key j)) [
      | inl same ↦
          let e : is_known s.fpi j ≡ true =
            ap (is_known s.fpi) (sym (eq_of_key_eq key j same)) ∙ there in
          ground arith
      | inr other ↦ ground arith
    ];
  }

  missing_key :
      (fpi : Db) (key : Key)
      → IsPlain key
      → is_known fpi key ≡ false
      → (FpIndex.find store fpi key == minus_one) ≡ true
  missing_key fpi key plain new = elim (Bool-cases (FpIndex.find store fpi key == minus_one)) [
    | inl missing ↦ missing
    | inr there ↦ ground (
      arith,
      is_found-of-find store sound fpi key (differ there),
      is_fingerprint-of-Is key (IsPlain-IsFingerprint key plain),
      new,
    )
  ]

  look_up_index-Deduplicates :
      (key : Key) (size : ℕ) (s t : State Filter Db)
      → IsCovered bloom store sound container_path s
      → IsPlain key
      → IsFiltered s
      → look_up_index bloom store container_path key size s ≡ ok t
      → Deduplicates key s t
  unfolding look_up_index
  look_up_index-Deduplicates key size s t h plain filtered run =
      let u : State Filter Db = record s { index_access = (s.index_access + 1) % u64 } in
      elim (Bool-cases (is_known s.fpi key)) [
        | inl there ↦
            let named = h.named key there in
            elim (h.indexed.points key) [
              | inl absent ↦ absurd (differ named absent)
              | inr (le, (keys, loads, inside)) ↦
                  let e = sym (ok_injective (rw (look_up_index, named, loads) at run)) in
                  let (blm, fpi, counts) = load_all-keeps keys u in
                  kept-Deduplicates key s t filtered there
                    (ap (λ (x : State Filter Db). x.blm) e ∙ blm)
                    (ap (λ (x : State Filter Db). x.fpi) e ∙ fpi)
                    (ap (λ (x : State Filter Db). x.update_access) e ∙ counts)
            ]
        | inr new ↦
            let missing : (FpIndex.find store s.fpi key == minus_one) ≡ true =
              missing_key s.fpi key plain new in
            let d =
              punique-Deduplicates key size u t plain filtered new
                (rw (look_up_index, missing) at run) in
            record { filtered = d.filtered; counts = d.counts; knows = d.knows }
      ]

  pub add_chunk-Deduplicates :
      (key : Key) (size : ℕ) (s t : State Filter Db)
      → IsCovered bloom store sound container_path s
      → IsPlain key
      → IsFiltered s
      → add_chunk bloom store container_path key size s ≡ ok t
      → Deduplicates key s t
  unfolding add_chunk
  add_chunk-Deduplicates key size s t h plain filtered run =
      let u : State Filter Db = record s { lpc = (LruCache.find key s.lpc).0 } in
      let (there, cache, keys, max) = find-refines key s.lpc h.cache in
      elim (Bool-cases (LruCache.find key s.lpc).1) [
        | inl cached ↦
            let e = sym (ok_injective (rw (add_chunk, cached) at run)) in
            let here =
              holds-passed (is_known s.fpi) (keys_of s.lpc.list) key
                (known_sized bloom store sound container_path s.fpi) plain h.cached
                (sym there ∙ cached) in
            kept-Deduplicates key s t filtered here (ap (λ (x : State Filter Db). x.blm) e)
              (ap (λ (x : State Filter Db). x.fpi) e)
              (ap (λ (x : State Filter Db). x.update_access) e)
        | inr absent ↦ elim (Bool-cases (check s.blm key)) [
          | inl maybe ↦
              let d =
                look_up_index-Deduplicates key size u t
                  (with_cache-IsCovered bloom store sound container_path s u.lpc s.index_access
                    s.loading_access h cache
                    (find-passed (is_known s.fpi) key s.lpc
                      (known_sized bloom store sound container_path s.fpi) h.cache plain h.cached))
                  plain filtered (rw (add_chunk, absent, maybe) at run) in
              record { filtered = d.filtered; counts = d.counts; knows = d.knows }
          | inr unique ↦
              let new : is_known s.fpi key ≡ false = elim (Bool-cases (is_known s.fpi key)) [
                | inl known_key ↦ known_key ∙ sym (filtered key known_key) ∙ unique
                | inr other ↦ other
              ] in
              let d =
                punique-Deduplicates key size u t plain filtered new
                  (rw (add_chunk, absent, unique) at run) in
              record { filtered = d.filtered; counts = d.counts; knows = d.knows }
        ]
      ]
