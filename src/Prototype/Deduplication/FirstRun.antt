-- ===== src/Prototype/Deduplication/FirstRun.antt =====
-- A run of prototype/ddfs.cc in an empty directory.
use freqanalysis.Common.{
  ℕ, ◌+◌, ◌^◌, ◌<◌, ◌≡◌, refl, true, false, none, some, List, [], ◌∷◌, ◌++◌, ◌==◌, ◌&&◌, Bool-cases,
  inl, inr, length, All, ok, Returns, arith,
}
use freqanalysis.Bytes.Decimal.{decimal, digits_onto}
use freqanalysis.Bytes.{Key, key_eq_refl, is_fingerprint}
use freqanalysis.LevelDb.{LevelDb, IsSound, is_found, not_found}
use freqanalysis.Prototype.BloomFilter.{Bloom, bloom_init_conf}
use freqanalysis.Prototype.Container
use freqanalysis.Prototype.Container.{Manager, Files, write_file, manifest_name, loadtonode}
use freqanalysis.Prototype.Container.Names.{key_eq-manifest}
use freqanalysis.Prototype.Deduplication.Ran.{Ran, main-Ran}
use freqanalysis.Prototype.Container.Collected.{IsRecorded}
use freqanalysis.Prototype.Deduplication.Covered.{IsCovered}
use freqanalysis.Prototype.Deduplication.Indexed.{IsPlainLine}
use freqanalysis.Prototype.Deduplication.{State, lru_size, sys_ini, main}
use freqanalysis.Prototype.FpIndex
use freqanalysis.Prototype.FpIndex.{minus_one}
use freqanalysis.Prototype.LruCache.Refined.{lrucache-IsCache}
use freqanalysis.Prototype.LruCache.{lrucache, init_conf}
use freqanalysis.Trace.Read.{read_lines}

module _ (bloom : Bloom) (store : LevelDb) (sound : IsSound store) (container_path : List ℕ) where
  open bloom use {Filter, bf, with_bf}
  open store use {Db, get}

  -- The directory has no manifest and no container, and the index has no fingerprint.
  pub record IsNew (files : Files) (fpi : Db) : Type 0 where
    pub no_manifest : files (container_path ++ manifest_name) ≡ none
    pub no_container : (id : ℕ) → files (container_path ++ decimal id) ≡ none
    pub no_fingerprint : (k : Key) → get fpi k ≡ not_found

  abbrev first_manager : Files → Manager
  first_manager files = record {
    now_id = 0;
    tmp = [];
    now_size = 0;
    files = write_file files (container_path ++ manifest_name) (b'0' ∷ b'\n' ∷ []);
  }

  abbrev pub first_state : Filter → Files → Db → State Filter Db
  first_state blm files fpi = record {
    blm = with_bf blm (bf blm);
    lpc = lrucache lru_size;
    cmr = first_manager files;
    fpi = fpi;
    index_access = 0;
    loading_access = 0;
    update_access = 0;
    printed = [];
  }

  sys_ini-first :
      (blm : Filter) (files : Files) (fpi : Db)
      → IsNew files fpi
      → sys_ini bloom store blm files container_path (some fpi) none none
        ≡ ok (first_state blm files fpi)
  unfolding sys_ini bloom_init_conf Container.init init_conf
  sys_ini-first blm files fpi new = rw (sys_ini, Container.init, new.no_manifest) refl

  first_manager-fresh :
      (files : Files) (fpi : Db) (id : ℕ)
      → IsNew files fpi
      → (first_manager files).files (container_path ++ decimal id) ≡ none
  first_manager-fresh files fpi id new =
      rw (key_eq-manifest container_path id) (new.no_container id)

  first_manager-recorded : (files : Files) → IsRecorded container_path (first_manager files)
  unfolding decimal digits_onto
  first_manager-recorded files = rw (key_eq_refl (container_path ++ manifest_name)) refl

  nothing_loaded :
      (files : Files) (fpi : Db) (id : ℕ) (keys : List Key)
      → IsNew files fpi
      → loadtonode container_path id (first_manager files) ≡ ok (some keys)
      → keys ≡ []
  unfolding loadtonode
  nothing_loaded files fpi id keys new loads = elim (Bool-cases (id == 0)) [
    | inl current ↦
        let e = rw (loadtonode, first_manager-fresh files fpi id new, current) at loads in cc
    | inr other ↦
        let e = rw (loadtonode, first_manager-fresh files fpi id new, other) at loads in cc
  ]

  no_names :
      (fpi : Db) (k : Key)
      → get fpi k ≡ not_found
      → (is_found (get fpi k) && is_fingerprint k) ≡ true
      → (FpIndex.find store fpi k == minus_one) ≡ false
  no_names fpi k missing there = let e = rw missing at there in cc

  pub first_state-IsCovered :
      (blm : Filter) (files : Files) (fpi : Db)
      → IsNew files fpi
      → IsCovered bloom store sound container_path (first_state blm files fpi)
  unfolding FpIndex.find lrucache
  first_state-IsCovered blm files fpi new = record {
    indexed = record {
      collects = record { plain = tt; fresh = λ id later. first_manager-fresh files fpi id new };
      points = λ k. inl (rw (FpIndex.find, new.no_fingerprint k) refl);
    };
    cache = lrucache-IsCache lru_size (omega arith);
    cached = tt;
    contained = λ id keys le loads. rw (nothing_loaded files fpi id keys new loads) tt;
    recorded = first_manager-recorded files;
    named = λ k there. no_names fpi k (new.no_fingerprint k) there;
  }

  pub main-Ran-first :
      (blm : Filter) (files : Files) (fpi : Db) (text : List ℕ)
      → IsNew files fpi
      → All IsPlainLine (read_lines text)
      → length (read_lines text) + 1 < 2 ^ 31
      → Returns
          (main bloom store blm files container_path (some fpi) none none (some text))
          (Ran bloom store sound container_path (read_lines text) (first_state blm files fpi))
  main-Ran-first blm files fpi text new plain few =
      main-Ran bloom store sound container_path blm files (some fpi) none none text
        (first_state blm files fpi) (sys_ini-first blm files fpi new) refl
        (first_state-IsCovered blm files fpi new) plain (omega (arith, few))
