-- ===== src/Prototype/Deduplication/Ran.antt =====
-- `main` of prototype/ddfs.cc, from what `sys_ini` makes.
use freqanalysis.Common.{
  ℕ, ◌+◌, ◌^◌, ◌<◌, ◌≡◌, refl, ap, ◌∙◌, ◌++◌, some, Option, List, [], length, All, ok, ◌>>=◌,
  Returns,
}
use freqanalysis.LevelDb.{LevelDb, IsSound}
use freqanalysis.Prototype.BloomFilter.{Bloom, bloom_conf_out}
use freqanalysis.Prototype.Container.{Files}
use freqanalysis.Prototype.Deduplication.Complete.{Finishes, read_hashes-Finishes}
use freqanalysis.Prototype.Deduplication.Covered.{IsCovered}
use freqanalysis.Prototype.Deduplication.Indexed.{IsPlainLine}
use freqanalysis.Prototype.Deduplication.{
  State, Outcome, sys_ini, read_hashes, main, finished, print_counters,
}
use freqanalysis.Prototype.LruCache.{output_conf}
use freqanalysis.Trace.Read.{Line, read_lines}

module _ (bloom : Bloom) (store : LevelDb) (sound : IsSound store) (container_path : List ℕ) where
  open bloom use {Filter, bf}
  open store use {Db}

  -- The program ends normally, prints its counters and saves the filter and the cache.
  pub record Ran (lines : List Line) (s : State Filter Db) (r : Outcome Filter Db) : Type 0 where
    pub succeeds : r.status ≡ 0
    pub prints : r.output ≡ print_counters bloom store r.final
    pub reads : read_hashes bloom store container_path lines s ≡ ok r.final
    pub finishes : Finishes bloom store sound container_path lines s r.final
    pub saves_filter : r.bloom_conf ≡ some (bloom_conf_out (bf r.final.blm))
    pub saves_cache : r.lru_conf ≡ some (output_conf r.final.lpc.list)

  pub main-Ran :
      (blm : Filter) (files : Files) (fpi : Option Db) (bloom_conf lru_conf : Option (List ℕ))
      (text : List ℕ) (s : State Filter Db)
      → sys_ini bloom store blm files container_path fpi bloom_conf lru_conf ≡ ok s
      → s.printed ≡ []
      → IsCovered bloom store sound container_path s
      → All IsPlainLine (read_lines text)
      → s.cmr.now_id + length (read_lines text) + 1 < 2 ^ 31
      → Returns
          (main bloom store blm files container_path fpi bloom_conf lru_conf (some text))
          (Ran (read_lines text) s)
  unfolding main finished
  main-Ran blm files fpi bloom_conf lru_conf text s init quiet h plain few =
      let (t, run, f) =
        read_hashes-Finishes bloom store sound container_path (read_lines text) s h plain few in
      (
        finished bloom store t,
        rw (main, init, ◌>>=◌, run) refl,
        record {
          succeeds = refl;
          prints = ap (λ p. p ++ print_counters bloom store t) (f.quiet ∙ quiet);
          reads = run;
          finishes = f;
          saves_filter = refl;
          saves_cache = refl;
        },
      )
