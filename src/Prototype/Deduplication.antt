-- ===== src/Prototype/Deduplication.antt =====
-- prototype/ddfs.cc: a chunk is looked for in the cache, the Bloom filter and the index; a duplicate
-- loads its container into the cache, and a unique chunk goes into a container.
pub mod Points
pub mod Indexed
pub mod Covered
pub mod Covering
pub mod Chunks
pub mod Complete
pub mod Ran
pub mod FirstRun
pub mod Resumed
pub mod Unique
pub mod Once
use freqanalysis.Common.{
  ℕ, ◌+◌, ◌%◌, Option, none, some, List, [], ◌∷◌, ◌++◌, ◌==◌, if◌then◌else◌, Run, ok, stop, exit_1,
  assertion, undefined, ◌>>=◌,
}
use freqanalysis.Bytes.Decimal.{decimal}
use freqanalysis.Bytes.{Key, u64}
use freqanalysis.LevelDb.{LevelDb}
use freqanalysis.Prototype.BloomFilter.{Bloom, bloom_init_conf, bloom_conf_out}
use freqanalysis.Prototype.Container
use freqanalysis.Prototype.Container.{Manager, Files, pocessw, loadtonode}
use freqanalysis.Prototype.FpIndex
use freqanalysis.Prototype.FpIndex.{minus_one, is_failure}
use freqanalysis.Prototype.LruCache
use freqanalysis.Prototype.LruCache.{Cache, lrucache, putdata, init_conf, output_conf}
use freqanalysis.Trace.Read.{Line, skipped, chunk, read_lines}
use freqanalysis.Trace.Text.{atoi, codes}

-- `LRU_SIZE`
abbrev pub lru_size : ℕ
lru_size = 838_608

-- The globals, and what was printed.
pub record State (Filter Db : Type 0) : Type 0 where
  pub blm : Filter
  pub lpc : Cache
  pub cmr : Manager
  pub fpi : Db
  pub index_access : ℕ
  pub loading_access : ℕ
  pub update_access : ℕ
  pub printed : List ℕ

-- How the program ends: its status, what it printed, and the files in `./conf`.
pub record Outcome (Filter Db : Type 0) : Type 0 where
  pub status : ℕ
  pub output : List ℕ
  pub final : State Filter Db
  pub bloom_conf : Option (List ℕ)
  pub lru_conf : Option (List ℕ)

module _ (bloom : Bloom) (store : LevelDb) where
  open bloom use {Filter, check, add, bf, with_bf}
  open store use {Db}

  -- `sys_ini`, with the index that LevelDB opens and the files in `./conf`; `BLM` is the filter that
  -- `bloom_init` makes.
  unfoldable pub sys_ini :
      Filter
      → Files
      → List ℕ
      → Option Db
      → Option (List ℕ)
      → Option (List ℕ)
      → Run (State Filter Db)
  sys_ini blm files path none bloom_conf lru_conf = stop assertion
  sys_ini blm files path (some fpi) bloom_conf lru_conf = do
    bytes ← bloom_init_conf (bf blm) bloom_conf
    cmr ← Container.init files path
    lpc ← init_conf lru_conf (lrucache lru_size)
    ok (record {
      blm = with_bf blm bytes.0;
      lpc = lpc.0;
      cmr = cmr.0;
      fpi = fpi;
      index_access = 0;
      loading_access = 0;
      update_access = 0;
      printed = [];
    })

  -- `punique`: the chunk goes into the filter, a container and the index, with the number that is
  -- current after the insertion. A failed `insert` into the index is only reported.
  unfoldable pub punique : List ℕ → Key → ℕ → State Filter Db → Run (State Filter Db)
  punique container_path key chunk_size s = do
    cmr ← Container.insert container_path key chunk_size s.cmr
    ok (record s {
      blm = add s.blm key;
      cmr = cmr;
      fpi = (FpIndex.insert store s.fpi key cmr.now_id).0;
      update_access = (s.update_access + 1) % u64;
      printed =
          if is_failure (FpIndex.insert store s.fpi key cmr.now_id).1
          then s.printed ++ codes "error" ++ (b'\n' ∷ [])
          else s.printed;
    })

  -- The loop over the fingerprints of a container.
  unfoldable pub load_all : List Key → State Filter Db → State Filter Db
  load_all [] s = s
  load_all (it ∷ conti) s =
      load_all conti
        (record s { loading_access = (s.loading_access + 1) % u64; lpc = (putdata it s.lpc).0 })

  -- A chunk that the filter may hold: the index decides.
  unfoldable pub look_up_index : List ℕ → Key → ℕ → State Filter Db → Run (State Filter Db)
  unfolding punique load_all
  look_up_index container_path hash chunk_size s =
      let fpid = FpIndex.find store s.fpi hash in
      let t : State Filter Db = record s { index_access = (s.index_access + 1) % u64 } in
      let load : Run (State Filter Db) = loadtonode container_path fpid s.cmr >>= λ conti.
      elim conti [ none ↦ stop exit_1 | some keys ↦ ok (load_all keys t) ] in
      if fpid == minus_one then punique container_path hash chunk_size t else load

  unfoldable pub add_chunk : List ℕ → Key → ℕ → State Filter Db → Run (State Filter Db)
  unfolding look_up_index punique
  add_chunk container_path hash chunk_size s =
      let (lpc, cached) = LruCache.find hash s.lpc in
      let t : State Filter Db = record s { lpc = lpc } in
      if cached
      then ok t
      else if check s.blm hash
      then look_up_index container_path hash chunk_size t
      else punique container_path hash chunk_size t

  -- `atoi` of a null pointer is undefined.
  unfoldable pub read_lines_into : List ℕ → List Line → State Filter Db → Run (State Filter Db)
  unfolding add_chunk
  read_lines_into container_path [] s = ok s
  read_lines_into container_path (skipped ∷ lines) s = read_lines_into container_path lines s
  read_lines_into container_path (chunk hash none ∷ lines) s = stop undefined
  read_lines_into container_path (chunk hash (some item) ∷ lines) s =
      add_chunk container_path hash (atoi item) s >>= read_lines_into container_path lines

  -- `read_hashes`: at the end the container in memory is written.
  unfoldable pub read_hashes : List ℕ → List Line → State Filter Db → Run (State Filter Db)
  unfolding read_lines_into
  read_hashes container_path lines s = do
    t ← read_lines_into container_path lines s
    r ← pocessw container_path t.cmr
    ok (record t { cmr = r.0 })

  -- The `printf` lines of `main`.
  abbrev pub print_counters : State Filter Db → List ℕ
  print_counters s =
      codes "Index access: "
      ++ decimal s.index_access
      ++ (b'\n' ∷ [])
      ++ codes "Update access: "
      ++ decimal s.update_access
      ++ (b'\n' ∷ [])
      ++ codes "Loading access: "
      ++ decimal s.loading_access
      ++ (b'\n' ∷ [])

  -- The end of `main`: the filter and the cache are saved.
  unfoldable pub finished : State Filter Db → Outcome Filter Db
  unfolding bloom_conf_out output_conf
  finished t = record {
    status = 0;
    output = t.printed ++ print_counters t;
    final = t;
    bloom_conf = some (bloom_conf_out (bf t.blm));
    lru_conf = some (output_conf t.lpc.list);
  }

  -- `main`, with the text of the hash file if it opens. The index is opened and the directory of
  -- containers prepared before that.
  unfoldable pub main :
      Filter
      → Files
      → List ℕ
      → Option Db
      → Option (List ℕ)
      → Option (List ℕ)
      → Option (List ℕ)
      → Run (Outcome Filter Db)
  unfolding sys_ini read_hashes finished
  main blm files container_path fpi bloom_conf lru_conf hash_file = do
    s ← sys_ini blm files container_path fpi bloom_conf lru_conf
    elim hash_file [
      | none ↦ ok (record {
        status = 1;
        output = codes "OPen hash file failed!!!!" ++ (b'\n' ∷ []);
        final = s;
        bloom_conf = bloom_conf;
        lru_conf = lru_conf;
      })
      | some text ↦ read_hashes container_path (read_lines text) s >>= λ t. ok (finished t)
    ]
