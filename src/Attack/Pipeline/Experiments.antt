-- ===== src/Attack/Pipeline/Experiments.antt =====
-- The experiments of the repository: a defense, the count of its output and of an auxiliary trace,
-- and the attack.
use freqanalysis.Common.{
  ◌^◌, ℕ, ◌+◌, ◌*◌, ◌<◌, ◌≤◌, ◌≡◌, ◌≢◌, refl, some, List, [], ◌∷◌, ◌++◌, length, All, ok, arith,
}
use freqanalysis.Attack.Inference.{Limits}
use freqanalysis.Attack.LocalityAttack.{Leakage}
use freqanalysis.Attack.LocalityCount.Adjacent.{HasFewNeighbours}
use freqanalysis.Attack.LocalityCount.Counts.{IsEmpty}
use freqanalysis.Attack.Neighbours.{record_size}
use freqanalysis.Attack.Pipeline.Attacked.{trace_keys}
use freqanalysis.Attack.Pipeline.CipherTrace.{encrypted-IsCipherTrace}
use freqanalysis.Attack.Pipeline.Encrypted.{Experiment, attacks_cipher_trace}
use freqanalysis.Attack.Pipeline.Truth.{IsDigest}
use freqanalysis.Attack.Ranking.{Node, OnTop}
use freqanalysis.Bytes.{u64}
use freqanalysis.Defense.Combined
use freqanalysis.Defense.Combined.Encryption.{main-scrambles-IsEncrypted}
use freqanalysis.Defense.Hashing.Core.{IsSingleQueue}
use freqanalysis.Defense.Hashing.Progress.{Fits, all_ciphers}
use freqanalysis.Defense.MinHash
use freqanalysis.Defense.MinHash.Encryption.{main-encrypts}
use freqanalysis.Defense.Printed.{read_lines-IsPrintable}
use freqanalysis.Defense.Segment.{Chunk, HasSize, IsSmall, chunks_of, print_chunks, title_line}
use freqanalysis.LevelDb.{LevelDb, IsSound, IsListed}
use freqanalysis.PriorityQueue.{Extract, IsPriorityQueue}
use freqanalysis.Trace.Read.{read_lines}

All-IsSmall : (cs : List Chunk) → All Fits cs → All IsSmall cs
All-IsSmall [] h = tt
All-IsSmall (c ∷ cs) h = (omega (arith, h.0), All-IsSmall cs h.1)

module _ (store : LevelDb) (sound : IsSound store) (listed : IsListed store) (empty : store.Db)
    (none : IsEmpty store sound empty) (behind : List ℕ) {extract : Extract Node}
    (queue : IsPriorityQueue OnTop extract) (rand : ℕ → ℕ) (limits : Limits) (md5 : List ℕ → List ℕ)
    (digest : IsDigest md5) (draw : ℕ → ℕ) (pop : Extract Chunk) (single : IsSingleQueue pop)
    (leakage : Leakage) (uniq : store.Db) (file_o file_t : List ℕ) (fuel : ℕ) where
  open store use {Db}

  -- From an auxiliary trace and a target trace (the auxiliary one of fewer than 2 ^ 64 chunks and
  -- in which no fingerprint has more than 153391689 different neighbours before or behind it; the
  -- target of at most 153391689 chunks, at least one, with sizes up to `SEG_MAX`, and with no line
  -- without a size), with `INIT` and `TH_K` above 0, fuel for the chunks, a store without errors
  -- whose iterator visits each key once, empty stores, and a digest of sixteen bytes, MinHash
  -- encryption of the target trace, `locality_count`, where the bytes behind its arrays can be
  -- read, of both the auxiliary trace and the text that was printed, and the attack with the ground
  -- truth all end normally, one after the other: the attack prints the number of the ciphertexts in
  -- the store, `common` and `leak`, at most the number of chunks of the target and in falling
  -- order, and its answers, with their number plus `common` less `leak`, modulo 2 ^ 64, and each
  -- answer is a plaintext that the ground truth gives for a ciphertext of the printed trace.
  pub main-attacks_minhash :
      All HasSize (read_lines file_t)
      → All Fits (chunks_of (read_lines file_t))
      → chunks_of (read_lines file_t) ≢ []
      → length (trace_keys file_o) < u64
      → HasFewNeighbours (trace_keys file_o)
      → record_size * length (chunks_of (read_lines file_t)) < 2 ^ 31
      → 0 < limits.th_k
      → 0 < limits.init
      → length (trace_keys file_o) + 2 * length (chunks_of (read_lines file_t)) + limits.init ≤ fuel
      → (out : List ℕ) × (truth : Db) × (MinHash.main store md5 draw pop 2
            (some file_t)
            (some empty)
          ≡ ok (out, truth))
        × Experiment store sound listed empty none behind queue rand limits leakage uniq file_o out
            truth fuel
            (length (chunks_of (read_lines file_t)))
  main-attacks_minhash sized fit some_chunk few_o names_o few_t pos some_init enough =
      let cs = chunks_of (read_lines file_t) in
      let (gs, truth, run, read, encrypted, records) =
        main-encrypts store sound md5 draw pop single 2 file_t empty (omega arith) sized fit
          some_chunk in
      let out = title_line ++ print_chunks (all_ciphers md5 gs) in
      let c =
        encrypted-IsCipherTrace (λ xs ys e w. rw e refl) store md5 empty truth gs cs digest none
          records encrypted read (read_lines-IsPrintable file_t (All-IsSmall cs fit)) in
      (
        out,
        truth,
        run,
        attacks_cipher_trace store sound listed empty none behind queue rand limits leakage uniq
            file_o out truth fuel (length cs) c few_o names_o few_t pos some_init enough,
      )

  -- From an auxiliary trace and a target trace (the auxiliary one of fewer than 2 ^ 64 chunks and
  -- in which no fingerprint has more than 153391689 different neighbours before or behind it; the
  -- target of at most 153391689 chunks, at least one, with sizes up to `SEG_MAX`, and with no line
  -- without a size), with `INIT` and `TH_K` above 0, fuel for the chunks, a store without errors
  -- whose iterator visits each key once, empty stores, and a digest of sixteen bytes, the combined
  -- scheme of the target trace, `locality_count`, where the bytes behind its arrays can be read, of
  -- both the auxiliary trace and the text that was printed, and the attack with the ground truth
  -- all end normally, one after the other: the attack prints the number of the ciphertexts in the
  -- store, `common` and `leak`, at most the number of chunks of the target and in falling order,
  -- and its answers, with their number plus `common` less `leak`, modulo 2 ^ 64, and each answer is
  -- a plaintext that the ground truth gives for a ciphertext of the printed trace.
  pub main-attacks_combined :
      All HasSize (read_lines file_t)
      → All Fits (chunks_of (read_lines file_t))
      → chunks_of (read_lines file_t) ≢ []
      → length (trace_keys file_o) < u64
      → HasFewNeighbours (trace_keys file_o)
      → record_size * length (chunks_of (read_lines file_t)) < 2 ^ 31
      → 0 < limits.th_k
      → 0 < limits.init
      → length (trace_keys file_o) + 2 * length (chunks_of (read_lines file_t)) + limits.init ≤ fuel
      → (out : List ℕ) × (truth : Db) × (Combined.main store md5 draw pop 2
            (some file_t)
            (some empty)
          ≡ ok (out, truth))
        × Experiment store sound listed empty none behind queue rand limits leakage uniq file_o out
            truth fuel
            (length (chunks_of (read_lines file_t)))
  main-attacks_combined sized fit some_chunk few_o names_o few_t pos some_init enough =
      let cs = chunks_of (read_lines file_t) in
      let (gs, truth, run, read, encrypted, records) =
        main-scrambles-IsEncrypted store sound md5 draw pop single 2 file_t empty (omega arith)
          sized fit some_chunk in
      let out = title_line ++ print_chunks (all_ciphers md5 gs) in
      let c =
        encrypted-IsCipherTrace (λ xs ys e. e) store md5 empty truth gs cs digest none records
          encrypted read (read_lines-IsPrintable file_t (All-IsSmall cs fit)) in
      (
        out,
        truth,
        run,
        attacks_cipher_trace store sound listed empty none behind queue rand limits leakage uniq
            file_o out truth fuel (length cs) c few_o names_o few_t pos some_init enough,
      )
