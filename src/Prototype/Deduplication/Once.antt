-- ===== src/Prototype/Deduplication/Once.antt =====
-- The counter of index updates of prototype/ddfs.cc is the number of unique chunks.
use freqanalysis.Common.{
  ℕ, ◌+◌, ◌%◌, ◌^◌, ◌<◌, ◌≤◌, ◌≡◌, refl, sym, ap, ◌∙◌, Bool, true, false, ◌||◌, none, some, List,
  [], ◌∷◌, length, All, ok, ok_injective, bind_ok, ◌>>=◌, Returns, Bool-cases, inl, inr,
  if◌then◌else◌, arith,
}
use freqanalysis.Bytes.{Key, key_eq, u64}
use freqanalysis.LevelDb.{LevelDb, IsSound}
use freqanalysis.Prototype.BloomFilter.{Bloom}
use freqanalysis.Prototype.Container.{Files, pocessw}
use freqanalysis.Prototype.Deduplication.Chunks.{add_chunk-Covers}
use freqanalysis.Prototype.Deduplication.Covered.{IsCovered}
use freqanalysis.Prototype.Deduplication.FirstRun.{
  IsNew, first_state, first_state-IsCovered, main-Ran-first,
}
use freqanalysis.Prototype.Deduplication.Indexed.{IsPlainLine}
use freqanalysis.Prototype.Deduplication.Unique.{
  IsBloom, is_known, IsFiltered, add_chunk-Deduplicates,
}
use freqanalysis.Prototype.Deduplication.{State, read_lines_into, read_hashes, main, print_counters}
use freqanalysis.Trace.Read.{Line, skipped, chunk, read_lines}
use freqanalysis.Trace.Text.{atoi}

-- The number of fingerprints that stand in no earlier line and were not seen before.
abbrev pub uniques : (Key → Bool) → List Line → ℕ
uniques seen [] = 0
uniques seen (skipped ∷ lines) = uniques seen lines
uniques seen (chunk hash item ∷ lines) =
    let later = uniques (λ j. seen j || key_eq hash j) lines in
    if seen hash then later else later + 1

module _ (bloom : Bloom) (filter : IsBloom bloom) (store : LevelDb) (sound : IsSound store)
    (container_path : List ℕ) where
  open bloom use {Filter}
  open store use {Db}

  read_lines_into-counts :
      (lines : List Line) (s t : State Filter Db) (seen : Key → Bool)
      → IsCovered bloom store sound container_path s
      → IsFiltered bloom filter store sound container_path s
      → ((j : Key) → seen j ≡ is_known bloom filter store sound container_path s.fpi j)
      → All IsPlainLine lines
      → s.cmr.now_id + length lines < 2 ^ 31
      → s.update_access + length lines < u64
      → read_lines_into bloom store container_path lines s ≡ ok t
      → t.update_access ≡ s.update_access + uniques seen lines
  unfolding read_lines_into
  read_lines_into-counts [] s t seen h filtered same plain small few run =
      omega (arith, ap (λ (x : State Filter Db). x.update_access) (ok_injective run))
  read_lines_into-counts (skipped ∷ lines) s t seen h filtered same plain small few run =
      read_lines_into-counts lines s t seen h filtered same plain.1 (omega arith) (omega arith) run
  read_lines_into-counts (chunk hash none ∷ lines) s t seen h filtered same plain small few run =
      absurd plain.0
  read_lines_into-counts (chunk hash (some item) ∷ lines) s t seen h filtered same plain small few
        run =
      let (a, first, c) =
        add_chunk-Covers bloom store sound container_path hash (atoi item) s h plain.0
          (omega arith) in
      let d =
        add_chunk-Deduplicates bloom filter store sound container_path hash (atoi item) s a h
          plain.0 filtered first in
      let counts : a.update_access
          ≡ (if seen hash then s.update_access else (s.update_access + 1) % u64) =
        d.counts
        ∙ ap (λ b. if b then s.update_access else (s.update_access + 1) % u64) (sym (same hash)) in
      let le : a.update_access ≤ s.update_access + 1 = ground (arith, counts, few) in
      let rest =
        read_lines_into-counts lines a t (λ j. seen j || key_eq hash j) c.covered d.filtered
          (λ j. ap (λ b. b || key_eq hash j) (same j) ∙ sym (d.knows j)) plain.1
          (omega (arith, c.number-le)) (omega (arith, le)) (rw (first, ◌>>=◌) at run) in
      elim (Bool-cases (seen hash)) [
        | inl old ↦ rw old (omega (arith, rest, (rw old at counts)))
        | inr new ↦ rw new (omega (arith, rest, few, (rw new at counts)))
      ]

  read_hashes-counts :
      (lines : List Line) (s t : State Filter Db) (seen : Key → Bool)
      → IsCovered bloom store sound container_path s
      → IsFiltered bloom filter store sound container_path s
      → ((j : Key) → seen j ≡ is_known bloom filter store sound container_path s.fpi j)
      → All IsPlainLine lines
      → s.cmr.now_id + length lines < 2 ^ 31
      → s.update_access + length lines < u64
      → read_hashes bloom store container_path lines s ≡ ok t
      → t.update_access ≡ s.update_access + uniques seen lines
  unfolding read_hashes
  read_hashes-counts lines s t seen h filtered same plain small few run =
      let (a, read, rest) = bind_ok (read_lines_into bloom store container_path lines s) _ t run in
      let (m, flush, last) = bind_ok (pocessw container_path a.cmr) _ t rest in
      sym (ap (λ (x : State Filter Db). x.update_access) (ok_injective last))
      ∙ read_lines_into-counts lines s a seen h filtered same plain small few read

  -- In a directory without a manifest and containers, with an empty index on a store without
  -- errors, a Bloom filter without false negatives and no saved filter or cache, on a trace whose
  -- chunks, fewer than 2 ^ 31 - 1, carry a size and a fingerprint without zero bytes, the prototype
  -- ends normally, and the number of index updates, which it prints as the second of its three
  -- counters, is the number of different fingerprints in the trace.
  pub main-counts_unique :
      (blm : Filter) (files : Files) (fpi : Db) (text : List ℕ)
      → IsNew bloom store sound container_path files fpi
      → All IsPlainLine (read_lines text)
      → length (read_lines text) + 1 < 2 ^ 31
      → Returns (main bloom store blm files container_path (some fpi) none none (some text)) (λ r.
        (r.output ≡ print_counters bloom store r.final)
        × (r.final.update_access ≡ uniques (λ k. false) (read_lines text)))
  main-counts_unique blm files fpi text new plain few =
      let s = first_state bloom store sound container_path blm files fpi in
      let nothing : (j : Key) → is_known bloom filter store sound container_path fpi j ≡ false =
        λ j. rw (new.no_fingerprint j) refl in
      let seen_none : IsFiltered bloom filter store sound container_path s =
        λ k there. let e : false ≡ true = sym (nothing k) ∙ there in cc e in
      let (r, run, ran) =
        main-Ran-first bloom store sound container_path blm files fpi text new plain few in
      (
        r,
        run,
        (
          ran.prints,
          omega (
            arith,
            read_hashes-counts (read_lines text) s r.final (λ k. false)
                (first_state-IsCovered bloom store sound container_path blm files fpi new) seen_none
                (λ j. sym (nothing j)) plain (omega (arith, few)) (omega (arith, few)) ran.reads,
          ),
        ),
      )
