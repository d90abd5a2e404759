-- ===== src/Attack/BasicAttack/Inferred.antt =====
-- The whole basic attack, from two frequency stores to what it prints.
use freqanalysis.Common.{
  ℕ, ◌≤◌, ◌≡◌, refl, sym, ◌∙◌, min, some, List, [], ◌∷◌, length, length-eq-total, SameItems, ok,
  ◌>>=◌, arith,
}
use freqanalysis.Attack.BasicAttack.Bounded.{IsConsistent, read_dbs-SameItems}
use freqanalysis.Attack.BasicAttack.Ranked.{Analysed, fre_analysis-Analysed}
use freqanalysis.Attack.BasicAttack.{OnTop, max_lenth, main}
use freqanalysis.Attack.LocalityAttack.{print_from_back}
use freqanalysis.Attack.Ranking.{Node, entry_nodes}
use freqanalysis.Bytes.{Key}
use freqanalysis.LevelDb.{LevelDb}
use freqanalysis.PriorityQueue.{Extract, IsPriorityQueue}

length-entry_nodes : (es : List (Key × List ℕ)) → length (entry_nodes es) ≡ length es
unfolding entry_nodes
length-entry_nodes [] = refl
length-entry_nodes ((k, v) ∷ es) = omega (arith, length-entry_nodes es)

same_length : (xs ys : List Node) → SameItems xs ys → length xs ≡ length ys
same_length xs ys h = length-eq-total xs ∙ h (λ _. 1) ∙ sym (length-eq-total ys)

module _ {extract : Extract Node} (queue : IsPriorityQueue OnTop extract) (store : LevelDb) where
  open store use {Db, entries}

  -- On two stores of at most `Max_lenth` chunks, whose `Get` returns what their iterators show,
  -- `basic_attack` ends normally: it ranks the chunks of both stores by falling frequency, as many
  -- as the smaller store has, its answers are the chunks whose fingerprints agree at the same rank,
  -- and it prints the number of chunks of the target store, the number of answers, and the answers.
  pub main-infers :
      (training_db target_db : Db)
      → IsConsistent store training_db (entries training_db)
      → IsConsistent store target_db (entries target_db)
      → length (entries training_db) ≤ max_lenth
      → length (entries target_db) ≤ max_lenth
      → (training target answers : List Node) × (main extract store
            (some training_db)
            (some target_db)
          ≡ ok (length (entries target_db), length answers, print_from_back answers))
        × SameItems training (entry_nodes (entries training_db))
        × SameItems target (entry_nodes (entries target_db))
        × Analysed
            (min (length (entries training_db)) (length (entries target_db)))
            training
            target
            answers
  unfolding main
  main-infers training_db target_db sound_o sound_t few_o few_t =
      let (training, run_o, items_o) =
        read_dbs-SameItems queue store training_db max_lenth sound_o few_o in
      let (target, run_t, items_t) =
        read_dbs-SameItems queue store target_db max_lenth sound_t few_t in
      let (r, run, (a, correct)) = fre_analysis-Analysed queue training target in
      let size_o = same_length training _ items_o ∙ length-entry_nodes (entries training_db) in
      let size_t = same_length target _ items_t ∙ length-entry_nodes (entries target_db) in
      (
        training,
        target,
        r.0,
        rw (run_o, ◌>>=◌, run_t, run, size_t, correct) refl,
        items_o,
        items_t,
        rw (size_o, size_t) at a,
      )
