-- ===== src/Attack/GroundTruthAttack/Counted.antt =====
-- The whole attack on MinHash encryption: it ends, and what it prints are its answers.
use mathlib.Core.Path.{subst}
use freqanalysis.Common.{
  ℕ, ◌+◌, ◌-◌, ◌%◌, ◌≤◌, ◌<◌, ◌≡◌, refl, sym, ap, ◌∙◌, some, All, All-append, List, [], ◌∷◌, ◌++◌,
  length, length-append, if◌then◌else◌, Run, ok, ok_injective, ◌⊎◌, ◌>>=◌, Returns, Bool-cases, inl,
  inr, arith,
}
use freqanalysis.Attack.GroundTruthAttack.Leaked.{IsKnown, stat_db-AreTrue, first_bytes-key}
use freqanalysis.Attack.GroundTruthAttack.{judge, main}
use freqanalysis.Attack.Inference.Answers.{main_loop-keeps}
use freqanalysis.Attack.Inference.Ends.{main_loop-Ends}
use freqanalysis.Attack.Inference.Loop.{AreNeighbours, IsJudge}
use freqanalysis.Attack.Inference.Universe.{IsTallied}
use freqanalysis.Attack.Inference.{Limits, Stores, State}
use freqanalysis.Attack.LocalityAttack.{Leakage, inferences, print_from_back}
use freqanalysis.Attack.Ranking.{Node, OnTop}
use freqanalysis.Bytes.{Key, key_eq, eq_of_key_eq, u64, fp_size}
use freqanalysis.LevelDb.{LevelDb, IsSound, found, not_found}
use freqanalysis.PriorityQueue.{Extract, IsPriorityQueue}

abbrev printed : ℕ → ℕ → ℕ → ℕ → List ℕ → Run (ℕ × ℕ × ℕ × ℕ × List ℕ)
printed m a b n text = ok (m, a, b, n, text)

same_output :
    {m m' a a' b b' n n' : ℕ} (text : List ℕ)
    → m ≡ m'
    → a ≡ a'
    → b ≡ b'
    → n ≡ n'
    → printed m a b n text ≡ printed m' a' b' n' text
same_output text d e f g = rw (d, e, f, g) refl

module _ (store : LevelDb) (sound : IsSound store) (relate : store.Db) where
  open store use {Db, get, entries}

  -- A ground truth as the defenses leave it: fingerprints under fingerprints.
  abbrev pub IsTruth : Type 0
  IsTruth =
      (k : Key)
      → (get relate k ≡ not_found)
        ⊎ (plain : Key) × (get relate k ≡ found plain) × (length plain ≡ fp_size)

  module _ (truth : IsTruth) where
    judge-found :
        (s : State Db) (o t : Node) (plain : Key)
        → get relate t.key ≡ found plain
        → length plain ≡ fp_size
        → judge store relate s o t ≡ (
            if key_eq o.key plain
            then ok (record s {
              ansq = s.ansq ++ (o ∷ []);
              ansq2 = s.ansq2 ++ (t ∷ []);
              correct = s.correct + 1;
            })
            else ok s)
    unfolding judge
    judge-found s o t plain there size = rw (judge, there, first_bytes-key plain size, ◌>>=◌) refl

    judge-missing :
        (s : State Db) (o t : Node) → get relate t.key ≡ not_found → judge store relate s o t ≡ ok s
    unfolding judge
    judge-missing s o t missing = rw (judge, missing) refl

    -- What the test of the fronts does to the state.
    record Judged (s s' : State Db) : Type 0 where
      front_o : s'.q_o ≡ s.q_o
      front_t : s'.q_t ≡ s.q_t
      uniq : s'.uniq ≡ s.uniq
      involve : s'.involve ≡ s.involve
      tally : IsTallied s → IsTallied s' × (s'.common ≡ s.common) × (s'.leak ≡ s.leak)

    same : (s : State Db) → Judged s s
    same s = record {
      front_o = refl;
      front_t = refl;
      uniq = refl;
      involve = refl;
      tally = λ h. (h, refl, refl);
    }

    judge-Judged : (s : State Db) (o t : Node) → Returns (judge store relate s o t) (Judged s)
    judge-Judged s o t = elim (truth t.key) [
      | inl missing ↦ (s, judge-missing s o t missing, same s)
      | inr (plain, there, size) ↦ elim (Bool-cases (key_eq o.key plain)) [
        | inl match ↦ (
          record s {
            ansq = s.ansq ++ (o ∷ []);
            ansq2 = s.ansq2 ++ (t ∷ []);
            correct = s.correct + 1;
          },
          rw (judge-found s o t plain there size, match) refl,
          record {
            front_o = refl;
            front_t = refl;
            uniq = refl;
            involve = refl;
            tally = λ h. (omega (arith, h, length-append s.ansq (o ∷ [])), refl, refl);
          },
        )
        | inr other ↦ (s, rw (judge-found s o t plain there size, other) refl, same s)
      ]
    ]

    judge_truth-IsJudge : IsJudge (judge store relate)
    judge_truth-IsJudge = record {
      judges = λ s o t.
          let (s', run, j) = judge-Judged s o t in
          (s', run, (j.front_o, j.front_t, j.uniq, j.involve));
      tallies = λ s s' o t run h.
          let (r, run', j) = judge-Judged s o t in
          subst (λ r. IsTallied r × (r.common ≡ s.common) × (r.leak ≡ s.leak))
            (ok_injective (sym run' ∙ run)) (j.tally h);
    }

    -- A plaintext that the ground truth gives for a ciphertext.
    abbrev pub IsAnswer : Node → Type 0
    IsAnswer o = (cipher : Key) × (get relate cipher ≡ found o.key)

    judge-answers :
        (s s' : State Db) (o t : Node)
        → judge store relate s o t ≡ ok s'
        → All IsAnswer s.ansq
        → All IsAnswer s'.ansq
    judge-answers s s' o t run h = elim (truth t.key) [
      | inl missing ↦
          subst (λ r. All IsAnswer r.ansq) (ok_injective (sym (judge-missing s o t missing) ∙ run))
            h
      | inr (plain, there, size) ↦ elim (Bool-cases (key_eq o.key plain)) [
        | inl match ↦
            let same : plain ≡ o.key = sym (eq_of_key_eq o.key plain match) in
            let next : State Db = record s {
              ansq = s.ansq ++ (o ∷ []);
              ansq2 = s.ansq2 ++ (t ∷ []);
              correct = s.correct + 1;
            } in
            let judged : judge store relate s o t ≡ ok next =
              judge-found s o t plain there size ∙ rw match refl in
            subst (λ (r : State Db). All IsAnswer r.ansq) (ok_injective (sym judged ∙ run))
              (All-append IsAnswer s.ansq (o ∷ []) h ((t.key, there ∙ ap found same), tt))
        | inr other ↦
            let judged : judge store relate s o t ≡ ok s =
              judge-found s o t plain there size ∙ rw other refl in
            subst (λ (r : State Db). All IsAnswer r.ansq) (ok_injective (sym judged ∙ run)) h
      ]
    ]

    module _ {extract : Extract Node} (queue : IsPriorityQueue OnTop extract) (rand : ℕ → ℕ)
        (universe : List Key) (limits : Limits) (stores : Stores Db)
        (ns : AreNeighbours store universe stores) where
      -- With a ground truth of fingerprints that gives the plaintext of every ciphertext of the
      -- target store, neighbour stores as `locality_count` leaves them, `INIT` and `TH_K` above 0,
      -- fewer than 2 ^ 64 ciphertexts, and fuel for the universe, `INIT` and the ciphertexts, the
      -- attack on MinHash encryption ends normally and prints the number of the ciphertexts, two
      -- numbers `common` and `leak`, at most that of the ciphertexts and in falling order, its
      -- answers, and their number plus `common` less `leak`, modulo 2 ^ 64; each answer is a
      -- plaintext that the ground truth gives for a ciphertext.
      pub main-ends_truth :
          (leakage : Leakage) (uniq : Db) (fuel : ℕ)
          → All (IsKnown store sound relate) (entries stores.target)
          → 0 < limits.th_k
          → 0 < limits.init
          → length universe + (limits.init + length (entries stores.target)) ≤ fuel
          → length (entries stores.target) < u64
          → (answers : List Node) × (common : ℕ) × (leak : ℕ) × (main store extract rand limits
                leakage
                (some (stores, uniq, relate))
                fuel
              ≡ ok (
                length (entries stores.target),
                common,
                leak,
                (length answers + (common - leak)) % u64,
                print_from_back answers,
              ))
            × (leak ≤ common)
            × (common ≤ length (entries stores.target))
            × All IsAnswer answers
      unfolding main
      main-ends_truth leakage uniq fuel known pos some_init enough few =
          let (s, run, (h, all)) =
            stat_db-AreTrue store sound relate leakage rand stores uniq known in
          let size : length s.q_t ≤ length (entries stores.target) =
            omega (arith, h.size_t, h.leak-le, h.common-le, all) in
          let (t, rest, (empty, rounds, correct, common, leak)) =
            main_loop-Ends store sound queue universe limits stores pos ns judge_truth-IsJudge
              leakage.is_zero fuel s some_init (omega arith) h.zero_correct in
          let number : inferences t ≡ (length t.ansq + (s.common - s.leak)) % u64 =
            omega (arith, correct, common, leak, h.leak-le, h.common-le, all, few) in
          (
            t.ansq,
            s.common,
            s.leak,
            rw (run, ◌>>=◌, rest) (same_output (print_from_back t.ansq) all common leak number),
            h.leak-le,
            omega (arith, h.common-le, all),
            main_loop-keeps store extract limits stores (judge store relate) (All IsAnswer)
                judge-answers leakage.is_zero fuel s t rest tt,
          )
