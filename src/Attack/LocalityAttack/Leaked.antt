-- ===== src/Attack/LocalityAttack/Leaked.antt =====
-- What `stat_db` leaks.
use freqanalysis.Common.{
  ℕ, ◌+◌, ◌≤◌, ◌≡◌, refl, sym, ap, take, ◌∙◌, List, [], ◌∷◌, ◌++◌, true, false, map, length,
  length-append, ◌>>=◌, Returns, Bool-cases, inl, inr, arith, ◌%◌,
}
use freqanalysis.Attack.Inference.{Stores, State}
use freqanalysis.Attack.LocalityAttack.{
  Leakage, leak_chunk, stat_chunk, stat_entries, stat_db, globals,
}
use freqanalysis.Attack.Ranking.{Node}
use freqanalysis.Bytes.{Key, fp_size, load_u64}
use freqanalysis.LevelDb.{LevelDb, IsSound, Got, found, not_found, failed}

abbrev pub key_of : Node → Key
key_of x = x.key

map_key-append : (xs ys : List Node) → map key_of (xs ++ ys) ≡ map key_of xs ++ map key_of ys
map_key-append [] ys = refl
map_key-append (x ∷ xs) ys = ap (λ l. x.key ∷ l) (map_key-append xs ys)

-- The leaked pairs have the same fingerprint on both sides, and the counters fit them.
pub record IsLeaked {Db : Type 0} (s : State Db) : Type 0 where
  pub same_keys : map key_of s.q_o ≡ map key_of s.q_t
  pub size_o : length s.q_o ≡ s.leak
  pub size_t : length s.q_t ≡ s.leak
  pub leak-le : s.leak ≤ s.common
  pub common-le : s.common ≤ s.total
  pub zero_correct : s.correct ≡ 0

module _ (store : LevelDb) (sound : IsSound store) where
  open store use {Db, get, entries}

  leak_chunk-IsLeaked :
      (s : State Db) (key : Key) (vo vt : List ℕ)
      → IsLeaked s
      → IsLeaked
          (leak_chunk store (record s { total = s.total + 1; common = s.common + 1 }) key vo vt)
  unfolding leak_chunk
  leak_chunk-IsLeaked s key vo vt h = record {
    same_keys =
        map_key-append s.q_o (entry vo ∷ [])
        ∙ ap (λ l. l ++ (take fp_size key ∷ [])) h.same_keys
        ∙ sym (map_key-append s.q_t (entry vt ∷ []));
    size_o = omega (arith, length-append s.q_o (entry vo ∷ []), h.size_o);
    size_t = omega (arith, length-append s.q_t (entry vt ∷ []), h.size_t);
    leak-le = omega (arith, h.leak-le);
    common-le = omega (arith, h.common-le);
    zero_correct = h.zero_correct;
  }
    where
      entry : List ℕ → Node
      entry v = record { key = take fp_size key; count = load_u64 v }

  stat_chunk-IsLeaked :
      (leakage : Leakage) (draw : ℕ) (origin : Db) (s : State Db) (e : Key × List ℕ)
      → IsLeaked s
      → Returns
          (stat_chunk store leakage draw origin s e)
          (λ t. IsLeaked t × (t.total ≡ s.total + 1))
  unfolding stat_chunk leak_chunk
  stat_chunk-IsLeaked leakage draw origin s (key, vt) h = elim (Bool-cases leakage.is_zero) [
    | inl zero ↦ (counted, rw zero, (skip, refl))
    | inr some_rate ↦ elim (Bool-cases (leakage.covers (draw % 10000))) [
      | inl covered ↦ go some_rate covered (get origin key) refl
      | inr spared ↦ (counted, rw (some_rate, spared), (skip, refl))
    ]
  ]
    where
      counted : State Db
      counted = record s { total = s.total + 1 }

      skip : IsLeaked counted
      skip = record {
        same_keys = h.same_keys;
        size_o = h.size_o;
        size_t = h.size_t;
        leak-le = h.leak-le;
        common-le = omega (arith, h.common-le);
        zero_correct = h.zero_correct;
      }

      drawn : IsLeaked (record counted { common = s.common + 1 })
      drawn = record {
        same_keys = h.same_keys;
        size_o = h.size_o;
        size_t = h.size_t;
        leak-le = omega (arith, h.leak-le);
        common-le = omega (arith, h.common-le);
        zero_correct = h.zero_correct;
      }

      go :
          leakage.is_zero ≡ false
          → leakage.covers (draw % 10000) ≡ true
          → (g : Got) → get origin key ≡ g
          → Returns
              (stat_chunk store leakage draw origin s (key, vt))
              (λ t. IsLeaked t × (t.total ≡ s.total + 1))
      go a b (found vo) e = (_, rw (a, b, e, stat_chunk), (leak_chunk-IsLeaked s key vo vt h, refl))
      go a b not_found e = (_, rw (a, b, e, stat_chunk), (drawn, refl))
      go a b failed e = absurd (sound.get_works origin key e)

  stat_entries-IsLeaked :
      (leakage : Leakage) (rand : ℕ → ℕ) (draws : ℕ) (origin : Db) (s : State Db)
      (es : List (Key × List ℕ))
      → IsLeaked s
      → Returns
          (stat_entries store leakage rand draws origin s es)
          (λ t. IsLeaked t × (t.total ≡ s.total + length es))
  unfolding stat_entries
  stat_entries-IsLeaked leakage rand draws origin s [] h = (s, refl, (h, omega arith))
  stat_entries-IsLeaked leakage rand draws origin s (e ∷ es) h =
      let (t, run, (h', one)) = stat_chunk-IsLeaked leakage (rand draws) origin s e h in
      let (u, rest, (h'', more)) = stat_entries-IsLeaked leakage rand (draws + 1) origin t es h' in
      (u, rw (run, ◌>>=◌) rest, (h'', omega arith))

  -- `stat_db` ends normally and counts every ciphertext of the target store; the pairs that it puts
  -- into the inferred set have equal fingerprints on both sides, their number is `leak`, which is
  -- at most `common`, and that at most `total`.
  pub stat_db-IsLeaked :
      (leakage : Leakage) (rand : ℕ → ℕ) (stores : Stores Db) (uniq : Db)
      → Returns
          (stat_db store leakage rand stores (globals uniq))
          (λ t. IsLeaked t × (t.total ≡ length (entries stores.target)))
  unfolding stat_db
  stat_db-IsLeaked leakage rand stores uniq =
      let (t, run, (h, all)) =
        stat_entries-IsLeaked leakage rand 0 stores.origin (globals uniq) (entries stores.target)
          (record {
            same_keys = refl;
            size_o = refl;
            size_t = refl;
            leak-le = omega arith;
            common-le = omega arith;
            zero_correct = refl;
          }) in
      (t, run, (h, omega arith))
