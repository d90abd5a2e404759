-- ===== src/Attack/GroundTruthAttack/Leaked.antt =====
-- What `stat_db` of defense/minhash/locality_attack_e.cc leaks: ciphertexts with their plaintexts.
use freqanalysis.Common.{
  take_all, ℕ, ◌+◌, ◌≤◌, ◌≡◌, refl, sym, ap, take, take-append, ◌∙◌, List, [], ◌∷◌, ◌++◌, true,
  false, ltb, All, length, length-append, ok, ◌>>=◌, Returns, Bool-cases, inl, inr, arith, ◌%◌, ◌-◌,
  ◌^◌,
}
use freqanalysis.Attack.GroundTruthAttack.{
  first_bytes, plaintext, leak_chunk, stat_chunk, stat_entries, stat_db,
}
use freqanalysis.Attack.Inference.{Stores, State}
use freqanalysis.Attack.LocalityAttack.{Leakage, globals}
use freqanalysis.Attack.Ranking.{Node}
use freqanalysis.Bytes.{Key, fp_size, load_u64}
use freqanalysis.LevelDb.{LevelDb, IsSound, Got, found, not_found, failed}

pub first_bytes-key : (p : Key) → length p ≡ fp_size → first_bytes p ≡ ok p
unfolding first_bytes
first_bytes-key p size =
    let long : ltb (length p + 1) fp_size ≡ false = ground (arith, size) in
    let whole : take fp_size (p ++ (0 ∷ [])) ≡ p =
      ap (λ n. take n (p ++ (0 ∷ []))) (sym size) ∙ take-append p (0 ∷ []) in
    rw (long, whole) refl

module _ (store : LevelDb) (sound : IsSound store) (relate : store.Db) where
  open store use {Db, get, entries}

  -- A ciphertext of the target store whose plaintext the ground truth gives.
  abbrev pub IsKnown : Key × List ℕ → Type 0
  IsKnown e =
      (length e.0 ≡ fp_size)
      × (plain : Key) × (get relate e.0 ≡ found plain)
      × (length plain ≡ fp_size)

  -- Each ciphertext on the right stands beside its plaintext.
  abbrev pub AreTrue : List Node → List Node → Type 0
  AreTrue [] [] = Unit
  AreTrue (o ∷ os) (t ∷ ts) = (get relate t.key ≡ found o.key) × AreTrue os ts
  AreTrue [] (t ∷ ts) = ⊥
  AreTrue (o ∷ os) [] = ⊥

  AreTrue-append :
      (os ts : List Node) (o t : Node)
      → AreTrue os ts
      → get relate t.key ≡ found o.key
      → AreTrue (os ++ (o ∷ [])) (ts ++ (t ∷ []))
  AreTrue-append [] [] o t h e = (e, tt)
  AreTrue-append (x ∷ os) (z ∷ ts) o t h e = (h.0, AreTrue-append os ts o t h.1 e)
  AreTrue-append [] (z ∷ ts) o t h e = absurd h
  AreTrue-append (x ∷ os) [] o t h e = absurd h

  -- The leaked pairs are true, and the counters fit them.
  pub record IsLeaked (s : State Db) : Type 0 where
    pub true_pairs : AreTrue s.q_o s.q_t
    pub size_o : length s.q_o ≡ s.leak
    pub size_t : length s.q_t ≡ s.leak
    pub leak-le : s.leak ≤ s.common
    pub common-le : s.common ≤ s.total
    pub zero_correct : s.correct ≡ 0

  leak_chunk-IsLeaked :
      (s : State Db) (key plain : Key) (vo vt : List ℕ)
      → length key ≡ fp_size
      → get relate key ≡ found plain
      → IsLeaked s
      → IsLeaked (
          leak_chunk store relate
            (record s { total = s.total + 1; common = s.common + 1 })
            key
            plain
            vo
            vt)
  unfolding leak_chunk
  leak_chunk-IsLeaked s key plain vo vt size there h =
      let o : Node = record { key = plain; count = load_u64 vo } in
      let t : Node = record { key = take fp_size key; count = load_u64 vt } in
      let whole : take fp_size key ≡ key = take_all fp_size key (omega (arith, size)) in
      record {
        true_pairs = AreTrue-append s.q_o s.q_t o t h.true_pairs (ap (get relate) whole ∙ there);
        size_o = omega (arith, length-append s.q_o (o ∷ []), h.size_o);
        size_t = omega (arith, length-append s.q_t (t ∷ []), h.size_t);
        leak-le = omega (arith, h.leak-le);
        common-le = omega (arith, h.common-le);
        zero_correct = h.zero_correct;
      }

  stat_chunk-IsLeaked :
      (leakage : Leakage) (draw : ℕ) (origin : Db) (s : State Db) (key plain : Key) (vt : List ℕ)
      → length key ≡ fp_size
      → get relate key ≡ found plain
      → length plain ≡ fp_size
      → IsLeaked s
      → Returns
          (stat_chunk store relate leakage draw origin plain s (key, vt))
          (λ t. IsLeaked t × (t.total ≡ s.total + 1))
  unfolding stat_chunk leak_chunk
  stat_chunk-IsLeaked leakage draw origin s key plain vt size there size_plain h =
      elim (Bool-cases leakage.is_zero) [
        | inl zero ↦ (counted, rw (bytes, ◌>>=◌, zero), (skip, refl))
        | inr some_rate ↦ elim (Bool-cases (leakage.covers (draw % (2 ^ 31 - 1)))) [
          | inl covered ↦ go some_rate covered (get origin plain) refl
          | inr spared ↦ (counted, rw (bytes, ◌>>=◌, some_rate, spared), (skip, refl))
        ]
      ]
    where
      bytes : first_bytes plain ≡ ok plain
      bytes = first_bytes-key plain size_plain

      counted : State Db
      counted = record s { total = s.total + 1 }

      skip : IsLeaked counted
      skip = record {
        true_pairs = h.true_pairs;
        size_o = h.size_o;
        size_t = h.size_t;
        leak-le = h.leak-le;
        common-le = omega (arith, h.common-le);
        zero_correct = h.zero_correct;
      }

      drawn : IsLeaked (record counted { common = s.common + 1 })
      drawn = record {
        true_pairs = h.true_pairs;
        size_o = h.size_o;
        size_t = h.size_t;
        leak-le = omega (arith, h.leak-le);
        common-le = omega (arith, h.common-le);
        zero_correct = h.zero_correct;
      }

      go :
          leakage.is_zero ≡ false
          → leakage.covers (draw % (2 ^ 31 - 1)) ≡ true
          → (g : Got) → get origin plain ≡ g
          → Returns
              (stat_chunk store relate leakage draw origin plain s (key, vt))
              (λ t. IsLeaked t × (t.total ≡ s.total + 1))
      go a b (found vo) e = (
        _,
        rw (bytes, ◌>>=◌, a, b, e, stat_chunk),
        (leak_chunk-IsLeaked s key plain vo vt size there h, refl),
      )
      go a b not_found e = (_, rw (bytes, ◌>>=◌, a, b, e, stat_chunk), (drawn, refl))
      go a b failed e = absurd (sound.get_works origin plain e)

  plaintext-known :
      (key plain : Key) (exs : List ℕ)
      → get relate key ≡ found plain
      → plaintext store relate key exs ≡ plain
  unfolding plaintext
  plaintext-known key plain exs there = rw (plaintext, there) refl

  stat_entries-IsLeaked :
      (leakage : Leakage) (rand : ℕ → ℕ) (draws : ℕ) (origin : Db) (exs : List ℕ) (s : State Db)
      (es : List (Key × List ℕ))
      → All IsKnown es
      → IsLeaked s
      → Returns
          (stat_entries store relate leakage rand draws origin exs s es)
          (λ t. IsLeaked t × (t.total ≡ s.total + length es))
  unfolding stat_entries
  stat_entries-IsLeaked leakage rand draws origin exs s [] known h = (s, refl, (h, omega arith))
  stat_entries-IsLeaked leakage rand draws origin exs s ((key, vt) ∷ es) known h =
      let (size, plain, there, size_plain) = known.0 in
      let (t, run, (h', one)) =
        stat_chunk-IsLeaked leakage (rand draws) origin s key plain vt size there size_plain h in
      let (u, rest, (h'', more)) =
        stat_entries-IsLeaked leakage rand (draws + 1) origin plain t es known.1 h' in
      (u, rw (plaintext-known key plain exs there, run, ◌>>=◌) rest, (h'', omega arith))

  -- If the ground truth gives the plaintext of every ciphertext of the target store, `stat_db` of
  -- the attack on MinHash encryption ends normally and counts every ciphertext; the pairs that it
  -- puts into the inferred set are ciphertexts with their plaintexts, their number is `leak`, which
  -- is at most `common`, and that at most `total`.
  pub stat_db-AreTrue :
      (leakage : Leakage) (rand : ℕ → ℕ) (stores : Stores Db) (uniq : Db)
      → All IsKnown (entries stores.target)
      → Returns
          (stat_db store relate leakage rand stores (globals uniq))
          (λ t. IsLeaked t × (t.total ≡ length (entries stores.target)))
  unfolding stat_db
  stat_db-AreTrue leakage rand stores uniq known =
      let (t, run, (h, all)) =
        stat_entries-IsLeaked leakage rand 0 stores.origin [] (globals uniq) (entries stores.target)
          known
          (record {
            true_pairs = tt;
            size_o = refl;
            size_t = refl;
            leak-le = omega arith;
            common-le = omega arith;
            zero_correct = refl;
          }) in
      (t, run, (h, omega arith))
