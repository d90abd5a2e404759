-- ===== src/Attack/Inference/Universe.antt =====
-- What bounds the inference: each round takes a pair from the inferred set, and a ciphertext enters
-- it only once. The fingerprints that the neighbour stores name are the universe.
use freqanalysis.Common.{
  ℕ, ◌+◌, ◌≤◌, ◌<◌, ◌≡◌, refl, ◌∙◌, List, [], ◌∷◌, ◌++◌, Bool, true, false, ◌||◌, not, ltb, to_nat,
  length, length-append, All, total, Bool-cases, ltb→ge, inl, inr, arith,
}
use freqanalysis.Attack.Inference.{State, mark, enqueue, infer}
use freqanalysis.Attack.Ranking.Sorted.{seconds}
use freqanalysis.Attack.Ranking.{Node}
use freqanalysis.Bytes.{Key, key_eq, eq_of_key_eq, key_eq_refl}
use freqanalysis.LevelDb.{LevelDb, IsSound, is_found}

abbrev pub is_in : List Key → Key → Bool
is_in [] k = false
is_in (u ∷ us) k = key_eq u k || is_in us k

pub is_in-append : (xs ys : List Key) (k : Key) → is_in (xs ++ ys) k ≡ (is_in xs k || is_in ys k)
is_in-append [] ys k = refl
is_in-append (x ∷ xs) ys k = ground (arith, is_in-append xs ys k)

abbrev pub outside : List Key → Node → ℕ
outside universe x = to_nat (not (is_in universe x.key))

pub All-in :
    (universe : List Key) (xs : List Node)
    → total (outside universe) xs ≡ 0
    → All (λ x. is_in universe x.key ≡ true) xs
All-in universe [] h = tt
All-in universe (x ∷ xs) h = (ground arith, All-in universe xs (omega arith))

pub outside-of-All :
    (universe : List Key) (xs : List Node)
    → All (λ x. is_in universe x.key ≡ true) xs
    → total (outside universe) xs ≡ 0
outside-of-All universe [] h = refl
outside-of-All universe (x ∷ xs) h = ground (arith, outside-of-All universe xs h.1)

-- The answers and the counters that are printed.
abbrev pub SameTally : {Db : Type 0} → State Db → State Db → Type 0
SameTally s s' =
    (s'.ansq ≡ s.ansq) × (s'.correct ≡ s.correct) × (s'.common ≡ s.common) × (s'.leak ≡ s.leak)

-- `correct` counts the answers.
abbrev pub IsTallied : {Db : Type 0} → State Db → Type 0
IsTallied s = s.correct ≡ length s.ansq

module _ (store : LevelDb) where
  open store use {Db, get}

  -- How many fingerprints have not been inferred.
  abbrev pub unseen : Db → List Key → ℕ
  unseen uniq [] = 0
  unseen uniq (u ∷ us) = to_nat (not (is_found (get uniq u))) + unseen uniq us

  pub unseen-le : (uniq : Db) (us : List Key) → unseen uniq us ≤ length us
  unseen-le uniq [] = omega arith
  unseen-le uniq (u ∷ us) = ground (arith, unseen-le uniq us)

  -- How the inferred set may change: what enters is paid for by the universe, the set stays within
  -- a bound that the limit respects, and nothing leaves it.
  pub record Grows (universe : List Key) (queue_limit : ℕ) (s s' : State Db) : Type 0 where
    pub paid : unseen s'.uniq universe + length s'.q_t ≤ unseen s.uniq universe + length s.q_t
    pub bounded : (m : ℕ) → queue_limit ≤ m → length s.q_o ≤ m → length s'.q_o ≤ m
    pub kept_o : length s.q_o ≤ length s'.q_o
    pub kept_t : length s.q_t ≤ length s'.q_t
    pub same_size : length s.q_o ≡ length s.q_t → length s'.q_o ≡ length s'.q_t
    pub involve : s'.involve ≡ s.involve
    pub tally : SameTally s s'

  pub Grows-refl :
      (universe : List Key) (queue_limit : ℕ) (s : State Db) → Grows universe queue_limit s s
  Grows-refl universe queue_limit s = record {
    paid = omega arith;
    bounded = λ m h k. k;
    kept_o = omega arith;
    kept_t = omega arith;
    same_size = λ h. h;
    involve = refl;
    tally = (refl, refl, refl, refl);
  }

  pub Grows-trans :
      (universe : List Key) (queue_limit : ℕ) (s t u : State Db)
      → Grows universe queue_limit s t
      → Grows universe queue_limit t u
      → Grows universe queue_limit s u
  Grows-trans universe queue_limit s t u g h = record {
    paid = omega (arith, g.paid, h.paid);
    bounded = λ m l k. h.bounded m l (g.bounded m l k);
    kept_o = omega (arith, g.kept_o, h.kept_o);
    kept_t = omega (arith, g.kept_t, h.kept_t);
    same_size = λ e. h.same_size (g.same_size e);
    involve = h.involve ∙ g.involve;
    tally = (
      h.tally.0 ∙ g.tally.0,
      h.tally.1 ∙ g.tally.1,
      h.tally.2 ∙ g.tally.2,
      h.tally.3 ∙ g.tally.3,
    );
  }

module _ (store : LevelDb) (sound : IsSound store) where
  open store use {Db, get, put}

  is_found-mark :
      (uniq : Db) (t : Node) (u : Key)
      → is_found (get (mark store uniq t) u) ≡ (key_eq t.key u || is_found (get uniq u))
  unfolding mark
  is_found-mark uniq t u = elim (Bool-cases (key_eq t.key u)) [
    | inl same ↦ rw (sound.get-put, same)
    | inr other ↦ rw (sound.get-put, other)
  ]

  unseen-mark-le :
      (uniq : Db) (t : Node) (us : List Key)
      → unseen store (mark store uniq t) us ≤ unseen store uniq us
  unseen-mark-le uniq t [] = omega arith
  unseen-mark-le uniq t (u ∷ us) = ground (arith, is_found-mark uniq t u, unseen-mark-le uniq t us)

  -- Marking a new one of the universe leaves fewer.
  pub unseen-mark-lt :
      (uniq : Db) (t : Node) (us : List Key)
      → is_in us t.key ≡ true
      → is_found (get uniq t.key) ≡ false
      → unseen store (mark store uniq t) us < unseen store uniq us
  unseen-mark-lt uniq t [] h new = ground arith
  unseen-mark-lt uniq t (u ∷ us) h new = elim (Bool-cases (key_eq u t.key)) [
    | inl same ↦
        let e : u ≡ t.key = eq_of_key_eq u t.key same in
        let old : is_found (get uniq u) ≡ false = rw e new in
        let marked : is_found (get (mark store uniq t) u) ≡ true =
          is_found-mark uniq t u ∙ rw e (rw key_eq_refl) in
        ground (arith, unseen-mark-le uniq t us)
    | inr other ↦
        let later : is_in us t.key ≡ true = ground arith in
        ground (arith, is_found-mark uniq t u, unseen-mark-lt uniq t us later new)
  ]

  enqueue-Grows :
      (universe : List Key) (queue_limit : ℕ) (s : State Db) (o t : Node)
      → is_in universe t.key ≡ true
      → is_found (get s.uniq t.key) ≡ false
      → length s.q_o + 1 ≤ queue_limit
      → Grows store universe queue_limit s (enqueue store s o t)
  unfolding enqueue
  enqueue-Grows universe queue_limit s o t known new room = record {
    paid = omega (arith, unseen-mark-lt s.uniq t universe known new, length-append s.q_t (t ∷ []));
    bounded = λ m l k. omega (arith, length-append s.q_o (o ∷ []));
    kept_o = omega (arith, length-append s.q_o (o ∷ []));
    kept_t = omega (arith, length-append s.q_t (t ∷ []));
    same_size = λ e. omega (arith, length-append s.q_o (o ∷ []), length-append s.q_t (t ∷ []));
    involve = refl;
    tally = (refl, refl, refl, refl);
  }

  -- The inner loop, over pairs whose ciphertexts are of the universe.
  pub infer-Grows :
      (universe : List Key) (queue_limit : ℕ) (pairs : List (Node × Node)) (s : State Db)
      → All (λ x. is_in universe x.key ≡ true) (seconds pairs)
      → Grows store universe queue_limit s (infer store queue_limit s pairs)
  unfolding infer
  infer-Grows universe queue_limit [] s known = Grows-refl store universe queue_limit s
  infer-Grows universe queue_limit ((o, t) ∷ pairs) s known =
      elim (Bool-cases (is_found (get s.uniq t.key))) [
        | inl old ↦ rw (old, infer) (infer-Grows universe queue_limit pairs s known.1)
        | inr new ↦ elim (Bool-cases (ltb queue_limit (length s.q_o + 1))) [
          | inl full ↦ rw (new, infer, full) (Grows-refl store universe queue_limit s)
          | inr room ↦
              rw (new, infer, room)
                (Grows-trans store universe queue_limit s (enqueue store s o t) _
                  (enqueue-Grows universe queue_limit s o t known.0 new (ltb→ge _ _ room))
                  (infer-Grows universe queue_limit pairs (enqueue store s o t) known.1))
        ]
      ]
