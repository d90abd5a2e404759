-- ===== src/Prototype/Container/Inserted.antt =====
-- Insertion keeps the containers in order: what is inserted is in the container whose number is
-- current afterwards, the one that prototype/ddfs.cc puts into the index.
use freqanalysis.Common.{
  ℕ, ◌+◌, ◌%◌, ◌^◌, ◌<◌, ◌≤◌, ◌≡◌, refl, sym, ap, ◌∙◌, true, List, [], ◌∷◌, ◌++◌, ◌==◌, All-append,
  total, total-append, Returns, Bool-cases, inl, inr, Bool, arith,
}
use freqanalysis.Bytes.{Key, key_eq_refl}
use freqanalysis.Prototype.Container.Stored.{IsPlain, loadtonode-same}
use freqanalysis.Prototype.Container.{Manager, exceeds, insert, loadtonode}
use freqanalysis.Prototype.Container.Collected.{
  Collects, Holds, AllPass, IsRecorded, same_as, loadtonode-memory, some_injective, pocessw-Flushed,
  Flushed-AllPass,
}

pushed : List ℕ → Key → ℕ → Manager → Manager
pushed path str size t = record t {
  now_size = (t.now_size + size) % 2 ^ 32;
  tmp = t.tmp ++ (str ∷ []);
}

-- What a manager has become after an insertion: each container up to the current one holds what it
-- held, and the new current one holds the fingerprint inserted.
pub record Inserts (path : List ℕ) (str : Key) (s t : Manager) : Type 0 where
  pub collects : Collects path t
  pub keeps : (id : ℕ) (k : Key) → id ≤ s.now_id → Holds path s id k → Holds path t id k
  pub holds : Holds path t t.now_id str
  pub number-ge : s.now_id ≤ t.now_id
  pub number-le : t.now_id ≤ s.now_id + 1
  pub recorded : IsRecorded path s → IsRecorded path t

pushed-keeps :
    (path : List ℕ) (str : Key) (size : ℕ) (t : Manager) (id : ℕ) (k : Key)
    → Collects path t
    → Collects path (pushed path str size t)
    → Holds path t id k
    → Holds path (pushed path str size t) id k
unfolding pushed
pushed-keeps path str size t id k c c' (keys, loads, inside) = elim (Bool-cases (id == t.now_id)) [
  | inl same ↦
      let e : id ≡ t.now_id = ground arith in
      let memory : keys ≡ t.tmp =
        some_injective keys t.tmp
          (sym loads ∙ ap (λ i. loadtonode path i t) e ∙ loadtonode-memory path t c) in
      (
        t.tmp ++ (str ∷ []),
        ap (λ i. loadtonode path i (pushed path str size t)) e
            ∙ loadtonode-memory path (pushed path str size t) c',
        omega (
          arith,
          total-append (same_as k) t.tmp (str ∷ []),
          ap (total (same_as k)) memory,
          inside,
        ),
      )
  | inr differs ↦ (
    keys,
    loadtonode-same path id t (pushed path str size t) refl differs differs ∙ loads,
    inside,
  )
]

pushed-AllPass :
    (path : List ℕ) (str : Key) (size : ℕ) (t : Manager) (test : Key → Bool)
    → Collects path t
    → Collects path (pushed path str size t)
    → test str ≡ true
    → AllPass path test t
    → AllPass path test (pushed path str size t)
unfolding pushed
pushed-AllPass path str size t test c c' pass all id keys le loads =
    elim (Bool-cases (id == t.now_id)) [
      | inl same ↦
          let e : id ≡ t.now_id = ground arith in
          let memory : keys ≡ t.tmp ++ (str ∷ []) = some_injective keys (t.tmp ++ (str ∷ [])) (
            sym loads
            ∙ ap (λ i. loadtonode path i (pushed path str size t)) e
            ∙ loadtonode-memory path (pushed path str size t) c') in
          rw memory (
            All-append (λ k. test k ≡ true) t.tmp (str ∷ [])
              (all t.now_id t.tmp (omega arith) (loadtonode-memory path t c)) (pass, tt))
      | inr differs ↦
          all id keys le
            (sym (loadtonode-same path id t (pushed path str size t) refl differs differs) ∙ loads)
    ]

pushed-Inserts :
    (path : List ℕ) (str : Key) (size : ℕ) (t : Manager)
    → Collects path t
    → IsPlain str
    → Inserts path str t (pushed path str size t)
unfolding pushed
pushed-Inserts path str size t c plain =
    let c' : Collects path (pushed path str size t) = record {
      plain = All-append IsPlain t.tmp (str ∷ []) c.plain (plain, tt);
      fresh = c.fresh;
    } in
    record {
      collects = c';
      keeps = λ id k le held. pushed-keeps path str size t id k c c' held;
      holds = (
        t.tmp ++ (str ∷ []),
        loadtonode-memory path (pushed path str size t) c',
        ground (arith, total-append (same_as str) t.tmp (str ∷ []), key_eq_refl str),
      );
      number-ge = omega arith;
      number-le = omega arith;
      recorded = λ h. h;
    }

-- What the fingerprints of the containers pass before, they pass after.
abbrev pub Passes : List ℕ → Key → Manager → Manager → Type 0
Passes path str s t =
    (test : Key → Bool) → test str ≡ true → AllPass path test s → AllPass path test t

pub insert-Passes :
    (path : List ℕ) (str : Key) (size : ℕ) (s : Manager)
    → Collects path s
    → IsPlain str
    → s.now_id + 1 < 2 ^ 31
    → Returns (insert path str size s) (λ t. Inserts path str s t × Passes path str s t)
unfolding insert pushed
insert-Passes path str size s c plain small = elim (Bool-cases (exceeds s.now_size size)) [
  | inl full ↦
      let (r, run, f) = pocessw-Flushed path s c small in
      let p = pushed-Inserts path str size r.0 f.collects plain in
      (
        pushed path str size r.0,
        rw (full, run) refl,
        (
          record {
            collects = p.collects;
            keeps = λ id k le held.
                p.keeps id k (omega (arith, f.number-ge)) (held.0, f.same id le ∙ held.1, held.2);
            holds = p.holds;
            number-ge = omega (arith, p.number-ge, f.number-ge);
            number-le = omega (arith, f.number-le);
            recorded = λ h. p.recorded (f.recorded h);
          },
          λ test pass all.
              pushed-AllPass path str size r.0 test f.collects p.collects pass
                (Flushed-AllPass path s r.0 test f all),
        ),
      )
  | inr room ↦
      let p = pushed-Inserts path str size s c plain in
      (
        pushed path str size s,
        rw room refl,
        (p, λ test pass all. pushed-AllPass path str size s test c p.collects pass all),
      )
]

-- Inserting a fingerprint without zero bytes, in a state where the fingerprints in memory have none
-- and no file has the current number or a later one, ends normally in such a state; each container
-- up to the one that was current holds what it held, and the one that is current afterwards, the
-- same or the next, holds the fingerprint, with numbers below 2 ^ 31.
pub insert-Inserts :
    (path : List ℕ) (str : Key) (size : ℕ) (s : Manager)
    → Collects path s
    → IsPlain str
    → s.now_id + 1 < 2 ^ 31
    → Returns (insert path str size s) (Inserts path str s)
insert-Inserts path str size s c plain small =
    let (t, run, (i, _)) = insert-Passes path str size s c plain small in (t, run, i)
