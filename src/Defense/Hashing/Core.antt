-- ===== src/Defense/Hashing/Core.antt =====
-- The core of a segment: the one chunk in `pq`, the smallest of the segment.
use freqanalysis.Common.{
  ℕ, ◌%◌, ◌≡◌, refl, none, some, List, [], ◌∷◌, ◌++◌, true, false, if◌then◌else◌, ok, stop,
  undefined, All, All-append, ◌⊎◌, inl, inr, arith,
}
use freqanalysis.Bytes.{memcmp_lt, memcmp_lt_irrefl, memcmp_lt_trans}
use freqanalysis.Defense.Hashing.{k_minhash, choose_core, insert_min}
use freqanalysis.Defense.Segment.{Chunk}
use freqanalysis.PriorityQueue.{Extract}

-- A priority queue of one item has it on top, and an empty one has no top. `cmp` is no order
-- (it returns `memcmp` as a Boolean), so no more than this is used.
pub record IsSingleQueue (extract : Extract Chunk) : Type 0 where
  pub empty : extract [] ≡ none
  pub single : (c : Chunk) → extract (c ∷ []) ≡ some (c, [])

abbrev pub IsAmong : Chunk → List Chunk → Type 0
IsAmong c [] = ⊥
IsAmong c (x ∷ xs) = (c ≡ x) ⊎ IsAmong c xs

-- A chunk of the segment, such that no other has a smaller fingerprint.
pub record IsCore (core : Chunk) (sq : List Chunk) : Type 0 where
  pub among : IsAmong core sq
  pub smallest : All (λ c. memcmp_lt c.key core.key ≡ false) sq

pub IsAmong-append_left : (c : Chunk) (xs ys : List Chunk) → IsAmong c xs → IsAmong c (xs ++ ys)
IsAmong-append_left c (x ∷ xs) ys (inl e) = inl e
IsAmong-append_left c (x ∷ xs) ys (inr h) = inr (IsAmong-append_left c xs ys h)
IsAmong-append_left c [] ys h = absurd h

pub IsAmong-append_right : (c : Chunk) (xs ys : List Chunk) → IsAmong c ys → IsAmong c (xs ++ ys)
IsAmong-append_right c [] ys h = h
IsAmong-append_right c (x ∷ xs) ys h = inr (IsAmong-append_right c xs ys h)

pub IsCore-first : (c : Chunk) → IsCore c (c ∷ [])
IsCore-first c = record { among = inl refl; smallest = (memcmp_lt_irrefl c.key, tt) }

-- A later chunk that is not smaller leaves the core.
pub IsCore-keep :
    (m c : Chunk) (sq : List Chunk)
    → memcmp_lt c.key m.key ≡ false
    → IsCore m sq
    → IsCore m (sq ++ (c ∷ []))
IsCore-keep m c sq e h = record {
  among = IsAmong-append_left m sq _ h.among;
  smallest = All-append _ sq _ h.smallest (e, tt);
}

not_smaller :
    (m c : Chunk) (sq : List Chunk)
    → memcmp_lt c.key m.key ≡ true
    → All (λ d. memcmp_lt d.key m.key ≡ false) sq
    → All (λ d. memcmp_lt d.key c.key ≡ false) sq
not_smaller m c [] e h = tt
not_smaller m c (d ∷ sq) e h =
    (ground (arith, memcmp_lt_trans d.key c.key m.key), not_smaller m c sq e h.1)

-- A smaller one takes its place.
pub IsCore-replace :
    (m c : Chunk) (sq : List Chunk)
    → memcmp_lt c.key m.key ≡ true
    → IsCore m sq
    → IsCore c (sq ++ (c ∷ []))
IsCore-replace m c sq e h = record {
  among = IsAmong-append_right c sq _ (inl refl);
  smallest = All-append _ sq _ (not_smaller m c sq e h.smallest) (memcmp_lt_irrefl c.key, tt);
}

module _ {extract : Extract Chunk} (queue : IsSingleQueue extract) where
  -- `rand() % K_MINHASH` is 0: the core is the one item of `pq`.
  pub choose_core-single :
      (rand : ℕ → ℕ) (draws : ℕ) (m : Chunk) → choose_core extract rand draws (m ∷ []) ≡ ok m
  unfolding choose_core
  choose_core-single rand draws m =
      let e : rand draws % k_minhash ≡ 0 = omega arith in rw e (ground (arith, queue.single m))

  pub choose_core-empty :
      (rand : ℕ → ℕ) (draws : ℕ) → choose_core extract rand draws [] ≡ stop undefined
  unfolding choose_core
  choose_core-empty rand draws =
      let e : rand draws % k_minhash ≡ 0 = omega arith in rw e (ground (arith, queue.empty))

  pub insert_min-empty : (c : Chunk) → insert_min extract c [] ≡ ok (c ∷ [])
  unfolding insert_min
  insert_min-empty c = ground arith

  pub insert_min-single :
      (c m : Chunk)
      → insert_min extract c (m ∷ []) ≡ ok (if memcmp_lt c.key m.key then c ∷ [] else m ∷ [])
  unfolding insert_min
  insert_min-single c m = ground (arith, queue.single m)
