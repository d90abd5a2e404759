-- ===== src/Attack/LocalityCount/Tables.antt =====
-- What one chunk does to the three stores.
use freqanalysis.Common.{
  ℕ, ◌*◌, ◌^◌, ◌<◌, some, List, ◌≡◌, ◌≢◌, refl, sym, ap, ◌∙◌, true, false, [], ◌∷◌, ◌++◌, length,
  ok, ◌>>=◌, Returns, Bool-cases, inl, inr,
}
use freqanalysis.Attack.BasicCount
use freqanalysis.Attack.LocalityCount.Adjacent.{add_neighbour}
use freqanalysis.Attack.LocalityCount.{
  State, count_frequency, count_neighbour, count_left, count_right, count_pair, count_chunk,
}
use freqanalysis.Attack.Neighbours.Codec.{encode, encode-bump_nil, bump_value-encode}
use freqanalysis.Attack.Neighbours.Table.{Table, IsTable, bump, bump-IsTable}
use freqanalysis.Attack.Neighbours.Names.{neighbour_name, neighbour_key-name, length-neighbour_name}
use freqanalysis.Attack.Neighbours.{record_size}
use freqanalysis.Bytes.{Key, key_eq, eq_of_key_eq, fp_size, store_u64}
use freqanalysis.LevelDb.{LevelDb, IsSound, Got, found, not_found, failed}

-- How a store represents the table of a key.
abbrev pub entry_of : Table → Got
entry_of [] = not_found
entry_of (e ∷ t) = found (encode (e ∷ t))

entry_of-bump : (value : Key) (t : Table) → entry_of (bump value t) ≡ found (encode (bump value t))
unfolding bump
entry_of-bump value [] = refl
entry_of-bump value ((j, n) ∷ t) = elim (Bool-cases (key_eq j value)) [
  | inl same ↦ rw same
  | inr other ↦ rw other
]

module _ (store : LevelDb) (sound : IsSound store) where
  open store use {Db, get, put, delete}

  abbrev pub Holds : Db → (Key → Table) → Type 0
  Holds db tables = (k : Key) → (get db k ≡ entry_of (tables k)) × IsTable (tables k)

  -- A value written under the key, over a store that agrees elsewhere.
  put-Holds :
      (db db' : Db) (tables : Key → Table) (key value : Key)
      → length value ≡ fp_size
      → Holds db tables
      → ((k : Key) → key_eq key k ≡ false → get db' k ≡ get db k)
      → Holds (put db' key (encode (bump value (tables key)))).0 (add_neighbour tables key value)
  put-Holds db db' tables key value size holds same_elsewhere k =
      let t = tables key in
      let written = sound.get-put db' key k (encode (bump value t)) in
      elim (Bool-cases (key_eq key k)) [
        | inl same ↦
            let at_key : tables k ≡ t = ap tables (sym (eq_of_key_eq key k same)) in
            (
              rw (same, written, same, at_key) (sym (entry_of-bump value t)),
              rw (same, at_key) (bump-IsTable value t size (holds key).1),
            )
        | inr other ↦ (
          rw (other, written, other) (same_elsewhere k other ∙ (holds k).0),
          rw other (holds k).1,
        )
      ]

  count_neighbour-Holds :
      (db : Db) (tables : Key → Table) (key value : Key)
      → length value ≡ fp_size
      → Holds db tables
      → record_size * length (tables key) < 2 ^ 31
      → Returns (count_neighbour store db key value) (λ d. Holds d (add_neighbour tables key value))
  unfolding count_neighbour
  count_neighbour-Holds db tables key value size holds few = go (tables key) refl
    where
      go :
          (t : Table)
          → tables key ≡ t
          → Returns
              (count_neighbour store db key value)
              (λ d. Holds d (add_neighbour tables key value))
      go [] e =
          let got : get db key ≡ not_found = (holds key).0 ∙ ap entry_of e in
          let bytes : value ++ store_u64 1 ≡ encode (bump value (tables key)) =
            rw e (sym (encode-bump_nil value)) in
          (
            _,
            rw (got, count_neighbour, bytes),
            put-Holds db db tables key value size holds (λ k _. refl),
          )
      go (r ∷ t) e =
          let got : get db key ≡ found (encode (tables key)) =
            (holds key).0 ∙ ap entry_of e ∙ ap (λ l. found (encode l)) (sym e) in
          let some_record : tables key ≢ [] = λ none. cc in
          (
            _,
            rw (
              got,
              count_neighbour,
              bump_value-encode value (tables key) some_record (holds key).1 few,
              ◌>>=◌,
            ),
            put-Holds db (delete db key) tables key value size holds
                (λ k other. rw (sound.get-delete, other)),
          )

  pub count_frequency-basic :
      (db : Db) (key : Key)
      → count_frequency store db key ≡ ok (BasicCount.count_chunk store db key)
  unfolding count_frequency BasicCount.count_chunk
  count_frequency-basic db key = go (get db key) refl
    where
      go :
          (g : Got)
          → get db key ≡ g
          → count_frequency store db key ≡ ok (BasicCount.count_chunk store db key)
      go (found v) e = rw (e, count_frequency, BasicCount.count_chunk, BasicCount.next_count)
      go not_found e = rw (e, count_frequency, BasicCount.count_chunk, BasicCount.next_count)
      go failed e = absurd (sound.get_works db key e)

  module _ (bytes : List ℕ) where
    pub count_pair-Holds :
        (s : State Db) (hash : Key) (tl tr : Key → Table)
        → s.flag ≡ true
        → Holds s.store_left tl
        → Holds s.store_right tr
        → record_size * length (tl hash) < 2 ^ 31
        → record_size * length (tr s.last) < 2 ^ 31
        → (l : Db) × (r : Db) × (count_pair store (some bytes) s hash
            ≡ ok (record s { store_left = l; store_right = r }))
          × Holds l (add_neighbour tl hash (neighbour_name s.last))
          × Holds r (add_neighbour tr s.last (neighbour_name hash))
    unfolding count_pair count_left count_right
    count_pair-Holds s hash tl tr on hl hr few_l few_r =
        let (l, run_left, holds_left) =
          count_neighbour-Holds s.store_left tl hash (neighbour_name s.last)
            (length-neighbour_name s.last) hl few_l in
        let (r, run_right, holds_right) =
          count_neighbour-Holds s.store_right tr s.last (neighbour_name hash)
            (length-neighbour_name hash) hr few_r in
        (
          l,
          r,
          rw
              (
                on,
                neighbour_key-name bytes s.last,
                ◌>>=◌,
                run_left,
                neighbour_key-name bytes hash,
                ◌>>=◌,
                run_right,
              )
              refl,
          holds_left,
          holds_right,
        )

    -- One chunk, when there is one before it.
    pub count_chunk-Holds :
        (s : State Db) (hash : Key) (tl tr : Key → Table)
        → s.flag ≡ true
        → Holds s.store_left tl
        → Holds s.store_right tr
        → record_size * length (tl hash) < 2 ^ 31
        → record_size * length (tr s.last) < 2 ^ 31
        → (t : State Db) × (count_chunk store (some bytes) s hash ≡ ok t)
          × (t.db ≡ BasicCount.count_chunk store s.db hash)
          × (t.last ≡ hash)
          × (t.flag ≡ true)
          × Holds t.store_left (add_neighbour tl hash (neighbour_name s.last))
          × Holds t.store_right (add_neighbour tr s.last (neighbour_name hash))
    unfolding count_chunk
    count_chunk-Holds s hash tl tr on hl hr few_l few_r =
        let s' : State Db = record s { db = BasicCount.count_chunk store s.db hash } in
        let (l, r, run, holds_left, holds_right) =
          count_pair-Holds s' hash tl tr on hl hr few_l few_r in
        (
          record s' { store_left = l; store_right = r; last = hash; flag = true },
          rw (count_frequency-basic s.db hash, ◌>>=◌, run),
          refl,
          refl,
          refl,
          holds_left,
          holds_right,
        )

    -- The first chunk has no neighbour before it.
    pub first_chunk :
        (s : State Db) (hash : Key)
        → s.flag ≡ false
        → count_chunk store (some bytes) s hash
          ≡ ok (record s { db = BasicCount.count_chunk store s.db hash; last = hash; flag = true })
    unfolding count_chunk count_pair
    first_chunk s hash off = rw (count_frequency-basic s.db hash, ◌>>=◌, off)
