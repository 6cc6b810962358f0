-- ===== src/GhashtableDb/Lookup.antt =====
-- Finding a record by its location: src/dmapd-dmap-db-ghashtable.c, lookup_id_by_location.
use dmapd.Prelude.{
  ℕ, ◌≡◌, ◌≢◌, ◌⊎◌, refl, sym, ◌∙◌, ap, false, Option, none, some, List, [], ◌∷◌, CString, str_eq,
  str_eq_iff, arith, ◌==◌, ==_iff, Bool-cases, inl, inr, ◌>>=◌, >>=_some,
}
use dmapd.HashTable.{lookup, find_key, Distinct}
use dmapd.RecordClass.{RecordClass}
use dmapd.GhashtableDb.{
  RecordTable, State, lookup_by_id, find_path, path_match, lookup_null, lookup_id_by_uri,
  lookup_id_by_location,
}

module _ (c : RecordClass) (h : RecordTable c) where
  -- The entry with this id has a record at this location.
  abbrev pub Stands : CString → ℕ → List (ℕ × Option c.Record) → Type 0
  Stands location id l =
      (r : c.Record) × (find_key ◌==◌ id l ≡ some (some r)) × (c.location r ≡ some location)

  -- Every entry has a record, and every record a location.
  abbrev pub IsLocated : List (ℕ × Option c.Record) → Type 0
  IsLocated [] = Unit
  IsLocated ((id, r) ∷ rest) =
      ((x : c.Record) × (l : CString) × (r ≡ some x) × (c.location x ≡ some l)) × IsLocated rest

  -- What the search is to find: an entry at the location, or 0 where there is none.
  abbrev Answer : CString → List (ℕ × Option c.Record) → ℕ → Type 0
  Answer location l n =
      Stands location n l
      ⊎ ((n ≡ 0)
          × ((id : ℕ) (r : c.Record)
              → find_key ◌==◌ id l ≡ some (some r)
              → c.location r ≢ some location))

  there_later :
      (id n : ℕ) (r : Option c.Record) (rest : List (ℕ × Option c.Record)) {x : Option c.Record}
      → find_key ◌==◌ id rest ≡ none
      → find_key ◌==◌ n rest ≡ some x
      → find_key ◌==◌ n ((id, r) ∷ rest) ≡ some x
  there_later id n r rest d f = elim (Bool-cases (id == n)) [
    | inl q ↦ let e = (==_iff id n).0 q in cc
    | inr q ↦ rw q f
  ]

  head_found :
      (id : ℕ) (r : Option c.Record) (x : c.Record) (rest : List (ℕ × Option c.Record))
      → r ≡ some x
      → find_key ◌==◌ id ((id, r) ∷ rest) ≡ some (some x)
  head_found id r x rest e = ground arith

  Answer-cons :
      (location l : CString) (id n : ℕ) (r : Option c.Record) (x : c.Record)
      (rest : List (ℕ × Option c.Record))
      → find_key ◌==◌ id rest ≡ none
      → r ≡ some x
      → c.location x ≡ some l
      → str_eq l location ≡ false
      → Answer location rest n
      → Answer location ((id, r) ∷ rest) n
  Answer-cons location l id n r x rest d ex el q (inl (y, f, g)) =
      inl (y, there_later id n r rest d f, g)
  Answer-cons location l id n r x rest d ex el q (inr (z, miss)) = inr (
    z,
    λ j y f g. elim (Bool-cases (id == j)) [
      | inl i ↦
          let f' : some r ≡ some (some y) = rw i at f in
          let m : l ≡ location = cc in let m' = (str_eq_iff l location).1 m in cc
      | inr i ↦ miss j y (rw i at f) g
    ],
  )

  find_path-Answer :
      (location : CString) (l : List (ℕ × Option c.Record))
      → IsLocated l
      → Distinct ◌==◌ l
      → (n : ℕ) × (find_path c h location l ≡ some n) × Answer location l n
  unfolding find_path
  find_path-Answer location [] k d = (0, refl, inr (refl, λ id r e. cc))
  find_path-Answer location ((id, r) ∷ rest) k d =
      let (n, e, a) = find_path-Answer location rest k.1 d.1 in
      let (x, l, ex, el) = k.0 in
      elim (Bool-cases (str_eq l location)) [
        | inl q ↦ (
          id,
          rw (ex, el, q),
          inl (x, head_found id r x rest ex, el ∙ ap some ((str_eq_iff l location).0 q)),
        )
        | inr q ↦ (n, rw (ex, el, q) e, Answer-cons location l id n r x rest d.0 ex el q a)
      ]

  join_some :
      (o : Option (Option c.Record)) (r : c.Record) → (o >>= λ x. x) ≡ some r → o ≡ some (some r)
  join_some none r e = cc
  join_some (some x) r e = ap some e

  join_none :
      (o : Option (Option c.Record)) (r : c.Record) → (o >>= λ x. x) ≡ none → o ≢ some (some r)
  join_none none r e f = cc
  join_none (some x) r e f = cc

  -- With a record with a location under every id, and no id 0, lookup_id_by_location returns: an
  -- id, not 0, whose record is at the location; or 0, and then no record in the database is.
  pub lookup_id_by_location_correct :
      (location : CString) (s : State c h)
      → IsLocated (h.entries s.object.db)
      → lookup_by_id c h 0 s ≡ none
      → (n : ℕ) × (lookup_id_by_location c h location s ≡ some n)
        × (((n ≢ 0)
              × (r : c.Record) × (lookup_by_id c h n s ≡ some r)
              × (c.location r ≡ some location))
            ⊎ ((n ≡ 0)
                × ((id : ℕ) (r : c.Record)
                    → lookup_by_id c h id s ≡ some r
                    → c.location r ≢ some location)))
  unfolding lookup_id_by_location lookup_by_id lookup
  lookup_id_by_location_correct location s k z =
      let (n, e, a) =
        find_path-Answer location (h.entries s.object.db) k (h.distinct s.object.db) in
      (
        n,
        e,
        elim a [
          | inl (r, f, g) ↦ inl (λ q. join_none _ r z (rw q at f), r, rw f, g)
          | inr (q, miss) ↦ inr (q, λ id r f. miss id r (join_some _ r f))
        ],
      )

  found_or_zero :
      (location : CString) (l : List (ℕ × Option c.Record)) (n : ℕ)
      → Distinct ◌==◌ l
      → find_path c h location l ≡ some n
      → (n ≡ 0) ⊎ ((r : c.Record) × (find_key ◌==◌ n l ≡ some (some r)))
  unfolding find_path path_match
  found_or_zero location [] n d e = inl (ground arith)
  found_or_zero location ((id, none) ∷ rest) n d e = cc
  found_or_zero location ((id, some x) ∷ rest) n d e =
      let (l, f, g) = >>=_some (c.location x >>= λ l. some (str_eq l location)) _ e in
      elim (Bool-cases l) [
        | inl q ↦
            let i : id ≡ n = (let k : some id ≡ some n = rw q at g in ground arith) in
            inr (
              x,
              ap (λ j. find_key ◌==◌ j ((id, some x) ∷ rest)) (sym i)
                  ∙ head_found id (some x) x rest refl,
            )
        | inr q ↦ elim (found_or_zero location rest n d.1 (rw q at g)) [
          | inl z ↦ inl z
          | inr (r, k) ↦ inr (r, there_later id n (some x) rest d.0 k)
        ]
      ]

  -- An id that the search gives, if it is not 0, has a record.
  pub lookup_id_by_location-there :
      (location : CString) (s : State c h) (n : ℕ)
      → lookup_id_by_location c h location s ≡ some n
      → (n ≡ 0) ⊎ ((r : c.Record) × (lookup_by_id c h n s ≡ some r))
  unfolding lookup_id_by_location lookup_by_id lookup
  lookup_id_by_location-there location s n e =
      elim (found_or_zero location (h.entries s.object.db) n (h.distinct s.object.db) e) [
        | inl z ↦ inl z
        | inr (r, f) ↦ inr (r, rw f)
      ]

  pub lookup_id_by_uri-there :
      (uri : Option CString) (s : State c h) (n : ℕ)
      → lookup_id_by_uri c h uri s ≡ some n
      → (n ≡ 0) ⊎ ((r : c.Record) × (lookup_by_id c h n s ≡ some r))
  unfolding lookup_id_by_uri lookup_null
  lookup_id_by_uri-there none s n e = no_entry (h.entries s.object.db) n e
    where
      no_entry :
          (l : List (ℕ × Option c.Record)) (n : ℕ)
          → lookup_null c h l ≡ some n
          → (n ≡ 0) ⊎ ((r : c.Record) × (lookup_by_id c h n s ≡ some r))
      no_entry [] n e = inl (ground arith)
      no_entry (x ∷ l) n e = cc
  lookup_id_by_uri-there (some location) s n e = lookup_id_by_location-there location s n e
