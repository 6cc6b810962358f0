-- ===== src/DiskDb/Lost.antt =====
-- What is added is not found again: src/dmapd-dmap-db-disk.c, add, lookup_by_id and
-- lookup_id_by_location.
use mathlib.Core.List.{append_cancel_left}
use dmapd.Prelude.{
  ℕ, ◌+◌, ◌-◌, ◌%◌, ◌^◌, ◌≤◌, ◌≡◌, ◌≢◌, ◌⊎◌, inl, inr, refl, sym, ap, ◌∙◌, true, Bool-cases,
  Option-cases, Option, none, some, List, [], ◌∷◌, ◌++◌, CString, Bytes, All, str_eq, str_eq_iff,
  ◌==◌, ==_iff, >>=_some, arith,
}
use dmapd.Blob.{Outcome, ok, refused, fault}
use dmapd.HashTable.{find_key, Distinct, lookup}
use dmapd.HashTable.Laws.{lookup-insert, size-insert}
use dmapd.FileHash.{HashLib, Source}
use dmapd.Cache.{Disk, in_dir, extension, cache_type_record, cache_store}
use dmapd.Cache.Store.{IsOther, cache_store-other}
use dmapd.RecordClass.{RecordClass}
use dmapd.DiskDb.{
  HashesTable, State, read_cached, load_cached_record, load_hash, lookup_by_id, find_hash,
  lookup_id_by_location, count, insert_hash, or_none, add_with_id, add,
}

-- A character of a hash in text.
abbrev pub IsHexDigit : ℕ → Type 0
IsHexDigit ch =
    ((b'0' ≤ ch) × (ch ≤ b'9')) ⊎ ((b'A' ≤ ch) × (ch ≤ b'F')) ⊎ ((b'a' ≤ ch) × (ch ≤ b'f'))

-- The text has a character that is no hexadecimal digit.
abbrev pub HasOther : CString → Type 0
HasOther s = (p : CString) × (ch : ℕ) × (q : CString) × (s ≡ p ++ (ch ∷ q)) × ¬ IsHexDigit ch

All-middle : (p q : CString) (ch : ℕ) → All IsHexDigit (p ++ (ch ∷ q)) → IsHexDigit ch
All-middle [] q ch k = k.0
All-middle (x ∷ p) q ch k = All-middle p q ch k.1

hash-HasOther : (s : CString) → All IsHexDigit s → HasOther s → ⊥
hash-HasOther s k (p, ch, q, e, n) = n (All-middle p q ch (rw e at k))

dot_other : ¬ IsHexDigit b'.'
dot_other k = omega arith

later_find :
    (id j : ℕ) (v : CString) (rest : List (ℕ × CString)) {x : CString}
    → find_key ◌==◌ id rest ≡ none
    → find_key ◌==◌ j rest ≡ some x
    → find_key ◌==◌ j ((id, v) ∷ rest) ≡ some x
later_find id j v rest d f = elim (Bool-cases (id == j)) [
  | inl q ↦ let e = (==_iff id j).0 q in cc
  | inr q ↦ rw q f
]

some_pair :
    {A B : Type 0} {a a' : A} {b b' : B}
    → ◌≡◌ {A = Option (A × B)} (some (a, b)) (some (a', b'))
    → (a' ≡ a) × (b' ≡ b)
some_pair e = (cc, cc)

module _ (c : RecordClass) (h : HashesTable) (generate : CString → CString)
    (left : Bytes → c.World × c.Record → c.World × c.Record) where
  find_hash-zero :
      (location : CString) (l : List (ℕ × CString))
      → Distinct ◌==◌ l
      → ((id : ℕ) (val : CString) → find_key ◌==◌ id l ≡ some val → val ≢ location)
      → find_hash c h generate left location l ≡ 0
  unfolding find_hash
  find_hash-zero location [] d k = refl
  find_hash-zero location ((id, val) ∷ rest) d k =
      let here : find_key ◌==◌ id ((id, val) ∷ rest) ≡ some val = ground arith in
      elim (Bool-cases (str_eq val location)) [
        | inl q ↦ absurd (k id val here ((str_eq_iff val location).0 q))
        | inr q ↦
            rw q
              (find_hash-zero location rest d.1 (λ j x f. k j x (later_find id j val rest d.0 f)))
      ]

  -- Every text of the table is a hash.
  abbrev pub IsHashed : State c h generate left → Type 0
  IsHashed s =
      (id : ℕ) (val : CString) → lookup h id s.db ≡ some val → (u : CString) × (val ≡ generate u)

  pub record IsLost (location : CString) (id : ℕ) (s t : State c h generate left) : Type 0 where
    pub in_table : lookup h id t.db ≡ some (generate location)
    pub counted : count c h generate left t ≡ count c h generate left s + 1
    pub hashed : IsHashed t
    pub not_read : (w : c.World) → lookup_by_id c h generate left id t w ≡ some (none, w)
    pub not_found : lookup_id_by_location c h generate left location t ≡ 0

  insert_hash-some :
      (id : ℕ) (hash : CString) (t t' : h.Table)
      → insert_hash c h generate left id hash t ≡ some t'
      → (lookup h id t ≡ none) × (t' ≡ h.insert id hash t)
  unfolding insert_hash
  insert_hash-some id hash t t' e = elim (Option-cases (lookup h id t)) [
    | inl q ↦ let k : some (h.insert id hash t) ≡ some t' = rw (q, insert_hash) at e in (q, cc)
    | inr (old, q) ↦ let k : none ≡ some t' = rw (q, insert_hash) at e in cc
  ]

  insert-IsHashed :
      (id : ℕ) (u : CString) (s : State c h generate left)
      → IsHashed s
      → (j : ℕ) (val : CString) → lookup h j (h.insert id (generate u) s.db) ≡ some val
      → (v : CString) × (val ≡ generate v)
  insert-IsHashed id u s k j val e = elim (Bool-cases (id == j)) [
    | inl q ↦ let f = rw (lookup-insert h id j (generate u) s.db, q) at e in (u, cc)
    | inr q ↦ k j val (rw (lookup-insert h id j (generate u) s.db, q) at e)
  ]

  module _ (is_hex : (u : CString) → All IsHexDigit (generate u)) where
    not_there :
        (location : CString) (s : State c h generate left)
        → IsHashed s
        → HasOther location
        → lookup_id_by_location c h generate left location s ≡ 0
    unfolding lookup_id_by_location lookup
    not_there location s k other =
        find_hash-zero location (h.entries s.db) (h.distinct s.db) λ id val f same.
          let (u, e) = k id val f in hash-HasOther (generate u) (is_hex u) (rw (sym e ∙ same) other)

    -- A hash is no name of a cache file of a record, which has a dot.
    hash-IsOther :
        (lib : HashLib) (source : Source) (dir u : CString)
        → IsOther lib source dir (in_dir dir (generate u))
    hash-IsOther lib source dir u d e =
        let name : b'/' ∷ generate u ≡ b'/' ∷ (lib.to_string d ++ extension cache_type_record) =
          append_cancel_left dir _ _ e in
        let body : generate u ≡ lib.to_string d ++ extension cache_type_record = ground arith in
        hash-HasOther (generate u) (is_hex u) (lib.to_string d, b'.', _, body, dot_other)

    not_read_back :
        (id : ℕ) (hash dir : CString) (t : State c h generate left) (w : c.World)
        → t.has_factory ≡ true
        → t.db_dir ≡ some dir
        → lookup h id t.db ≡ some hash
        → t.disk.files (in_dir dir hash) ≡ none
        → lookup_by_id c h generate left id t w ≡ some (none, w)
    unfolding lookup_by_id load_hash load_cached_record read_cached
    not_read_back id hash dir t w f d k n = rw (f, d, k, n) refl

    module _ (lib : HashLib) (source : Source) where
      or_none-ok :
          (o : Outcome Disk) (d : Disk) → or_none c h generate left lib source o ≡ some d → o ≡ ok d
      unfolding or_none
      or_none-ok (ok disk) d e = ap ok cc
      or_none-ok (refused r) d e = cc
      or_none-ok fault d e = cc

      after_add : c.Record → CString → Disk → State c h generate left → State c h generate left
      after_add r location disk s = record s {
        db = h.insert s.nextid (generate location) s.db;
        nextid = (s.nextid + 2 ^ 32 - 1) % 2 ^ 32;
        disk = disk;
      }

      after_add-IsLost :
          (r : c.Record) (location dir : CString) (blob : Bytes) (s : State c h generate left)
          (disk : Disk)
          → IsHashed s
          → HasOther location
          → s.has_factory ≡ true
          → s.db_dir ≡ some dir
          → s.disk.files (in_dir dir (generate location)) ≡ none
          → cache_store lib source dir location blob s.disk ≡ ok disk
          → lookup h s.nextid s.db ≡ none
          → IsLost location s.nextid s (after_add r location disk s)
      unfolding after_add count
      after_add-IsLost r location dir blob s disk k other f d n e free =
          let t = after_add r location disk s in
          let there : lookup h s.nextid t.db ≡ some (generate location) =
            lookup-insert h s.nextid s.nextid (generate location) s.db
            ∙ rw ((==_iff s.nextid s.nextid).1 refl) refl in
          let hashed = insert-IsHashed s.nextid location s k in
          record {
            in_table = there;
            counted = size-insert h s.nextid (generate location) s.db ∙ rw free (omega arith);
            hashed = hashed;
            not_read = λ w. not_read_back s.nextid (generate location) dir t w f d there (
                cache_store-other lib source dir location (in_dir dir (generate location)) blob
                  s.disk disk e (hash-IsOther lib source dir location)
                ∙ n);
            not_found = not_there location t hashed other;
          }

      -- Where a record is added whose location has a character that is no hexadecimal digit, as a
      -- URI has with its colon, to a database with a factory and a directory in which no file has
      -- the location's hash as its name, and where every text of the table is a hash: the hash of
      -- the location is in the table under the new id, and there is one record more; but a lookup
      -- of the id gives NULL, and a search for the location gives 0.
      pub add-IsLost :
          (r : c.Record) (location dir : CString) (id : ℕ) (s t : State c h generate left)
          → IsHashed s
          → c.location r ≡ some location
          → HasOther location
          → s.has_factory ≡ true
          → s.db_dir ≡ some dir
          → s.disk.files (in_dir dir (generate location)) ≡ none
          → add c h generate left lib source r s ≡ some (id, t)
          → IsLost location id s t
      unfolding add add_with_id after_add
      add-IsLost r location dir id s t k l other f d n e =
          let (l', i1, e1) = >>=_some (c.location r) _ e in
          let (d', i2, e2) = >>=_some s.db_dir _ e1 in
          let (blob, i3, e3) = >>=_some (c.to_blob r) _ e2 in
          let (disk, i4, e4) =
            >>=_some
              (or_none c h generate left lib source (cache_store lib source d' l' blob s.disk)) _
              e3 in
          let (tab, i5, e5) =
            >>=_some (insert_hash c h generate left s.nextid (generate l') s.db) _ e4 in
          let (free, ti) = insert_hash-some s.nextid (generate l') s.db tab i5 in
          let same_l : l' ≡ location = cc in
          let same_d : d' ≡ dir = cc in
          let (ids, ts1) = some_pair e5 in
          let ts : t ≡ after_add r location disk s =
            ts1
            ∙ ap
                (λ (x : h.Table). record s {
                  db = x;
                  nextid = (s.nextid + 2 ^ 32 - 1) % 2 ^ 32;
                  disk = disk;
                })
                (ti ∙ ap (λ (u : CString). h.insert s.nextid (generate u) s.db) same_l) in
          let stored : cache_store lib source dir location blob s.disk ≡ ok disk =
            rw (same_d, same_l) at
              (or_none-ok (cache_store lib source d' l' blob s.disk) disk i4) in
          rw (ids, ts) (after_add-IsLost r location dir blob s disk k other f d n stored free)
