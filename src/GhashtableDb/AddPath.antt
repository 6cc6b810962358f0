-- ===== src/GhashtableDb/AddPath.antt =====
-- Adding a media file: src/dmapd-dmap-db-ghashtable.c, add_path.
use dmapd.Prelude.{
  ℕ, ◌<◌, ◌≡◌, ◌≢◌, ◌⊎◌, refl, sym, ap, Bool, true, false, Option, none, some, List, [], ◌∷◌,
  CString, str_eq, str_eq_iff, arith, Bool-cases, inl, inr, some_of_if, ◌>>=◌, if◌then◌else◌,
}
use dmapd.FileHash.{HashLib, Source}
use dmapd.RecordClass.{RecordClass}
use dmapd.GhashtableDb.{
  RecordTable, State, lookup_by_id, count, find_format, is_acceptable, add, add_accepted, add_path,
  give_back,
}
use dmapd.GhashtableDb.Ids.{IsAllocated, Added, add-Added}

abbrev pub Among : CString → List CString → Type 0
Among x [] = ⊥
Among x (f ∷ l) = (f ≡ x) ⊎ Among x l

-- No list of formats accepts every record; a list, the records whose format stands in it.
abbrev pub Accepts : List CString → Option CString → Type 0
Accepts [] format = Unit
Accepts (f ∷ l) none = ⊥
Accepts (f ∷ l) (some x) = Among x (f ∷ l)

module _ (c : RecordClass) (h : RecordTable c) (lib : HashLib) (source : Source) where
  find_format-Among :
      (x : CString) (l : List CString) → find_format c h lib source x l ≡ true → Among x l
  unfolding find_format
  find_format-Among x [] e = cc
  find_format-Among x (f ∷ l) e = elim (Bool-cases (str_eq f x)) [
    | inl q ↦ inl ((str_eq_iff f x).0 q)
    | inr q ↦ inr (find_format-Among x l (rw q at e))
  ]

  find_format-not_Among :
      (x : CString) (l : List CString) → find_format c h lib source x l ≡ false → ¬ Among x l
  unfolding find_format
  find_format-not_Among x [] e m = m
  find_format-not_Among x (f ∷ l) e (inl q) = let k = (str_eq_iff f x).1 q in ground arith
  find_format-not_Among x (f ∷ l) e (inr m) = find_format-not_Among x l (ground arith) m

  is_acceptable-Accepts :
      (l : List CString) (format : Option CString)
      → is_acceptable c h lib source l format ≡ some true
      → Accepts l format
  unfolding is_acceptable
  is_acceptable-Accepts [] format e = tt
  is_acceptable-Accepts (f ∷ l) none e = cc
  is_acceptable-Accepts (f ∷ l) (some x) e = find_format-Among x (f ∷ l) (ground arith)

  is_acceptable-not_Accepts :
      (l : List CString) (format : Option CString)
      → is_acceptable c h lib source l format ≡ some false
      → ¬ Accepts l format
  unfolding is_acceptable
  is_acceptable-not_Accepts [] format e = cc
  is_acceptable-not_Accepts (f ∷ l) none e = cc
  is_acceptable-not_Accepts (f ∷ l) (some x) e = find_format-not_Among x (f ∷ l) (ground arith)

  -- Nothing but the world has changed.
  pub record Untouched (s t : State c h) : Type 0 where
    pub object : t.object ≡ s.object
    pub nextid : t.nextid ≡ s.nextid
    pub disk : t.disk ≡ s.disk

  -- What the record that the factory made leads to.
  abbrev pub Skipped : Option c.Record → State c h → ℕ → State c h → Type 0
  Skipped none s id t = (id ≡ 0) × Untouched s t
  Skipped (some r) s id t =
      (id ≡ 0) × Untouched s t × ¬ Accepts s.object.acceptable_formats (c.format r)

  abbrev pub Taken : Option c.Record → State c h → ℕ → State c h → Type 0
  Taken none s id t = ⊥
  Taken (some r) s id t =
      (id ≢ 0) × Added c h r id s t × Accepts s.object.acceptable_formats (c.format r)

  Untouched-world : (s t : State c h) (w : c.World) → record s { world = w } ≡ t → Untouched s t
  Untouched-world s t w e = record {
    object = ap (λ (x : State c h). x.object) (sym e);
    nextid = ap (λ (x : State c h). x.nextid) (sym e);
    disk = ap (λ (x : State c h). x.disk) (sym e);
  }

  give_back-Untouched :
      (s t : State c h) (id : ℕ) (o : Option c.World)
      → ◌>>=◌ {B = ℕ × State c h} o (λ w. some (0, record s { world = w })) ≡ some (id, t)
      → (id ≡ 0) × Untouched s t
  give_back-Untouched s t id none e = cc
  give_back-Untouched s t id (some w) e =
      let i : 0 ≡ id = cc in
      let j : record s { world = w } ≡ t = cc in (sym i, Untouched-world s t w j)

  decided :
      (r : c.Record) (s t : State c h) (id : ℕ) (o : Option Bool)
      → is_acceptable c h lib source s.object.acceptable_formats (c.format r) ≡ o
      → IsAllocated c h s
      → 0 < s.nextid
      → (o >>= λ accept. if accept then add c h lib source r s else give_back c h lib source r s)
        ≡ some (id, t)
      → Skipped (some r) s id t ⊎ Taken (some r) s id t
  decided r s t id none a k pos e = cc
  decided r s t id (some true) a k pos e =
      let x = add-Added c h lib source r s t id k pos e in
      let i = x.is_next in inr (λ z. ground arith, x, is_acceptable-Accepts _ _ a)
  decided r s t id (some false) a k pos e =
      let (i, u) = give_back-Untouched s t id (c.finalize r s.world) e in
      inl (i, u, is_acceptable-not_Accepts _ _ a)

  add_accepted-outcome :
      (o : Option c.Record) (s t : State c h) (id : ℕ)
      → IsAllocated c h s
      → 0 < s.nextid
      → add_accepted c h lib source o s ≡ some (id, t)
      → Skipped o s id t ⊎ Taken o s id t
  unfolding add_accepted
  add_accepted-outcome none s t id k pos e =
      let i : 0 ≡ id = cc in let j : s ≡ t = cc in inl (sym i, Untouched-world s t s.world j)
  add_accepted-outcome (some r) s t id k pos e = decided r s t id _ refl k pos e

  pub Added-world :
      (r : c.Record) (s t : State c h) (w : c.World) {id : ℕ}
      → Added c h r id (record s { world = w }) t
      → Added c h r id s t
  unfolding lookup_by_id count
  Added-world r s t w a = record {
    is_next = a.is_next;
    next = a.next;
    absent = a.absent;
    there = a.there;
    others = a.others;
    counted = a.counted;
    allocated = a.allocated;
  }

  -- How add_path ends: with id 0 and nothing changed in the database, where the factory made no
  -- record or one that is not accepted, or with a new id for an accepted record.
  abbrev pub Ends : CString → State c h → ℕ → State c h → Type 0
  Ends path s id t =
      (o : Option c.Record) × (w : c.World) × (c.create (some path) s.world ≡ some (o, w))
      × (Skipped o s id t ⊎ Taken o s id t)

  same_world :
      (o : Option c.Record) (s t : State c h) (w : c.World) (id : ℕ)
      → Skipped o (record s { world = w }) id t ⊎ Taken o (record s { world = w }) id t
      → Skipped o s id t ⊎ Taken o s id t
  same_world none s t w id (inl (i, u)) =
      inl (i, record { object = u.object; nextid = u.nextid; disk = u.disk })
  same_world none s t w id (inr x) = absurd x
  same_world (some r) s t w id (inl (i, u, n)) =
      inl (i, record { object = u.object; nextid = u.nextid; disk = u.disk }, n)
  same_world (some r) s t w id (inr (i, a, y)) = inr (i, Added-world r s t w a, y)

  created :
      (path : CString) (s t : State c h) (id : ℕ) (x : Option (Option c.Record × c.World))
      → c.create (some path) s.world ≡ x
      → IsAllocated c h s
      → 0 < s.nextid
      → (x >>= λ y. add_accepted c h lib source y.0 (record s { world = y.1 })) ≡ some (id, t)
      → Ends path s id t
  created path s t id none f k pos e = cc
  created path s t id (some (o, w)) f k pos e = (
    o,
    w,
    f,
    same_world o s t w id (
        add_accepted-outcome o (record s { world = w }) t id
          (record { next = k.next; used = k.used }) pos e),
  )

  -- Where add_path returns, with the ids in use above the next one and that not 0: the factory was
  -- called on the path. If it made no record, or one whose format is not in the list of acceptable
  -- formats, where there is such a list, the id is 0 and the table, the next id and the disk are
  -- as they were. Otherwise the id is not 0, it is the new id of the record, and the record is
  -- acceptable.
  pub add_path-Ends :
      (path : CString) (s t : State c h) (id : ℕ)
      → IsAllocated c h s
      → 0 < s.nextid
      → add_path c h lib source path s ≡ some (id, t)
      → Ends path s id t
  unfolding add_path
  add_path-Ends path s t id k pos e =
      created path s t id _ refl k pos (some_of_if s.object.has_factory _ e)
