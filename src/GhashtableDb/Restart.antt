-- ===== src/GhashtableDb/Restart.antt =====
-- A database as it is after its constructor: src/dmapd-dmap-db-ghashtable.c.
use mathlib.Core.Path.{subst}
use dmapd.Prelude.{
  ℕ, ◌+◌, ◌≤◌, ◌<◌, ◌≡◌, ◌⊎◌, refl, sym, ap, ◌∙◌, Bool, true, false, Option, none, some, List, [],
  ◌∷◌, CString, Bytes, length, arith, ◌==◌, ==_iff, Bool-cases, Option-cases, inl, inr,
  if◌then◌else◌,
}
use dmapd.Blob.{ok}
use dmapd.HashTable.Laws.{lookup-empty, size-empty}
use dmapd.FileHash.{HashLib, Source}
use dmapd.RecordClass.{RecordClass}
use dmapd.GhashtableDb.{RecordTable, State, max_id, lookup_by_id, count}
use dmapd.GhashtableDb.Ids.{IsAllocated, Added}
use dmapd.GhashtableDb.Load.{Loads, passed_over, no_record, stale, taken, load_entry-Loads}
use dmapd.GhashtableDb.Cached.{
  load_entry, load_entries, load_names, load_cached_records, load_from, constructor,
}

module _ (c : RecordClass) (h : RecordTable c) (lib : HashLib) (source : Source)
    (P : c.Record → Type 0) where
  -- What set_from_blob accepts has the property.
  abbrev pub Ensures : Type 0
  Ensures =
      (blob : Bytes) (r r' : c.Record) (w w' : c.World)
      → c.set_from_blob blob (w, r) ≡ ok (w', r')
      → P r'

  -- From `s` to `t` the records of the database stay, and the new ones have the property. Each
  -- takes one id.
  pub record Grows (s t : State c h) : Type 0 where
    pub allocated : IsAllocated c h t
    pub kept :
        (id : ℕ) (r : c.Record) → lookup_by_id c h id s ≡ some r → lookup_by_id c h id t ≡ some r
    pub fresh :
        (id : ℕ) (r : c.Record)
        → lookup_by_id c h id t ≡ some r
        → (lookup_by_id c h id s ≡ some r) ⊎ P r
    pub conserved : count c h t + t.nextid ≡ count c h s + s.nextid

  Kept-Grows :
      (s t : State c h) → IsAllocated c h s → t.object ≡ s.object → t.nextid ≡ s.nextid → Grows s t
  unfolding lookup_by_id count
  Kept-Grows s t k o n = record {
    allocated = record { next = rw n (k.next); used = λ id r e. rw n (k.used id r (rw o at e)) };
    kept = λ id r e. rw o e;
    fresh = λ id r e. inl (rw o at e);
    conserved = rw (o, n);
  }

  same-Grows : (s t : State c h) → IsAllocated c h s → some s ≡ some t → Grows s t
  same-Grows s t k e =
      let j : t ≡ s = ground arith in
      Kept-Grows s t k (ap (λ (x : State c h). x.object) j) (ap (λ (x : State c h). x.nextid) j)

  Added-Grows :
      (r : c.Record) (id : ℕ) (s t : State c h)
      → 0 < s.nextid
      → P r
      → Added c h r id s t
      → Grows s t
  Added-Grows r id s t pos p a = record {
    allocated = a.allocated;
    kept = λ j x e. elim (Bool-cases (j == id)) [
      | inl q ↦ let i = (==_iff j id).0 q in let absent = a.absent in cc
      | inr q ↦ a.others j (λ i. ground (arith, (==_iff j id).1 i)) ∙ e
    ];
    fresh = λ j x e. elim (Bool-cases (j == id)) [
      | inl q ↦
          let i = (==_iff j id).0 q in
          let y : some r ≡ some x = sym a.there ∙ ap (λ n. lookup_by_id c h n t) (sym i) ∙ e in
          let z : r ≡ x = ground arith in inr (subst P z p)
      | inr q ↦ inl (sym (a.others j (λ i. ground (arith, (==_iff j id).1 i))) ∙ e)
    ];
    conserved = (let n = a.next in let m = a.counted in omega arith);
  }

  Loads-Grows :
      (path : CString) (s t : State c h)
      → Ensures
      → IsAllocated c h s
      → 0 < s.nextid
      → Loads c h lib source path s t
      → Grows s t × (s.nextid ≤ t.nextid + 1)
  Loads-Grows path s t ens k pos (passed_over why e) =
      let n = ap (λ (x : State c h). x.nextid) e in
      (Kept-Grows s t k (ap (λ (x : State c h). x.object) e) n, omega arith)
  Loads-Grows path s t ens k pos (no_record blob w f v m x) =
      (Kept-Grows s t k x.object x.nextid, let n = x.nextid in omega arith)
  Loads-Grows path s t ens k pos (stale blob r w reason f v m e x) =
      (Kept-Grows s t k x.object x.nextid, let n = x.nextid in omega arith)
  Loads-Grows path s t ens k pos (taken blob r r' w w' id f v m e a) =
      (Added-Grows r' id s t pos (ens blob r r' w w' e) a, let n = a.next in omega arith)

  Grows-trans : (s t u : State c h) → Grows s t → Grows t u → Grows s u
  Grows-trans s t u a b = record {
    allocated = b.allocated;
    kept = λ id r e. b.kept id r (a.kept id r e);
    fresh = λ id r e. elim (b.fresh id r e) [ inl f ↦ a.fresh id r f | inr p ↦ inr p ];
    conserved = b.conserved ∙ a.conserved;
  }

  -- The names of a directory, with an id left for each of them.
  load_entries-Grows :
      (dir : CString) (names : List CString) (s t : State c h)
      → Ensures
      → IsAllocated c h s
      → length names ≤ s.nextid
      → load_entries c h lib source dir names s ≡ some t
      → Grows s t
  unfolding load_entries
  load_entries-Grows dir [] s t ens k room e = same-Grows s t k e
  load_entries-Grows dir (entry ∷ rest) s t ens k room e =
      elim (Option-cases (load_entry c h lib source dir entry s)) [
        | inl f ↦ let x : ◌≡◌ {A = Option (State c h)} none (some t) = rw f at e in cc
        | inr (u, f) ↦
            let l = load_entry-Loads c h lib source dir entry s u k (omega arith) f in
            let (a, m) = Loads-Grows _ s u ens k (omega arith) l in
            Grows-trans s u t a
              (load_entries-Grows dir rest u t ens a.allocated (omega arith) (rw f at e))
      ]

  load_names-Grows :
      (dir : CString) (x : Option (List CString)) (s t : State c h)
      → Ensures
      → IsAllocated c h s
      → ((names : List CString) → x ≡ some names → length names ≤ s.nextid)
      → load_names c h lib source dir x s ≡ some t
      → Grows s t
  unfolding load_names
  load_names-Grows dir none s t ens k room e = same-Grows s t k e
  load_names-Grows dir (some names) s t ens k room e =
      load_entries-Grows dir names s t ens k (room names refl) e

  with_factory-Grows :
      (b : Bool) (dir : CString) (s t : State c h)
      → Ensures
      → IsAllocated c h s
      → ((names : List CString) → s.disk.names dir ≡ some names → length names ≤ s.nextid)
      → (if b then load_cached_records c h lib source dir s else some s) ≡ some t
      → Grows s t
  unfolding load_cached_records
  with_factory-Grows true dir s t ens k room e = load_names-Grows dir _ s t ens k room e
  with_factory-Grows false dir s t ens k room e = same-Grows s t k e

  load_from-Grows :
      (db_dir : Option CString) (s t : State c h)
      → Ensures
      → IsAllocated c h s
      → ((dir : CString) (names : List CString)
          → db_dir ≡ some dir
          → s.disk.names dir ≡ some names
          → length names ≤ s.nextid)
      → load_from c h lib source db_dir s ≡ some t
      → Grows s t
  unfolding load_from
  load_from-Grows none s t ens k room e = same-Grows s t k e
  load_from-Grows (some dir) s t ens k room e =
      with_factory-Grows _ dir s t ens k (λ names f. room dir names refl f) e

  -- A database that is made by its constructor, in a process whose next id is not above G_MAXINT
  -- and not below the number of names in the cache directory: each of its records has whatever
  -- property set_from_blob ensures, it has as many records as ids were taken, and its ids are
  -- above the next one.
  pub constructor-Holds :
      (db_dir : Option CString) (has_factory : Bool) (s t : State c h)
      → Ensures
      → s.nextid ≤ max_id
      → ((dir : CString) (names : List CString)
          → db_dir ≡ some dir
          → s.disk.names dir ≡ some names
          → length names ≤ s.nextid)
      → constructor c h lib source db_dir has_factory s ≡ some t
      → IsAllocated c h t
        × ((id : ℕ) (r : c.Record) → lookup_by_id c h id t ≡ some r → P r)
        × (count c h t + t.nextid ≡ s.nextid)
  unfolding constructor lookup_by_id count
  constructor-Holds db_dir has_factory s t ens n room e =
      let new : State c h = record s {
        object = record {
          db = h.empty;
          db_dir = db_dir;
          has_factory = has_factory;
          acceptable_formats = [];
        };
      } in
      let start : IsAllocated c h new = record {
        next = n;
        used = λ id r f. let z = lookup-empty h id in cc;
      } in
      let g = load_from-Grows db_dir new t ens start room e in
      let total = g.conserved in
      let none_yet = size-empty h in
      (
        g.allocated,
        λ id r f. elim (g.fresh id r f) [
          | inl q ↦ let z = lookup-empty h id in ground arith
          | inr p ↦ p
        ],
        omega arith,
      )
