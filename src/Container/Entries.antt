-- ===== src/Container/Entries.antt =====
-- The database of a container's entries: src/dmapd-dmap-container-record.c, get_entries.
use dmapd.Prelude.{
  ℕ, ◌+◌, ◌≡◌, ◌≢◌, refl, ap, ◌∙◌, Bool, true, false, none, some, List, [], ◌∷◌, length, arith,
  ◌==◌, if◌then◌else◌,
}
use dmapd.HashTable.{lookup, size}
use dmapd.HashTable.Laws.{lookup-empty, lookup-insert, size-empty, size-insert}
use dmapd.FileHash.{HashLib, Source}
use dmapd.RecordClass.{RecordClass}
use dmapd.GhashtableDb.{RecordTable, State, lookup_by_id, count, add_with_id}
use dmapd.GhashtableDb.Cached.{constructor, load_from}
use dmapd.Container.{ContainerRecord, add_to_db, add_all, fill_from, get_entries, get_entry_count}

abbrev pub mem : ℕ → List ℕ → Bool
mem id [] = false
mem id (x ∷ l) = if x == id then true else mem id l

-- No id stands twice.
abbrev pub NoneTwice : List ℕ → Type 0
NoneTwice [] = Unit
NoneTwice (x ∷ l) = (mem x l ≡ false) × NoneTwice l

module _ (c : RecordClass) (h : RecordTable c) (lib : HashLib) (source : Source) where
  lookup-add_to_db :
      (src dest : State c h) (item id : ℕ)
      → lookup_by_id c h id (add_to_db c h lib source src item dest)
        ≡ (if item == id then lookup_by_id c h item src else lookup_by_id c h id dest)
  unfolding add_to_db add_with_id lookup_by_id
  lookup-add_to_db src dest item id =
      rw (lookup-insert h item id (lookup_by_id c h item src) dest.object.db) (ground arith)

  lookup-add_all :
      (src dest : State c h) (l : List ℕ) (id : ℕ)
      → lookup_by_id c h id (add_all c h lib source src l dest)
        ≡ (if mem id l then lookup_by_id c h id src else lookup_by_id c h id dest)
  unfolding add_all
  lookup-add_all src dest [] id = refl
  lookup-add_all src dest (x ∷ l) id = ground (
    arith,
    lookup-add_all src (add_to_db c h lib source src x dest) l id,
    lookup-add_to_db src dest x id,
  )

  -- None of the ids of the list is in the table.
  abbrev Absent : List ℕ → State c h → Type 0
  Absent [] d = Unit
  Absent (x ∷ l) d = (lookup h x d.object.db ≡ none) × Absent l d

  Absent-add_to_db :
      (src dest : State c h) (x : ℕ) (l : List ℕ)
      → mem x l ≡ false
      → Absent l dest
      → Absent l (add_to_db c h lib source src x dest)
  unfolding add_to_db add_with_id
  Absent-add_to_db src dest x [] m a = tt
  Absent-add_to_db src dest x (y ∷ l) m a = (
    lookup-insert h x y (lookup_by_id c h x src) dest.object.db ∙ ground (arith, a.0),
    Absent-add_to_db src dest x l (ground arith) a.1,
  )

  count-add_all :
      (src dest : State c h) (l : List ℕ)
      → NoneTwice l
      → Absent l dest
      → count c h (add_all c h lib source src l dest) ≡ count c h dest + length l
  unfolding add_all add_to_db add_with_id count
  count-add_all src dest [] n a = omega arith
  count-add_all src dest (x ∷ l) n a =
      let i =
        count-add_all src (add_to_db c h lib source src x dest) l n.1
          (Absent-add_to_db src dest x l n.0 a.1) in
      let j = size-insert h x (lookup_by_id c h x src) dest.object.db in
      let k : size h (h.insert x (lookup_by_id c h x src) dest.object.db)
          ≡ size h dest.object.db + 1 =
        j ∙ ground (arith, a.0) in
      omega arith

  Absent-empty : (s : State c h) (l : List ℕ) → s.object.db ≡ h.empty → Absent l s
  Absent-empty s [] e = tt
  Absent-empty s (x ∷ l) e = (rw e (lookup-empty h x), Absent-empty s l e)

  abbrev new_db : State c h → State c h
  new_db s = record s {
    object = record { db = h.empty; db_dir = none; has_factory = false; acceptable_formats = [] };
  }

  lookup-new_db : (s : State c h) (id : ℕ) → lookup_by_id c h id (new_db s) ≡ none
  unfolding lookup_by_id
  lookup-new_db s id = rw (lookup-empty h id)

  count-new_db : (s : State c h) → count c h (new_db s) ≡ 0
  unfolding count
  count-new_db s = size-empty h

  some_entry :
      (src dest : State c h) (l : List ℕ)
      → l ≢ []
      → fill_from c h lib source src l dest ≡ some (add_all c h lib source src l dest)
  unfolding fill_from
  some_entry src dest [] n = absurd (n refl)
  some_entry src dest (x ∷ l) n = refl

  -- A container that has a media database and an entry gives a database. An id is in it with the record that the media
  -- database has under it, if it is one of the container's entries, and is else not in it. If no
  -- entry stands twice, it has as many records as the container says it has entries.
  pub get_entries_lem :
      (r : ContainerRecord) (s : State c h)
      → r.full_db ≡ true
      → r.entries ≢ []
      → (d : State c h) × (get_entries c h lib source r s ≡ some d)
        × ((id : ℕ)
            → lookup_by_id c h id d ≡ (if mem id r.entries then lookup_by_id c h id s else none))
        × (NoneTwice r.entries → count c h d ≡ get_entry_count r)
  unfolding get_entries constructor load_from get_entry_count
  get_entries_lem r s f n = (
    add_all c h lib source s r.entries (new_db s),
    rw f (some_entry s (new_db s) r.entries n),
    λ id.
        lookup-add_all s (new_db s) r.entries id
        ∙ ap (λ o. if mem id r.entries then lookup_by_id c h id s else o) (lookup-new_db s id),
    λ k.
        let n = count-add_all s (new_db s) r.entries k (Absent-empty (new_db s) r.entries refl) in
        let z = count-new_db s in omega arith,
  )
