-- ===== src/GhashtableDb/Ids.antt =====
-- The ids that the database hands out: src/dmapd-dmap-db-ghashtable.c, add and nextid.
use mathlib.Core.Path.{subst₂}
use dmapd.Prelude.{
  ℕ, ◌+◌, ◌-◌, ◌<◌, ◌≤◌, ◌≡◌, ◌≢◌, refl, Option, none, some, arith, ◌==◌, ==_iff, Bool-cases, inl,
  inr, ◌>>=◌, if◌then◌else◌,
}
use dmapd.HashTable.{lookup}
use dmapd.HashTable.Laws.{lookup-insert, size-insert}
use dmapd.FileHash.{HashLib, Source}
use dmapd.Cache.{Disk}
use dmapd.RecordClass.{RecordClass}
use dmapd.GhashtableDb.{
  RecordTable, State, max_id, previous, insert_record, lookup_by_id, count, add_with_id, add,
  store_record,
}

module _ (c : RecordClass) (h : RecordTable c) where
  -- Every id in use lies above the next one, up to G_MAXINT.
  pub record IsAllocated (s : State c h) : Type 0 where
    pub next : s.nextid ≤ max_id
    pub used :
        (id : ℕ) (r : Option c.Record)
        → lookup h id s.object.db ≡ some r
        → (s.nextid < id) × (id ≤ max_id)

  -- `id` is new and names `r` in `t`; the other ids name what they named in `s`.
  pub record Added (r : c.Record) (id : ℕ) (s t : State c h) : Type 0 where
    pub is_next : id ≡ s.nextid
    pub next : t.nextid ≡ s.nextid - 1
    pub absent : lookup_by_id c h id s ≡ none
    pub there : lookup_by_id c h id t ≡ some r
    pub others : (j : ℕ) → j ≢ id → lookup_by_id c h j t ≡ lookup_by_id c h j s
    pub counted : count c h t ≡ count c h s + 1
    pub allocated : IsAllocated t

  unused : (s : State c h) → IsAllocated s → lookup h s.nextid s.object.db ≡ none
  unused s k = go (lookup h s.nextid s.object.db) refl
    where
      go :
          (o : Option (Option c.Record))
          → lookup h s.nextid s.object.db ≡ o
          → lookup h s.nextid s.object.db ≡ none
      go none e = e
      go (some r) e = let (lo, hi) = k.used s.nextid r e in absurd (omega arith)

  used_after :
      (r : c.Record) (s : State c h) (k : IsAllocated s) (id : ℕ) (x : Option c.Record) {n : ℕ}
      → n ≡ s.nextid - 1
      → 0 < s.nextid
      → (if s.nextid == id then some (some r) else lookup h id s.object.db) ≡ some x
      → (n < id) × (id ≤ max_id)
  used_after r s k id x e pos f = elim (Bool-cases (s.nextid == id)) [
    | inl q ↦ let i = (==_iff s.nextid id).0 q in let n = k.next in (omega arith, omega arith)
    | inr q ↦ let (lo, hi) = k.used id x (rw q at f) in (omega arith, hi)
  ]

  insert_next-Added :
      (r : c.Record) (s : State c h) (disk : Disk)
      → IsAllocated s
      → 0 < s.nextid
      → Added r s.nextid s (
          insert_record c h s.nextid
            (some r)
            (record s { nextid = previous c h s.nextid; disk = disk }))
  unfolding lookup_by_id count
  insert_next-Added r s disk k pos =
      let e : previous c h s.nextid ≡ s.nextid - 1 = (let n = k.next in omega arith) in
      record {
        is_next = refl;
        next = e;
        absent = rw (unused s k);
        there = rw (lookup-insert h s.nextid s.nextid (some r) s.object.db) (ground arith);
        others = λ j n. rw (lookup-insert h s.nextid j (some r) s.object.db) (ground arith);
        counted = rw (size-insert h s.nextid (some r) s.object.db, unused s k) (omega arith);
        allocated = record {
          next = (let n = k.next in omega (arith, e));
          used = λ id x f.
              used_after r s k id x e pos
                (rw (lookup-insert h s.nextid id (some r) s.object.db) at f);
        };
      }

  module _ (lib : HashLib) (source : Source) where
    stored-Added :
        (r : c.Record) (s t : State c h) (id : ℕ) (o : Option Disk)
        → IsAllocated s
        → 0 < s.nextid
        → ◌>>=◌ {B = ℕ × State c h} o (λ disk. some (
            add_with_id c h
              (some r)
              s.nextid
              (record s { nextid = previous c h s.nextid; disk = disk })))
          ≡ some (id, t)
        → Added r id s t
    unfolding add_with_id
    stored-Added r s t id none k pos e = cc
    stored-Added r s t id (some disk) k pos e =
        let i : s.nextid ≡ id = cc in
        let j : insert_record c h s.nextid (some r)
              (record s { nextid = previous c h s.nextid; disk = disk })
            ≡ t =
          cc in
        subst₂ (λ x y. Added r x s y) i j (insert_next-Added r s disk k pos)

    -- Where add returns, with the ids in use above the next one and that not 0: the id is the next
    -- one, which was free, and it now names the record; every other id names what it named, there
    -- is one record more, and the ids in use are again above the next one, which is one less.
    pub add-Added :
        (r : c.Record) (s t : State c h) (id : ℕ)
        → IsAllocated s
        → 0 < s.nextid
        → add c h lib source r s ≡ some (id, t)
        → Added r id s t
    unfolding add
    add-Added r s t id k pos e =
        stored-Added r s t id (store_record c h lib source s.object.db_dir r s.disk) k pos e
