-- ===== src/BdbDb/Stored.antt =====
-- What adding leaves in the file, and what a new process makes of it:
-- src/dmapd-dmap-db-bdb.c, add, count and constructor.
use dmapd.Prelude.{
  ℕ, ◌+◌, ◌-◌, ◌≤◌, ◌<◌, ◌≡◌, ◌≢◌, refl, Bool, false, ==_iff, ◌∙◌, sym, ap, some, CString, Bytes,
  ◌==◌, ◌>>=◌, >>=_some, arith,
}
use dmapd.RecordClass.{RecordClass}
use dmapd.GhashtableDb.{max_id}
use dmapd.BdbDb.{
  Btree, State, get_blob, count, add_with_id, add, previous, constructor, lookup_id_by_location,
  search,
}

module _ (c : RecordClass) (b : Btree)
    (left : Bytes → c.World × c.Record → c.World × c.Record) where
  -- The record's blob is stored under the id, nothing else has changed in the file, and there is
  -- one record more.
  pub record Stored (r : c.Record) (id : ℕ) (s t : State c b left) : Type 0 where
    pub is_next : id ≡ s.nextid
    pub blob : Bytes
    pub written : c.to_blob r ≡ some blob
    pub there : get_blob c b left id t ≡ some blob
    pub others : (j : ℕ) → j ≢ id → get_blob c b left j t ≡ get_blob c b left j s
    pub next : t.nextid ≡ s.nextid - 1
    pub counted : count c b left t ≡ count c b left s + 1

  after_put : State c b left → b.Table → State c b left
  after_put s db = record s { db = some db; nextid = previous c b left s.nextid }

  put-Stored :
      (r : c.Record) (s : State c b left) (blob : Bytes) (old db : b.Table)
      → 0 < s.nextid
      → s.nextid ≤ max_id
      → c.to_blob r ≡ some blob
      → s.db ≡ some old
      → b.put s.nextid blob old ≡ some db
      → Stored r s.nextid s (after_put s db)
  unfolding after_put get_blob count
  put-Stored r s blob old db pos le i j k = record {
    is_next = refl;
    blob = blob;
    written = i;
    there = b.get-put s.nextid s.nextid blob old db k ∙ rw ((==_iff s.nextid s.nextid).1 refl) refl;
    others = λ n ne.
        let q : (s.nextid == n) ≡ false = ground arith in
        b.get-put s.nextid n blob old db k ∙ rw (q, j) refl;
    next = omega arith;
    counted = omega arith;
  }

  -- Where a record is added, in a process whose next id is above 0 and not above G_MAXINT: the id
  -- is the next one, the file has the record's blob under it and is otherwise as before, the next
  -- id goes down by one and the count up by one.
  pub add-Stored :
      (r : c.Record) (id : ℕ) (s t : State c b left)
      → 0 < s.nextid
      → s.nextid ≤ max_id
      → add c b left r s ≡ some (id, t)
      → Stored r id s t
  unfolding add add_with_id after_put
  add-Stored r id s t pos le e =
      let (blob, i, j) = >>=_some (c.to_blob r) _ e in
      let (db, k, m) = >>=_some (s.db >>= b.put s.nextid blob) _ j in
      let (old, p, q) = >>=_some s.db (b.put s.nextid blob) k in
      let ids : id ≡ s.nextid = cc in
      let ts : t ≡ after_put s db = cc in rw (ids, ts) (put-Stored r s blob old db pos le i p q)

  -- A process that has added nothing yet, and opens a file: whatever the file holds, the count is
  -- 0 and every search for a location finds nothing; and where a record is added, it takes the
  -- place of what the file had under the id G_MAXINT.
  pub constructor-Forgets :
      (file : b.Table) (has_factory : Bool) (s : State c b left)
      → s.nextid ≡ max_id
      → let o = constructor c b left file has_factory s in
        (count c b left o ≡ 0)
        × ((location : CString) → lookup_id_by_location c b left location o ≡ some (0, s.world))
        × ((r : c.Record) (id : ℕ) (t : State c b left)
            → add c b left r o ≡ some (id, t)
            → (id ≡ max_id) × (get_blob c b left max_id t ≡ c.to_blob r))
  unfolding constructor count lookup_id_by_location search
  constructor-Forgets file has_factory s e =
      let o = constructor c b left file has_factory s in
      let n : o.nextid ≡ max_id = rw e refl in
      (
        rw e refl,
        λ location. rw e refl,
        λ r id t k.
            let m = add-Stored r id o t (omega arith) (omega arith) k in
            let i : id ≡ max_id = m.is_next ∙ n in
            (i, ap (λ j. get_blob c b left j t) (sym i) ∙ m.there ∙ sym m.written),
      )
