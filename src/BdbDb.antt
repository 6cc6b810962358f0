-- ===== src/BdbDb.antt =====
-- src/dmapd-dmap-db-bdb.c: the database in a file of Berkeley DB. The library's table is a parameter
-- with its documented laws; a failure to open the file, which aborts, is not modelled. The counter
-- `nextid` belongs to the process, the table to the file.
pub mod Stored
pub mod Search
pub mod Tests
use dmapd.Prelude.{
  ℕ, zero, suc, ◌+◌, ◌-◌, ◌%◌, ◌^◌, ◌≡◌, Bool, true, false, Option, none, some, CString, Bytes,
  str_eq, ◌==◌, if◌then◌else◌, ◌>>=◌,
}
use dmapd.RecordClass.{RecordClass, fill}
use dmapd.GhashtableDb.{max_id}

-- A Berkeley DB table whose keys are guints. A put that fails is `none`.
pub record Btree : Type 1 where
  pub Table : Type 0
  pub get : ℕ → Table → Option Bytes
  pub put : ℕ → Bytes → Table → Option Table
  -- a put replaces what the key had, and nothing else
  pub get-put :
      (k j : ℕ) (blob : Bytes) (t t' : Table)
      → put k blob t ≡ some t'
      → get j t' ≡ (if k == j then some blob else get j t)

-- `left` is what a set_from_blob that refuses the blob leaves in the record, as for `fill`.
module _ (c : RecordClass) (b : Btree)
    (left : Bytes → c.World × c.Record → c.World × c.Record) where
  pub record State : Type 0 where
    -- `none` is a database that has not been opened
    pub db : Option b.Table
    pub has_factory : Bool
    pub nextid : ℕ
    pub world : c.World

  unfoldable pub read_blob : Bool → Option Bytes → c.World → Option (Option c.Record × c.World)
  read_blob has_factory none w = some (none, w)
  read_blob has_factory (some blob) w =
      if has_factory then (c.create none w >>= fill c left blob) else none

  unfoldable pub get_blob : ℕ → State → Option Bytes
  get_blob id s = s.db >>= b.get id

  -- `none` inside is NULL; the record is the caller's.
  unfoldable pub lookup_by_id : ℕ → State → c.World → Option (Option c.Record × c.World)
  unfolding read_blob get_blob
  lookup_by_id id s w = read_blob s.has_factory (get_blob id s) w

  -- One round of the search: whether the record is at the location. A record without a location is
  -- a failed assertion.
  unfoldable pub is_at : CString → Option c.Record × c.World → Option (Bool × c.World)
  is_at location (none, w) = some (false, w)
  is_at location (some r, w) =
      c.location r >>= λ l. c.finalize r w >>= λ w'. some (str_eq l location, w')

  -- The ids from nextid + n down to nextid + 1.
  unfoldable pub search : CString → ℕ → State → c.World → Option (ℕ × c.World)
  unfolding lookup_by_id is_at
  search location zero s w = some (0, w)
  search location (suc n) s w =
      let rest = search location n s in
      lookup_by_id (s.nextid + suc n) s w >>= is_at location >>= λ x.
      if x.0 then some (s.nextid + suc n, x.1) else rest x.1

  -- From G_MAXINT down.
  unfoldable pub lookup_id_by_location : CString → State → Option (ℕ × c.World)
  unfolding search
  lookup_id_by_location location s = search location (max_id - s.nextid) s s.world

  -- g_object_unref, which for NULL only warns
  unfoldable pub unref : Option c.Record → c.World → Option c.World
  unref none w = some w
  unref (some r) w = c.finalize r w

  unfoldable pub visit :
      {A : Type 0} → (ℕ → Option c.Record → A → A) → ℕ → A → State → c.World → Option (A × c.World)
  unfolding lookup_by_id unref
  visit func zero seed s w = some (seed, w)
  visit func (suc n) seed s w =
      let rest = visit func n in
      lookup_by_id (s.nextid + suc n) s w >>= λ x.
      unref x.0 x.1 >>= λ w'. rest (func (s.nextid + suc n) x.0 seed) s w'

  unfoldable pub foreach :
      {A : Type 0} → (ℕ → Option c.Record → A → A) → A → State → Option (A × c.World)
  unfolding visit
  foreach func seed s = visit func (max_id - s.nextid) seed s s.world

  -- G_MAXINT - nextid, on guints
  unfoldable pub count : State → ℕ
  count s = (max_id + 2 ^ 32 - s.nextid) % 2 ^ 32

  unfoldable pub add_with_id : c.Record → ℕ → State → Option (ℕ × State)
  add_with_id r id s =
      c.to_blob r >>= λ blob. s.db >>= b.put id blob >>= λ t. some (id, record s { db = some t })

  -- nextid-- on a guint
  abbrev pub previous : ℕ → ℕ
  previous id = (id + 2 ^ 32 - 1) % 2 ^ 32

  unfoldable pub add : c.Record → State → Option (ℕ × State)
  unfolding add_with_id
  add r s = add_with_id r s.nextid (record s { nextid = previous s.nextid })

  -- The database has its own copy in the file, so the record is given back.
  unfoldable pub add_created : Option c.Record → State → Option (ℕ × State)
  unfolding add
  add_created none s = some (0, s)
  add_created (some r) s =
      add r s >>= λ x. c.finalize r x.1.world >>= λ w. some (x.0, record (x.1) { world = w })

  unfoldable pub add_path : CString → State → Option (ℕ × State)
  unfolding add_created
  add_path path s =
      if s.has_factory
      then (c.create (some path) s.world >>= λ x. add_created x.0 (record s { world = x.1 }))
      else none

  -- The file is opened, in a process that is at `s`. numrec is the count that follows from nextid.
  unfoldable pub constructor : b.Table → Bool → State → State
  unfolding count
  constructor file has_factory s =
      let numrec = count s in
      record s {
        db = some file;
        has_factory = has_factory;
        nextid = (max_id + 2 ^ 32 - numrec) % 2 ^ 32;
      }
