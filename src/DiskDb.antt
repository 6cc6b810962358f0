-- ===== src/DiskDb.antt =====
-- src/dmapd-dmap-db-disk.c: the database that keeps only the hashes of its records in memory. The
-- hash of libdmapsharing is a parameter. The table's values are texts, which the code gives to
-- g_object_unref where they are dropped.
pub mod Lost
pub mod Tests
use dmapd.Prelude.{
  ℕ, ◌+◌, ◌-◌, ◌%◌, ◌^◌, Bool, Option, none, some, List, [], ◌∷◌, CString, Bytes, str_eq, ◌==◌,
  if◌then◌else◌, ◌>>=◌,
}
use dmapd.Blob.{Outcome, ok, refused, fault}
use dmapd.HashTable.{HashTable, lookup, size}
use dmapd.FileHash.{HashLib, Source}
use dmapd.Cache.{Disk, in_dir, cache_store}
use dmapd.RecordClass.{RecordClass, fill}

abbrev pub HashesTable : Type 1
HashesTable = HashTable ℕ CString ◌==◌

module _ (c : RecordClass) (h : HashesTable) (generate : CString → CString)
    (left : Bytes → c.World × c.Record → c.World × c.Record) where
  pub record State : Type 0 where
    pub db : h.Table
    pub db_dir : Option CString
    pub has_factory : Bool
    pub nextid : ℕ
    pub disk : Disk
    pub world : c.World

  -- A record, or NULL, which is the caller's, and what the records share.
  abbrev pub Found : Type 0
  Found = Option c.Record × c.World

  unfoldable pub read_cached : Option Bytes → c.World → Option Found
  read_cached none w = some (none, w)
  read_cached (some blob) w = c.create none w >>= fill c left blob

  unfoldable pub load_cached_record : CString → CString → Disk → c.World → Option Found
  unfolding read_cached
  load_cached_record db_dir hash disk w = read_cached (disk.files (in_dir db_dir hash)) w

  unfoldable pub load_hash : CString → Option CString → Disk → c.World → Option Found
  unfolding load_cached_record
  load_hash db_dir none disk w = some (none, w)
  load_hash db_dir (some hash) disk w = load_cached_record db_dir hash disk w

  -- A database without a factory or a directory is a failed assertion.
  unfoldable pub lookup_by_id : ℕ → State → c.World → Option Found
  unfolding load_hash
  lookup_by_id id s w =
      if s.has_factory
      then (s.db_dir >>= λ db_dir. load_hash db_dir (lookup h id s.db) s.disk w)
      else none

  -- g_hash_table_find with hash_match, whose hash is the location itself
  unfoldable pub find_hash : CString → List (ℕ × CString) → ℕ
  find_hash location [] = 0
  find_hash location ((id, val) ∷ rest) =
      let others = find_hash location rest in if str_eq val location then id else others

  unfoldable pub lookup_id_by_location : CString → State → ℕ
  unfolding find_hash
  lookup_id_by_location location s = find_hash location (h.entries s.db)

  unfoldable pub visit :
      {A : Type 0} → (ℕ → c.Record → A → A) → ℕ → A → Found → Option (A × c.World)
  visit func id seed (none, w) = some (seed, w)
  visit func id seed (some r, w) = c.finalize r w >>= λ w'. some (func id r seed, w')

  unfoldable pub visit_all :
      {A : Type 0}
      → (ℕ → c.Record → A → A)
      → List (ℕ × CString)
      → A
      → State
      → c.World
      → Option (A × c.World)
  unfolding visit lookup_by_id
  visit_all func [] seed s w = some (seed, w)
  visit_all func ((id, val) ∷ rest) seed s w =
      lookup_by_id id s w >>= visit func id seed >>= λ x. visit_all func rest x.0 s x.1

  unfoldable pub foreach : {A : Type 0} → (ℕ → c.Record → A → A) → A → State → Option (A × c.World)
  unfolding visit_all
  foreach func seed s = visit_all func (h.entries s.db) seed s s.world

  unfoldable pub count : State → ℕ
  count s = size h s.db

  -- g_hash_table_insert. The text that a key had is given to g_object_unref, which is `none`.
  unfoldable pub insert_hash : ℕ → CString → h.Table → Option h.Table
  insert_hash id hash t = elim (lookup h id t) [
    | none ↦ some (h.insert id hash t)
    | some old ↦ none
  ]

  module _ (lib : HashLib) (source : Source) where
    unfoldable pub or_none : Outcome Disk → Option Disk
    or_none (ok disk) = some disk
    or_none (refused r) = none
    or_none fault = none

    -- A record without a location, or a database without a directory, is an abort.
    unfoldable pub add_with_id : c.Record → ℕ → State → Option (ℕ × State)
    unfolding or_none insert_hash
    add_with_id r id s = c.location r >>= λ location. s.db_dir >>= λ db_dir. c.to_blob r >>= λ blob.
        or_none (cache_store lib source db_dir location blob s.disk) >>= λ disk.
        insert_hash id (generate location) s.db >>= λ t. some (id, record s { db = t; disk = disk })

    -- nextid-- on a guint
    unfoldable pub add : c.Record → State → Option (ℕ × State)
    unfolding add_with_id
    add r s = add_with_id r s.nextid (record s { nextid = (s.nextid + 2 ^ 32 - 1) % 2 ^ 32 })

    unfoldable pub add_created : Option c.Record → State → Option (ℕ × State)
    unfolding add
    add_created none s = some (0, s)
    add_created (some r) s =
        add r s >>= λ x. c.finalize r x.1.world >>= λ w. some (x.0, record (x.1) { world = w })

    unfoldable pub add_path : CString → State → Option (ℕ × State)
    unfolding add_created
    add_path path s =
        if s.has_factory
        then (c.create (some path) s.world >>= λ x. add_created x.0 (record s { world = x.1 }))
        else none

    -- g_object_new: an empty table
    unfoldable pub constructor : Option CString → Bool → State → State
    constructor db_dir has_factory s = record s {
      db = h.empty;
      db_dir = db_dir;
      has_factory = has_factory;
    }

  -- The table's texts are given to g_object_unref, which is `none`.
  unfoldable pub finalize_texts : List (ℕ × CString) → Option (List (ℕ × CString))
  finalize_texts [] = some []
  finalize_texts (x ∷ rest) = none

  unfoldable pub finalize : State → Option State
  unfolding finalize_texts
  finalize s = finalize_texts (h.entries s.db) >>= λ l. some (record s { db = h.empty })
