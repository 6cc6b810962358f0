-- ===== src/GhashtableDb.antt =====
-- src/dmapd-dmap-db-ghashtable.c: the database in memory, with a copy of each record in the cache
-- directory. The counter `nextid` is one for all databases of the process.
pub mod Ids
pub mod Lookup
pub mod AddPath
pub mod Cached
pub mod Load
pub mod Stored
pub mod Restart
pub mod Tests
use dmapd.Prelude.{
  ℕ, ◌+◌, ◌-◌, ◌%◌, ◌^◌, Bool, true, false, ◌&&◌, Option, none, some, List, [], ◌∷◌, CString, Bytes,
  str_eq, has_suffix, ◌==◌, if◌then◌else◌, ◌>>=◌,
}
use dmapd.Blob.{Outcome, ok, refused, fault}
use dmapd.HashTable.{HashTable, lookup, size}
use dmapd.FileHash.{HashLib, Source}
use dmapd.Cache.{Disk, extension, cache_type_record, in_dir, cache_store}
use dmapd.RecordClass.{RecordClass}

-- G_MAXINT
abbrev pub max_id : ℕ
max_id = 2 ^ 31 - 1

-- A pointer in the table may be NULL.
abbrev pub RecordTable : RecordClass → Type 1
RecordTable c = HashTable ℕ (Option c.Record) ◌==◌

module _ (c : RecordClass) (h : RecordTable c) where
  pub record Db : Type 0 where
    pub db : h.Table
    pub db_dir : Option CString
    pub has_factory : Bool
    pub acceptable_formats : List CString

  -- The object and what it shares with the rest of the process.
  pub record State : Type 0 where
    pub object : Db
    pub open object use *
    pub nextid : ℕ
    pub disk : Disk
    pub world : c.World

  abbrev pub insert_record : ℕ → Option c.Record → State → State
  insert_record id r s = record s { object = record (s.object) { db = h.insert id r s.object.db } }

  -- NULL for an id that is not there: g_object_ref of NULL only warns.
  unfoldable pub lookup_by_id : ℕ → State → Option c.Record
  lookup_by_id id s = lookup h id s.object.db >>= λ r. r

  unfoldable pub count : State → ℕ
  count s = size h s.object.db

  -- path_match at one entry; `none` is a NULL record or location
  path_match : CString → Option c.Record → Option Bool
  path_match location r = r >>= λ x. c.location x >>= λ l. some (str_eq l location)

  -- g_hash_table_find with path_match: the id of the first match, or 0
  find_path : CString → List (ℕ × Option c.Record) → Option ℕ
  unfolding path_match
  find_path location [] = some 0
  find_path location ((id, r) ∷ rest) =
      let others = find_path location rest in
      path_match location r >>= λ found. if found then some id else others

  unfoldable pub lookup_id_by_location : CString → State → Option ℕ
  unfolding find_path
  lookup_id_by_location location s = find_path location (h.entries s.object.db)

  -- The same search for NULL: strcmp with it is undefined, unless there is nothing to compare.
  lookup_null : List (ℕ × Option c.Record) → Option ℕ
  lookup_null [] = some 0
  lookup_null (x ∷ rest) = none

  unfoldable pub lookup_id_by_uri : Option CString → State → Option ℕ
  unfolding lookup_id_by_location lookup_null
  lookup_id_by_uri none s = lookup_null (h.entries s.object.db)
  lookup_id_by_uri (some location) s = lookup_id_by_location location s

  unfoldable pub add_with_id : Option c.Record → ℕ → State → ℕ × State
  add_with_id r id s = (id, insert_record id r s)

  -- nextid-- on a guint
  abbrev pub previous : ℕ → ℕ
  previous id = (id + 2 ^ 32 - 1) % 2 ^ 32

  module _ (lib : HashLib) (source : Source) where
    or_none : Outcome Disk → Option Disk
    or_none (ok disk) = some disk
    or_none (refused r) = none
    or_none fault = none

    -- cache_store asserts that there is a location once it has found the directory.
    store_location : CString → Option CString → Bytes → Disk → Option Disk
    unfolding or_none
    store_location db_dir none blob disk = if disk.is_directory db_dir then none else some disk
    store_location db_dir (some location) blob disk =
        or_none (cache_store lib source db_dir location blob disk)

    store_record : Option CString → c.Record → Disk → Option Disk
    unfolding store_location
    store_record none r disk = some disk
    store_record (some db_dir) r disk =
        c.to_blob r >>= λ blob. store_location db_dir (c.location r) blob disk

    unfoldable pub add : c.Record → State → Option (ℕ × State)
    unfolding store_record add_with_id
    add r s = store_record s.object.db_dir r s.disk >>= λ disk.
        some (add_with_id (some r) s.nextid (record s { nextid = previous s.nextid; disk = disk }))

    -- ! formats || g_slist_find_custom (formats, format, strcmp); `none` is strcmp with NULL
    find_format : CString → List CString → Bool
    find_format format [] = false
    find_format format (f ∷ rest) = if str_eq f format then true else find_format format rest

    is_acceptable : List CString → Option CString → Option Bool
    unfolding find_format
    is_acceptable [] format = some true
    is_acceptable (f ∷ rest) none = none
    is_acceptable (f ∷ rest) (some format) = some (find_format format (f ∷ rest))

    -- The record of the factory is added, or given back; NULL counts as id 0.
    abbrev pub give_back : c.Record → State → Option (ℕ × State)
    give_back r s = c.finalize r s.world >>= λ w. some (0, record s { world = w })

    add_accepted : Option c.Record → State → Option (ℕ × State)
    unfolding add is_acceptable
    add_accepted none s = some (0, s)
    add_accepted (some r) s = is_acceptable s.object.acceptable_formats (c.format r) >>= λ accept.
        if accept then add r s else give_back r s

    unfoldable pub add_path : CString → State → Option (ℕ × State)
    unfolding add_accepted
    add_path path s =
        if s.object.has_factory
        then (c.create (some path) s.world >>= λ x. add_accepted x.0 (record s { world = x.1 }))
        else none
