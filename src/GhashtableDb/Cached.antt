-- ===== src/GhashtableDb/Cached.antt =====
-- src/dmapd-dmap-db-ghashtable.c, load_cached_records and constructor: the records of the cache
-- directory are put into the new database.
use dmapd.Prelude.{
  Bool, Option, none, some, List, [], ◌∷◌, CString, Bytes, str_eq, has_suffix, if◌then◌else◌, ◌>>=◌,
}
use dmapd.Blob.{Outcome, ok, refused, fault}
use dmapd.FileHash.{HashLib, Source}
use dmapd.Cache.{Disk, extension, cache_type_record, in_dir}
use dmapd.RecordClass.{RecordClass}
use dmapd.GhashtableDb.{RecordTable, State, add}

-- g_unlink (path), whose result is not looked at
abbrev pub unlink : CString → Disk → Disk
unlink path disk =
    if disk.removable path
    then record disk { files = λ p. if str_eq path p then none else disk.files p }
    else disk

module _ (c : RecordClass) (h : RecordTable c) (lib : HashLib) (source : Source) where
  -- `r` is the record as it was made, and `path` the file that the blob is from.
  unfoldable pub take_or_unlink :
      CString → c.Record → Outcome (c.World × c.Record) → State c h → Option (State c h)
  take_or_unlink path r fault s = none
  take_or_unlink path r (ok (w, r')) s =
      add c h lib source r' (record s { world = w }) >>= λ x. some x.1
  take_or_unlink path r (refused reason) s =
      c.finalize r s.world >>= λ w. some (record s { disk = unlink path s.disk; world = w })

  unfoldable pub set_or_skip : CString → Bytes → Option c.Record → State c h → Option (State c h)
  set_or_skip path blob none s = some s
  set_or_skip path blob (some r) s = take_or_unlink path r (c.set_from_blob blob (s.world, r)) s

  unfoldable pub load_blob : CString → Option Bytes → State c h → Option (State c h)
  load_blob path none s = some s
  load_blob path (some blob) s =
      if has_suffix path (extension cache_type_record)
      then (c.create none s.world >>= λ x. set_or_skip path blob x.0 (record s { world = x.1 }))
      else some s

  -- One round of the loop.
  unfoldable pub load_entry : CString → CString → State c h → Option (State c h)
  load_entry db_dir entry s = load_blob (in_dir db_dir entry) (s.disk.files (in_dir db_dir entry)) s

  unfoldable pub load_entries : CString → List CString → State c h → Option (State c h)
  load_entries db_dir [] s = some s
  load_entries db_dir (entry ∷ rest) s = load_entry db_dir entry s >>= load_entries db_dir rest

  -- `none` is a directory that cannot be opened.
  unfoldable pub load_names : CString → Option (List CString) → State c h → Option (State c h)
  load_names db_dir none s = some s
  load_names db_dir (some names) s = load_entries db_dir names s

  unfoldable pub load_cached_records : CString → State c h → Option (State c h)
  unfolding load_names
  load_cached_records db_dir s = load_names db_dir (s.disk.names db_dir) s

  unfoldable pub load_from : Option CString → State c h → Option (State c h)
  load_from none s = some s
  load_from (some db_dir) s = if s.object.has_factory then load_cached_records db_dir s else some s

  -- g_object_new with the properties "db-dir" and "record-factory", in a process that is at `s`
  unfoldable pub constructor : Option CString → Bool → State c h → Option (State c h)
  unfolding load_from
  constructor db_dir has_factory s = load_from db_dir (record s {
    object = record {
      db = h.empty;
      db_dir = db_dir;
      has_factory = has_factory;
      acceptable_formats = [];
    };
  })
