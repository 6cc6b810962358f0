-- ===== src/GhashtableDb/Stored.antt =====
-- The copy of a record in the cache directory: src/dmapd-dmap-db-ghashtable.c, add, and
-- load_cached_records of another process.
use dmapd.Prelude.{
  ◌≡◌, refl, ◌∙◌, true, none, some, CString, Bytes, has_suffix, str_eq_refl, ==_iff,
}
use dmapd.Blob.{ok}
use dmapd.HashTable.Laws.{lookup-insert}
use dmapd.FileHash.{HashLib, Source}
use dmapd.Cache.{Disk, extension, cache_type_record, in_dir, cache_path, cache_store}
use dmapd.Cache.Store.{cache_store-files, cache_store-permissions}
use dmapd.RecordClass.{RecordClass}
use dmapd.GhashtableDb.{
  RecordTable, State, lookup_by_id, add, add_with_id, store_record, store_location, or_none,
  insert_record, previous,
}
use dmapd.GhashtableDb.Cached.{load_entry, load_blob, set_or_skip, take_or_unlink}

module _ (c : RecordClass) (h : RecordTable c) (lib : HashLib) (source : Source) where
  -- A record that can be written down, with the path of its copy.
  pub record HasCopy (r : c.Record) (dir path : CString) (blob : Bytes) : Type 0 where
    pub location : CString
    pub is_at : c.location r ≡ some location
    pub is_blob : c.to_blob r ≡ some blob
    pub is_path : cache_path lib source cache_type_record dir location ≡ ok (some path)

  store_record-eq :
      (r : c.Record) (dir path : CString) (blob : Bytes) (disk disk' : Disk)
      (k : HasCopy r dir path blob)
      → cache_store lib source dir k.location blob disk ≡ ok disk'
      → store_record c h lib source (some dir) r disk ≡ some disk'
  unfolding store_record store_location or_none
  store_record-eq r dir path blob disk disk' k e = rw (k.is_blob, k.is_at, e) refl

  -- Such a record is added to a database with a cache directory that can be written: it is then
  -- there, and the disk has its blob at the path of its copy and is otherwise as accessible as it
  -- was.
  pub add-stored :
      (r : c.Record) (dir path : CString) (blob : Bytes) (s : State c h)
      → HasCopy r dir path blob
      → s.object.db_dir ≡ some dir
      → s.disk.is_directory dir ≡ true
      → s.disk.writable path ≡ true
      → (t : State c h) × (add c h lib source r s ≡ some (s.nextid, t))
        × (lookup_by_id c h s.nextid t ≡ some r)
        × (t.disk.files path ≡ some blob)
        × (t.disk.is_directory ≡ s.disk.is_directory)
        × (t.disk.writable ≡ s.disk.writable)
  unfolding add add_with_id lookup_by_id
  add-stored r dir path blob s k d i w =
      let (disk', e, g) =
        cache_store-files lib source dir k.location path blob s.disk i k.is_path w in
      let (dirs, access) =
        cache_store-permissions lib source dir k.location path blob s.disk disk' i k.is_path e in
      (
        insert_record c h s.nextid (some r)
            (record s { nextid = previous c h s.nextid; disk = disk' }),
        rw (d, store_record-eq r dir path blob s.disk disk' k e) refl,
        rw
            (
              lookup-insert h s.nextid s.nextid (some r) s.object.db,
              (==_iff s.nextid s.nextid).1 refl,
            )
            refl,
        g path ∙ rw (str_eq_refl path) refl,
        dirs,
        access,
      )

  -- A file of the cache directory that is a record's copy: the record read from it is in the
  -- database, under the next id.
  pub load_entry-reads :
      (r0 r : c.Record) (dir entry : CString) (blob blob' : Bytes) (w0 w : c.World) (s : State c h)
      → HasCopy r dir (in_dir dir entry) blob'
      → s.object.db_dir ≡ some dir
      → s.disk.is_directory dir ≡ true
      → s.disk.writable (in_dir dir entry) ≡ true
      → has_suffix (in_dir dir entry) (extension cache_type_record) ≡ true
      → s.disk.files (in_dir dir entry) ≡ some blob
      → c.create none s.world ≡ some (some r0, w0)
      → c.set_from_blob blob (w0, r0) ≡ ok (w, r)
      → (t : State c h) × (load_entry c h lib source dir entry s ≡ some t)
        × (lookup_by_id c h s.nextid t ≡ some r)
  unfolding load_entry load_blob set_or_skip take_or_unlink
  load_entry-reads r0 r dir entry blob blob' w0 w s k d i y x f m e =
      let (t, a, there, stored, dirs, access) =
        add-stored r dir (in_dir dir entry) blob' (record s { world = w }) k d i y in
      (t, rw (f, x, m, e, a) refl, there)
