-- ===== src/DaapDb.antt =====
-- The database of DAAP records, made of src/dmapd-dmap-db-ghashtable.c and
-- src/dmapd-daap-record.c.
pub mod Reload
pub mod Tests
use dmapd.Prelude.{
  ℕ, ◌+◌, ◌≤◌, ◌≡◌, refl, sym, ap, ◌∙◌, Bool, true, false, Option, none, some, List, [], ◌∷◌,
  CString, Bytes, length, arith, ◌>>=◌,
}
use dmapd.Blob.{Outcome, ok}
use dmapd.Build.{Build}
use dmapd.Stringleton.{StrTable, Global}
use dmapd.FileHash.{HashLib, Source, Hashed, hashed, not_hashed, overread, dmapd_util_hash_file}
use dmapd.Daap.{DaapRecordPrivate, fresh, finalize, object_set}
use dmapd.Daap.Refusals.{IsFresh, set_from_blob-IsFresh}
use dmapd.Daap.Create.{
  Surroundings, unknown, defaults, size_and_time, take_tags, fill, name_file, open_path,
  daap_record_new, daap_class,
}
use dmapd.RecordClass.{RecordClass}
use dmapd.GhashtableDb.{RecordTable, State, max_id, lookup_by_id, count}
use dmapd.GhashtableDb.Ids.{IsAllocated}
use dmapd.GhashtableDb.Cached.{constructor}
use dmapd.GhashtableDb.Restart.{constructor-Holds}

module _ (h : StrTable) (lib : HashLib) (source : Source) (b : Build) where
  module _ (around : Surroundings h) (table : RecordTable (daap_class h lib source around b)) where
    abbrev class : RecordClass
    class = daap_class h lib source around b

    -- A database of DAAP records that is made by its constructor, in a process whose next id is
    -- not above G_MAXINT and not below the number of names in the cache directory, whatever bytes
    -- the directory holds, where the constructor returns: each of its records has the location and
    -- the hash of a media file that has this hash now, and it has as many records as ids were
    -- taken.
    pub constructor-IsFresh :
        (db_dir : Option CString) (has_factory : Bool) (s t : State class table)
        → s.nextid ≤ max_id
        → ((dir : CString) (names : List CString)
            → db_dir ≡ some dir
            → s.disk.names dir ≡ some names
            → length names ≤ s.nextid)
        → constructor class table lib source db_dir has_factory s ≡ some t
        → ((id : ℕ) (r : DaapRecordPrivate)
            → lookup_by_id class table id t ≡ some r
            → IsFresh h lib source b r)
          × (count class table t + t.nextid ≡ s.nextid)
    constructor-IsFresh db_dir has_factory s t n room e =
        let (k, p, m) =
          constructor-Holds class table lib source (IsFresh h lib source b) db_dir has_factory s t
            (λ blob r r' w w' f. set_from_blob-IsFresh h lib source b blob w w' r r' f) n room e in
        (p, m)
