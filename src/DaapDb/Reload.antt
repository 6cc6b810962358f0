-- ===== src/DaapDb/Reload.antt =====
-- A song that one process adds and another finds in the cache directory: add and
-- load_cached_records of src/dmapd-dmap-db-ghashtable.c, with cache_store of src/util.c and
-- to_blob and set_from_blob of src/dmapd-daap-record.c.
use mathlib.Core.List.{append_assoc}
use dmapd.Prelude.{
  ◌^◌, ◌<◌, ◌≡◌, refl, sym, ap, ◌∙◌, true, some, ◌∷◌, ◌++◌, List, CString, IsCString, has_suffix,
  has_suffix-append,
}
use dmapd.Build.{Build}
use dmapd.Stringleton.{StrTable}
use dmapd.Stringleton.Counts.{live_global}
use dmapd.FileHash.{HashLib, Chunk, Source, hashed, dmapd_util_hash_file}
use dmapd.Cache.{extension, cache_type_record, in_dir}
use dmapd.Cache.Paths.{cache_path-hashed}
use dmapd.RecordClass.{RecordClass}
use dmapd.Daap.{DaapRecordPrivate, fresh}
use dmapd.Daap.Blob.{to_blob}
use dmapd.Daap.RoundTrip.{IsStorable, restored, set_from_blob-to_blob}
use dmapd.Daap.Create.{Surroundings, daap_record_new, daap_class}
use dmapd.GhashtableDb.{RecordTable, State, lookup_by_id, add}
use dmapd.GhashtableDb.Cached.{load_entry}
use dmapd.GhashtableDb.Stored.{HasCopy, add-stored, load_entry-reads}

module _ (h : StrTable) (lib : HashLib) (source : Source) (b : Build) (around : Surroundings h)
    (table : RecordTable (daap_class h lib source around b)) where
  abbrev class : RecordClass
  class = daap_class h lib source around b

  -- The name of the copy of a song.
  abbrev pub entry_of : {r : DaapRecordPrivate} → IsStorable lib r → CString
  entry_of k = lib.to_string k.strings.hash ++ extension cache_type_record

  entry_of-suffix :
      (r : DaapRecordPrivate) (k : IsStorable lib r) (dir : CString)
      → has_suffix (in_dir dir (entry_of k)) (extension cache_type_record) ≡ true
  entry_of-suffix r k dir =
      let name = lib.to_string k.strings.hash in
      let ext = extension cache_type_record in
      ap (λ q. has_suffix q ext) (sym (append_assoc dir (b'/' ∷ name) ext))
      ∙ has_suffix-append (dir ++ (b'/' ∷ name)) ext

  -- A song that can be written down, whose media file can be opened and has the recorded hash, is
  -- added to a database with a cache directory in which its copy can be written, in process `s`:
  -- it gets the next id and is found under it. A process `u` with the same cache directory, of the
  -- same version and byte order, on the disk as `s` leaves it, that comes to the copy while it
  -- loads the directory has the song under its own next id, without its two sort names.
  pub load_entry-add :
      (r : DaapRecordPrivate) (k : IsStorable lib r) (dir : CString) (s u : State class table)
      (strings : h.Table) (stream : List Chunk)
      → IsCString b.version
      → lib.hash_size < 2 ^ 32
      → source k.strings.location ≡ some stream
      → dmapd_util_hash_file lib source k.strings.location ≡ hashed k.strings.hash
      → s.object.db_dir ≡ some dir
      → s.disk.is_directory dir ≡ true
      → s.disk.writable (in_dir dir (entry_of k)) ≡ true
      → u.object.db_dir ≡ some dir
      → u.world ≡ live_global h strings
      → (t v : State class table) × (add class table lib source r s ≡ some (s.nextid, t))
        × (lookup_by_id class table s.nextid t ≡ some r)
        × (load_entry class table lib source dir (entry_of k) (record u { disk = t.disk }) ≡ some v)
        × (lookup_by_id class table u.nextid v ≡ some (restored r fresh))
  unfolding daap_record_new to_blob
  load_entry-add r k dir s u strings stream v n o d sd si sw ud uw =
      let dest = in_dir dir (entry_of k) in
      let path =
        cache_path-hashed lib source cache_type_record dir k.strings.location k.strings.hash d in
      let (blob, strings', written, read) =
        set_from_blob-to_blob h lib source b r fresh k strings stream v n o d in
      let copy : HasCopy class table lib source r dir dest blob = record {
        location = k.strings.location;
        is_at = k.fields.0;
        is_blob = written;
        is_path = path;
      } in
      let (t, a, there, stored, same_dirs, same_access) =
        add-stored class table lib source r dir dest blob s copy sd si sw in
      let copy' : HasCopy class table lib source (restored r fresh) dir dest blob = record {
        location = k.strings.location;
        is_at = k.fields.0;
        is_blob = written;
        is_path = path;
      } in
      let (w, e, found) =
        load_entry-reads class table lib source fresh (restored r fresh) dir (entry_of k) blob blob
          (live_global h strings) (live_global h strings') (record u { disk = t.disk }) copy' ud
          (ap (λ f. f dir) same_dirs ∙ si) (ap (λ f. f dest) same_access ∙ sw)
          (entry_of-suffix r k dir) stored (rw uw refl) read in
      (t, w, a, there, e, found)
