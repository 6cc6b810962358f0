-- ===== src/DaapDb/Tests.antt =====
-- A database of songs that finds one in the cache, and the record of a new file.
use dmapd.Prelude.{
  ℕ, ◌+◌, ◌≤◌, ◌≡◌, refl, sym, ap, ◌∙◌, true, some, List, [], ◌∷◌, CString, arith, str_eq,
  has_suffix, length,
}
use dmapd.HashTable.{lookup}
use dmapd.HashTable.Assoc.{direct_table, str_table}
use dmapd.Blob.{
  blob_add_string, blob_add_atomic, int_bytes, ◌>>=◌, get_string, require, get_int, get_bytes,
}
use dmapd.Cache.{cache_store}
use dmapd.FileHash.{dmapd_util_hash_file}
use dmapd.Stringleton.{Global, stringleton_ref, stringleton_unref}
use dmapd.Stringleton.Counts.{live_global}
use dmapd.Daap.{DaapRecordPrivate, fresh, object_set, set_property, replace_str}
use dmapd.Daap.Create.{daap_record_new}
use dmapd.Daap.Created.{LeavesIdentity, IsNew, daap_record_new-IsNew}
use dmapd.Daap.Refusals.{IsFresh}
use dmapd.Daap.Blob.{to_blob, set_from_blob, decode, settings, or_fault}
use dmapd.GhashtableDb.{State, max_id, lookup_by_id, count, add}
use dmapd.GhashtableDb.Cached.{
  constructor, load_cached_records, load_names, load_entries, load_from, load_entry, load_blob,
  set_or_skip, take_or_unlink,
}
use dmapd.Daap.RoundTrip.{restored}
use dmapd.FileHash.{got}
use dmapd.DaapDb.{constructor-IsFresh}
use dmapd.DaapDb.Reload.{entry_of, load_entry-add}
use dmapd.Fixture.{
  small_hash, one_file, release, song, songs, song_table, strings_table, small_system, cached,
  cache_dir, entry_name, or_else, process, empty_disk, song-IsStorable,
}

abbrev restarted : State songs song_table
restarted =
    or_else cached (constructor songs song_table small_hash one_file (some cache_dir) true cached)

constructor_runs :
    constructor songs song_table small_hash one_file (some cache_dir) true cached ≡ some restarted
unfolding constructor load_from load_cached_records load_names load_entries load_entry load_blob
    has_suffix set_or_skip take_or_unlink set_from_blob decode ◌>>=◌ get_string require get_int
    get_bytes settings or_fault to_blob dmapd_util_hash_file str_eq blob_add_string blob_add_atomic
    int_bytes cache_store daap_record_new object_set set_property replace_str stringleton_ref
    stringleton_unref lookup str_table add
constructor_runs = refl

-- The song is there, under the first id.
restarted_has :
    lookup_by_id songs song_table max_id restarted ≡ some (record song { hash = some (6 ∷ 3 ∷ []) })
unfolding constructor load_from load_cached_records load_names load_entries load_entry load_blob
    has_suffix set_or_skip take_or_unlink set_from_blob decode ◌>>=◌ get_string require get_int
    get_bytes settings or_fault to_blob dmapd_util_hash_file str_eq blob_add_string blob_add_atomic
    int_bytes cache_store daap_record_new object_set set_property replace_str stringleton_ref
    stringleton_unref lookup str_table add lookup_by_id direct_table
restarted_has = refl

-- The cache directory has one name.
room :
    (dir : CString) (names : List CString)
    → some cache_dir ≡ some dir
    → cached.disk.names dir ≡ some names
    → length names ≤ max_id
unfolding str_eq
room dir names e f =
    let i : cache_dir ≡ dir = ground arith in
    let g : cached.disk.names cache_dir ≡ some names = ap cached.disk.names i ∙ f in
    let n : entry_name ∷ [] ≡ names = ground arith in rw (sym n) (omega arith)

constructor-IsFresh_example :
    ((id : ℕ) (r : DaapRecordPrivate)
      → lookup_by_id songs song_table id restarted ≡ some r
      → IsFresh strings_table small_hash one_file release r)
    × (count songs song_table restarted + restarted.nextid ≡ max_id)
constructor-IsFresh_example =
    constructor-IsFresh strings_table small_hash one_file release small_system song_table
      (some cache_dir) true cached restarted (omega arith) room constructor_runs

keeps : LeavesIdentity strings_table small_hash one_file small_system release
keeps path s s' found e = (ground arith, ground arith)

abbrev new_song : DaapRecordPrivate
new_song =
    elim (daap_record_new strings_table small_hash one_file small_system (some (b'a' ∷ []))
      (live_global strings_table strings_table.empty)) [ some (some r, g) ↦ r | _ ↦ fresh ]

new_song_runs :
    (g : Global strings_table) × (daap_record_new strings_table small_hash one_file small_system
        (some (b'a' ∷ []))
        (live_global strings_table strings_table.empty)
      ≡ some (some new_song, g))
unfolding daap_record_new dmapd_util_hash_file str_eq object_set set_property replace_str
    stringleton_ref stringleton_unref lookup str_table
new_song_runs = (_, refl)

new_song-IsNew :
    IsNew strings_table small_hash one_file small_system release
      (some (b'f' ∷ b':' ∷ b'a' ∷ []))
      new_song
new_song-IsNew =
    daap_record_new-IsNew strings_table small_hash one_file small_system release (b'a' ∷ [])
      (live_global strings_table strings_table.empty) new_song_runs.0 new_song keeps new_song_runs.1

-- Two processes that use one cache directory.
abbrev first_process : State songs song_table
first_process = process empty_disk

load_entry-add_example :
    (t v : State songs song_table) × (add songs song_table small_hash one_file song first_process
      ≡ some (max_id, t))
    × (lookup_by_id songs song_table max_id t ≡ some song)
    × (load_entry songs song_table small_hash one_file cache_dir
          (entry_of strings_table small_hash one_file release small_system song_table
            song-IsStorable)
          (record first_process { disk = t.disk })
        ≡ some v)
    × (lookup_by_id songs song_table max_id v ≡ some (restored song fresh))
unfolding song-IsStorable dmapd_util_hash_file str_eq
load_entry-add_example =
    load_entry-add strings_table small_hash one_file release small_system song_table song
      song-IsStorable cache_dir first_process first_process strings_table.empty
      (got (1 ∷ 2 ∷ []) ∷ got (3 ∷ []) ∷ []) (omega arith) (omega arith) refl refl refl refl refl
      refl refl
