-- ===== src/GhashtableDb/Tests.antt =====
-- A database of DAAP records with one song.
use dmapd.Prelude.{ℕ, ◌≡◌, ◌≢◌, ◌⊎◌, refl, some, [], ◌∷◌, arith, str_eq, has_suffix}
use dmapd.HashTable.{lookup}
use dmapd.HashTable.Laws.{lookup-empty}
use dmapd.HashTable.Assoc.{direct_table, str_table, without}
use dmapd.Blob.{
  blob_add_string, blob_add_atomic, int_bytes, ◌>>=◌, get_string, require, get_int, get_bytes,
}
use dmapd.Cache.{in_dir, cache_store}
use dmapd.FileHash.{dmapd_util_hash_file}
use dmapd.Stringleton.{stringleton_ref, stringleton_unref}
use dmapd.Daap.{DaapRecordPrivate, object_set, set_property, replace_str}
use dmapd.Daap.Create.{daap_record_new}
use dmapd.Daap.Blob.{to_blob, set_from_blob, decode, settings, or_fault}
use dmapd.GhashtableDb.{State, max_id, lookup_by_id, add, add_path, lookup_id_by_location}
use dmapd.GhashtableDb.Ids.{IsAllocated, Added, add-Added}
use dmapd.GhashtableDb.AddPath.{Ends, add_path-Ends}
use dmapd.GhashtableDb.Lookup.{lookup_id_by_location_correct}
use dmapd.GhashtableDb.Cached.{load_entry, load_blob, set_or_skip, take_or_unlink}
use dmapd.GhashtableDb.Load.{Loads, load_entry-Loads}
use dmapd.Fixture.{
  small_hash, one_file, song, song_uri, songs, song_table, empty_disk, process, entry_name,
  cache_dir, or_else, cached,
}

process-IsAllocated : IsAllocated songs song_table (process empty_disk)
process-IsAllocated = record {
  next = omega arith;
  used = λ id r e. let z = lookup-empty song_table id in cc;
}

-- After the song has been added.
abbrev with_song : State songs song_table
with_song =
    (or_else (0, process empty_disk)
      (add songs song_table small_hash one_file song (process empty_disk))).1

add_runs :
    add songs song_table small_hash one_file song (process empty_disk) ≡ some (max_id, with_song)
unfolding add to_blob dmapd_util_hash_file str_eq blob_add_string blob_add_atomic int_bytes
    cache_store
add_runs = refl

add-Added_example : Added songs song_table song max_id (process empty_disk) with_song
add-Added_example =
    add-Added songs song_table small_hash one_file song (process empty_disk) with_song max_id
      process-IsAllocated (omega arith) add_runs

lookup_id_by_location_example :
    (n : ℕ) × (lookup_id_by_location songs song_table song_uri with_song ≡ some n)
    × (((n ≢ 0)
          × (r : DaapRecordPrivate) × (lookup_by_id songs song_table n with_song ≡ some r)
          × (r.location ≡ some song_uri))
        ⊎ ((n ≡ 0)
            × ((id : ℕ) (r : DaapRecordPrivate)
                → lookup_by_id songs song_table id with_song ≡ some r
                → r.location ≢ some song_uri)))
unfolding add direct_table to_blob cache_store str_eq dmapd_util_hash_file without lookup_by_id
    lookup
lookup_id_by_location_example =
    lookup_id_by_location_correct songs song_table song_uri with_song
      ((song, song_uri, refl, refl), tt) refl

-- After the file of the song has been added by its path.
abbrev with_path : ℕ × State songs song_table
with_path =
    or_else (0, process empty_disk)
      (add_path songs song_table small_hash one_file (b'a' ∷ []) (process empty_disk))

add_path_runs :
    add_path songs song_table small_hash one_file (b'a' ∷ []) (process empty_disk)
    ≡ some (max_id, with_path.1)
unfolding add_path to_blob dmapd_util_hash_file str_eq blob_add_string blob_add_atomic int_bytes
    cache_store daap_record_new object_set set_property replace_str stringleton_ref
    stringleton_unref lookup str_table
add_path_runs = refl

add_path-Ends_example :
    Ends songs song_table small_hash one_file (b'a' ∷ []) (process empty_disk) max_id with_path.1
add_path-Ends_example =
    add_path-Ends songs song_table small_hash one_file (b'a' ∷ []) (process empty_disk) with_path.1
      max_id process-IsAllocated (omega arith) add_path_runs

abbrev loaded : State songs song_table
loaded =
    or_else cached (load_entry songs song_table small_hash one_file cache_dir entry_name cached)

load_runs :
    load_entry songs song_table small_hash one_file cache_dir entry_name cached ≡ some loaded
unfolding load_entry load_blob has_suffix set_or_skip take_or_unlink set_from_blob decode ◌>>=◌
    get_string require get_int get_bytes settings or_fault to_blob dmapd_util_hash_file str_eq
    blob_add_string blob_add_atomic int_bytes cache_store daap_record_new object_set set_property
    replace_str stringleton_ref stringleton_unref lookup str_table add
load_runs = refl

load_entry-Loads_example :
    Loads songs song_table small_hash one_file (in_dir cache_dir entry_name) cached loaded
load_entry-Loads_example =
    load_entry-Loads songs song_table small_hash one_file cache_dir entry_name cached loaded
      (record { next = omega arith; used = λ id r e. let z = lookup-empty song_table id in cc })
      (omega arith) load_runs
