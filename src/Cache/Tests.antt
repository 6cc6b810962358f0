-- ===== src/Cache/Tests.antt =====
-- The cache files of one song.
use dmapd.Prelude.{
  ◌≡◌, ◌↔◌, refl, true, some, [], ◌∷◌, CString, Bytes, str_eq, has_suffix, if◌then◌else◌,
}
use dmapd.Blob.{ok}
use dmapd.FileHash.{hashed, dmapd_util_hash_file}
use dmapd.Cache.{Disk, cache_type_record, extension, in_dir, cache_path, cache_store}
use dmapd.Cache.Paths.{cache_path-injective, has_suffix-cache_path}
use dmapd.Cache.Store.{cache_store-files}
use dmapd.Fixture.{small_hash, one_file, song_uri, cache_dir, entry_name, empty_disk}

abbrev record_path : CString
record_path = in_dir cache_dir entry_name

path_runs :
    cache_path small_hash one_file cache_type_record cache_dir song_uri ≡ ok (some record_path)
unfolding cache_path dmapd_util_hash_file str_eq
path_runs = refl

cache_path-injective_example :
    (cache_type_record ≡ cache_type_record)
    × (d : Bytes) × (dmapd_util_hash_file small_hash one_file song_uri ≡ hashed d)
    × (dmapd_util_hash_file small_hash one_file song_uri ≡ hashed d)
cache_path-injective_example =
    cache_path-injective small_hash one_file cache_type_record cache_type_record cache_dir song_uri
      song_uri record_path path_runs path_runs

record_suffix :
    (has_suffix record_path (extension cache_type_record) ≡ true)
    ↔ (cache_type_record ≡ cache_type_record)
record_suffix =
    has_suffix-cache_path small_hash one_file cache_type_record cache_dir song_uri record_path
      path_runs

stored_file :
    (disk' : Disk) × (cache_store small_hash one_file cache_dir song_uri (7 ∷ []) empty_disk
      ≡ ok disk')
    × ((p : CString)
        → disk'.files p ≡ (if str_eq record_path p then some (7 ∷ []) else empty_disk.files p))
unfolding str_eq
stored_file =
    cache_store-files small_hash one_file cache_dir song_uri record_path (7 ∷ []) empty_disk refl
      path_runs refl
