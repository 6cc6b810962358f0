-- ===== src/HashGen/Tests.antt =====
-- The hash of a small file.
use dmapd.Prelude.{◌≡◌, ◌↔◌, refl, true, none, some, [], ◌∷◌, ◌++◌}
use dmapd.Blob.{ok}
use dmapd.Cache.{cache_type_record, extension, in_dir, cache_path}
use dmapd.HashGen.{Paths, prints, main}
use dmapd.HashGen.CacheName.{main-cache_path}
use dmapd.Fixture.{small_hash, one_file, song_uri, cache_dir}

abbrev small_paths : Paths
small_paths = record {
  path_is_absolute = λ path. true;
  get_current_dir = none;
  build_filename = λ dir path. some (dir ++ path);
  filename_to_uri = λ path. some (b'f' ∷ b':' ∷ path);
}

main-cache_path_example :
    (main small_hash one_file small_paths ((b'a' ∷ []) ∷ []) ≡ prints (6 ∷ 3 ∷ [])) ↔ (
      cache_path small_hash one_file cache_type_record cache_dir song_uri
      ≡ ok (some (in_dir cache_dir (6 ∷ 3 ∷ extension cache_type_record))))
main-cache_path_example =
    main-cache_path small_hash one_file small_paths (b'a' ∷ []) song_uri (6 ∷ 3 ∷ []) cache_dir
      cache_type_record refl refl
