-- ===== src/HashGen.antt =====
-- src/dmapd-hashgen.c: the program that prints the hash of a media file.
pub mod CacheName
pub mod Tests
use dmapd.Prelude.{Bool, true, false, Option, none, some, List, [], ◌∷◌, CString, if◌then◌else◌}
use dmapd.FileHash.{HashLib, Source, Hashed, hashed, not_hashed, overread, dmapd_util_hash_file}

-- What the program asks of GLib.
pub record Paths : Type 0 where
  pub path_is_absolute : CString → Bool
  pub get_current_dir : Option CString
  pub build_filename : CString → CString → Option CString
  pub filename_to_uri : CString → Option CString

-- How the program ends: exit (EXIT_FAILURE), g_error, a read of a failed stream, or a line of
-- output.
pub data Ending : Type 0 where
  exit_failure aborted undefined : Ending
  prints : CString → Ending

module _ (lib : HashLib) (source : Source) (paths : Paths) where
  unfoldable pub print_hash : Hashed → Ending
  print_hash overread = undefined
  print_hash not_hashed = exit_failure
  print_hash (hashed raw_hash) = prints (lib.to_string raw_hash)

  unfoldable pub hash_uri : Option CString → Ending
  unfolding print_hash
  hash_uri none = aborted
  hash_uri (some uri) = print_hash (dmapd_util_hash_file lib source uri)

  unfoldable pub hash_path : Option CString → Ending
  unfolding hash_uri
  hash_path none = aborted
  hash_path (some absolute_path) = hash_uri (paths.filename_to_uri absolute_path)

  unfoldable pub in_current : CString → Option CString → Ending
  unfolding hash_path
  in_current path none = aborted
  in_current path (some dir) = hash_path (paths.build_filename dir path)

  -- The arguments are those after the program's name. escaped_filename, which is not
  -- used, is left out.
  unfoldable pub main : List CString → Ending
  unfolding hash_path in_current
  main (path ∷ []) =
      if paths.path_is_absolute path
      then hash_path (some path)
      else in_current path paths.get_current_dir
  main _ = exit_failure
