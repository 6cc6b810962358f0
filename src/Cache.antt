-- ===== src/Cache.antt =====
-- src/util.c, cache_path and cache_store: where a cached file lies, and how it gets there.
pub mod Paths
pub mod Store
pub mod Tests
use dmapd.Prelude.{
  Bool, true, false, ◌&&◌, Option, none, some, List, [], ◌∷◌, ◌++◌, CString, Bytes, str_eq,
  if◌then◌else◌,
}
use dmapd.Blob.{Outcome, ok, refused, fault, unreadable}
use dmapd.FileHash.{HashLib, Source, Hashed, hashed, not_hashed, overread, dmapd_util_hash_file}

pub data CacheType : Type 0 where
  cache_type_record cache_type_transcoded_data cache_type_thumbnail_data : CacheType

-- The files that the program reads and writes by path. What it asks of the system besides them is
-- whether a path is a directory, what names a directory has, and whether a path can be written or unlinked.
pub record Disk : Type 0 where
  pub files : CString → Option Bytes
  pub is_directory : CString → Bool
  pub names : CString → Option (List CString)
  pub writable : CString → Bool
  pub removable : CString → Bool

-- ".record", ".data" and ".thumb"
abbrev pub extension : CacheType → CString
extension cache_type_record = b'.' ∷ b'r' ∷ b'e' ∷ b'c' ∷ b'o' ∷ b'r' ∷ b'd' ∷ []
extension cache_type_transcoded_data = b'.' ∷ b'd' ∷ b'a' ∷ b't' ∷ b'a' ∷ []
extension cache_type_thumbnail_data = b'.' ∷ b't' ∷ b'h' ∷ b'u' ∷ b'm' ∷ b'b' ∷ []

-- g_strdup_printf ("%s/%s", dir, name)
abbrev pub in_dir : CString → CString → CString
in_dir dir name = dir ++ (b'/' ∷ name)

-- g_file_set_contents, which leaves the old file where it fails
unfoldable pub write_file : CString → Bytes → Disk → Disk
write_file path blob disk =
    if disk.writable path
    then record disk { files = λ p. if str_eq path p then some blob else disk.files p }
    else disk

module _ (lib : HashLib) (source : Source) where
  path_of : CacheType → CString → Hashed → Outcome (Option CString)
  path_of type db_dir overread = fault
  path_of type db_dir not_hashed = ok none
  path_of type db_dir (hashed raw_hash) =
      ok (some (in_dir db_dir (lib.to_string raw_hash ++ extension type)))

  -- `none` is NULL.
  unfoldable pub cache_path : CacheType → CString → CString → Outcome (Option CString)
  unfolding path_of
  cache_path type db_dir uri = path_of type db_dir (dmapd_util_hash_file lib source uri)

  store_at : Outcome (Option CString) → Bytes → Disk → Outcome Disk
  unfolding write_file
  store_at fault blob disk = fault
  store_at (refused r) blob disk = refused r
  store_at (ok none) blob disk = ok disk
  store_at (ok (some cachepath)) blob disk = ok (write_file cachepath blob disk)

  unfoldable pub cache_store : CString → CString → Bytes → Disk → Outcome Disk
  unfolding store_at cache_path
  cache_store db_dir uri blob disk =
      if disk.is_directory db_dir
      then store_at (cache_path cache_type_record db_dir uri) blob disk
      else ok disk
