-- ===== src/DiskDb/Tests.antt =====
-- A database that keeps its records in the cache directory, and one song.
use dmapd.Prelude.{
  ℕ, ◌+◌, ◌%◌, ◌≡◌, refl, inl, true, Option, none, some, [], ◌∷◌, CString, Bytes, All, length,
  str_eq, arith,
}
use dmapd.Blob.{blob_add_string, blob_add_atomic, int_bytes}
use dmapd.HashTable.{lookup}
use dmapd.HashTable.Assoc.{direct_table}
use dmapd.HashTable.Laws.{lookup-empty}
use dmapd.FileHash.{dmapd_util_hash_file}
use dmapd.Cache.{cache_store, cache_path, write_file}
use dmapd.Stringleton.Counts.{live_global}
use dmapd.Daap.Blob.{to_blob}
use dmapd.GhashtableDb.{max_id}
use dmapd.DiskDb.{HashesTable, State, insert_hash, or_none, add_with_id, add}
use dmapd.DiskDb.Lost.{IsHexDigit, HasOther, IsHashed, IsLost, add-IsLost}
use dmapd.Fixture.{
  songs, song, song_uri, strings_table, small_hash, one_file, cache_dir, empty_disk, or_else,
}

abbrev hashes : HashesTable
hashes = direct_table

-- One digit, of the length of the text.
abbrev digit_of : CString → CString
digit_of s = (b'0' + length s % 10) ∷ []

digit_is_hex : (s : CString) → All IsHexDigit (digit_of s)
digit_is_hex s = (inl (omega arith, omega arith), tt)

abbrev left : Bytes → songs.World × songs.Record → songs.World × songs.Record
left blob x = x

abbrev started : State songs hashes digit_of left
started = record {
  db = hashes.empty;
  db_dir = some cache_dir;
  has_factory = true;
  nextid = max_id;
  disk = empty_disk;
  world = live_global strings_table strings_table.empty;
}

started-IsHashed : IsHashed songs hashes digit_of left started
started-IsHashed id val e = let k : none ≡ some val = rw (lookup-empty hashes id) at e in cc

uri_has_colon : HasOther song_uri
uri_has_colon = (b'f' ∷ [], b':', b'a' ∷ [], refl, λ k. omega arith)

abbrev adding : Option (ℕ × State songs hashes digit_of left)
adding = add songs hashes digit_of left small_hash one_file song started

abbrev added : ℕ × State songs hashes digit_of left
added = or_else (0, started) adding

adding_runs : adding ≡ some (added.0, added.1)
unfolding add add_with_id or_none insert_hash cache_store cache_path write_file dmapd_util_hash_file
    str_eq to_blob blob_add_string blob_add_atomic int_bytes lookup direct_table
adding_runs = refl

add-IsLost_example : IsLost songs hashes digit_of left song_uri added.0 started added.1
add-IsLost_example =
    add-IsLost songs hashes digit_of left digit_is_hex small_hash one_file song song_uri cache_dir
      added.0 started added.1 started-IsHashed refl uri_has_colon refl refl refl adding_runs
