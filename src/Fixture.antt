-- ===== src/Fixture.antt =====
-- Concrete values for the tests: a small hash, a build, one media file and its record.
use mathlib.Core.List.{append_assoc, append-nil}
use dmapd.Prelude.{
  ℕ, true, ◌+◌, ◌%◌, refl, sym, Option, some, none, [], ◌∷◌, ◌++◌, Bytes, CString, length, str_eq,
  if◌then◌else◌, arith,
}
use dmapd.Build.{Build, little, big}
use dmapd.HashTable.Assoc.{str_table, direct_table}
use dmapd.Stringleton.{StrTable}
use dmapd.FileHash.{HashLib, Source, got}
use dmapd.Stringleton.Counts.{live_global}
use dmapd.Daap.{DaapRecordPrivate, fresh}
use dmapd.Daap.Blob.{to_blob}
use dmapd.Daap.RoundTrip.{IsStorable}
use dmapd.Daap.Create.{Surroundings, daap_class}
use dmapd.RecordClass.{RecordClass}
use dmapd.Cache.{Disk, extension, in_dir, cache_type_record}
use dmapd.GhashtableDb.{RecordTable, Db, State, max_id}

abbrev pub total : Bytes → ℕ
total [] = 0
total (b ∷ bs) = b + total bs

-- The sum and the length of the bytes, each in a byte.
abbrev pub small_hash : HashLib
small_hash = record {
  Context = Bytes;
  hash_size = 2;
  init = [];
  update = λ bs c. c ++ bs;
  final = λ c. (total c % 256) ∷ (length c % 256) ∷ [];
  to_string = λ bs. bs;
  update-append = λ a b c. sym (append_assoc c a b);
  update-nil = λ c. append-nil c;
  length-final = λ c. refl;
  to_string-injective = λ a b e. e;
}

abbrev pub release : Build
release = record { version = b'1' ∷ b'.' ∷ b'0' ∷ []; endian = little }

abbrev pub big_release : Build
big_release = record { version = b'1' ∷ b'.' ∷ b'0' ∷ []; endian = big }

abbrev pub strings_table : StrTable
strings_table = str_table

abbrev pub song_uri : CString
song_uri = b'f' ∷ b':' ∷ b'a' ∷ []

-- The contents 1 2 3 in two portions, under one URI.
abbrev pub one_file : Source
one_file uri = if str_eq uri song_uri then some (got (1 ∷ 2 ∷ []) ∷ got (3 ∷ []) ∷ []) else none

abbrev pub other_file : Source
other_file uri = if str_eq uri song_uri then some (got (9 ∷ []) ∷ []) else none

abbrev pub no_file : Source
no_file uri = none

abbrev pub unknown : CString
unknown = b'U' ∷ b'n' ∷ []

abbrev pub song : DaapRecordPrivate
song = record fresh {
  location = some song_uri;
  hash = some (6 ∷ 3 ∷ []);
  filesize = 3;
  format = some (b'm' ∷ b'p' ∷ b'3' ∷ []);
  title = some (b'a' ∷ []);
  album = some unknown;
  artist = some unknown;
  genre = some unknown;
  year = 1985;
  disc = 1;
  rating = 80;
}

unfoldable pub song-IsStorable : IsStorable small_hash song
song-IsStorable = record {
  strings = record {
    location = song_uri;
    hash = 6 ∷ 3 ∷ [];
    format = b'm' ∷ b'p' ∷ b'3' ∷ [];
    title = b'a' ∷ [];
    album = unknown;
    artist = unknown;
    genre = unknown;
  };
  fields = (refl, refl, refl, refl, refl, refl, refl);
  text = omega arith;
  range = omega arith;
}

-- A system where the URI of a path is "f:" and the path, and a plugin that finds a year.
abbrev pub small_system : Surroundings strings_table
small_system = record {
  filename_to_uri = λ path. some (b'f' ∷ b':' ∷ path);
  path_get_basename = λ path. some path;
  stat = λ path. some (3, 7);
  media_kind_music = 1;
  av_meta_reader_read = λ path s. some (true, (s.0, record (s.1) { year = 1999 }));
}

abbrev pub songs : RecordClass
songs = daap_class strings_table small_hash one_file small_system release

abbrev pub song_table : RecordTable songs
song_table = direct_table

abbrev pub cache_dir : CString
cache_dir = b'd' ∷ []

-- A disk with one directory, empty or with one record of the given bytes in it.
abbrev pub empty_disk : Disk
empty_disk = record {
  files = λ path. none;
  is_directory = λ path. str_eq path cache_dir;
  names = λ path. some [];
  writable = λ path. true;
  removable = λ path. true;
}

-- "6", the first byte of the hash in text, and ".record"
abbrev pub entry_name : CString
entry_name = 6 ∷ 3 ∷ extension cache_type_record

abbrev pub disk_of : Bytes → Disk
disk_of blob = record empty_disk {
  files = λ path. if str_eq path (in_dir cache_dir entry_name) then some blob else none;
  names = λ path. if str_eq path cache_dir then some (entry_name ∷ []) else none;
}

abbrev pub empty_db : Db songs song_table
empty_db = record {
  db = song_table.empty;
  db_dir = some cache_dir;
  has_factory = true;
  acceptable_formats = [];
}

abbrev pub process : Disk → State songs song_table
process disk = record {
  object = empty_db;
  nextid = max_id;
  disk = disk;
  world = live_global strings_table strings_table.empty;
}

abbrev pub or_else : {A : Type 0} → A → Option A → A
or_else a none = a
or_else a (some x) = x

-- A process that finds the record of the song in the cache directory.
abbrev pub cached : State songs song_table
cached = process (disk_of (or_else [] (to_blob release song)))
