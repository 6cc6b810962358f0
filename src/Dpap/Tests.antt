-- ===== src/Dpap/Tests.antt =====
-- A picture that is cached and read back.
use dmapd.Prelude.{
  List, CString, length, ◌+◌, ◌≤◌, ap, ◌∙◌, sym, true, has_suffix, ℕ, zero, suc, ◌≡◌, refl, some,
  [], ◌∷◌, Bytes, arith, str_eq,
}
use dmapd.Stringleton.Counts.{live_global}
use dmapd.FileHash.{got, dmapd_util_hash_file}
use dmapd.Blob.{
  ok, fault, int_bytes, blob_add_string, blob_add_atomic, ◌>>=◌, get_string, require, get_int,
  get_bytes,
}
use dmapd.Dpap.{DpapRecordPrivate, new_picture, object_set, set_property}
use dmapd.Dpap.Blob.{to_blob, encode, set_from_blob, decode, settings, or_fault, get_thumbnail}
use dmapd.Dpap.RoundTrip.{IsStorable, restored, picture_round_trip, picture_truncated}
use dmapd.Dpap.Fresh.{IsComplete, picture-IsComplete}
use dmapd.Dpap.Create.{Surroundings, dpap_record_new, dpap_class}
use dmapd.Dpap.Created.{
  LeavesIdentity, IsPlaced, dpap_record_new-IsPlaced, cached_pictures-IsComplete,
}
use dmapd.RecordClass.{RecordClass}
use dmapd.HashTable.{lookup}
use dmapd.HashTable.Assoc.{direct_table, str_table}
use dmapd.Cache.{cache_store}
use dmapd.Stringleton.{stringleton_ref, stringleton_unref}
use dmapd.Daap.{replace_str}
use dmapd.GhashtableDb.{RecordTable, State, max_id, lookup_by_id, count, add}
use dmapd.GhashtableDb.Cached.{
  constructor, load_cached_records, load_names, load_entries, load_from, load_entry, load_blob,
  set_or_skip, take_or_unlink,
}
use dmapd.Fixture.{
  cache_dir, entry_name, or_else, disk_of, small_hash, release, strings_table, song_uri, one_file,
}

abbrev picture : DpapRecordPrivate
picture = record new_picture {
  location = some song_uri;
  hash = some (6 ∷ 3 ∷ []);
  largefilesize = 3;
  filename = some (b'a' ∷ []);
  thumbnail = some (0 ∷ 255 ∷ []);
  aspectratio = some (b'1' ∷ []);
  height = 2;
  width = 640;
  format = some (b'J' ∷ []);
  comments = some [];
}

picture-IsStorable : IsStorable small_hash picture
picture-IsStorable = record {
  strings = record {
    location = song_uri;
    hash = 6 ∷ 3 ∷ [];
    filename = b'a' ∷ [];
    aspectratio = b'1' ∷ [];
    format = b'J' ∷ [];
    comments = [];
  };
  fields = (refl, refl, refl, refl, refl, refl);
  text = omega arith;
  range = omega arith;
}

picture_round_trip_example :
    (blob : Bytes) × (t' : strings_table.Table) × (to_blob release picture ≡ some blob)
    × (set_from_blob strings_table small_hash one_file release blob
          (live_global strings_table strings_table.empty, new_picture)
        ≡ ok (live_global strings_table t', restored picture))
unfolding picture-IsStorable dmapd_util_hash_file str_eq
picture_round_trip_example =
    picture_round_trip strings_table small_hash one_file release picture new_picture
      picture-IsStorable strings_table.empty (got (1 ∷ 2 ∷ []) ∷ got (3 ∷ []) ∷ []) (omega arith)
      (omega arith) refl refl

picture_read :
    (blob : Bytes) × (t' : strings_table.Table) × (to_blob release picture ≡ some blob)
    × (set_from_blob strings_table small_hash one_file release blob
          (live_global strings_table strings_table.empty, new_picture)
        ≡ ok (live_global strings_table t', restored picture))
unfolding picture-IsStorable dmapd_util_hash_file str_eq
picture_read =
    picture_round_trip strings_table small_hash one_file release picture new_picture
      picture-IsStorable strings_table.empty (got (1 ∷ 2 ∷ []) ∷ got (3 ∷ []) ∷ []) (omega arith)
      (omega arith) refl refl

abbrev picture_blob : Bytes
picture_blob = encode release picture-IsStorable.strings picture

abbrev without_first : ℕ → Bytes → Bytes
without_first zero bs = bs
without_first (suc n) [] = []
without_first (suc n) (b ∷ bs) = without_first n bs

truncated_picture :
    set_from_blob strings_table small_hash one_file release
      (b'1' ∷ b'.' ∷ [])
      (live_global strings_table strings_table.empty, new_picture)
    ≡ fault
unfolding encode picture-IsStorable blob_add_string blob_add_atomic int_bytes to_blob
truncated_picture =
    picture_truncated strings_table small_hash one_file release picture picture-IsStorable
      picture_blob (b'1' ∷ b'.' ∷ []) (without_first 2 picture_blob)
      (live_global strings_table strings_table.empty, new_picture) (omega arith) (omega arith) refl
      refl (λ e. ground arith)

read_picture-IsComplete : IsComplete strings_table small_hash one_file release (restored picture)
read_picture-IsComplete =
    picture-IsComplete strings_table small_hash one_file release picture_read.0
      (live_global strings_table strings_table.empty) (live_global strings_table picture_read.1)
      new_picture (restored picture) picture_read.3

-- A plugin that finds a height.
abbrev small_camera : Surroundings strings_table
small_camera = record {
  filename_to_uri = λ path. some (b'f' ∷ b':' ∷ path);
  photo_meta_reader_read = λ path s. some (true, (s.0, record (s.1) { height = 9 }));
}

abbrev snapshot : DpapRecordPrivate
snapshot = record new_picture { location = some song_uri; hash = some (6 ∷ 3 ∷ []); height = 9 }

new_runs :
    dpap_record_new strings_table small_hash one_file small_camera
      (some (b'a' ∷ []))
      (live_global strings_table strings_table.empty)
    ≡ some (some snapshot, live_global strings_table strings_table.empty)
unfolding dpap_record_new dmapd_util_hash_file str_eq object_set set_property
new_runs = refl

camera_keeps : LeavesIdentity strings_table small_hash one_file small_camera
camera_keeps path s s' found e = (ground arith, ground arith)

snapshot-IsPlaced : IsPlaced strings_table small_hash one_file small_camera (some song_uri) snapshot
snapshot-IsPlaced =
    dpap_record_new-IsPlaced strings_table small_hash one_file small_camera (b'a' ∷ [])
      (live_global strings_table strings_table.empty)
      (live_global strings_table strings_table.empty) snapshot camera_keeps new_runs

abbrev pictures : RecordClass
pictures = dpap_class strings_table small_hash one_file small_camera release

abbrev picture_table : RecordTable pictures
picture_table = direct_table

abbrev before : State pictures picture_table
before = record {
  object = record {
    db = picture_table.empty;
    db_dir = some cache_dir;
    has_factory = true;
    acceptable_formats = [];
  };
  nextid = max_id;
  disk = disk_of (or_else [] (to_blob release picture));
  world = live_global strings_table strings_table.empty;
}

abbrev after : State pictures picture_table
after =
    or_else before
      (constructor pictures picture_table small_hash one_file (some cache_dir) true before)

constructor_runs :
    constructor pictures picture_table small_hash one_file (some cache_dir) true before ≡ some after
unfolding constructor load_from load_cached_records load_names load_entries load_entry load_blob
    has_suffix set_or_skip take_or_unlink set_from_blob decode get_thumbnail ◌>>=◌ get_string
    require get_int get_bytes settings or_fault to_blob dmapd_util_hash_file str_eq blob_add_string
    blob_add_atomic int_bytes cache_store dpap_record_new object_set set_property replace_str
    stringleton_ref stringleton_unref lookup str_table add
constructor_runs = refl

-- The picture is there, under the first id.
picture_loaded : lookup_by_id pictures picture_table max_id after ≡ some picture
unfolding constructor load_from load_cached_records load_names load_entries load_entry load_blob
    has_suffix set_or_skip take_or_unlink set_from_blob decode get_thumbnail ◌>>=◌ get_string
    require get_int get_bytes settings or_fault to_blob dmapd_util_hash_file str_eq blob_add_string
    blob_add_atomic int_bytes cache_store dpap_record_new object_set set_property replace_str
    stringleton_ref stringleton_unref lookup str_table add lookup_by_id direct_table
picture_loaded = refl

-- The cache directory has one name.
one_name :
    (dir : CString) (names : List CString)
    → some cache_dir ≡ some dir
    → before.disk.names dir ≡ some names
    → length names ≤ max_id
unfolding str_eq
one_name dir names e f =
    let i : cache_dir ≡ dir = ground arith in
    let g : before.disk.names cache_dir ≡ some names = ap before.disk.names i ∙ f in
    let n : entry_name ∷ [] ≡ names = ground arith in rw (sym n) (omega arith)

cached_pictures-IsComplete_example :
    ((id : ℕ) (r : DpapRecordPrivate)
      → lookup_by_id pictures picture_table id after ≡ some r
      → IsComplete strings_table small_hash one_file release r)
    × (count pictures picture_table after + after.nextid ≡ max_id)
cached_pictures-IsComplete_example =
    cached_pictures-IsComplete strings_table small_hash one_file small_camera release picture_table
      (some cache_dir) true before after (omega arith) one_name constructor_runs
