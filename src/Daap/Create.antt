-- ===== src/Daap/Create.antt =====
-- src/dmapd-daap-record.c, dmapd_daap_record_new, and the factory's create of
-- src/dmapd-daap-record-factory.c. With them the DAAP records are a class of records that the
-- databases can hold.
use dmapd.Prelude.{
  ℕ, ◌%◌, ◌^◌, Bool, true, false, Option, none, some, List, [], ◌∷◌, CString, Bytes, ◌>>=◌,
}
use dmapd.Build.{Build}
use dmapd.Stringleton.{StrTable, Global}
use dmapd.FileHash.{HashLib, Source, Hashed, hashed, not_hashed, overread, dmapd_util_hash_file}
use dmapd.Daap.{
  DaapRecordPrivate, fresh, PropId, Value, prop_location, prop_hash, prop_title, prop_artist,
  prop_album, prop_genre, prop_format, prop_mediakind, prop_year, prop_disc, prop_filesize,
  prop_mtime, State, object_set, finalize,
}
use dmapd.Daap.Blob.{to_blob, set_from_blob}
use dmapd.RecordClass.{RecordClass}

-- What the code asks of GLib, of the system, of libdmapsharing and of the plugin that reads the
-- tags. `none` of `read` is an abort in the plugin.
pub record Surroundings (h : StrTable) : Type 0 where
  pub filename_to_uri : CString → Option CString
  pub path_get_basename : CString → Option CString
  -- st_size and st_mtime
  pub stat : CString → Option (ℕ × ℕ)
  pub media_kind_music : ℕ
  pub av_meta_reader_read : CString → State h → Option (Bool × State h)

-- "Unknown"
abbrev pub unknown : CString
unknown = b'U' ∷ b'n' ∷ b'k' ∷ b'n' ∷ b'o' ∷ b'w' ∷ b'n' ∷ []

module _ (h : StrTable) (lib : HashLib) (source : Source) (around : Surroundings h) where
  -- The properties that every new record of a file gets.
  unfoldable pub defaults : CString → Bytes → CString → List ((p : PropId) × Value p)
  defaults location hash title =
      (prop_location, some location)
      ∷ (prop_hash, some hash)
      ∷ (prop_title, some title)
      ∷ (prop_artist, some unknown)
      ∷ (prop_album, some unknown)
      ∷ (prop_genre, some unknown)
      ∷ (prop_format, some unknown)
      ∷ (prop_mediakind, around.media_kind_music)
      ∷ (prop_year, 1985)
      ∷ (prop_disc, 1)
      ∷ []

  -- g_object_set takes an int for the property mtime: the low 32 bits of what is passed.
  unfoldable pub size_and_time : Option (ℕ × ℕ) → List ((p : PropId) × Value p)
  size_and_time none = []
  size_and_time (some (size, mtime)) =
      (prop_filesize, size % 2 ^ 64) ∷ (prop_mtime, mtime % 2 ^ 32) ∷ []

  -- What becomes of the record once the plugin has read the tags, or has failed.
  unfoldable pub take_tags : Bool × State h → Option (Option DaapRecordPrivate × Global h)
  take_tags (true, (g, r)) = some (some (record r { rating = 5; firstseen = 1; bitrate = 128 }), g)
  take_tags (false, (g, r)) = finalize h (g, r) >>= λ g'. some (none, g')

  unfoldable pub fill :
      CString → CString → CString → Hashed → Global h → Option (Option DaapRecordPrivate × Global h)
  unfolding defaults size_and_time take_tags
  fill path location title overread g = none
  fill path location title not_hashed g = some (none, g)
  fill path location title (hashed hash) g =
      object_set h (size_and_time (around.stat path)) (g, fresh) >>= λ s1.
      object_set h (defaults location hash title) s1 >>= λ s2.
      around.av_meta_reader_read path s2 >>= take_tags

  unfoldable pub name_file :
      CString → CString → Option CString → Global h → Option (Option DaapRecordPrivate × Global h)
  unfolding fill
  name_file path location none g = some (none, g)
  name_file path location (some title) g =
      fill path location title (dmapd_util_hash_file lib source location) g

  unfoldable pub open_path :
      CString → Option CString → Global h → Option (Option DaapRecordPrivate × Global h)
  unfolding name_file
  open_path path none g = some (none, g)
  open_path path (some location) g = name_file path location (around.path_get_basename path) g

  -- `none` inside is NULL.
  unfoldable pub daap_record_new :
      Option CString → Global h → Option (Option DaapRecordPrivate × Global h)
  unfolding open_path
  daap_record_new none g = some (some fresh, g)
  daap_record_new (some path) g = open_path path (around.filename_to_uri path) g

  -- The records and the factory, as a database sees them.
  abbrev pub daap_class : Build → RecordClass
  daap_class build = record {
    Record = DaapRecordPrivate;
    World = Global h;
    location = λ r. r.location;
    format = λ r. r.format;
    to_blob = to_blob build;
    set_from_blob = set_from_blob h lib source build;
    create = daap_record_new;
    finalize = λ r g. finalize h (g, r);
  }
