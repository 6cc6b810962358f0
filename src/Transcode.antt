-- ===== src/Transcode.antt =====
-- src/util-gst.c: media are transcoded into a file of the cache directory, and the record then names
-- that file. GStreamer, the media stream and the answers of GLib are parameters.
pub mod Cached
pub mod Failed
pub mod Tests
use dmapd.Prelude.{
  ℕ, ◌%◌, ◌^◌, Bool, true, false, ◌||◌, not, Option, none, some, List, [], ◌∷◌, ◌++◌, CString,
  Bytes, length, ltb, str_eq, if◌then◌else◌, ◌>>=◌,
}
use dmapd.Stringleton.{StrTable}
use dmapd.Blob.{Outcome, ok, refused, fault}
use dmapd.FileHash.{HashLib, Source}
use dmapd.Cache.{Disk, cache_type_transcoded_data, cache_path, write_file}
use dmapd.Daap.{DaapRecordPrivate, prop_location, prop_format, prop_filesize, State, object_set}

-- The caps of two pads: `none` for a pad that has none is a branch that reads an uninitialised
-- pointer.
unfoldable pub pads_compatible :
    {Caps : Type 0}
    → (Caps → Caps → Option Caps)
    → (Caps → Bool)
    → Option Caps
    → Option Caps
    → Option Bool
pads_compatible intersect is_empty none caps2 = none
pads_compatible intersect is_empty (some caps1) none = none
pads_compatible intersect is_empty (some caps1) (some caps2) = elim (intersect caps1 caps2) [
  | none ↦ some false
  | some res ↦ some (not (is_empty res))
]

pub data StateChange : Type 0 where
  change_failure change_success change_async change_no_preroll : StateChange

-- What gst_element_set_state gives, and what gst_element_get_state gives afterwards.
unfoldable pub transition_pipeline : StateChange → StateChange → Bool
transition_pipeline change_success later = true
transition_pipeline change_async change_success = true
transition_pipeline _ later = false

-- What one g_input_stream_read of the decoded stream gives: bytes, of which fwrite takes some; the
-- end; or an error.
pub data Piece : Type 0 where
  piece : Bytes → (taken : Bytes) → Piece
  at_end failed : Piece

-- The loop of do_transcode: what is in the file where it ends. `taken` is all of the bytes or fwrite
-- has failed.
unfoldable pub copy : List Piece → Bytes → Bytes
copy [] written = written
copy (at_end ∷ l) written = written
copy (failed ∷ l) written = written
copy (piece bytes taken ∷ l) written =
    let rest = copy l (written ++ taken) in
    if ltb (length taken) (length bytes) then written ++ taken else rest

-- daap_record_read, then dmap_gst_input_stream_new on its stream. Where one of them fails, the code
-- closes a FILE that was never initialised, which is `none`. fopen empties the file or fails.
unfoldable pub do_transcode : Option (Option (List Piece)) → CString → Disk → Option Disk
unfolding copy
do_transcode none cachepath disk = none
do_transcode (some none) cachepath disk = none
do_transcode (some (some pieces)) cachepath disk = some (write_file cachepath (copy pieces []) disk)

-- What transcode_cache asks of libdmapsharing, of the media and of the system.
pub record Transcoding : Type 0 where
  pub mime_to_format : CString → Option CString
  pub open_decoded : DaapRecordPrivate → Option (Option (List Piece))
  pub filename_to_uri : CString → Option CString
  -- st_size of a directory
  pub directory_size : CString → ℕ

-- stat
unfoldable pub stat_size : (CString → ℕ) → Disk → CString → Option ℕ
stat_size directory_size disk path = elim (disk.files path) [
  | some bytes ↦ some (length bytes % 2 ^ 64)
  | none ↦ if disk.is_directory path then some (directory_size path) else none
]

-- G_FILE_TEST_EXISTS
unfoldable pub exists : Disk → CString → Bool
exists disk path = elim (disk.files path) [ some bytes ↦ true | none ↦ disk.is_directory path ]

module _ (h : StrTable) (lib : HashLib) (source : Source) (around : Transcoding) where
  abbrev pub Result : Type 0
  Result = Option (State h × Disk)

  -- The record names the file, where its size and its URI can be told.
  unfoldable pub name_cached : Option ℕ → Option CString → CString → State h → Option (State h)
  name_cached none uri format s = some s
  name_cached (some filesize) none format s = some s
  name_cached (some filesize) (some cacheuri) format s =
      object_set h
        ((prop_location, some cacheuri)
          ∷ (prop_format, some format)
          ∷ (prop_filesize, filesize)
          ∷ [])
        s

  unfoldable pub name_at : CString → CString → State h → Disk → Result
  unfolding name_cached stat_size
  name_at cachepath format s disk =
      name_cached (stat_size around.directory_size disk cachepath)
        (around.filename_to_uri cachepath) format s
      >>= λ s'. some (s', disk)

  unfoldable pub cache_at : Outcome (Option CString) → CString → State h → Disk → Result
  unfolding name_at do_transcode exists
  cache_at fault format s disk = none
  cache_at (refused reason) format s disk = none
  cache_at (ok none) format s disk = some (s, disk)
  cache_at (ok (some cachepath)) format s disk =
      if exists disk cachepath
      then name_at cachepath format s disk
      else (do_transcode (around.open_decoded s.1) cachepath disk >>= λ disk'.
          name_at cachepath format s disk')

  unfoldable pub transcode_to :
      CString → CString → CString → Option CString → State h → Disk → Result
  unfolding cache_at
  transcode_to db_dir location format none s disk = some (s, disk)
  transcode_to db_dir location format (some format2) s disk =
      if str_eq format format2
      then some (s, disk)
      else cache_at (cache_path lib source cache_type_transcoded_data db_dir location) format2 s
          disk

  -- Where the location or the format is NULL, the code frees a pointer that was never initialised,
  -- which is `none`.
  unfoldable pub transcode_cache : CString → CString → State h → Disk → Result
  unfolding transcode_to
  transcode_cache db_dir mimetype s disk = s.1.location >>= λ location. s.1.format >>= λ format.
      transcode_to db_dir location format (around.mime_to_format mimetype) s disk
