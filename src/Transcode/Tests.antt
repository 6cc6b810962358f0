-- ===== src/Transcode/Tests.antt =====
-- A song that is transcoded into the cache directory, once from a whole stream.
use dmapd.Prelude.{◌≡◌, refl, Option, none, some, [], ◌∷◌, CString, str_eq}
use dmapd.HashTable.Assoc.{str_table}
use dmapd.HashTable.{lookup}
use dmapd.FileHash.{dmapd_util_hash_file}
use dmapd.Cache.{Disk, cache_path, write_file}
use dmapd.Stringleton.{stringleton_ref, stringleton_unref}
use dmapd.Stringleton.Counts.{live_global}
use dmapd.Daap.{DaapRecordPrivate, State, prop_format, object_set, set_property, replace_str}
use dmapd.Transcode.{
  piece, at_end, failed, copy, do_transcode, Transcoding, stat_size, exists, name_cached, name_at,
  cache_at, transcode_to, transcode_cache,
}
use dmapd.Transcode.Cached.{IsTranscoded, transcode_cache-IsTranscoded}
use dmapd.Transcode.Failed.{streaming, transcode_cache-failed}
use dmapd.Fixture.{small_hash, one_file, song, strings_table, cache_dir, empty_disk, or_else}

abbrev wav : CString
wav = b'w' ∷ b'a' ∷ b'v' ∷ []

abbrev small_media : Transcoding
small_media = record {
  mime_to_format = λ mimetype. some wav;
  open_decoded = λ r. some (some (piece (5 ∷ 6 ∷ []) (5 ∷ 6 ∷ []) ∷ at_end ∷ []));
  filename_to_uri = λ path. some (b'f' ∷ b':' ∷ path);
  directory_size = λ path. 0;
}

abbrev untagged : DaapRecordPrivate
untagged = record song { format = none; album = none; artist = none; genre = none }

-- The string table counts the reference of the record's format.
abbrev before : State strings_table
before =
    or_else (live_global strings_table strings_table.empty, untagged)
      (object_set strings_table ((prop_format, some (b'm' ∷ b'p' ∷ b'3' ∷ [])) ∷ [])
        (live_global strings_table strings_table.empty, untagged))

abbrev result : Option (State strings_table × Disk)
result =
    transcode_cache strings_table small_hash one_file small_media cache_dir [] before empty_disk

abbrev after : State strings_table × Disk
after = or_else (before, empty_disk) result

transcoding_runs : result ≡ some (after.0, after.1)
unfolding transcode_cache transcode_to cache_at name_at name_cached do_transcode copy stat_size
    exists cache_path write_file dmapd_util_hash_file str_eq object_set set_property replace_str
    stringleton_ref stringleton_unref lookup str_table
transcoding_runs = refl

-- The record has the size of the transcoded data and the target format.
transcoded_song : (after.0.1.filesize ≡ 2) × (after.0.1.format ≡ some wav)
unfolding transcode_cache transcode_to cache_at name_at name_cached do_transcode copy stat_size
    exists cache_path write_file dmapd_util_hash_file str_eq object_set set_property replace_str
    stringleton_ref stringleton_unref lookup str_table
transcoded_song = (refl, refl)

transcode_cache-IsTranscoded_example :
    IsTranscoded strings_table small_hash one_file small_media cache_dir [] before empty_disk
      after.0 after.1
transcode_cache-IsTranscoded_example =
    transcode_cache-IsTranscoded strings_table small_hash one_file small_media cache_dir [] before
      after.0 empty_disk after.1 transcoding_runs

-- A stream that fails after two bytes, and one that ends there.
transcode_cache-failed_example :
    transcode_cache strings_table small_hash one_file
      (streaming strings_table small_hash one_file small_media
        (piece (5 ∷ 6 ∷ []) (5 ∷ 6 ∷ []) ∷ failed ∷ []))
      cache_dir
      []
      before
      empty_disk
    ≡ transcode_cache strings_table small_hash one_file
        (streaming strings_table small_hash one_file small_media
          (piece (5 ∷ 6 ∷ []) (5 ∷ 6 ∷ []) ∷ at_end ∷ []))
        cache_dir
        []
        before
        empty_disk
transcode_cache-failed_example =
    transcode_cache-failed strings_table small_hash one_file small_media
      (piece (5 ∷ 6 ∷ []) (5 ∷ 6 ∷ []) ∷ []) [] cache_dir [] before empty_disk
