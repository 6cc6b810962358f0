-- ===== src/PhotoReader/Tests.antt =====
-- Pictures of 9 by 9 pixels and larger.
use dmapd.Prelude.{ℕ, ◌≡◌, refl, Bool, true, false, Option, none, some, [], ◌∷◌, ◌++◌, str_eq}
use dmapd.HashTable.Assoc.{str_table}
use dmapd.HashTable.{lookup}
use dmapd.FileHash.{dmapd_util_hash_file}
use dmapd.Stringleton.{Global, stringleton_ref, stringleton_unref}
use dmapd.Stringleton.Counts.{live_global}
use dmapd.Daap.{replace_str}
use dmapd.Dpap.{DpapRecordPrivate, State, new_picture, object_set, set_property}
use dmapd.Dpap.Create.{Surroundings, dpap_record_new}
use dmapd.Dpap.Created.{IsPlaced}
use dmapd.PhotoReader.{
  VipsLib, coding_rad, calculate_shrink, thumbnail_find_jpegshrink, thumbnail_get_thumbnail,
  thumbnail_open, thumbnail_shrink, jpeg_loader, thumbnail_width, max, is_zoom, jpegshrink_of,
  interpolate_of,
}
use dmapd.PhotoReader.Bounds.{IsFit, calculate_shrink-IsFit}
use dmapd.PhotoReader.Vips.{
  System, size_writes, name_writes, basic_writes, ratio_writes, comment_writes, year_writes,
  date_writes, picture_writes, thumbnail_writes, take_thumbnail, read_image,
  photo_meta_reader_vips_read, photo_meta_reader_vips_get_str, mtime_of,
}
use dmapd.PhotoReader.Graphicsmagick.{
  Wand, file_prefix, wand_writes, take_wand, photo_meta_reader_graphicsmagick_read,
}
use dmapd.PhotoReader.Created.{
  with_vips, dpap_record_new_vips-IsPlaced, graphicsmagick_read-location,
}
use dmapd.Fixture.{small_hash, one_file, strings_table, song_uri}

-- 4000 by 3000 pixels, to 128: shrunk by 31 to 129, and by 8 when libjpeg loads it.
camera_shrink : calculate_shrink 0 4000 3000 ≡ (31, (128, 129))
unfolding calculate_shrink thumbnail_width max
camera_shrink = refl

calculate_shrink-IsFit_example : IsFit 4000 128 31 129 8
unfolding calculate_shrink thumbnail_width max thumbnail_find_jpegshrink jpegshrink_of
calculate_shrink-IsFit_example = calculate_shrink-IsFit 0 4000 3000

-- An image is its two sizes.
abbrev small_vips : VipsLib
small_vips = record {
  Image = ℕ × ℕ;
  xsize = λ im. im.0;
  ysize = λ im. im.1;
  coding = λ im. coding_rad;
  format_for_file = λ path. some (b'j' ∷ b'p' ∷ b'e' ∷ b'g' ∷ []);
  new_from_file = λ path. some (4000, 3000);
  find_load = λ path. some jpeg_loader;
  load = λ path n im. (true, some (500, 375));
  jpegload_buffer = λ bytes n. none;
  has_field = λ im field. false;
  get_string = λ im field. none;
  get_int = λ im field. none;
  get_blob = λ im field. none;
  colourspace = λ im. some im;
  rad2float = λ im. some im;
  shrink = λ im n. some im;
  tilecache = λ im. some im;
  affine = λ im r i. some im;
  jpegsave_buffer = λ im. some (7 ∷ []);
}

abbrev small_os : System
small_os = record {
  stat = λ path. some (3, 7);
  unset_mtime = 0;
  path_get_basename = λ path. some path;
  print_ratio = λ w h. some (b'1' ∷ []);
  strtol = λ s. none;
}

abbrev camera : Surroundings strings_table
camera = with_vips strings_table small_vips small_os 0 small_hash one_file record {
  filename_to_uri = λ path. some (b'f' ∷ b':' ∷ path);
  photo_meta_reader_read = λ path s. none;
}

abbrev shot_and_table : Option (Option DpapRecordPrivate × Global strings_table)
shot_and_table =
    dpap_record_new strings_table small_hash one_file camera (some (b'a' ∷ []))
      (live_global strings_table strings_table.empty)

abbrev shot : DpapRecordPrivate
shot = elim shot_and_table [ some (some r, g) ↦ r | _ ↦ new_picture ]

shot_runs : (g : Global strings_table) × (shot_and_table ≡ some (some shot, g))
unfolding dpap_record_new dmapd_util_hash_file str_eq object_set set_property replace_str
    stringleton_ref stringleton_unref lookup str_table photo_meta_reader_vips_read read_image
    picture_writes size_writes name_writes basic_writes ratio_writes comment_writes date_writes
    year_writes photo_meta_reader_vips_get_str mtime_of take_thumbnail thumbnail_writes
    thumbnail_open thumbnail_get_thumbnail thumbnail_shrink calculate_shrink thumbnail_width max
    thumbnail_find_jpegshrink jpegshrink_of interpolate_of is_zoom
shot_runs = (_, refl)

-- The picture has its own size, and the thumbnail that was made.
shot_read : (shot.width ≡ 4000) × (shot.thumbnail ≡ some (7 ∷ []))
unfolding dpap_record_new dmapd_util_hash_file str_eq object_set set_property replace_str
    stringleton_ref stringleton_unref lookup str_table photo_meta_reader_vips_read read_image
    picture_writes size_writes name_writes basic_writes ratio_writes comment_writes date_writes
    year_writes photo_meta_reader_vips_get_str mtime_of take_thumbnail thumbnail_writes
    thumbnail_open thumbnail_get_thumbnail thumbnail_shrink calculate_shrink thumbnail_width max
    thumbnail_find_jpegshrink jpegshrink_of interpolate_of is_zoom
shot_read = (refl, refl)

dpap_record_new_vips-IsPlaced_example :
    IsPlaced strings_table small_hash one_file camera (some song_uri) shot
dpap_record_new_vips-IsPlaced_example =
    dpap_record_new_vips-IsPlaced strings_table small_vips small_os 0 small_hash one_file
      (record {
        filename_to_uri = λ path. some (b'f' ∷ b':' ∷ path);
        photo_meta_reader_read = λ path s. none;
      })
      (b'a' ∷ []) (live_global strings_table strings_table.empty) shot_runs.0 shot shot_runs.1

abbrev small_wand : Wand
small_wand = record {
  format = some (b'J' ∷ []);
  width = 8;
  height = 4;
  aspect_ratio = b'2' ∷ [];
  thumbnail = λ n. n ∷ [];
}

abbrev at_start : State strings_table
at_start =
    (live_global strings_table strings_table.empty, record new_picture { location = some song_uri })

abbrev reading : Option (Bool × State strings_table)
reading =
    photo_meta_reader_graphicsmagick_read strings_table (λ path. some small_wand) small_os
      (λ path. path) 0 (b'a' ∷ []) at_start

abbrev at_end : State strings_table
at_end = elim reading [ some (b, s) ↦ s | none ↦ at_start ]

reading_runs : reading ≡ some (true, at_end)
unfolding photo_meta_reader_graphicsmagick_read take_wand wand_writes size_writes object_set
    set_property replace_str stringleton_ref stringleton_unref lookup str_table thumbnail_width
reading_runs = refl

misplaced_picture : at_end.1.location ≡ some (file_prefix ++ (b'a' ∷ []))
misplaced_picture =
    graphicsmagick_read-location strings_table (λ path. some small_wand) small_os (λ path. path) 0
      (b'a' ∷ []) at_start at_end reading_runs
