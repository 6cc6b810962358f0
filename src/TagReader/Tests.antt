-- ===== src/TagReader/Tests.antt =====
-- A session that finds a title, a date and a codec in one song.
use dmapd.Prelude.{
  ℕ, zero, suc, ◌<◌, ◌≡◌, refl, true, Option, none, some, List, [], ◌∷◌, ◌++◌, CString, str_eq,
  if◌then◌else◌, arith, length,
}
use dmapd.HashTable.Assoc.{str_table}
use dmapd.HashTable.{lookup}
use dmapd.FileHash.{dmapd_util_hash_file}
use dmapd.Stringleton.{Global, stringleton_ref, stringleton_unref}
use dmapd.Stringleton.Counts.{live_global}
use dmapd.Daap.{DaapRecordPrivate, fresh, object_set, set_property, replace_str}
use dmapd.Daap.Create.{Surroundings, daap_record_new}
use dmapd.Daap.Created.{IsNew}
use dmapd.TagReader.{
  TagLib, title, date, audio_codec, mp3, insert_tags, insert_tag, insert_values, insert_value,
  tag_of, tag_writes, write_number, first_four, write_codec, determine_format, find_format,
  contains, starts_with, extension_of, or_guess,
}
use dmapd.TagReader.Session.{
  Session, Pad, tag_message, other_message, av_meta_reader_gst_read, run_session, take_duration,
  take_messages, message_loop, messages, add_pads, pad_added_cb, link_pad, seconds, stop_pipeline,
  audio,
}
use dmapd.TagReader.Tagged.{with_tags}
use dmapd.TagReader.Live.{HasStrings, insert_tags-live}
use dmapd.TagReader.Created.{with_gst, daap_record_new_gst-IsNew}
use dmapd.Fixture.{small_hash, one_file, release, strings_table, small_system, song_uri}

abbrev Tags : Type 0
Tags = List (CString × List CString)

abbrev values : Tags → CString → List CString
values [] tag = []
values ((t, l) ∷ tags) tag = if str_eq t tag then l else values tags tag

abbrev names : Tags → List CString
names [] = []
names ((t, l) ∷ tags) = t ∷ names tags

abbrev at_index : List CString → ℕ → Option CString
at_index [] i = none
at_index (x ∷ l) zero = some x
at_index (x ∷ l) (suc i) = at_index l i

abbrev small_tags : TagLib
small_tags = record {
  TagList = Tags;
  merge = λ a b. some (a ++ b);
  names = names;
  size = λ tags tag. length (values tags tag);
  is_string = λ tag. true;
  string_index = λ tags tag i. at_index (values tags tag) i;
  value_contents = λ tags tag i. none;
  strtol = λ s. if str_eq s (b'1' ∷ b'9' ∷ b'8' ∷ b'5' ∷ []) then some 1985 else none;
  media_kind_movie = 2;
  media_kind_music = 1;
}

abbrev song_title : CString
song_title = b'x' ∷ []

-- "1985-01"
abbrev song_date : CString
song_date = b'1' ∷ b'9' ∷ b'8' ∷ b'5' ∷ b'-' ∷ b'0' ∷ b'1' ∷ []

abbrev song_tags : Tags
song_tags =
    (title, song_title ∷ [])
    ∷ (date, song_date ∷ [])
    ∷ (audio_codec, (b'M' ∷ b'P' ∷ b'3' ∷ []) ∷ [])
    ∷ []

abbrev audio_pad : Pad
audio_pad = record { mimetype = some audio; has_sink_pad = true; compatible = true; links = true }

abbrev song_session : Session small_tags
song_session = record {
  pipeline = true;
  src_decoder = true;
  sink = true;
  pauses = true;
  pads = audio_pad ∷ [];
  duration = some 180000000000;
  bus = some (other_message ∷ tag_message (some song_tags) ∷ []);
  stops = true;
}

HasStrings-values :
    (l : List CString) (i : ℕ) → i < length l → (val : CString) × (at_index l i ≡ some val)
HasStrings-values [] i k = absurd (omega (arith, k))
HasStrings-values (x ∷ l) zero k = (x, refl)
HasStrings-values (x ∷ l) (suc i) k = HasStrings-values l i (omega (arith, k))

song_HasStrings : (tag : CString) → HasStrings strings_table small_tags song_uri song_tags tag
song_HasStrings tag i k b = HasStrings-values (values song_tags tag) i k

abbrev located : DaapRecordPrivate
located = record fresh { location = some song_uri }

-- What the tags make of the record.
abbrev tagged : DaapRecordPrivate
tagged = with_tags small_tags song_tags song_uri (names song_tags) located

insert_tags-live_example :
    (t' : strings_table.Table) × (insert_tags strings_table small_tags song_tags
        (names song_tags)
        (live_global strings_table strings_table.empty, located)
      ≡ some (live_global strings_table t', tagged))
    × (tagged.location ≡ some song_uri)
insert_tags-live_example =
    insert_tags-live strings_table small_tags song_uri song_tags strings_table.empty located
      (song_HasStrings _, (song_HasStrings _, (song_HasStrings _, tt))) refl

abbrev gst_system : Surroundings strings_table
gst_system =
    with_gst strings_table small_hash one_file release small_tags small_system λ uri. song_session

abbrev new_song : DaapRecordPrivate
new_song =
    elim (daap_record_new strings_table small_hash one_file gst_system (some (b'a' ∷ []))
      (live_global strings_table strings_table.empty)) [ some (some r, g) ↦ r | _ ↦ fresh ]

new_song_runs :
    (g : Global strings_table) × (daap_record_new strings_table small_hash one_file gst_system
        (some (b'a' ∷ []))
        (live_global strings_table strings_table.empty)
      ≡ some (some new_song, g))
unfolding daap_record_new dmapd_util_hash_file str_eq object_set set_property replace_str
    stringleton_ref stringleton_unref lookup str_table av_meta_reader_gst_read run_session
    take_duration take_messages message_loop messages add_pads pad_added_cb link_pad seconds
    stop_pipeline insert_tags insert_tag insert_values insert_value tag_of tag_writes write_number
    first_four write_codec determine_format find_format contains starts_with extension_of or_guess
new_song_runs = (_, refl)

-- What the session's tags have set.
new_song_tags :
    (new_song.title ≡ some song_title)
    × (new_song.year ≡ 1985)
    × (new_song.format ≡ some mp3)
    × (new_song.mediakind ≡ 1)
    × (new_song.duration ≡ 180)
unfolding daap_record_new dmapd_util_hash_file str_eq object_set set_property replace_str
    stringleton_ref stringleton_unref lookup str_table av_meta_reader_gst_read run_session
    take_duration take_messages message_loop messages add_pads pad_added_cb link_pad seconds
    stop_pipeline insert_tags insert_tag insert_values insert_value tag_of tag_writes write_number
    first_four write_codec determine_format find_format contains starts_with extension_of or_guess
new_song_tags = (refl, refl, refl, refl, refl)

daap_record_new_gst-IsNew_example :
    IsNew strings_table small_hash one_file gst_system release
      (some (b'f' ∷ b':' ∷ b'a' ∷ []))
      new_song
daap_record_new_gst-IsNew_example =
    daap_record_new_gst-IsNew strings_table small_hash one_file release small_tags small_system
      (λ uri. song_session) (b'a' ∷ []) (live_global strings_table strings_table.empty)
      new_song_runs.0 new_song new_song_runs.1
