-- ===== src/TagReader.antt =====
-- src/av-meta-reader-gst.c: the tags that GStreamer finds in a media file become properties of its
-- DAAP record. GStreamer's tag lists and strtol are parameters.
pub mod Session
pub mod Identity
pub mod Tagged
pub mod Written
pub mod Live
pub mod Created
pub mod Tests
use dmapd.Prelude.{
  ℕ, zero, suc, ◌%◌, ◌^◌, Bool, true, false, ◌||◌, Option, none, some, List, [], ◌∷◌, CString,
  length, str_eq, ltb, ◌==◌, if◌then◌else◌, ◌>>=◌,
}
use dmapd.Stringleton.{StrTable}
use dmapd.Daap.{
  DaapRecordPrivate, PropId, Value, prop_title, prop_artist, prop_album, prop_genre, prop_format,
  prop_disc, prop_year, prop_track, prop_mediakind, State, object_set,
}

pub record TagLib : Type 1 where
  pub TagList : Type 0
  -- gst_tag_list_merge with GST_TAG_MERGE_KEEP
  pub merge : TagList → TagList → Option TagList
  -- the tags that gst_tag_list_foreach visits
  pub names : TagList → List CString
  pub size : TagList → CString → ℕ
  -- gst_tag_get_type (tag) == G_TYPE_STRING
  pub is_string : CString → Bool
  pub string_index : TagList → CString → ℕ → Option CString
  pub value_contents : TagList → CString → ℕ → Option CString
  -- the 64 bits of a long; `none` where errno is set
  pub strtol : CString → Option ℕ
  pub media_kind_movie : ℕ
  pub media_kind_music : ℕ

-- The tag names, and what the code looks for in descriptions.
abbrev pub title : CString
title = b't' ∷ b'i' ∷ b't' ∷ b'l' ∷ b'e' ∷ []

abbrev pub artist : CString
artist = b'a' ∷ b'r' ∷ b't' ∷ b'i' ∷ b's' ∷ b't' ∷ []

abbrev pub album : CString
album = b'a' ∷ b'l' ∷ b'b' ∷ b'u' ∷ b'm' ∷ []

abbrev pub disc_number : CString
disc_number = b'd' ∷ b'i' ∷ b's' ∷ b'c' ∷ b'-' ∷ b'n' ∷ b'u' ∷ b'm' ∷ b'b' ∷ b'e' ∷ b'r' ∷ []

abbrev pub date : CString
date = b'd' ∷ b'a' ∷ b't' ∷ b'e' ∷ []

abbrev pub genre : CString
genre = b'g' ∷ b'e' ∷ b'n' ∷ b'r' ∷ b'e' ∷ []

abbrev pub audio_codec : CString
audio_codec = b'a' ∷ b'u' ∷ b'd' ∷ b'i' ∷ b'o' ∷ b'-' ∷ b'c' ∷ b'o' ∷ b'd' ∷ b'e' ∷ b'c' ∷ []

abbrev pub track_number : CString
track_number =
    b't' ∷ b'r' ∷ b'a' ∷ b'c' ∷ b'k' ∷ b'-' ∷ b'n' ∷ b'u' ∷ b'm' ∷ b'b' ∷ b'e' ∷ b'r' ∷ []

abbrev pub mp3 : CString
mp3 = b'm' ∷ b'p' ∷ b'3' ∷ []

-- "MP3", "MPEG-4 AAC", "Vorbis", "FLAC"
abbrev pub formats : List (CString × CString)
formats =
    (b'M' ∷ b'P' ∷ b'3' ∷ [], mp3)
    ∷ (
      b'M' ∷ b'P' ∷ b'E' ∷ b'G' ∷ b'-' ∷ b'4' ∷ b' ' ∷ b'A' ∷ b'A' ∷ b'C' ∷ [],
      b'a' ∷ b'a' ∷ b'c' ∷ [],
    )
    ∷ (b'V' ∷ b'o' ∷ b'r' ∷ b'b' ∷ b'i' ∷ b's' ∷ [], b'o' ∷ b'g' ∷ b'g' ∷ [])
    ∷ (b'F' ∷ b'L' ∷ b'A' ∷ b'C' ∷ [], b'f' ∷ b'l' ∷ b'a' ∷ b'c' ∷ [])
    ∷ []

abbrev pub mov : CString
mov = b'm' ∷ b'o' ∷ b'v' ∷ []

unfoldable pub starts_with : CString → CString → Bool
starts_with s [] = true
starts_with [] (d ∷ t) = false
starts_with (c ∷ s) (d ∷ t) = if c == d then starts_with s t else false

-- g_strrstr (s, needle) != NULL
unfoldable pub contains : CString → CString → Bool
unfolding starts_with
contains [] needle = starts_with [] needle
contains (c ∷ s) needle = starts_with (c ∷ s) needle || contains s needle

-- What follows the last dot: strrchr (s, '.') + 1, or `none` where it gives NULL.
unfoldable pub extension_of : CString → Option CString
extension_of [] = none
extension_of (c ∷ s) = elim (extension_of s) [
  | some ext ↦ some ext
  | none ↦ if c == b'.' then some s else none
]

unfoldable pub or_guess : CString → Option CString → CString
or_guess guess none = guess
or_guess guess (some ext) = ext

-- The first description that is found; then the name of the file. `none` is strrchr of NULL.
unfoldable pub find_format : List (CString × CString) → CString → DaapRecordPrivate → Option CString
unfolding contains extension_of or_guess
find_format [] description r =
    r.location >>= λ location. some (or_guess mp3 (extension_of location))
find_format ((needle, format) ∷ l) description r =
    if contains description needle then some format else find_format l description r

unfoldable pub determine_format : DaapRecordPrivate → CString → Option CString
unfolding find_format
determine_format r description = find_format formats description r

-- The tags that the code knows, and the others.
pub data Tag : Type 0 where
  tag_title tag_artist tag_album tag_disc tag_date tag_genre tag_codec tag_track tag_unused : Tag

unfoldable pub tag_of : CString → Tag
tag_of tag =
    if str_eq title tag
    then tag_title
    else if str_eq artist tag
    then tag_artist
    else if str_eq album tag
    then tag_album
    else if str_eq disc_number tag
    then tag_disc
    else if str_eq date tag
    then tag_date
    else if str_eq genre tag
    then tag_genre
    else if str_eq audio_codec tag
    then tag_codec
    else if str_eq track_number tag
    then tag_track
    else tag_unused

abbrev pub Writes : Type 0
Writes = List ((p : PropId) × Value p)

-- g_object_set takes the low 32 bits of the long. Nothing is set where errno tells of an error.
unfoldable pub write_number : (ℕ → (p : PropId) × Value p) → Option ℕ → Writes
write_number write none = []
write_number write (some n) = write (n % 2 ^ 32) ∷ []

-- val[4] = 0x00
unfoldable pub first_four : CString → CString
first_four (a ∷ b ∷ c ∷ d ∷ s) = a ∷ b ∷ c ∷ d ∷ []
first_four s = s

module _ (h : StrTable) (lib : TagLib) where
  unfoldable pub write_codec : ℕ → CString → DaapRecordPrivate → Option Writes
  unfolding determine_format extension_of or_guess
  write_codec zero val r = determine_format r val >>= λ format.
      some ((prop_mediakind, lib.media_kind_music) ∷ (prop_format, some format) ∷ [])
  write_codec (suc n) val r = r.location >>= λ location. some (
      (prop_mediakind, lib.media_kind_movie)
      ∷ (prop_format, some (or_guess mov (extension_of location)))
      ∷ [])

  -- What insert_tag sets for one value of a tag; `none` is strrchr of NULL.
  unfoldable pub tag_writes : Tag → CString → DaapRecordPrivate → Option Writes
  unfolding write_number write_codec first_four
  tag_writes tag_title val r = some ((prop_title, some val) ∷ [])
  tag_writes tag_artist val r = some ((prop_artist, some val) ∷ [])
  tag_writes tag_album val r = some ((prop_album, some val) ∷ [])
  tag_writes tag_disc val r = some (write_number (λ n. (prop_disc, n)) (lib.strtol val))
  tag_writes tag_date val r = some (
      if ltb (length val) 4
      then []
      else write_number (λ n. (prop_year, n)) (lib.strtol (first_four val)))
  tag_writes tag_genre val r = some ((prop_genre, some val) ∷ [])
  tag_writes tag_codec val r = write_codec r.has_video val r
  tag_writes tag_track val r = some (write_number (λ n. (prop_track, n)) (lib.strtol val))
  tag_writes tag_unused val r = some []

  unfoldable pub insert_value : Tag → CString → State h → Option (State h)
  insert_value tag val s = tag_writes tag val s.1 >>= λ l. object_set h l s

  -- `n` is how many values are left, `i` the index of the next one. A string that is not there is a
  -- failed assertion; a value without contents ends the loop.
  unfoldable pub insert_values : ℕ → ℕ → lib.TagList → CString → State h → Option (State h)
  unfolding insert_value
  insert_values zero i tags tag s = some s
  insert_values (suc n) i tags tag s =
      let rest = insert_values n (suc i) tags tag in
      if lib.is_string tag
      then (lib.string_index tags tag i >>= λ val. insert_value (tag_of tag) val s >>= rest)
      else elim (lib.value_contents tags tag i) [
        | none ↦ some s
        | some val ↦ insert_value (tag_of tag) val s >>= rest
      ]

  unfoldable pub insert_tag : lib.TagList → CString → State h → Option (State h)
  unfolding insert_values
  insert_tag tags tag s = insert_values (lib.size tags tag) 0 tags tag s

  -- gst_tag_list_foreach
  unfoldable pub insert_tags : lib.TagList → List CString → State h → Option (State h)
  unfolding insert_tag
  insert_tags tags [] s = some s
  insert_tags tags (tag ∷ l) s = insert_tag tags tag s >>= insert_tags tags l
