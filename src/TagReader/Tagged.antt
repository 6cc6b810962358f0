-- ===== src/TagReader/Tagged.antt =====
-- What the tags of a file are to make of its record, apart from how src/av-meta-reader-gst.c gets
-- there: one field or two for each value, in the order of the tags and of their values.
use dmapd.Prelude.{
  ℕ, zero, suc, ◌%◌, ◌^◌, Option, none, some, List, [], ◌∷◌, CString, length, ltb, if◌then◌else◌,
}
use dmapd.Daap.{DaapRecordPrivate}
use dmapd.TagReader.{
  TagLib, Tag, tag_title, tag_artist, tag_album, tag_disc, tag_date, tag_genre, tag_codec,
  tag_track, tag_unused, tag_of, contains, formats, first_four, mov, mp3, or_guess, extension_of,
}

-- The format of the first description that is in the codec's, or the extension of the location.
abbrev pub format_in : List (CString × CString) → CString → CString → CString
format_in [] description location = or_guess mp3 (extension_of location)
format_in ((needle, format) ∷ l) description location =
    if contains description needle then format else format_in l description location

-- A number that strtol has read, cut to 32 bits.
abbrev pub with_number : (ℕ → DaapRecordPrivate) → DaapRecordPrivate → Option ℕ → DaapRecordPrivate
with_number set r none = r
with_number set r (some n) = set (n % 2 ^ 32)

module _ (lib : TagLib) (location : CString) where
  -- The codec of a film, or of a song.
  abbrev pub with_codec : ℕ → CString → DaapRecordPrivate → DaapRecordPrivate
  with_codec zero val r = record r {
    mediakind = lib.media_kind_music;
    format = some (format_in formats val location);
  }
  with_codec (suc n) val r = record r {
    mediakind = lib.media_kind_movie;
    format = some (or_guess mov (extension_of location));
  }

  unfoldable pub with_value : Tag → CString → DaapRecordPrivate → DaapRecordPrivate
  with_value tag_title val r = record r { title = some val }
  with_value tag_artist val r = record r { artist = some val }
  with_value tag_album val r = record r { album = some val }
  with_value tag_disc val r = with_number (λ n. record r { disc = n }) r (lib.strtol val)
  with_value tag_date val r =
      if ltb (length val) 4
      then r
      else with_number (λ n. record r { year = n }) r (lib.strtol (first_four val))
  with_value tag_genre val r = record r { genre = some val }
  with_value tag_codec val r = with_codec r.has_video val r
  with_value tag_track val r = with_number (λ n. record r { track = n }) r (lib.strtol val)
  with_value tag_unused val r = r

  unfoldable pub with_values : Tag → List CString → DaapRecordPrivate → DaapRecordPrivate
  with_values tag [] r = r
  with_values tag (val ∷ vals) r = with_values tag vals (with_value tag val r)

module _ (lib : TagLib) (tags : lib.TagList) where
  unfoldable pub value_at : CString → ℕ → Option CString
  value_at tag i =
      if lib.is_string tag then lib.string_index tags tag i else lib.value_contents tags tag i

  -- The values from an index on, up to one that is not there.
  unfoldable pub values_from : ℕ → ℕ → CString → List CString
  values_from zero i tag = []
  values_from (suc n) i tag = elim (value_at tag i) [
    | none ↦ []
    | some val ↦ val ∷ values_from n (suc i) tag
  ]

  -- The record with all values of the named tags.
  unfoldable pub with_tags : CString → List CString → DaapRecordPrivate → DaapRecordPrivate
  with_tags location [] r = r
  with_tags location (tag ∷ names) r =
      with_tags location names
        (with_values lib location (tag_of tag) (values_from (lib.size tags tag) 0 tag) r)
