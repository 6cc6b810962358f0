-- ===== src/PhotoReader/Vips.antt =====
-- src/photo-meta-reader-vips.c, photo_meta_reader_vips_read: what VIPS and the system tell about a
-- picture becomes properties of its DPAP record. The system's answers are parameters.
use dmapd.Prelude.{
  ℕ, ◌+◌, ◌-◌, ◌*◌, ◌%◌, ◌^◌, Bool, true, false, Option, none, some, List, [], ◌∷◌, ◌++◌, CString,
  length, ltb, if◌then◌else◌, ◌>>=◌,
}
use dmapd.Stringleton.{StrTable}
use dmapd.Dpap.{
  PropId, Value, prop_large_filesize, prop_filename, prop_format, prop_pixel_height,
  prop_pixel_width, prop_comments, prop_creation_date, prop_rating, prop_aspect_ratio,
  prop_thumbnail, State, object_set,
}
use dmapd.TagReader.{first_four}
use dmapd.PhotoReader.{VipsLib, thumbnail_open, thumbnail_shrink}

pub record System : Type 0 where
  -- st_size and st_mtime
  pub stat : CString → Option (ℕ × ℕ)
  -- what st_mtime holds where stat has failed and not set it
  pub unset_mtime : ℕ
  pub path_get_basename : CString → Option CString
  -- g_strdup_printf ("%f", width / (float) height)
  pub print_ratio : ℕ → ℕ → Option CString
  -- the 64 bits of a long; `none` where errno is set
  pub strtol : CString → Option ℕ

abbrev pub Writes : Type 0
Writes = List ((p : PropId) × Value p)

-- "exif-User Comment" and "exif-Date and Time"
abbrev pub user_comment : CString
user_comment =
    b'e' ∷ b'x' ∷ b'i' ∷ b'f' ∷ b'-' ∷ b'U' ∷ b's' ∷ b'e' ∷ b'r' ∷ b' ' ∷ b'C' ∷ b'o' ∷ b'm' ∷ b'm'
    ∷ b'e' ∷ b'n' ∷ b't' ∷ []

abbrev pub date_and_time : CString
date_and_time =
    b'e' ∷ b'x' ∷ b'i' ∷ b'f' ∷ b'-' ∷ b'D' ∷ b'a' ∷ b't' ∷ b'e' ∷ b' ' ∷ b'a' ∷ b'n' ∷ b'd' ∷ b' '
    ∷ b'T' ∷ b'i' ∷ b'm' ∷ b'e' ∷ []

-- (l - 1970) * 365 * 24 * 60 * 60, of which g_object_set takes the low 32 bits
unfoldable pub timestamp : ℕ → ℕ
timestamp l = (l + 2 ^ 64 - 1970) * (365 * 24 * 60 * 60) % 2 ^ 32

unfoldable pub size_writes : Option (ℕ × ℕ) → Writes
size_writes none = []
size_writes (some (size, mtime)) = (prop_large_filesize, size % 2 ^ 32) ∷ []

unfoldable pub name_writes : Option CString → Writes
name_writes none = []
name_writes (some name) = (prop_filename, some name) ∷ []

unfoldable pub mtime_of : ℕ → Option (ℕ × ℕ) → ℕ
mtime_of unset none = unset
mtime_of unset (some (size, mtime)) = mtime

unfoldable pub ratio_writes : Option CString → Writes
ratio_writes none = []
ratio_writes (some ratio) = (prop_aspect_ratio, some ratio) ∷ []

unfoldable pub comment_writes : Option CString → Writes
comment_writes none = []
comment_writes (some str) = (prop_comments, some str) ∷ []

unfoldable pub year_writes : Option ℕ → Writes
unfolding timestamp
year_writes none = []
year_writes (some l) = (prop_creation_date, timestamp l) ∷ []

module _ (h : StrTable) (lib : VipsLib) (system : System) (max_thumbnail_width : ℕ) where
  unfoldable pub photo_meta_reader_vips_get_str : lib.Image → CString → Option CString
  photo_meta_reader_vips_get_str im field =
      if lib.has_field im field then lib.get_string im field else none

  unfoldable pub date_writes : Option CString → Writes
  unfolding year_writes first_four
  date_writes none = []
  date_writes (some str) =
      if ltb (length str) 19 then [] else year_writes (system.strtol (first_four str))

  -- What is set for every picture that opens.
  unfoldable pub basic_writes : CString → CString → lib.Image → Writes
  unfolding mtime_of
  basic_writes path format im =
      (prop_format, some format)
      ∷ (prop_pixel_height, lib.ysize im)
      ∷ (prop_pixel_width, lib.xsize im)
      ∷ (prop_comments, some [])
      ∷ (prop_creation_date, mtime_of system.unset_mtime (system.stat path) % 2 ^ 32)
      ∷ (prop_rating, 5)
      ∷ []

  -- All that is set before the thumbnail, in this order.
  unfoldable pub picture_writes : CString → CString → lib.Image → Writes
  unfolding size_writes name_writes basic_writes ratio_writes comment_writes date_writes
      photo_meta_reader_vips_get_str
  picture_writes path format im =
      size_writes (system.stat path)
      ++ (name_writes (system.path_get_basename path)
          ++ (basic_writes path format im
              ++ (ratio_writes (system.print_ratio (lib.xsize im) (lib.ysize im))
                  ++ (comment_writes (photo_meta_reader_vips_get_str im user_comment)
                      ++ date_writes (photo_meta_reader_vips_get_str im date_and_time)))))

  -- The thumbnail's bytes; no bytes where it cannot be made.
  unfoldable pub thumbnail_writes : lib.Image → Writes
  thumbnail_writes im = elim (thumbnail_shrink lib max_thumbnail_width im) [
    | none ↦ (prop_thumbnail, some []) ∷ []
    | some bytes ↦ (prop_thumbnail, some bytes) ∷ []
  ]

  unfoldable pub take_thumbnail : Option lib.Image → State h → Option (Bool × State h)
  unfolding thumbnail_writes
  take_thumbnail none s = some (false, s)
  take_thumbnail (some im) s = object_set h (thumbnail_writes im) s >>= λ s'. some (true, s')

  unfoldable pub read_image :
      CString → CString → Option lib.Image → State h → Option (Bool × State h)
  unfolding picture_writes take_thumbnail
  read_image path format none s = some (false, s)
  read_image path format (some im) s = object_set h (picture_writes path format im) s >>= λ s1.
      thumbnail_open lib max_thumbnail_width path >>= λ thumb. take_thumbnail thumb s1

  unfoldable pub photo_meta_reader_vips_read : CString → State h → Option (Bool × State h)
  unfolding read_image
  photo_meta_reader_vips_read path s = elim (lib.format_for_file path) [
    | none ↦ some (false, s)
    | some format ↦ read_image path format (lib.new_from_file path) s
  ]
