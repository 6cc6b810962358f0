-- ===== src/PhotoReader.antt =====
-- src/photo-meta-reader-vips.c: how far a picture is shrunk for its thumbnail, and how the thumbnail
-- is made. VIPS is a parameter. A double here is a quotient of two whole numbers below 2 ^ 32: its
-- floor, and its comparison with 1.0, are those of the exact quotient.
pub mod Vips
pub mod Bounds
pub mod Identity
pub mod Graphicsmagick
pub mod Created
pub mod Tests
use dmapd.Prelude.{
  ℕ, ◌/◌, Bool, true, false, not, Option, none, some, List, [], ◌∷◌, CString, Bytes, str_eq, ltb,
  leb, ◌==◌, if◌then◌else◌, ◌>>=◌,
}

pub data Coding : Type 0 where
  coding_labq coding_rad coding_other : Coding

pub data Interpolate : Type 0 where
  nearest bilinear : Interpolate

-- Of the calls that give an image, `none` is a failure. A shrink factor that is `none` is not
-- passed. For vips_foreign_load, whether it fails and what its out argument holds afterwards.
pub record VipsLib : Type 1 where
  pub Image : Type 0
  pub xsize : Image → ℕ
  pub ysize : Image → ℕ
  pub coding : Image → Coding
  -- the name of the format's class
  pub format_for_file : CString → Option CString
  pub new_from_file : CString → Option Image
  pub find_load : CString → Option CString
  pub load : CString → Option ℕ → Option Image → Bool × Option Image
  pub jpegload_buffer : Bytes → Option ℕ → Option Image
  pub has_field : Image → CString → Bool
  pub get_string : Image → CString → Option CString
  pub get_int : Image → CString → Option ℕ
  pub get_blob : Image → CString → Option Bytes
  pub colourspace : Image → Option Image
  pub rad2float : Image → Option Image
  pub shrink : Image → ℕ → Option Image
  pub tilecache : Image → Option Image
  -- scaled by the quotient of the two numbers
  pub affine : Image → ℕ × ℕ → Interpolate → Option Image
  pub jpegsave_buffer : Image → Option Bytes

abbrev default_max_thumbnail_width : ℕ
default_max_thumbnail_width = 128

-- The property of the reader, where 0 stands for the default.
unfoldable pub thumbnail_width : ℕ → ℕ
thumbnail_width n = if n == 0 then default_max_thumbnail_width else n

-- VIPS_MAX
unfoldable pub max : ℕ → ℕ → ℕ
max a b = if ltb b a then a else b

-- The shrink factor, and the residual as a quotient: the thumbnail's width and the size after the
-- shrink.
unfoldable pub calculate_shrink : ℕ → ℕ → ℕ → ℕ × (ℕ × ℕ)
unfolding thumbnail_width max
calculate_shrink max_thumbnail_width width height =
    let target = thumbnail_width max_thumbnail_width in
    let dimension = max width height in
    let shrink = if ltb dimension target then 1 else dimension / target in
    (shrink, (target, dimension / shrink))

-- residual > 1.0
unfoldable pub is_zoom : ℕ × ℕ → Bool
is_zoom (target, isize) = ltb isize target

-- The preload shrinks of libjpeg.
unfoldable pub jpegshrink_of : ℕ → ℕ
jpegshrink_of shrink =
    if leb 8 shrink then 8 else if leb 4 shrink then 4 else if leb 2 shrink then 2 else 1

unfoldable pub thumbnail_find_jpegshrink : ℕ → ℕ → ℕ → ℕ
unfolding calculate_shrink jpegshrink_of
thumbnail_find_jpegshrink max_thumbnail_width width height =
    jpegshrink_of (calculate_shrink max_thumbnail_width width height).0

-- "jpeg-thumbnail-data", "jpeg-multiscan" and "VipsForeignLoadJpegFile"
abbrev thumbnail_field : CString
thumbnail_field =
    b'j' ∷ b'p' ∷ b'e' ∷ b'g' ∷ b'-' ∷ b't' ∷ b'h' ∷ b'u' ∷ b'm' ∷ b'b' ∷ b'n' ∷ b'a' ∷ b'i' ∷ b'l'
    ∷ b'-' ∷ b'd' ∷ b'a' ∷ b't' ∷ b'a' ∷ []

abbrev multiscan_field : CString
multiscan_field =
    b'j' ∷ b'p' ∷ b'e' ∷ b'g' ∷ b'-' ∷ b'm' ∷ b'u' ∷ b'l' ∷ b't' ∷ b'i' ∷ b's' ∷ b'c' ∷ b'a' ∷ b'n'
    ∷ []

abbrev pub jpeg_loader : CString
jpeg_loader =
    b'V' ∷ b'i' ∷ b'p' ∷ b's' ∷ b'F' ∷ b'o' ∷ b'r' ∷ b'e' ∷ b'i' ∷ b'g' ∷ b'n' ∷ b'L' ∷ b'o' ∷ b'a'
    ∷ b'd' ∷ b'J' ∷ b'p' ∷ b'e' ∷ b'g' ∷ b'F' ∷ b'i' ∷ b'l' ∷ b'e' ∷ []

module _ (lib : VipsLib) (max_thumbnail_width : ℕ) where
  unfoldable jpeg_is_multiscan : lib.Image → Bool
  jpeg_is_multiscan im =
      if lib.has_field im multiscan_field
      then elim (lib.get_int im multiscan_field) [ none ↦ false | some n ↦ not (n == 0) ]
      else false

  -- The embedded thumbnail, where it is large enough, loaded with its own preshrink.
  unfoldable pub reload_thumbnail : Bytes → lib.Image → Option lib.Image
  unfolding calculate_shrink is_zoom thumbnail_find_jpegshrink
  reload_thumbnail blob thumb =
      if is_zoom (calculate_shrink max_thumbnail_width (lib.xsize thumb) (lib.ysize thumb)).1
      then none
      else lib.jpegload_buffer blob
          (some (thumbnail_find_jpegshrink max_thumbnail_width (lib.xsize thumb) (lib.ysize thumb)))

  unfoldable pub thumbnail_get_thumbnail : lib.Image → Option lib.Image
  unfolding reload_thumbnail
  thumbnail_get_thumbnail im =
      if lib.has_field im thumbnail_field
      then (lib.get_blob im thumbnail_field >>= λ blob.
          lib.jpegload_buffer blob none >>= reload_thumbnail blob)
      else none

  -- Where the load fails, the warning reads the image that it has left; a NULL there is `none`.
  unfoldable loaded_jpeg : Bool × Option lib.Image → Option (Option lib.Image)
  loaded_jpeg (false, none) = none
  loaded_jpeg (b, im) = some im

  -- A JPEG whose header has been read. A multiscan JPEG is returned as it is.
  unfoldable open_jpeg : CString → lib.Image → Option (Option lib.Image)
  unfolding thumbnail_get_thumbnail jpeg_is_multiscan loaded_jpeg thumbnail_find_jpegshrink
  open_jpeg filename im = elim (thumbnail_get_thumbnail im) [
    | some thumb ↦ some (some thumb)
    | none ↦
        if jpeg_is_multiscan im
        then some (some im)
        else loaded_jpeg (
            lib.load filename
              (some (thumbnail_find_jpegshrink max_thumbnail_width (lib.xsize im) (lib.ysize im)))
              (some im))
  ]

  -- `none` is a NULL that is read; `none` inside is NULL.
  unfoldable pub thumbnail_open : CString → Option (Option lib.Image)
  unfolding open_jpeg
  thumbnail_open filename = elim (lib.find_load filename) [
    | none ↦ some none
    | some loader ↦
        if str_eq loader jpeg_loader
        then elim (lib.new_from_file filename) [
          | none ↦ some none
          | some im ↦ open_jpeg filename im
        ]
        else some (lib.load filename none none).1
  ]

  unfoldable unpack : Coding → lib.Image → Option lib.Image
  unpack coding_labq im = lib.colourspace im
  unpack coding_rad im = lib.rad2float im >>= lib.colourspace
  unpack coding_other im = some im

  unfoldable pub interpolate_of : ℕ × ℕ → Interpolate
  unfolding is_zoom
  interpolate_of residual = if is_zoom residual then nearest else bilinear

  -- The bytes of the thumbnail, where it can be made.
  unfoldable pub thumbnail_shrink : lib.Image → Option Bytes
  unfolding unpack calculate_shrink interpolate_of
  thumbnail_shrink im = unpack (lib.coding im) im >>= λ unpacked.
      let (shrink, residual) =
        calculate_shrink max_thumbnail_width (lib.xsize unpacked) (lib.ysize unpacked) in
      lib.shrink unpacked shrink >>= lib.tilecache >>= λ tiled.
      lib.affine tiled residual (interpolate_of residual) >>= lib.jpegsave_buffer
