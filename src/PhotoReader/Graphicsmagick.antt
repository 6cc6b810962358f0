-- ===== src/PhotoReader/Graphicsmagick.antt =====
-- src/photo-meta-reader-graphicsmagick.c, photo_meta_reader_graphicsmagick_read. GraphicsMagick is a
-- parameter, and with it the thumbnail, whose size the code computes in floating point.
use dmapd.Prelude.{
  ℕ, ◌%◌, ◌^◌, Bool, true, false, Option, none, some, [], ◌∷◌, ◌++◌, CString, Bytes, ◌>>=◌,
}
use dmapd.Stringleton.{StrTable}
use dmapd.Dpap.{
  prop_location, prop_filename, prop_format, prop_pixel_height, prop_pixel_width, prop_comments,
  prop_creation_date, prop_rating, prop_aspect_ratio, prop_thumbnail, State, object_set,
}
use dmapd.PhotoReader.{thumbnail_width}
use dmapd.PhotoReader.Vips.{System, Writes, size_writes}

pub record Wand : Type 0 where
  pub format : Option CString
  pub width : ℕ
  pub height : ℕ
  -- "%f" of the ratio
  pub aspect_ratio : CString
  -- the bytes of the picture, resized to a maximal width
  pub thumbnail : ℕ → Bytes

-- "file//"
abbrev pub file_prefix : CString
file_prefix = b'f' ∷ b'i' ∷ b'l' ∷ b'e' ∷ b'/' ∷ b'/' ∷ []

module _ (h : StrTable) (read_image : CString → Option Wand) (system : System)
    (basename : CString → CString) (max_thumbnail_width : ℕ) where
  unfoldable pub wand_writes : CString → Wand → Writes
  unfolding size_writes thumbnail_width
  wand_writes path wand =
      size_writes (system.stat path)
      ++ ((prop_creation_date, 1)
          ∷ (prop_rating, 5)
          ∷ (prop_filename, some (basename path))
          ∷ (prop_location, some (file_prefix ++ path))
          ∷ (prop_format, wand.format)
          ∷ (prop_pixel_height, wand.height % 2 ^ 32)
          ∷ (prop_pixel_width, wand.width % 2 ^ 32)
          ∷ (prop_comments, some [])
          ∷ (prop_aspect_ratio, some wand.aspect_ratio)
          ∷ (prop_thumbnail, some (wand.thumbnail (thumbnail_width max_thumbnail_width)))
          ∷ [])

  unfoldable pub take_wand : CString → Option Wand → State h → Option (Bool × State h)
  unfolding wand_writes
  take_wand path none s = some (false, s)
  take_wand path (some wand) s = object_set h (wand_writes path wand) s >>= λ s'. some (true, s')

  unfoldable pub photo_meta_reader_graphicsmagick_read : CString → State h → Option (Bool × State h)
  unfolding take_wand
  photo_meta_reader_graphicsmagick_read path s = take_wand path (read_image path) s
