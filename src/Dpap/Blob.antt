-- ===== src/Dpap/Blob.antt =====
-- src/dmapd-dpap-record.c, to_blob and set_from_blob: the cached form of a picture's record.
use dmapd.Prelude.{
  ℕ, zero, suc, Option, none, some, List, [], ◌∷◌, CString, Bytes, str_eq, length, ◌==◌,
  ◌>>=◌ as and_then, if◌then◌else◌,
}
use dmapd.Build.{Build}
use dmapd.Blob.{
  Read, Outcome, ok, refused, fault, wrong_version, bad_hash_size, unreadable, changed, int_bytes,
  blob_add_atomic, blob_add_string, get_string, get_int, get_bytes, require, pure, ◌>>=◌, ◌>>◌,
}
use dmapd.Stringleton.{StrTable}
use dmapd.FileHash.{
  HashLib, Chunk, Source, Hashed, hashed, not_hashed, overread, dmapd_util_hash_file,
}
use dmapd.Dpap.{
  DpapRecordPrivate, PropId, Value, prop_location, prop_hash, prop_large_filesize,
  prop_creation_date, prop_rating, prop_filename, prop_aspect_ratio, prop_pixel_height,
  prop_pixel_width, prop_format, prop_comments, prop_thumbnail, State, object_set,
}

-- The pointers that to_blob follows.
pub record Strings : Type 0 where
  pub location : CString
  pub hash : Bytes
  pub filename : CString
  pub aspectratio : CString
  pub format : CString
  pub comments : CString

unfoldable pub pointers : DpapRecordPrivate → Option Strings
pointers r = and_then r.location λ location. and_then r.hash λ hash. and_then r.filename λ filename.
    and_then r.aspectratio λ aspectratio. and_then r.format λ format.
      and_then r.comments λ comments. some (record {
        location = location;
        hash = hash;
        filename = filename;
        aspectratio = aspectratio;
        format = format;
        comments = comments;
      })

-- The bytes of the thumbnail; without one a length of 0 is written, and no bytes.
abbrev pub thumbnail_bytes : Option Bytes → Bytes
thumbnail_bytes none = []
thumbnail_bytes (some bs) = bs

module _ (b : Build) where
  open b use {version, endian}

  -- The address and size of an integer field.
  abbrev int : Bytes → ℕ → ℕ → Bytes
  int blob width n = blob_add_atomic blob (int_bytes endian width n)

  unfoldable pub encode : Strings → DpapRecordPrivate → Bytes
  encode s r =
      let blob = blob_add_string [] version in
      let blob = blob_add_string blob s.location in
      let blob = int blob 4 (length s.hash) in
      let blob = blob_add_atomic blob s.hash in
      let blob = int blob 4 r.largefilesize in
      let blob = int blob 4 r.creationdate in
      let blob = int blob 4 r.rating in
      let blob = blob_add_string blob s.filename in
      let blob = int blob 4 (length (thumbnail_bytes r.thumbnail)) in
      let blob = blob_add_atomic blob (thumbnail_bytes r.thumbnail) in
      let blob = blob_add_string blob s.aspectratio in
      let blob = int blob 4 r.height in
      let blob = int blob 4 r.width in
      let blob = blob_add_string blob s.format in let blob = blob_add_string blob s.comments in blob

  -- `none` is a NULL pointer that is followed.
  unfoldable pub to_blob : DpapRecordPrivate → Option Bytes
  unfolding encode pointers
  to_blob r = and_then (pointers r) λ s. some (encode s r)

-- The local variables of set_from_blob.
pub record Locals : Type 0 where
  pub location : CString
  pub hash : Bytes
  pub large_filesize : ℕ
  pub creation_date : ℕ
  pub rating : ℕ
  pub filename : CString
  pub thumbnail : Option Bytes
  pub aspect_ratio : CString
  pub pixel_height : ℕ
  pub pixel_width : ℕ
  pub format : CString
  pub comments : CString

-- if (size) { … }
unfoldable pub get_thumbnail : ℕ → Read (Option Bytes)
get_thumbnail zero = pure none
get_thumbnail (suc n) = get_bytes (suc n) >>= λ bs. pure (some bs)

module _ (lib : HashLib) (b : Build) where
  open b use {version, endian}

  unfoldable pub decode : Read Locals
  decode = do
    cached_version ← get_string
    require (str_eq cached_version version) wrong_version
    location ← get_string
    size ← get_int endian 4
    require (lib.hash_size == size) bad_hash_size
    hash ← get_bytes size
    large_filesize ← get_int endian 4
    creation_date ← get_int endian 4
    rating ← get_int endian 4
    filename ← get_string
    size ← get_int endian 4
    thumbnail ← get_thumbnail size
    aspect_ratio ← get_string
    pixel_height ← get_int endian 4
    pixel_width ← get_int endian 4
    format ← get_string
    comments ← get_string
    pure (record {
      location = location;
      hash = hash;
      large_filesize = large_filesize;
      creation_date = creation_date;
      rating = rating;
      filename = filename;
      thumbnail = thumbnail;
      aspect_ratio = aspect_ratio;
      pixel_height = pixel_height;
      pixel_width = pixel_width;
      format = format;
      comments = comments;
    })

-- The properties of the two calls of g_object_set, in their order. Without a thumbnail the last
-- is an empty array.
unfoldable pub settings : Locals → List ((p : PropId) × Value p)
settings f =
    (prop_location, some f.location)
    ∷ (prop_hash, some f.hash)
    ∷ (prop_large_filesize, f.large_filesize)
    ∷ (prop_creation_date, f.creation_date)
    ∷ (prop_rating, f.rating)
    ∷ (prop_filename, some f.filename)
    ∷ (prop_aspect_ratio, some f.aspect_ratio)
    ∷ (prop_pixel_height, f.pixel_height)
    ∷ (prop_pixel_width, f.pixel_width)
    ∷ (prop_format, some f.format)
    ∷ (prop_comments, some f.comments)
    ∷ (prop_thumbnail, some (thumbnail_bytes f.thumbnail))
    ∷ []

module _ (h : StrTable) where
  unfoldable pub or_fault : Option (State h) → Outcome (State h)
  or_fault none = fault
  or_fault (some s) = ok s

  -- memcmp (hash->data, hash2, DMAP_HASH_SIZE)
  unfoldable pub compare_hash : Locals → Hashed → State h → Outcome (State h)
  unfolding or_fault
  compare_hash f overread s = fault
  compare_hash f not_hashed s = refused changed
  compare_hash f (hashed hash2) s =
      if str_eq f.hash hash2 then or_fault (object_set h (settings f) s) else refused changed

  -- stream = g_file_read (file, NULL, &error);
  unfoldable pub open_media : Locals → Option (List Chunk) → Hashed → State h → Outcome (State h)
  unfolding compare_hash
  open_media f none hash2 s = refused unreadable
  open_media f (some stream) hash2 s = compare_hash f hash2 s

  module _ (lib : HashLib) (source : Source) where
    unfoldable pub check_media : Outcome (Locals × Bytes) → State h → Outcome (State h)
    unfolding open_media
    check_media fault s = fault
    check_media (refused r) s = refused r
    check_media (ok (f, rest)) s =
        open_media f (source f.location) (dmapd_util_hash_file lib source f.location) s

    -- `ok` is TRUE with the new state; `refused` is FALSE, and nothing has been set.
    unfoldable pub set_from_blob : Build → Bytes → State h → Outcome (State h)
    unfolding check_media
    set_from_blob b blob s = check_media (decode lib b blob) s
