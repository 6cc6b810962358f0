-- ===== src/Daap/Blob.antt =====
-- src/dmapd-daap-record.c, to_blob and set_from_blob: the cached form of a record.
use dmapd.Prelude.{
  ℕ, Option, none, some, List, [], ◌∷◌, CString, Bytes, str_eq, length, ◌==◌, ◌>>=◌ as and_then,
  if◌then◌else◌,
}
use dmapd.Build.{Build}
use dmapd.Blob.{
  Read, Outcome, ok, refused, fault, wrong_version, bad_hash_size, unreadable, changed, int_bytes,
  blob_add_atomic, blob_add_string, get_string, get_int, get_bytes, require, pure, ◌>>=◌, ◌>>◌,
}
use dmapd.Stringleton.{StrTable}
use dmapd.FileHash.{
  HashLib, Chunk, Source, Hashed, hashed, not_hashed, overread, dmapd_util_hash_file,
}
use dmapd.Daap.{
  DaapRecordPrivate, PropId, Value, prop_location, prop_hash, prop_title, prop_rating,
  prop_filesize, prop_album, prop_artist, prop_genre, prop_format, prop_mediakind, prop_duration,
  prop_track, prop_year, prop_firstseen, prop_mtime, prop_disc, prop_bitrate, prop_has_video, State,
  object_set,
}

-- The pointers that to_blob asserts.
pub record Strings : Type 0 where
  pub location : CString
  pub hash : Bytes
  pub format : CString
  pub title : CString
  pub album : CString
  pub artist : CString
  pub genre : CString

unfoldable pub asserted : DaapRecordPrivate → Option Strings
asserted r = and_then r.location λ location. and_then r.hash λ hash. and_then r.format λ format.
    and_then r.title λ title. and_then r.album λ album. and_then r.artist λ artist.
      and_then r.genre λ genre. some (record {
        location = location;
        hash = hash;
        format = format;
        title = title;
        album = album;
        artist = artist;
        genre = genre;
      })

module _ (b : Build) where
  open b use {version, endian}

  -- The address and size of an integer field.
  abbrev int : Bytes → ℕ → ℕ → Bytes
  int blob width n = blob_add_atomic blob (int_bytes endian width n)

  unfoldable pub encode : Strings → DaapRecordPrivate → Bytes
  encode s r =
      let blob = blob_add_string [] version in
      let blob = blob_add_string blob s.location in
      let blob = int blob 4 (length s.hash) in
      let blob = blob_add_atomic blob s.hash in
      let blob = int blob 8 r.filesize in
      let blob = blob_add_string blob s.format in
      let blob = blob_add_string blob s.title in
      let blob = blob_add_string blob s.album in
      let blob = blob_add_string blob s.artist in
      let blob = blob_add_string blob s.genre in
      let blob = int blob 4 r.has_video in
      let blob = int blob 4 r.mediakind in
      let blob = int blob 4 r.rating in
      let blob = int blob 4 r.duration in
      let blob = int blob 4 r.track in
      let blob = int blob 4 r.year in
      let blob = int blob 4 r.firstseen in
      let blob = int blob 4 r.mtime in
      let blob = int blob 4 r.disc in let blob = int blob 4 r.bitrate in blob

  -- `none` is an abort by g_assert.
  unfoldable pub to_blob : DaapRecordPrivate → Option Bytes
  unfolding encode asserted
  to_blob r = and_then (asserted r) λ s. some (encode s r)

-- The local variables of set_from_blob.
pub record Locals : Type 0 where
  pub location : CString
  pub hash : Bytes
  pub filesize : ℕ
  pub format : CString
  pub title : CString
  pub songalbum : CString
  pub songartist : CString
  pub songgenre : CString
  pub has_video : ℕ
  pub mediakind : ℕ
  pub rating : ℕ
  pub duration : ℕ
  pub track : ℕ
  pub year : ℕ
  pub firstseen : ℕ
  pub mtime : ℕ
  pub disc : ℕ
  pub bitrate : ℕ

module _ (lib : HashLib) (b : Build) where
  open b use {version, endian}

  unfoldable pub decode : Read Locals
  decode = do
    cached_version ← get_string
    require (str_eq cached_version version) wrong_version
    location ← get_string
    size ← get_int endian 4
    require (lib.hash_size == size) bad_hash_size
    hash ← get_bytes size
    filesize ← get_int endian 8
    format ← get_string
    title ← get_string
    songalbum ← get_string
    songartist ← get_string
    songgenre ← get_string
    has_video ← get_int endian 4
    mediakind ← get_int endian 4
    rating ← get_int endian 4
    duration ← get_int endian 4
    track ← get_int endian 4
    year ← get_int endian 4
    firstseen ← get_int endian 4
    mtime ← get_int endian 4
    disc ← get_int endian 4
    bitrate ← get_int endian 4
    pure (record {
      location = location;
      hash = hash;
      filesize = filesize;
      format = format;
      title = title;
      songalbum = songalbum;
      songartist = songartist;
      songgenre = songgenre;
      has_video = has_video;
      mediakind = mediakind;
      rating = rating;
      duration = duration;
      track = track;
      year = year;
      firstseen = firstseen;
      mtime = mtime;
      disc = disc;
      bitrate = bitrate;
    })

-- The properties of the call of g_object_set, in its order.
unfoldable pub settings : Locals → List ((p : PropId) × Value p)
settings f =
    (prop_year, f.year)
    ∷ (prop_filesize, f.filesize)
    ∷ (prop_location, some f.location)
    ∷ (prop_hash, some f.hash)
    ∷ (prop_format, some f.format)
    ∷ (prop_title, some f.title)
    ∷ (prop_album, some f.songalbum)
    ∷ (prop_artist, some f.songartist)
    ∷ (prop_genre, some f.songgenre)
    ∷ (prop_has_video, f.has_video)
    ∷ (prop_mediakind, f.mediakind)
    ∷ (prop_rating, f.rating)
    ∷ (prop_duration, f.duration)
    ∷ (prop_track, f.track)
    ∷ (prop_firstseen, f.firstseen)
    ∷ (prop_mtime, f.mtime)
    ∷ (prop_disc, f.disc)
    ∷ (prop_bitrate, f.bitrate)
    ∷ []

module _ (h : StrTable) where
  unfoldable pub or_fault : Option (State h) → Outcome (State h)
  or_fault none = fault
  or_fault (some s) = ok s

  -- memcmp (hash->data, hash2, DMAP_HASH_SIZE)
  unfoldable pub compare_hash : Locals → Hashed → State h → Outcome (State h)
  unfolding or_fault
  compare_hash f overread s = fault
  compare_hash f not_hashed s = refused changed
  compare_hash f (hashed hash2) s =
      if str_eq f.hash hash2 then or_fault (object_set h (settings f) s) else refused changed

  -- stream = g_file_read (file, NULL, &error);
  unfoldable pub open_media : Locals → Option (List Chunk) → Hashed → State h → Outcome (State h)
  unfolding compare_hash
  open_media f none hash2 s = refused unreadable
  open_media f (some stream) hash2 s = compare_hash f hash2 s

  module _ (lib : HashLib) (source : Source) where
    unfoldable pub check_media : Outcome (Locals × Bytes) → State h → Outcome (State h)
    unfolding open_media
    check_media fault s = fault
    check_media (refused r) s = refused r
    check_media (ok (f, rest)) s =
        open_media f (source f.location) (dmapd_util_hash_file lib source f.location) s

    -- `ok` is TRUE with the new state; `refused` is FALSE, and nothing has been set.
    unfoldable pub set_from_blob : Build → Bytes → State h → Outcome (State h)
    unfolding check_media
    set_from_blob b blob s = check_media (decode lib b blob) s
