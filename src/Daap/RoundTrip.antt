-- ===== src/Daap/RoundTrip.antt =====
-- A DAAP record survives the cache: src/dmapd-daap-record.c, to_blob and set_from_blob.
use mathlib.Core.List.{append_assoc, append-nil}
use dmapd.Prelude.{
  ◌^◌, ◌<◌, ◌≡◌, refl, some, List, [], ◌∷◌, ◌++◌, Bytes, IsCString, All, length, str_eq_refl, ◌==◌,
  true, arith,
}
use dmapd.Build.{Build}
use dmapd.Blob.{ok, int_bytes, blob_add_atomic, blob_add_string}
use dmapd.Blob.RoundTrip.{
  Exact, Exact-bind, Exact-pure, Exact-require, Exact-get_bytes, Exact-get_int, Exact-get_string,
}
use dmapd.Stringleton.{StrTable}
use dmapd.Stringleton.Counts.{live_global}
use dmapd.FileHash.{HashLib, Chunk, Source, hashed, dmapd_util_hash_file}
use dmapd.Daap.{DaapRecordPrivate}
use dmapd.Daap.Properties.{write}
use dmapd.Daap.Live.{IsGiven, write_all, object_set-live}
use dmapd.Daap.Blob.{
  Strings, asserted, encode, to_blob, Locals, decode, settings, or_fault, compare_hash, open_media,
  check_media, set_from_blob,
}

-- The integers of a record fit their C types.
pub record IsInRange (r : DaapRecordPrivate) : Type 0 where
  pub filesize : r.filesize < 2 ^ 64
  pub has_video : r.has_video < 2 ^ 32
  pub mediakind : r.mediakind < 2 ^ 32
  pub rating : r.rating < 2 ^ 32
  pub duration : r.duration < 2 ^ 32
  pub track : r.track < 2 ^ 32
  pub year : r.year < 2 ^ 32
  pub firstseen : r.firstseen < 2 ^ 32
  pub mtime : r.mtime < 2 ^ 32
  pub disc : r.disc < 2 ^ 32
  pub bitrate : r.bitrate < 2 ^ 32

-- No string holds its terminator, and the hash has the length of a digest.
pub record IsText (lib : HashLib) (s : Strings) : Type 0 where
  pub location : IsCString s.location
  pub hash : length s.hash ≡ lib.hash_size
  pub format : IsCString s.format
  pub title : IsCString s.title
  pub album : IsCString s.album
  pub artist : IsCString s.artist
  pub genre : IsCString s.genre

abbrev pub locals : Strings → DaapRecordPrivate → Locals
locals s r = record {
  location = s.location;
  hash = s.hash;
  filesize = r.filesize;
  format = s.format;
  title = s.title;
  songalbum = s.album;
  songartist = s.artist;
  songgenre = s.genre;
  has_video = r.has_video;
  mediakind = r.mediakind;
  rating = r.rating;
  duration = r.duration;
  track = r.track;
  year = r.year;
  firstseen = r.firstseen;
  mtime = r.mtime;
  disc = r.disc;
  bitrate = r.bitrate;
}

module _ (lib : HashLib) (b : Build) (s : Strings) (r : DaapRecordPrivate) where
  -- The blob, piece by piece.
  abbrev pieces : Bytes
  pieces =
      (b.version ++ 0 ∷ [])
      ++ ([]
          ++ ((s.location ++ 0 ∷ [])
              ++ (int_bytes b.endian 4 (length s.hash)
                  ++ ([]
                      ++ (s.hash
                          ++ (int_bytes b.endian 8 r.filesize
                              ++ ((s.format ++ 0 ∷ [])
                                  ++ ((s.title ++ 0 ∷ [])
                                      ++ ((s.album ++ 0 ∷ [])
                                          ++ ((s.artist ++ 0 ∷ [])
                                              ++ ((s.genre ++ 0 ∷ [])
                                                  ++ (int_bytes b.endian 4 r.has_video
                                                      ++ (int_bytes b.endian 4 r.mediakind
                                                          ++ (int_bytes b.endian 4 r.rating
                                                            ++ (int_bytes b.endian 4 r.duration
                                                            ++ (int_bytes b.endian 4 r.track
                                                            ++ (int_bytes b.endian 4 r.year
                                                            ++ (int_bytes b.endian 4 r.firstseen
                                                            ++ (int_bytes b.endian 4 r.mtime
                                                            ++ (int_bytes b.endian 4 r.disc
                                                            ++ (int_bytes b.endian 4 r.bitrate
                                                            ++ [])))))))))))))))))))))

  encode-pieces : encode b s r ≡ pieces
  unfolding encode blob_add_atomic blob_add_string
  encode-pieces = simp (append_assoc, append-nil)

  pub encode-head :
      (rest : Bytes) × (encode b s r
        ≡ (b.version ++ 0 ∷ [])
          ++ ((s.location ++ 0 ∷ []) ++ (int_bytes b.endian 4 (length s.hash) ++ rest)))
  encode-head = (_, encode-pieces)

  pub decode-Exact :
      IsCString b.version
      → lib.hash_size < 2 ^ 32
      → IsText lib s
      → IsInRange r
      → Exact (decode lib b) (encode b s r) (locals s r)
  unfolding decode
  decode-Exact v n t i = rw encode-pieces (
      Exact-bind _ _ (Exact-get_string b.version v) (
        Exact-bind _ _ (Exact-require _ _ (str_eq_refl b.version)) (
          Exact-bind _ _ (Exact-get_string s.location t.location) (
            Exact-bind _ _ (Exact-get_int b.endian 4 (length s.hash) (omega arith)) (
              Exact-bind _ _ (Exact-require _ _ (size_ok t.hash)) (
                Exact-bind _ _ (Exact-get_bytes (length s.hash) s.hash refl) (
                  Exact-bind _ _
                    (Exact-get_int b.endian 8 r.filesize (let i' = i.filesize in omega arith))
                    (Exact-bind _ _ (Exact-get_string s.format t.format) (
                      Exact-bind _ _ (Exact-get_string s.title t.title) (
                        Exact-bind _ _ (Exact-get_string s.album t.album) (
                          Exact-bind _ _ (Exact-get_string s.artist t.artist) (
                            Exact-bind _ _ (Exact-get_string s.genre t.genre) (
                              Exact-bind _ _
                                (Exact-get_int b.endian 4 r.has_video
                                  (let i' = i.has_video in omega arith))
                                (Exact-bind _ _
                                  (Exact-get_int b.endian 4 r.mediakind
                                    (let i' = i.mediakind in omega arith))
                                  (Exact-bind _ _
                                    (Exact-get_int b.endian 4 r.rating
                                      (let i' = i.rating in omega arith))
                                    (Exact-bind _ _
                                      (Exact-get_int b.endian 4 r.duration
                                        (let i' = i.duration in omega arith))
                                      (Exact-bind _ _
                                        (Exact-get_int b.endian 4 r.track
                                          (let i' = i.track in omega arith))
                                        (Exact-bind _ _
                                          (Exact-get_int b.endian 4 r.year
                                            (let i' = i.year in omega arith))
                                          (Exact-bind _ _
                                            (Exact-get_int b.endian 4 r.firstseen
                                              (let i' = i.firstseen in omega arith))
                                            (Exact-bind _ _
                                              (Exact-get_int b.endian 4 r.mtime
                                                (let i' = i.mtime in omega arith))
                                              (Exact-bind _ _
                                                (Exact-get_int b.endian 4 r.disc
                                                  (let i' = i.disc in omega arith))
                                                (Exact-bind _ _
                                                  (Exact-get_int b.endian 4 r.bitrate
                                                    (let i' = i.bitrate in omega arith))
                                                  (Exact-pure (locals s r))))))))))))))))))))))))
    where
      size_ok : length s.hash ≡ lib.hash_size → (lib.hash_size == length s.hash) ≡ true
      size_ok e = ground arith

abbrev IsAsserted : DaapRecordPrivate → Strings → Type 0
IsAsserted r s =
    (r.location ≡ some s.location)
    × (r.hash ≡ some s.hash)
    × (r.format ≡ some s.format)
    × (r.title ≡ some s.title)
    × (r.album ≡ some s.album)
    × (r.artist ≡ some s.artist)
    × (r.genre ≡ some s.genre)

-- The fields that to_blob needs are there, and the record can be written down.
pub record IsStorable (lib : HashLib) (r : DaapRecordPrivate) : Type 0 where
  pub strings : Strings
  pub fields : IsAsserted r strings
  pub text : IsText lib strings
  pub range : IsInRange r

pub asserted_lem : (r : DaapRecordPrivate) (s : Strings) → IsAsserted r s → asserted r ≡ some s
unfolding asserted
asserted_lem r s k = simp (k.0, k.1, k.2, k.3, k.4, k.5, k.6)

settings-IsGiven : (f : Locals) → All (λ x. IsGiven x.0 x.1) (settings f)
unfolding settings
settings-IsGiven f = omega arith

-- The record read back: all but the two sort names, which the cache does not hold.
abbrev pub restored : DaapRecordPrivate → DaapRecordPrivate → DaapRecordPrivate
restored r r0 = record r { sort_album = r0.sort_album; sort_artist = r0.sort_artist }

write_all-restored :
    (s : Strings) (r r0 : DaapRecordPrivate)
    → IsAsserted r s
    → write_all (settings (locals s r)) r0 ≡ restored r r0
unfolding settings write
write_all-restored s r r0 k = cc (k.0, k.1, k.2, k.3, k.4, k.5, k.6)

module _ (h : StrTable) (lib : HashLib) (source : Source) (b : Build) where
  open_fresh :
      (s : Strings) (r r0 : DaapRecordPrivate) (t : h.Table) (stream : List Chunk)
      → IsAsserted r s
      → (t' : h.Table) × (open_media h
            (locals s r)
            (some stream)
            (hashed s.hash)
            (live_global h t, r0)
          ≡ ok (live_global h t', restored r r0))
  unfolding compare_hash open_media or_fault
  open_fresh s r r0 t stream k =
      let (t', e') = object_set-live h (settings (locals s r)) t r0 (settings-IsGiven _) in
      (t', rw (str_eq_refl s.hash, e', write_all-restored s r r0 k) refl)

  -- What to_blob writes of a record whose strings hold no NUL and whose hash and integers have
  -- their sizes, set_from_blob reads back, on a build of the same version and byte order, while
  -- the media file can be opened and has the recorded hash: it returns TRUE, and every field is
  -- the record's but the two sort names, which stay as they were.
  pub set_from_blob-to_blob :
      (r r0 : DaapRecordPrivate) (k : IsStorable lib r) (t : h.Table) (stream : List Chunk)
      → IsCString b.version
      → lib.hash_size < 2 ^ 32
      → source k.strings.location ≡ some stream
      → dmapd_util_hash_file lib source k.strings.location ≡ hashed k.strings.hash
      → (blob : Bytes) × (t' : h.Table) × (to_blob b r ≡ some blob)
        × (set_from_blob h lib source b blob (live_global h t, r0)
            ≡ ok (live_global h t', restored r r0))
  unfolding to_blob set_from_blob check_media
  set_from_blob-to_blob r r0 k t stream v n e d =
      let s = k.strings in
      let x = decode-Exact lib b s r v n k.text k.range in
      let whole : decode lib b (encode b s r) ≡ ok (locals s r, []) =
        rw append-nil at (x.whole []) in
      let (t', f) = open_fresh s r r0 t stream k.fields in
      (encode b s r, t', rw (asserted_lem r s k.fields) refl, rw (whole, e, d) f)
