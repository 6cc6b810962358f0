-- ===== src/Dpap/RoundTrip.antt =====
-- A picture's record in the cache: src/dmapd-dpap-record.c, to_blob and set_from_blob.
use mathlib.Core.Path.{subst}
use mathlib.Core.List.{append_assoc, append-nil}
use dmapd.Prelude.{
  ◌^◌, ◌<◌, ◌≡◌, ◌≢◌, refl, Option, none, some, List, [], ◌∷◌, ◌++◌, Bytes, IsCString, All, length,
  str_eq_refl, ◌==◌, true, arith,
}
use dmapd.Build.{Build}
use dmapd.Blob.{ok, fault, int_bytes, blob_add_atomic, blob_add_string}
use dmapd.Blob.RoundTrip.{
  Exact, Exact-bind, Exact-pure, Exact-require, Exact-get_bytes, Exact-get_int, Exact-get_string,
}
use dmapd.Stringleton.{StrTable}
use dmapd.Stringleton.Counts.{live_global}
use dmapd.FileHash.{HashLib, Chunk, Source, hashed, dmapd_util_hash_file}
use dmapd.Dpap.{DpapRecordPrivate, State}
use dmapd.Dpap.Changes.{write, IsGiven, write_all, object_set-live}
use dmapd.Dpap.Blob.{
  Strings, pointers, thumbnail_bytes, encode, to_blob, Locals, get_thumbnail, decode, settings,
  or_fault, compare_hash, open_media, check_media, set_from_blob,
}

-- The integers of a record and the length of its thumbnail fit their C types.
pub record IsInRange (r : DpapRecordPrivate) : Type 0 where
  pub largefilesize : r.largefilesize < 2 ^ 32
  pub creationdate : r.creationdate < 2 ^ 32
  pub rating : r.rating < 2 ^ 32
  pub thumbnail : length (thumbnail_bytes r.thumbnail) < 2 ^ 32
  pub height : r.height < 2 ^ 32
  pub width : r.width < 2 ^ 32

-- No string holds its terminator, and the hash has the length of a digest.
pub record IsText (lib : HashLib) (s : Strings) : Type 0 where
  pub location : IsCString s.location
  pub hash : length s.hash ≡ lib.hash_size
  pub filename : IsCString s.filename
  pub aspectratio : IsCString s.aspectratio
  pub format : IsCString s.format
  pub comments : IsCString s.comments

-- A thumbnail of no bytes is read as none.
abbrev pub thumbnail_read : Option Bytes → Option Bytes
thumbnail_read none = none
thumbnail_read (some []) = none
thumbnail_read (some (b ∷ bs)) = some (b ∷ bs)

Exact-get_thumbnail :
    (o : Option Bytes)
    → Exact (get_thumbnail (length (thumbnail_bytes o))) (thumbnail_bytes o) (thumbnail_read o)
unfolding get_thumbnail
Exact-get_thumbnail none = Exact-pure none
Exact-get_thumbnail (some []) = Exact-pure none
Exact-get_thumbnail (some (b ∷ bs)) =
    subst (λ xs. Exact (get_thumbnail (length (b ∷ bs))) xs (some (b ∷ bs))) (append-nil (b ∷ bs))
      (Exact-bind _ _ (Exact-get_bytes (length (b ∷ bs)) (b ∷ bs) refl)
        (Exact-pure (some (b ∷ bs))))

abbrev pub locals : Strings → DpapRecordPrivate → Locals
locals s r = record {
  location = s.location;
  hash = s.hash;
  large_filesize = r.largefilesize;
  creation_date = r.creationdate;
  rating = r.rating;
  filename = s.filename;
  thumbnail = thumbnail_read r.thumbnail;
  aspect_ratio = s.aspectratio;
  pixel_height = r.height;
  pixel_width = r.width;
  format = s.format;
  comments = s.comments;
}

module _ (lib : HashLib) (b : Build) (s : Strings) (r : DpapRecordPrivate) where
  -- The blob, piece by piece.
  abbrev pieces : Bytes
  pieces =
      (b.version ++ 0 ∷ [])
      ++ ([]
          ++ ((s.location ++ 0 ∷ [])
              ++ (int_bytes b.endian 4 (length s.hash)
                  ++ ([]
                      ++ (s.hash
                          ++ (int_bytes b.endian 4 r.largefilesize
                              ++ (int_bytes b.endian 4 r.creationdate
                                  ++ (int_bytes b.endian 4 r.rating
                                      ++ ((s.filename ++ 0 ∷ [])
                                          ++ (int_bytes b.endian 4
                                                (length (thumbnail_bytes r.thumbnail))
                                              ++ (thumbnail_bytes r.thumbnail
                                                  ++ ((s.aspectratio ++ 0 ∷ [])
                                                      ++ (int_bytes b.endian 4 r.height
                                                          ++ (int_bytes b.endian 4 r.width
                                                            ++ ((s.format ++ 0 ∷ [])
                                                            ++ ((s.comments ++ 0 ∷ [])
                                                            ++ []))))))))))))))))

  encode-pieces : encode b s r ≡ pieces
  unfolding encode blob_add_atomic blob_add_string
  encode-pieces = simp (append_assoc, append-nil)

  size_ok : length s.hash ≡ lib.hash_size → (lib.hash_size == length s.hash) ≡ true
  size_ok e = ground arith

  decode-Exact :
      IsCString b.version
      → lib.hash_size < 2 ^ 32
      → IsText lib s
      → IsInRange r
      → Exact (decode lib b) (encode b s r) (locals s r)
  unfolding decode
  decode-Exact v n t i = rw encode-pieces (
      Exact-bind _ _ (Exact-get_string b.version v) (
        Exact-bind _ _ (Exact-require _ _ (str_eq_refl b.version)) (
          Exact-bind _ _ (Exact-get_string s.location t.location) (
            Exact-bind _ _
              (Exact-get_int b.endian 4 (length s.hash) (let i' = t.hash in omega arith))
              (Exact-bind _ _ (Exact-require _ _ (size_ok t.hash)) (
                Exact-bind _ _ (Exact-get_bytes (length s.hash) s.hash refl) (
                  Exact-bind _ _
                    (Exact-get_int b.endian 4 r.largefilesize
                      (let i' = i.largefilesize in omega arith))
                    (Exact-bind _ _
                      (Exact-get_int b.endian 4 r.creationdate
                        (let i' = i.creationdate in omega arith))
                      (Exact-bind _ _
                        (Exact-get_int b.endian 4 r.rating (let i' = i.rating in omega arith))
                        (Exact-bind _ _ (Exact-get_string s.filename t.filename) (
                          Exact-bind _ _
                            (Exact-get_int b.endian 4 (length (thumbnail_bytes r.thumbnail))
                              (let i' = i.thumbnail in omega arith))
                            (Exact-bind _ _ (Exact-get_thumbnail r.thumbnail) (
                              Exact-bind _ _ (Exact-get_string s.aspectratio t.aspectratio) (
                                Exact-bind _ _
                                  (Exact-get_int b.endian 4 r.height
                                    (let i' = i.height in omega arith))
                                  (Exact-bind _ _
                                    (Exact-get_int b.endian 4 r.width
                                      (let i' = i.width in omega arith))
                                    (Exact-bind _ _ (Exact-get_string s.format t.format) (
                                      Exact-bind _ _ (Exact-get_string s.comments t.comments)
                                        (Exact-pure (locals s r)))))))))))))))))))

abbrev Follows : DpapRecordPrivate → Strings → Type 0
Follows r s =
    (r.location ≡ some s.location)
    × (r.hash ≡ some s.hash)
    × (r.filename ≡ some s.filename)
    × (r.aspectratio ≡ some s.aspectratio)
    × (r.format ≡ some s.format)
    × (r.comments ≡ some s.comments)

-- The fields that to_blob needs are there, and the record can be written down.
pub record IsStorable (lib : HashLib) (r : DpapRecordPrivate) : Type 0 where
  pub strings : Strings
  pub fields : Follows r strings
  pub text : IsText lib strings
  pub range : IsInRange r

pointers_lem : (r : DpapRecordPrivate) (s : Strings) → Follows r s → pointers r ≡ some s
unfolding pointers
pointers_lem r s k = simp (k.0, k.1, k.2, k.3, k.4, k.5)

settings-IsGiven : (f : Locals) → All (λ x. IsGiven x.0 x.1) (settings f)
unfolding settings
settings-IsGiven f = omega arith

-- The record read back: a missing thumbnail has become an empty one.
abbrev pub restored : DpapRecordPrivate → DpapRecordPrivate
restored r = record r { thumbnail = some (thumbnail_bytes r.thumbnail) }

read_bytes : (o : Option Bytes) → thumbnail_bytes (thumbnail_read o) ≡ thumbnail_bytes o
read_bytes none = refl
read_bytes (some []) = refl
read_bytes (some (b ∷ bs)) = refl

write_all-restored :
    (s : Strings) (r r0 : DpapRecordPrivate)
    → Follows r s
    → write_all (settings (locals s r)) r0 ≡ restored r
unfolding settings write
write_all-restored s r r0 k = cc (k.0, k.1, k.2, k.3, k.4, k.5, read_bytes r.thumbnail)

module _ (h : StrTable) (lib : HashLib) (source : Source) (b : Build) where
  open_fresh :
      (s : Strings) (r r0 : DpapRecordPrivate) (t : h.Table) (stream : List Chunk)
      → Follows r s
      → (t' : h.Table) × (open_media h
            (locals s r)
            (some stream)
            (hashed s.hash)
            (live_global h t, r0)
          ≡ ok (live_global h t', restored r))
  unfolding compare_hash open_media or_fault
  open_fresh s r r0 t stream k =
      let (t', e') = object_set-live h (settings (locals s r)) t r0 (settings-IsGiven _) in
      (t', rw (str_eq_refl s.hash, e', write_all-restored s r r0 k) refl)

  -- What to_blob writes of a picture's record whose strings hold no NUL and whose hash, thumbnail
  -- and integers have their sizes, set_from_blob reads back, on a build of the same version and
  -- byte order, while the picture can be opened and has the recorded hash: it returns TRUE, and
  -- every field is the record's, where a missing thumbnail has become an empty one.
  pub picture_round_trip :
      (r r0 : DpapRecordPrivate) (k : IsStorable lib r) (t : h.Table) (stream : List Chunk)
      → IsCString b.version
      → lib.hash_size < 2 ^ 32
      → source k.strings.location ≡ some stream
      → dmapd_util_hash_file lib source k.strings.location ≡ hashed k.strings.hash
      → (blob : Bytes) × (t' : h.Table) × (to_blob b r ≡ some blob)
        × (set_from_blob h lib source b blob (live_global h t, r0)
            ≡ ok (live_global h t', restored r))
  unfolding to_blob set_from_blob check_media
  picture_round_trip r r0 k t stream v n e d =
      let s = k.strings in
      let x = decode-Exact lib b s r v n k.text k.range in
      let whole : decode lib b (encode b s r) ≡ ok (locals s r, []) =
        rw append-nil at (x.whole []) in
      let (t', f) = open_fresh s r r0 t stream k.fields in
      (encode b s r, t', rw (pointers_lem r s k.fields) refl, rw (whole, e, d) f)

  -- A blob of to_blob of a picture's record that has lost any number of bytes at its end, however
  -- few, makes set_from_blob read past what is left.
  pub picture_truncated :
      (r : DpapRecordPrivate) (k : IsStorable lib r) (blob p q : Bytes) (s : State h)
      → IsCString b.version
      → lib.hash_size < 2 ^ 32
      → to_blob b r ≡ some blob
      → blob ≡ p ++ q
      → q ≢ []
      → set_from_blob h lib source b p s ≡ fault
  unfolding set_from_blob check_media to_blob
  picture_truncated r k blob p q s v n e c m =
      let whole : some (encode b k.strings r) ≡ some blob =
        rw (pointers_lem r k.strings k.fields) at e in
      rw ((decode-Exact lib b k.strings r v n k.text k.range).short p q (cc) m)
