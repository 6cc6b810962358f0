-- ===== src/Daap/Storable.antt =====
-- A record that is read from the cache can be written to it again: src/dmapd-daap-record.c,
-- set_from_blob and to_blob.
use mathlib.Core.Path.{subst}
use dmapd.Prelude.{◌^◌, ◌<◌, ◌≡◌, refl, sym, ◌∙◌, some, Bytes, IsCString, All, ==_iff}
use dmapd.Build.{Build}
use dmapd.Blob.{ok}
use dmapd.Blob.Yields.{
  IsByte, Yields, Yields-bind, Yields-pure, Yields-require, Yields-get_bytes, Yields-get_int,
  Yields-get_string,
}
use dmapd.Stringleton.{StrTable, Global}
use dmapd.Stringleton.Counts.{live_global}
use dmapd.FileHash.{HashLib, Source, hashed, dmapd_util_hash_file}
use dmapd.FileHash.Chunks.{hashed_opens}
use dmapd.Daap.{DaapRecordPrivate}
use dmapd.Daap.Properties.{write}
use dmapd.Daap.Live.{write_all}
use dmapd.Daap.Blob.{Strings, Locals, decode, settings, set_from_blob, to_blob}
use dmapd.Daap.RoundTrip.{IsText, IsInRange, IsStorable, restored, set_from_blob-to_blob}
use dmapd.Daap.Refusals.{set_from_blob-Takes, set_from_blob-IsFresh}

module _ (lib : HashLib) (b : Build) where
  -- A record that is filled with the local variables can be written down.
  abbrev FillsStorable : Locals → Type 0
  FillsStorable f = (r : DaapRecordPrivate) → IsStorable lib (write_all (settings f) r)

  abbrev strings_of : Locals → Strings
  strings_of f = record {
    location = f.location;
    hash = f.hash;
    format = f.format;
    title = f.title;
    album = f.songalbum;
    artist = f.songartist;
    genre = f.songgenre;
  }

  fills :
      (f : Locals)
      → IsText lib (strings_of f)
      → ((r : DaapRecordPrivate) → IsInRange (write_all (settings f) r))
      → FillsStorable f
  unfolding settings write
  fills f k i r = record {
    strings = strings_of f;
    fields = (refl, refl, refl, refl, refl, refl, refl);
    text = k;
    range = i r;
  }

  decode-Yields : Yields (decode lib b) FillsStorable
  unfolding decode settings write
  decode-Yields = Yields-bind _ _ Yields-get_string λ _ _.
      Yields-bind _ _ (Yields-require _ _) λ _ _. Yields-bind _ _ Yields-get_string λ _ k_location.
        Yields-bind _ _ (Yields-get_int b.endian 4) λ _ _.
          Yields-bind _ _ (Yields-require _ _) λ _ k_fits.
            Yields-bind _ _ (Yields-get_bytes _) λ _ k_hash.
              Yields-bind _ _ (Yields-get_int b.endian 8) λ _ k_filesize.
                Yields-bind _ _ Yields-get_string λ _ k_format.
                  Yields-bind _ _ Yields-get_string λ _ k_title.
                    Yields-bind _ _ Yields-get_string λ _ k_album.
                      Yields-bind _ _ Yields-get_string λ _ k_artist.
                        Yields-bind _ _ Yields-get_string λ _ k_genre.
                          Yields-bind _ _ (Yields-get_int b.endian 4) λ _ k_has_video.
                            Yields-bind _ _ (Yields-get_int b.endian 4) λ _ k_mediakind.
                              Yields-bind _ _ (Yields-get_int b.endian 4) λ _ k_rating.
                                Yields-bind _ _ (Yields-get_int b.endian 4) λ _ k_duration.
                                  Yields-bind _ _ (Yields-get_int b.endian 4) λ _ k_track.
                                    Yields-bind _ _ (Yields-get_int b.endian 4) λ _ k_year.
                                      Yields-bind _ _ (Yields-get_int b.endian 4) λ _ k_firstseen.
                                        Yields-bind _ _ (Yields-get_int b.endian 4) λ _ k_mtime.
                                          Yields-bind _ _ (Yields-get_int b.endian 4) λ _ k_disc.
                                            Yields-bind _ _ (Yields-get_int b.endian 4)
                                              λ _ k_bitrate. Yields-pure _ _ (
                                                fills _
                                                  (record {
                                                    location = k_location;
                                                    hash =
                                                        k_hash.0
                                                        ∙ sym ((==_iff lib.hash_size _).0 k_fits);
                                                    format = k_format;
                                                    title = k_title;
                                                    album = k_album;
                                                    artist = k_artist;
                                                    genre = k_genre;
                                                  })
                                                  (λ r. record {
                                                    filesize = k_filesize;
                                                    has_video = k_has_video;
                                                    mediakind = k_mediakind;
                                                    rating = k_rating;
                                                    duration = k_duration;
                                                    track = k_track;
                                                    year = k_year;
                                                    firstseen = k_firstseen;
                                                    mtime = k_mtime;
                                                    disc = k_disc;
                                                    bitrate = k_bitrate;
                                                  }))

module _ (h : StrTable) (lib : HashLib) (source : Source) (b : Build) where
  set_from_blob-IsStorable :
      (blob : Bytes) (g g' : Global h) (r r' : DaapRecordPrivate)
      → All IsByte blob
      → set_from_blob h lib source b blob (g, r) ≡ ok (g', r')
      → IsStorable lib r'
  set_from_blob-IsStorable blob g g' r r' q e =
      let (f, rest, m, (k, w)) = set_from_blob-Takes h lib source b blob g g' r r' e in
      subst (IsStorable lib) (sym w) ((decode-Yields lib b blob rest f q m).0 r)

  -- Whatever bytes the cache holds for a song: where set_from_blob returns TRUE, the record has
  -- the pointers that to_blob asserts, no string of it holds a NUL, its hash has the length of a
  -- digest and its integers fit their C types. What to_blob then writes is read back, on the same
  -- build and while the media file is as it was, into whatever record: set_from_blob returns TRUE,
  -- and every field is the same but the two sort names, which stay as they were.
  pub set_from_blob-again :
      (blob : Bytes) (g g' : Global h) (r r' r0 : DaapRecordPrivate) (t : h.Table)
      → All IsByte blob
      → IsCString b.version
      → lib.hash_size < 2 ^ 32
      → set_from_blob h lib source b blob (g, r) ≡ ok (g', r')
      → IsStorable lib r'
        × (again : Bytes) × (t' : h.Table) × (to_blob b r' ≡ some again)
        × (set_from_blob h lib source b again (live_global h t, r0)
            ≡ ok (live_global h t', restored r' r0))
  set_from_blob-again blob g g' r r' r0 t q v n e =
      let k = set_from_blob-IsStorable blob g g' r r' q e in
      let (l, d, there, sum, fresh_hash) = set_from_blob-IsFresh h lib source b blob g g' r r' e in
      let same : some l ≡ some k.strings.location = sym there ∙ k.fields.0 in
      let digest : some d ≡ some k.strings.hash = sym sum ∙ k.fields.1 in
      let now : dmapd_util_hash_file lib source k.strings.location ≡ hashed k.strings.hash = cc in
      let (stream, o) = hashed_opens lib source k.strings.location k.strings.hash now in
      let (again, t', written, read) =
        set_from_blob-to_blob h lib source b r' r0 k t stream v n o now in
      (k, again, t', written, read)
