-- ===== src/TagReader/Written.antt =====
-- What one value of a tag sets: src/av-meta-reader-gst.c, insert_tag and determine_format.
use dmapd.Prelude.{
  ◌≡◌, refl, ℕ, zero, suc, Bool, true, false, Option, none, some, List, [], ◌∷◌, CString, All,
  Bool-cases, inl, inr, ltb, length, if◌then◌else◌,
}
use dmapd.Stringleton.{StrTable}
use dmapd.Daap.{
  DaapRecordPrivate, PropId, Value, prop_disc, prop_year, prop_track, prop_mediakind, prop_format,
}
use dmapd.Daap.Live.{IsGiven, write_all}
use dmapd.Daap.Properties.{write}
use dmapd.TagReader.Tagged.{format_in, with_number, with_codec, with_value}
use dmapd.TagReader.{
  TagLib, Tag, tag_title, tag_artist, tag_album, tag_disc, tag_date, tag_genre, tag_codec,
  tag_track, tag_unused, determine_format, find_format, contains, formats, Writes, write_number,
  first_four, or_guess, mov, extension_of, write_codec, tag_writes,
}

abbrev pub AreGiven : Writes → Type 0
AreGiven = All λ x. IsGiven x.0 x.1

find_format-some :
    (l : List (CString × CString)) (description location : CString) (r : DaapRecordPrivate)
    → r.location ≡ some location
    → find_format l description r ≡ some (format_in l description location)
unfolding find_format
find_format-some [] description location r e = rw e refl
find_format-some ((needle, format) ∷ l) description location r e =
    elim (Bool-cases (contains description needle)) [
      | inl q ↦ rw q refl
      | inr q ↦ rw q (find_format-some l description location r e)
    ]

-- Writes that need no stringleton that is missing, and that make `r'` of `r`.
abbrev AreWrites : Writes → DaapRecordPrivate → DaapRecordPrivate → Type 0
AreWrites l r r' = AreGiven l × (write_all l r ≡ r')

write_number-AreWrites :
    (p : ℕ → (p : PropId) × Value p) (o : Option ℕ) (r : DaapRecordPrivate)
    → ((n : ℕ) → IsGiven (p n).0 (p n).1)
    → AreWrites (write_number p o) r (with_number (λ n. write (p n).0 (p n).1 r) r o)
unfolding write_number
write_number-AreWrites p none r k = (tt, refl)
write_number-AreWrites p (some n) r k = ((k _, tt), refl)

year-AreWrites :
    (b : Bool) (o : Option ℕ) (r : DaapRecordPrivate)
    → AreWrites
        (if b then [] else write_number (λ n. (prop_year, n)) o)
        r
        (if b then r else with_number (λ n. record r { year = n }) r o)
unfolding write
year-AreWrites true o r = (tt, refl)
year-AreWrites false o r = write_number-AreWrites (λ n. (prop_year, n)) o r (λ n. tt)

module _ (h : StrTable) (lib : TagLib) (location : CString) where
  abbrev pub Writing : Tag → CString → DaapRecordPrivate → Type 0
  Writing tag val r =
      (l : Writes) × (tag_writes h lib tag val r ≡ some l)
      × AreGiven l
      × (write_all l r ≡ with_value lib location tag val r)

  write_codec-some :
      (n : ℕ) (val : CString) (r : DaapRecordPrivate)
      → r.location ≡ some location
      → (l : Writes) × (write_codec h lib n val r ≡ some l)
        × AreGiven l
        × (write_all l r ≡ with_codec lib location n val r)
  unfolding write_codec determine_format write
  write_codec-some zero val r e = (
    (prop_mediakind, lib.media_kind_music)
        ∷ (prop_format, some (format_in formats val location))
        ∷ [],
    rw (find_format-some formats val location r e) refl,
    (tt, (tt, tt)),
    refl,
  )
  write_codec-some (suc n) val r e = (
    (prop_mediakind, lib.media_kind_movie)
        ∷ (prop_format, some (or_guess mov (extension_of location)))
        ∷ [],
    rw e refl,
    (tt, (tt, tt)),
    refl,
  )

  pub tag_writes-some :
      (tag : Tag) (val : CString) (r : DaapRecordPrivate)
      → r.location ≡ some location
      → Writing tag val r
  unfolding tag_writes write with_value
  tag_writes-some tag_title val r e = (_, refl, (tt, tt), refl)
  tag_writes-some tag_artist val r e = (_, refl, (tt, tt), refl)
  tag_writes-some tag_album val r e = (_, refl, (tt, tt), refl)
  tag_writes-some tag_genre val r e = (_, refl, (tt, tt), refl)
  tag_writes-some tag_unused val r e = (_, refl, tt, refl)
  tag_writes-some tag_codec val r e = write_codec-some r.has_video val r e
  tag_writes-some tag_disc val r e =
      let (k, w) = write_number-AreWrites (λ n. (prop_disc, n)) (lib.strtol val) r (λ n. tt) in
      (_, refl, k, w)
  tag_writes-some tag_track val r e =
      let (k, w) = write_number-AreWrites (λ n. (prop_track, n)) (lib.strtol val) r (λ n. tt) in
      (_, refl, k, w)
  tag_writes-some tag_date val r e =
      let (k, w) = year-AreWrites (ltb (length val) 4) (lib.strtol (first_four val)) r in
      (_, refl, k, w)
