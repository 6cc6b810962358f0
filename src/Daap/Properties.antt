-- ===== src/Daap/Properties.antt =====
-- What setting a property changes: src/dmapd-daap-record.c, set_property and get_property.
use dmapd.Prelude.{◌∙◌, ◌≡◌, refl, ◌≢◌, ap, Option, none, some, CString, arith, ◌>>=◌}
use dmapd.Stringleton.{StrTable, Global, stringleton_ref, stringleton_unref}
use dmapd.Stringleton.Lifetime.{stringleton_ref-eq}
use dmapd.Daap.{
  DaapRecordPrivate, PropId, prop_location, prop_hash, prop_title, prop_rating, prop_filesize,
  prop_album, prop_sort_album, prop_artist, prop_sort_artist, prop_genre, prop_format,
  prop_mediakind, prop_duration, prop_track, prop_year, prop_firstseen, prop_mtime, prop_disc,
  prop_bitrate, prop_has_video, Value, get_property, replace_str, replace_sort_str, set_property,
}

-- The record with one field replaced.
unfoldable pub write : (p : PropId) → Value p → DaapRecordPrivate → DaapRecordPrivate
write prop_location v r = record r { location = v }
write prop_hash v r = record r { hash = v }
write prop_title v r = record r { title = v }
write prop_rating v r = record r { rating = v }
write prop_filesize v r = record r { filesize = v }
write prop_album v r = record r { album = v }
write prop_sort_album v r = record r { sort_album = v }
write prop_artist v r = record r { artist = v }
write prop_sort_artist v r = record r { sort_artist = v }
write prop_genre v r = record r { genre = v }
write prop_format v r = record r { format = v }
write prop_mediakind v r = record r { mediakind = v }
write prop_duration v r = record r { duration = v }
write prop_track v r = record r { track = v }
write prop_year v r = record r { year = v }
write prop_firstseen v r = record r { firstseen = v }
write prop_mtime v r = record r { mtime = v }
write prop_disc v r = record r { disc = v }
write prop_bitrate v r = record r { bitrate = v }
write prop_has_video v r = record r { has_video = v }

get_property-write :
    (p : PropId) (v : Value p) (r : DaapRecordPrivate) → get_property p (write p v r) ≡ v
unfolding get_property write
get_property-write prop_location v r = refl
get_property-write _ v r = refl

get_property-write_ne :
    (p q : PropId) (v : Value p) (r : DaapRecordPrivate)
    → q ≢ p
    → get_property q (write p v r) ≡ get_property q r
unfolding get_property write
get_property-write_ne prop_location prop_location v r n = absurd (n refl)
get_property-write_ne prop_location _ v r n = refl
get_property-write_ne prop_hash prop_hash v r n = absurd (n refl)
get_property-write_ne prop_hash _ v r n = refl
get_property-write_ne prop_title prop_title v r n = absurd (n refl)
get_property-write_ne prop_title _ v r n = refl
get_property-write_ne prop_rating prop_rating v r n = absurd (n refl)
get_property-write_ne prop_rating _ v r n = refl
get_property-write_ne prop_filesize prop_filesize v r n = absurd (n refl)
get_property-write_ne prop_filesize _ v r n = refl
get_property-write_ne prop_album prop_album v r n = absurd (n refl)
get_property-write_ne prop_album _ v r n = refl
get_property-write_ne prop_sort_album prop_sort_album v r n = absurd (n refl)
get_property-write_ne prop_sort_album _ v r n = refl
get_property-write_ne prop_artist prop_artist v r n = absurd (n refl)
get_property-write_ne prop_artist _ v r n = refl
get_property-write_ne prop_sort_artist prop_sort_artist v r n = absurd (n refl)
get_property-write_ne prop_sort_artist _ v r n = refl
get_property-write_ne prop_genre prop_genre v r n = absurd (n refl)
get_property-write_ne prop_genre _ v r n = refl
get_property-write_ne prop_format prop_format v r n = absurd (n refl)
get_property-write_ne prop_format _ v r n = refl
get_property-write_ne prop_mediakind prop_mediakind v r n = absurd (n refl)
get_property-write_ne prop_mediakind _ v r n = refl
get_property-write_ne prop_duration prop_duration v r n = absurd (n refl)
get_property-write_ne prop_duration _ v r n = refl
get_property-write_ne prop_track prop_track v r n = absurd (n refl)
get_property-write_ne prop_track _ v r n = refl
get_property-write_ne prop_year prop_year v r n = absurd (n refl)
get_property-write_ne prop_year _ v r n = refl
get_property-write_ne prop_firstseen prop_firstseen v r n = absurd (n refl)
get_property-write_ne prop_firstseen _ v r n = refl
get_property-write_ne prop_mtime prop_mtime v r n = absurd (n refl)
get_property-write_ne prop_mtime _ v r n = refl
get_property-write_ne prop_disc prop_disc v r n = absurd (n refl)
get_property-write_ne prop_disc _ v r n = refl
get_property-write_ne prop_bitrate prop_bitrate v r n = absurd (n refl)
get_property-write_ne prop_bitrate _ v r n = refl
get_property-write_ne prop_has_video prop_has_video v r n = absurd (n refl)
get_property-write_ne prop_has_video _ v r n = refl

module _ (h : StrTable) where
  ref_result :
      (str new : Option CString) (g' : Global h) (o : Option (CString × Global h))
      → ((s : CString) (g1 : Global h) → o ≡ some (s, g1) → str ≡ some s)
      → ◌>>=◌ {B = Option CString × Global h} o (λ r. some (some r.0, r.1)) ≡ some (new, g')
      → new ≡ str
  ref_result str new g' none k e = cc
  ref_result str new g' (some (s, g1)) k e = ground (arith, k s g1 refl)

  replace_result :
      (str new : Option CString) (g' : Global h) (o : Option (Global h))
      → ◌>>=◌ {B = Option CString × Global h} o
          (λ g1. stringleton_ref h str g1 >>= λ r. some (some r.0, r.1))
        ≡ some (new, g')
      → new ≡ str
  replace_result str new g' none e = cc
  replace_result str new g' (some g1) e =
      ref_result str new g' (stringleton_ref h str g1)
        (λ s g2 k. stringleton_ref-eq h str s g1 g2 k) e

  pub replace_str-eq :
      (old str new : Option CString) (g g' : Global h)
      → replace_str h old str g ≡ some (new, g')
      → new ≡ str
  unfolding replace_str
  replace_str-eq old str new g g' e = replace_result str new g' (stringleton_unref h old g) e

  unref_result :
      (new : Option CString) (g' : Global h) (o : Option (Global h))
      → ◌>>=◌ {B = Option CString × Global h} o (λ g1. some (none, g1)) ≡ some (new, g')
      → new ≡ none
  unref_result new g' none e = cc
  unref_result new g' (some g1) e = ground arith

  pub replace_sort_str-eq :
      (old str new : Option CString) (g g' : Global h)
      → replace_sort_str h old str g ≡ some (new, g')
      → new ≡ str
  unfolding replace_sort_str
  replace_sort_str-eq old none new g g' e = unref_result new g' (stringleton_unref h old g) e
  replace_sort_str-eq old (some str) new g g' e = replace_str-eq old (some str) new g g' e

  field_result :
      (v : Option CString) (f : Option CString → DaapRecordPrivate) (g' : Global h)
      (r' : DaapRecordPrivate) (o : Option (Option CString × Global h))
      → ((new : Option CString) (g1 : Global h) → o ≡ some (new, g1) → new ≡ v)
      → ◌>>=◌ {B = Global h × DaapRecordPrivate} o (λ x. some (x.1, f x.0)) ≡ some (g', r')
      → r' ≡ f v
  field_result v f g' r' none k e = cc
  field_result v f g' r' (some (new, g1)) k e = cc (ap f (k new g1 refl), e)

  -- Whatever the stringletons do, the record has the new value in the one field.
  pub set_property-write :
      (p : PropId) (v : Value p) (g g' : Global h) (r r' : DaapRecordPrivate)
      → set_property h p v (g, r) ≡ some (g', r')
      → r' ≡ write p v r
  unfolding set_property write
  set_property-write prop_album v g g' r r' e =
      field_result v (λ x. record r { album = x }) g' r' (replace_str h r.album v g)
        (λ new g1 k. replace_str-eq r.album v new g g1 k) e
  set_property-write prop_sort_album v g g' r r' e =
      field_result v (λ x. record r { sort_album = x }) g' r' (replace_sort_str h r.sort_album v g)
        (λ new g1 k. replace_sort_str-eq r.sort_album v new g g1 k) e
  set_property-write prop_artist v g g' r r' e =
      field_result v (λ x. record r { artist = x }) g' r' (replace_str h r.artist v g)
        (λ new g1 k. replace_str-eq r.artist v new g g1 k) e
  set_property-write prop_sort_artist v g g' r r' e =
      field_result v (λ x. record r { sort_artist = x }) g' r'
        (replace_sort_str h r.sort_artist v g)
        (λ new g1 k. replace_sort_str-eq r.sort_artist v new g g1 k) e
  set_property-write prop_genre v g g' r r' e =
      field_result v (λ x. record r { genre = x }) g' r' (replace_str h r.genre v g)
        (λ new g1 k. replace_str-eq r.genre v new g g1 k) e
  set_property-write prop_format v g g' r r' e =
      field_result v (λ x. record r { format = x }) g' r' (replace_str h r.format v g)
        (λ new g1 k. replace_str-eq r.format v new g g1 k) e
  set_property-write _ v g g' r r' e = ground arith

  -- Setting a property of a DAAP record, where it returns, makes its getter return the value that
  -- was set, and the getter of every other property what it returned before.
  pub get_property-set_property :
      (p : PropId) (v : Value p) (g g' : Global h) (r r' : DaapRecordPrivate)
      → set_property h p v (g, r) ≡ some (g', r')
      → (get_property p r' ≡ v) × ((q : PropId) → q ≢ p → get_property q r' ≡ get_property q r)
  get_property-set_property p v g g' r r' e =
      let w : r' ≡ write p v r = set_property-write p v g g' r r' e in
      (
        ap (get_property p) w ∙ get_property-write p v r,
        λ q n. ap (get_property q) w ∙ get_property-write_ne p q v r n,
      )
