-- ===== src/Daap.antt =====
-- src/dmapd-daap-record.c: the private state of a DAAP record and its properties. A gint is kept
-- as its 32-bit pattern, a guint64 as a number. Who frees what is modelled for stringletons only.
pub mod Properties
pub mod Live
pub mod Blob
pub mod RoundTrip
pub mod Storable
pub mod Refusals
pub mod Stale
pub mod References
pub mod Create
pub mod Created
pub mod Tests
use dmapd.Prelude.{
  ℕ, Bool, true, false, Option, none, some, List, [], ◌∷◌, CString, Bytes, str_eq, ◌>>=◌,
}
use dmapd.Stringleton.{StrTable, Global, stringleton_ref, stringleton_unref}

-- A NULL pointer is `none`.
pub record DaapRecordPrivate : Type 0 where
  pub location : Option CString
  pub hash : Option Bytes
  pub filesize : ℕ
  pub format : Option CString
  pub mediakind : ℕ
  pub title : Option CString
  pub album : Option CString
  pub sort_album : Option CString
  pub artist : Option CString
  pub sort_artist : Option CString
  pub genre : Option CString
  pub has_video : ℕ
  pub rating : ℕ
  pub duration : ℕ
  pub track : ℕ
  pub year : ℕ
  pub firstseen : ℕ
  pub mtime : ℕ
  pub disc : ℕ
  pub bitrate : ℕ

-- g_type_class_add_private gives a zeroed block.
abbrev pub fresh : DaapRecordPrivate
fresh = record {
  location = none;
  hash = none;
  filesize = 0;
  format = none;
  mediakind = 0;
  title = none;
  album = none;
  sort_album = none;
  artist = none;
  sort_artist = none;
  genre = none;
  has_video = 0;
  rating = 0;
  duration = 0;
  track = 0;
  year = 0;
  firstseen = 0;
  mtime = 0;
  disc = 0;
  bitrate = 0;
}

pub data PropId : Type 0 where
  prop_location prop_hash prop_title prop_rating prop_filesize prop_album : PropId
  prop_sort_album prop_artist prop_sort_artist prop_genre prop_format : PropId
  prop_mediakind prop_duration prop_track prop_year prop_firstseen : PropId
  prop_mtime prop_disc prop_bitrate prop_has_video : PropId

-- What a GValue for the property holds.
abbrev pub Value : PropId → Type 0
Value prop_location = Option CString
Value prop_hash = Option Bytes
Value prop_title = Option CString
Value prop_album = Option CString
Value prop_sort_album = Option CString
Value prop_artist = Option CString
Value prop_sort_artist = Option CString
Value prop_genre = Option CString
Value prop_format = Option CString
Value _ = ℕ

pub get_property : (p : PropId) → DaapRecordPrivate → Value p
get_property prop_location r = r.location
get_property prop_hash r = r.hash
get_property prop_title r = r.title
get_property prop_album r = r.album
get_property prop_sort_album r = r.sort_album
get_property prop_artist r = r.artist
get_property prop_sort_artist r = r.sort_artist
get_property prop_genre r = r.genre
get_property prop_format r = r.format
get_property prop_mediakind r = r.mediakind
get_property prop_rating r = r.rating
get_property prop_filesize r = r.filesize
get_property prop_duration r = r.duration
get_property prop_track r = r.track
get_property prop_year r = r.year
get_property prop_firstseen r = r.firstseen
get_property prop_mtime r = r.mtime
get_property prop_disc r = r.disc
get_property prop_bitrate r = r.bitrate
get_property prop_has_video r = r.has_video

module _ (h : StrTable) where
  abbrev pub State : Type 0
  State = Global h × DaapRecordPrivate

  -- stringleton_unref (old); field = stringleton_ref (str);
  unfoldable pub replace_str :
      Option CString → Option CString → Global h → Option (Option CString × Global h)
  replace_str old str g =
      stringleton_unref h old g >>= λ g'. stringleton_ref h str g' >>= λ r. some (some r.0, r.1)

  -- stringleton_unref (old); field = str ? stringleton_ref (str) : NULL;
  unfoldable pub replace_sort_str :
      Option CString → Option CString → Global h → Option (Option CString × Global h)
  unfolding replace_str
  replace_sort_str old none g = stringleton_unref h old g >>= λ g'. some (none, g')
  replace_sort_str old (some str) g = replace_str old (some str) g

  -- `none` is undefined behaviour of the stringletons.
  unfoldable pub set_property : (p : PropId) → Value p → State → Option State
  set_property prop_location v (g, r) = some (g, record r { location = v })
  set_property prop_hash v (g, r) = some (g, record r { hash = v })
  set_property prop_title v (g, r) = some (g, record r { title = v })
  set_property prop_album v (g, r) =
      replace_str r.album v g >>= λ x. some (x.1, record r { album = x.0 })
  set_property prop_sort_album v (g, r) =
      replace_sort_str r.sort_album v g >>= λ x. some (x.1, record r { sort_album = x.0 })
  set_property prop_artist v (g, r) =
      replace_str r.artist v g >>= λ x. some (x.1, record r { artist = x.0 })
  set_property prop_sort_artist v (g, r) =
      replace_sort_str r.sort_artist v g >>= λ x. some (x.1, record r { sort_artist = x.0 })
  set_property prop_genre v (g, r) =
      replace_str r.genre v g >>= λ x. some (x.1, record r { genre = x.0 })
  set_property prop_format v (g, r) =
      replace_str r.format v g >>= λ x. some (x.1, record r { format = x.0 })
  set_property prop_mediakind v (g, r) = some (g, record r { mediakind = v })
  set_property prop_rating v (g, r) = some (g, record r { rating = v })
  set_property prop_filesize v (g, r) = some (g, record r { filesize = v })
  set_property prop_duration v (g, r) = some (g, record r { duration = v })
  set_property prop_track v (g, r) = some (g, record r { track = v })
  set_property prop_year v (g, r) = some (g, record r { year = v })
  set_property prop_firstseen v (g, r) = some (g, record r { firstseen = v })
  set_property prop_mtime v (g, r) = some (g, record r { mtime = v })
  set_property prop_disc v (g, r) = some (g, record r { disc = v })
  set_property prop_bitrate v (g, r) = some (g, record r { bitrate = v })
  set_property prop_has_video v (g, r) = some (g, record r { has_video = v })

  -- g_object_set with a list of properties, each of them set in turn. The values are taken to be in
  -- the ranges that libdmapsharing declares, outside which g_object_set would set nothing.
  unfoldable pub object_set : List ((p : PropId) × Value p) → State → Option State
  object_set [] s = some s
  object_set ((p, v) ∷ l) s = set_property p v s >>= λ s'. object_set l s'

  -- Gives back the strings of four of the six stringleton fields.
  unfoldable pub finalize : State → Option (Global h)
  finalize (g, r) = stringleton_unref h r.format g >>= λ g1.
      stringleton_unref h r.album g1 >>= λ g2.
      stringleton_unref h r.artist g2 >>= λ g3. stringleton_unref h r.genre g3
