-- ===== src/Dpap.antt =====
-- src/dmapd-dpap-record.c: the private state of a DPAP record, a picture, and its properties. A
-- gint is kept as its 32-bit pattern. Who frees what is modelled for stringletons only.
pub mod Changes
pub mod Blob
pub mod RoundTrip
pub mod Fresh
pub mod Create
pub mod Created
pub mod Tests
use dmapd.Prelude.{ℕ, Option, none, some, List, [], ◌∷◌, CString, Bytes, ◌>>=◌}
use dmapd.Stringleton.{StrTable, Global, stringleton_unref}
use dmapd.Daap.{replace_str}

-- A NULL pointer is `none`.
pub record DpapRecordPrivate : Type 0 where
  pub location : Option CString
  pub hash : Option Bytes
  pub largefilesize : ℕ
  pub creationdate : ℕ
  pub rating : ℕ
  pub filename : Option CString
  pub thumbnail : Option Bytes
  pub aspectratio : Option CString
  pub height : ℕ
  pub width : ℕ
  pub format : Option CString
  pub comments : Option CString

-- g_type_class_add_private gives a zeroed block.
abbrev pub new_picture : DpapRecordPrivate
new_picture = record {
  location = none;
  hash = none;
  largefilesize = 0;
  creationdate = 0;
  rating = 0;
  filename = none;
  thumbnail = none;
  aspectratio = none;
  height = 0;
  width = 0;
  format = none;
  comments = none;
}

pub data PropId : Type 0 where
  prop_location prop_hash prop_large_filesize prop_creation_date prop_rating prop_filename : PropId
  prop_aspect_ratio prop_pixel_height prop_pixel_width prop_format prop_comments prop_thumbnail :
      PropId

-- What a GValue for the property holds.
abbrev pub Value : PropId → Type 0
Value prop_location = Option CString
Value prop_hash = Option Bytes
Value prop_filename = Option CString
Value prop_aspect_ratio = Option CString
Value prop_format = Option CString
Value prop_comments = Option CString
Value prop_thumbnail = Option Bytes
Value _ = ℕ

unfoldable pub get_property : (p : PropId) → DpapRecordPrivate → Value p
get_property prop_location r = r.location
get_property prop_hash r = r.hash
get_property prop_large_filesize r = r.largefilesize
get_property prop_creation_date r = r.creationdate
get_property prop_rating r = r.rating
get_property prop_filename r = r.filename
get_property prop_aspect_ratio r = r.aspectratio
get_property prop_pixel_height r = r.height
get_property prop_pixel_width r = r.width
get_property prop_format r = r.format
get_property prop_comments r = r.comments
get_property prop_thumbnail r = r.thumbnail

module _ (h : StrTable) where
  abbrev pub State : Type 0
  State = Global h × DpapRecordPrivate

  -- `none` is undefined behaviour of the stringletons.
  unfoldable pub set_property : (p : PropId) → Value p → State → Option State
  set_property prop_location v (g, r) = some (g, record r { location = v })
  set_property prop_hash v (g, r) = some (g, record r { hash = v })
  set_property prop_large_filesize v (g, r) = some (g, record r { largefilesize = v })
  set_property prop_creation_date v (g, r) = some (g, record r { creationdate = v })
  set_property prop_rating v (g, r) = some (g, record r { rating = v })
  set_property prop_filename v (g, r) = some (g, record r { filename = v })
  set_property prop_aspect_ratio v (g, r) =
      replace_str h r.aspectratio v g >>= λ x. some (x.1, record r { aspectratio = x.0 })
  set_property prop_pixel_height v (g, r) = some (g, record r { height = v })
  set_property prop_pixel_width v (g, r) = some (g, record r { width = v })
  set_property prop_format v (g, r) =
      replace_str h r.format v g >>= λ x. some (x.1, record r { format = x.0 })
  set_property prop_comments v (g, r) = some (g, record r { comments = v })
  set_property prop_thumbnail v (g, r) = some (g, record r { thumbnail = v })

  -- g_object_set with a list of properties, each of them set in turn. The values are taken to be in
  -- the ranges that libdmapsharing declares, outside which g_object_set would set nothing.
  unfoldable pub object_set : List ((p : PropId) × Value p) → State → Option State
  object_set [] s = some s
  object_set ((p, v) ∷ l) s = set_property p v s >>= λ s'. object_set l s'

  unfoldable pub finalize : State → Option (Global h)
  finalize (g, r) = stringleton_unref h r.aspectratio g >>= λ g'. stringleton_unref h r.format g'
