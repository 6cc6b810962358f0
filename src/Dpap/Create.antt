-- ===== src/Dpap/Create.antt =====
-- src/dmapd-dpap-record.c, dmapd_dpap_record_new, and the factory's create of
-- src/dmapd-dpap-record-factory.c. With them the DPAP records are a class of records that the
-- databases can hold.
use dmapd.Prelude.{Bool, true, false, Option, none, some, [], ◌∷◌, CString, ◌>>=◌}
use dmapd.Build.{Build}
use dmapd.Stringleton.{StrTable, Global}
use dmapd.FileHash.{HashLib, Source, Hashed, hashed, not_hashed, overread, dmapd_util_hash_file}
use dmapd.Dpap.{
  DpapRecordPrivate, new_picture, prop_location, prop_hash, State, object_set, finalize,
}
use dmapd.Dpap.Blob.{to_blob, set_from_blob}
use dmapd.RecordClass.{RecordClass}

-- What the code asks of GLib and of the plugin that reads pictures. `none` of the plugin's read is
-- an abort in it.
pub record Surroundings (h : StrTable) : Type 0 where
  pub filename_to_uri : CString → Option CString
  pub photo_meta_reader_read : CString → State h → Option (Bool × State h)

module _ (h : StrTable) (lib : HashLib) (source : Source) (around : Surroundings h) where
  -- What becomes of the record once the plugin has read the picture, or has failed.
  unfoldable pub take_picture : Bool × State h → Option (Option DpapRecordPrivate × Global h)
  take_picture (true, (g, r)) = some (some r, g)
  take_picture (false, (g, r)) = finalize h (g, r) >>= λ g'. some (none, g')

  unfoldable pub fill :
      CString → CString → Hashed → Global h → Option (Option DpapRecordPrivate × Global h)
  unfolding take_picture
  fill path location overread g = none
  fill path location not_hashed g = some (none, g)
  fill path location (hashed hash) g =
      object_set h ((prop_location, some location) ∷ (prop_hash, some hash) ∷ []) (g, new_picture)
      >>= λ s. around.photo_meta_reader_read path s >>= take_picture

  unfoldable pub open_path :
      CString → Option CString → Global h → Option (Option DpapRecordPrivate × Global h)
  unfolding fill
  open_path path none g = some (none, g)
  open_path path (some location) g = fill path location (dmapd_util_hash_file lib source location) g

  -- `none` inside is NULL.
  unfoldable pub dpap_record_new :
      Option CString → Global h → Option (Option DpapRecordPrivate × Global h)
  unfolding open_path
  dpap_record_new none g = some (some new_picture, g)
  dpap_record_new (some path) g = open_path path (around.filename_to_uri path) g

  -- The records and the factory, as a database sees them.
  abbrev pub dpap_class : Build → RecordClass
  dpap_class build = record {
    Record = DpapRecordPrivate;
    World = Global h;
    location = λ r. r.location;
    format = λ r. r.format;
    to_blob = to_blob build;
    set_from_blob = set_from_blob h lib source build;
    create = dpap_record_new;
    finalize = λ r g. finalize h (g, r);
  }
