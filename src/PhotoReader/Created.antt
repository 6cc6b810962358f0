-- ===== src/PhotoReader/Created.antt =====
-- New records of pictures, with the readers that fill them in: src/dmapd-dpap-record.c,
-- dmapd_dpap_record_new, with src/photo-meta-reader-vips.c, and
-- src/photo-meta-reader-graphicsmagick.c.
use dmapd.Prelude.{◌≡◌, refl, ℕ, true, Option, none, some, ◌++◌, CString, >>=_some}
use dmapd.Stringleton.{StrTable, Global}
use dmapd.FileHash.{HashLib, Source}
use dmapd.Dpap.{DpapRecordPrivate, State, object_set}
use dmapd.Dpap.Changes.{write, write_all, object_set-write}
use dmapd.Dpap.Create.{Surroundings, dpap_record_new}
use dmapd.Dpap.Created.{IsPlaced, dpap_record_new-IsPlaced}
use dmapd.PhotoReader.{VipsLib}
use dmapd.PhotoReader.Vips.{System, size_writes, photo_meta_reader_vips_read}
use dmapd.PhotoReader.Graphicsmagick.{
  Wand, file_prefix, wand_writes, take_wand, photo_meta_reader_graphicsmagick_read,
}
use dmapd.PhotoReader.Identity.{photo_meta_reader_vips_read-IsSame, write_all-append}

module _ (h : StrTable) where
  module _ (lib : VipsLib) (system : System) (width : ℕ) where
    module _ (hash_lib : HashLib) (source : Source) where
      -- The surroundings with the VIPS module as the reader of pictures.
      abbrev pub with_vips : Surroundings h → Surroundings h
      with_vips around = record around {
        photo_meta_reader_read = photo_meta_reader_vips_read h lib system width;
      }

      -- With the VIPS module as the reader of pictures, and whatever VIPS finds in the file: where
      -- dmapd_dpap_record_new gives a record for a path, the path has a URI, the record's location
      -- is that URI, and its hash is the one that the picture has.
      pub dpap_record_new_vips-IsPlaced :
          (around : Surroundings h) (path : CString) (g g' : Global h) (r : DpapRecordPrivate)
          → dpap_record_new h hash_lib source (with_vips around) (some path) g ≡ some (some r, g')
          → IsPlaced h hash_lib source (with_vips around) (around.filename_to_uri path) r
      dpap_record_new_vips-IsPlaced around path g g' r e =
          dpap_record_new-IsPlaced h hash_lib source (with_vips around) path g g' r
            (λ p s s' found. photo_meta_reader_vips_read-IsSame h lib system width p s (found, s'))
            e

  module _ (read : CString → Option Wand) (system : System) (basename : CString → CString)
      (width : ℕ) where
    wand_writes-location :
        (path : CString) (wand : Wand) (r : DpapRecordPrivate)
        → (write_all (wand_writes h read system basename width path wand) r).location
          ≡ some (file_prefix ++ path)
    unfolding wand_writes write
    wand_writes-location path wand r =
        rw (write_all-append (size_writes (system.stat path)) _ r) refl

    take_wand-location :
        (path : CString) (o : Option Wand) (s s' : State h)
        → take_wand h read system basename width path o s ≡ some (true, s')
        → s'.1.location ≡ some (file_prefix ++ path)
    unfolding take_wand
    take_wand-location path none s s' e = cc
    take_wand-location path (some wand) (g, r) (g', r') e =
        let ((g1, r1), i, j) =
          >>=_some (object_set h (wand_writes h read system basename width path wand) (g, r)) _ e in
        let w : r1 ≡ write_all (wand_writes h read system basename width path wand) r =
          object_set-write h _ g g1 r r1 i in
        let q : r' ≡ r1 = cc in rw (q, w) (wand_writes-location path wand r)

    -- Where the GraphicsMagick module has read a picture, whatever the location of the record was:
    -- it is the text file//, with no colon, and the path.
    pub graphicsmagick_read-location :
        (path : CString) (s s' : State h)
        → photo_meta_reader_graphicsmagick_read h read system basename width path s
          ≡ some (true, s')
        → s'.1.location ≡ some (file_prefix ++ path)
    unfolding photo_meta_reader_graphicsmagick_read
    graphicsmagick_read-location path s s' e = take_wand-location path (read path) s s' e
