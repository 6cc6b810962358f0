-- ===== src/TagReader/Created.antt =====
-- New DAAP records whose tags GStreamer reads: src/dmapd-daap-record.c, dmapd_daap_record_new, with
-- src/av-meta-reader-gst.c as the plugin that it calls.
use dmapd.Prelude.{◌≡◌, some, CString}
use dmapd.Build.{Build}
use dmapd.Stringleton.{StrTable, Global}
use dmapd.FileHash.{HashLib, Source}
use dmapd.Daap.{DaapRecordPrivate}
use dmapd.Daap.Create.{Surroundings, daap_record_new}
use dmapd.Daap.Created.{IsNew, daap_record_new-IsNew}
use dmapd.TagReader.{TagLib}
use dmapd.TagReader.Session.{Session, av_meta_reader_gst_read}
use dmapd.TagReader.Identity.{av_meta_reader_gst_read-IsSame}

module _ (h : StrTable) (lib : HashLib) (source : Source) (b : Build) (tag_lib : TagLib) where
  -- The surroundings with the GStreamer module as the tag reader.
  abbrev pub with_gst : (around : Surroundings h) → (CString → Session tag_lib) → Surroundings h
  with_gst around session = record around {
    av_meta_reader_read = av_meta_reader_gst_read h tag_lib around.filename_to_uri session;
  }

  -- With the GStreamer module as the reader of tags, and whatever GStreamer finds in the file:
  -- where dmapd_daap_record_new gives a record for a path, the record's location is the URI of the
  -- path, its hash is the one that the media file has, its rating is 5, its firstseen 1 and its
  -- bitrate 128.
  pub daap_record_new_gst-IsNew :
      (around : Surroundings h) (session : CString → Session tag_lib) (path : CString)
      (g g' : Global h) (r : DaapRecordPrivate)
      → daap_record_new h lib source (with_gst around session) (some path) g ≡ some (some r, g')
      → IsNew h lib source (with_gst around session) b (around.filename_to_uri path) r
  daap_record_new_gst-IsNew around session path g g' r e =
      daap_record_new-IsNew h lib source (with_gst around session) b path g g' r
        (λ p s s' found.
          av_meta_reader_gst_read-IsSame h tag_lib around.filename_to_uri session p s s' found)
        e
