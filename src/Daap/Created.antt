-- ===== src/Daap/Created.antt =====
-- What a new DAAP record of a media file holds: src/dmapd-daap-record.c, dmapd_daap_record_new.
use dmapd.Prelude.{
  ◌≡◌, refl, ap, ◌∙◌, Bool, true, false, Option, none, some, CString, Bytes, >>=_some, arith,
}
use dmapd.Build.{Build}
use dmapd.Stringleton.{StrTable, Global}
use dmapd.FileHash.{HashLib, Source, Hashed, hashed, not_hashed, overread, dmapd_util_hash_file}
use dmapd.Daap.{DaapRecordPrivate, State, fresh, finalize, object_set}
use dmapd.Daap.Properties.{write}
use dmapd.Daap.Live.{write_all, object_set-write}
use dmapd.Daap.Refusals.{IsFresh}
use dmapd.Daap.Create.{
  Surroundings, defaults, size_and_time, take_tags, fill, name_file, open_path, daap_record_new,
}

module _ (h : StrTable) (lib : HashLib) (source : Source) (around : Surroundings h)
    (b : Build) where
  -- A plugin that reads tags leaves the location and the hash alone.
  abbrev pub LeavesIdentity : Type 0
  LeavesIdentity =
      (path : CString) (s s' : State h) (found : Bool)
      → around.av_meta_reader_read path s ≡ some (found, s')
      → (s'.1.location ≡ s.1.location) × (s'.1.hash ≡ s.1.hash)

  -- The record of a file: where the file is and its hash, and the constants of the source.
  pub record IsNew (location : Option CString) (r : DaapRecordPrivate) : Type 0 where
    pub at_location : r.location ≡ location
    pub is_fresh : IsFresh h lib source b r
    pub rating : r.rating ≡ 5
    pub firstseen : r.firstseen ≡ 1
    pub bitrate : r.bitrate ≡ 128

  take_tags-some :
      (found : Bool) (s : State h) (r : DaapRecordPrivate) (g : Global h)
      → take_tags h lib source around (found, s) ≡ some (some r, g)
      → r ≡ record (s.1) { rating = 5; firstseen = 1; bitrate = 128 }
  unfolding take_tags
  take_tags-some true (g', r') r g e = ground arith
  take_tags-some false (g', r') r g e = let (x, f, y) = >>=_some (finalize h (g', r')) _ e in cc

  filled-IsNew :
      (path location title : CString) (hash : Bytes) (s1 s2 : State h) (x : Bool × State h)
      (g' : Global h) (r : DaapRecordPrivate)
      → LeavesIdentity
      → dmapd_util_hash_file lib source location ≡ hashed hash
      → object_set h (defaults h lib source around location hash title) s1 ≡ some s2
      → around.av_meta_reader_read path s2 ≡ some x
      → take_tags h lib source around x ≡ some (some r, g')
      → IsNew (some location) r
  unfolding defaults write
  filled-IsNew path location title hash (g1, r1) (g2, r2) (found, s3) g' r keeps k e2 e3 e4 =
      let w : r2 ≡ write_all (defaults h lib source around location hash title) r1 =
        object_set-write h _ g1 g2 r1 r2 e2 in
      let (i, j) = keeps path (g2, r2) s3 found e3 in
      let t = take_tags-some found s3 r g' e4 in
      let l : r.location ≡ some location =
        ap (λ (y : DaapRecordPrivate). y.location) t
        ∙ i
        ∙ ap (λ (y : DaapRecordPrivate). y.location) w in
      let d : r.hash ≡ some hash =
        ap (λ (y : DaapRecordPrivate). y.hash) t ∙ j ∙ ap (λ (y : DaapRecordPrivate). y.hash) w in
      record {
        at_location = l;
        is_fresh = (location, hash, l, d, k);
        rating = ap (λ (y : DaapRecordPrivate). y.rating) t;
        firstseen = ap (λ (y : DaapRecordPrivate). y.firstseen) t;
        bitrate = ap (λ (y : DaapRecordPrivate). y.bitrate) t;
      }

  fill-IsNew :
      (path location title : CString) (x : Hashed) (g g' : Global h) (r : DaapRecordPrivate)
      → LeavesIdentity
      → dmapd_util_hash_file lib source location ≡ x
      → fill h lib source around path location title x g ≡ some (some r, g')
      → IsNew (some location) r
  unfolding fill
  fill-IsNew path location title overread g g' r keeps k e = cc
  fill-IsNew path location title not_hashed g g' r keeps k e = cc
  fill-IsNew path location title (hashed hash) g g' r keeps k e =
      let (s1, e1, f1) =
        >>=_some (object_set h (size_and_time h lib source around (around.stat path)) (g, fresh)) _
          e in
      let (s2, e2, f2) =
        >>=_some (object_set h (defaults h lib source around location hash title) s1) _ f1 in
      let (x, e3, f3) = >>=_some (around.av_meta_reader_read path s2) _ f2 in
      filled-IsNew path location title hash s1 s2 x g' r keeps k e2 e3 f3

  name_file-IsNew :
      (path location : CString) (title : Option CString) (g g' : Global h) (r : DaapRecordPrivate)
      → LeavesIdentity
      → name_file h lib source around path location title g ≡ some (some r, g')
      → IsNew (some location) r
  unfolding name_file
  name_file-IsNew path location none g g' r keeps e = cc
  name_file-IsNew path location (some title) g g' r keeps e =
      fill-IsNew path location title _ g g' r keeps refl e

  open_path-IsNew :
      (path : CString) (location : Option CString) (g g' : Global h) (r : DaapRecordPrivate)
      → LeavesIdentity
      → open_path h lib source around path location g ≡ some (some r, g')
      → IsNew location r
  unfolding open_path
  open_path-IsNew path none g g' r keeps e = cc
  open_path-IsNew path (some location) g g' r keeps e =
      name_file-IsNew path location _ g g' r keeps e

  -- With a plugin that leaves the location and the hash of a record alone: where
  -- dmapd_daap_record_new gives a record for a path, the record's location is the URI of the path,
  -- its hash is the one that the media file has, its rating is 5, its firstseen 1 and its bitrate
  -- 128, whatever the plugin has read.
  pub daap_record_new-IsNew :
      (path : CString) (g g' : Global h) (r : DaapRecordPrivate)
      → LeavesIdentity
      → daap_record_new h lib source around (some path) g ≡ some (some r, g')
      → IsNew (around.filename_to_uri path) r
  unfolding daap_record_new
  daap_record_new-IsNew path g g' r keeps e = open_path-IsNew path _ g g' r keeps e
