-- ===== src/Dpap/Fresh.antt =====
-- Which cached pictures are taken: src/dmapd-dpap-record.c, set_from_blob.
use dmapd.Prelude.{
  ◌≡◌, sym, ap, ◌∙◌, Option, none, some, List, Bytes, CString, str_eq, str_eq_iff, arith,
  Bool-cases, inl, inr,
}
use dmapd.Build.{Build}
use dmapd.Blob.{Outcome, ok, refused, fault, changed}
use dmapd.Stringleton.{StrTable, Global}
use dmapd.FileHash.{
  HashLib, Chunk, Source, Hashed, hashed, not_hashed, overread, dmapd_util_hash_file,
}
use dmapd.Dpap.{DpapRecordPrivate, State, object_set}
use dmapd.Dpap.Changes.{write, write_all, object_set-write}
use dmapd.Dpap.Blob.{
  Locals, thumbnail_bytes, decode, settings, or_fault, compare_hash, open_media, check_media,
  set_from_blob,
}

module _ (h : StrTable) (lib : HashLib) (source : Source) (b : Build) where
  -- The record holds a location and the hash that its picture has, and a thumbnail, be it empty.
  pub record IsComplete (r : DpapRecordPrivate) : Type 0 where
    pub place : CString
    pub digest : Bytes
    pub picture : Bytes
    pub at_location : r.location ≡ some place
    pub with_hash : r.hash ≡ some digest
    pub unchanged : dmapd_util_hash_file lib source place ≡ hashed digest
    pub with_thumbnail : r.thumbnail ≡ some picture

  or_fault-ok : (o : Option (State h)) (s : State h) → or_fault h o ≡ ok s → o ≡ some s
  unfolding or_fault
  or_fault-ok none s e = cc
  or_fault-ok (some x) s e = ground arith

  set-IsComplete :
      (f : Locals) (g g' : Global h) (r r' : DpapRecordPrivate)
      → dmapd_util_hash_file lib source f.location ≡ hashed f.hash
      → object_set h (settings f) (g, r) ≡ some (g', r')
      → IsComplete r'
  unfolding settings write
  set-IsComplete f g g' r r' k e =
      let w : r' ≡ write_all (settings f) r = object_set-write h (settings f) g g' r r' e in
      record {
        place = f.location;
        digest = f.hash;
        picture = thumbnail_bytes f.thumbnail;
        at_location = ap (λ (x : DpapRecordPrivate). x.location) w;
        with_hash = ap (λ (x : DpapRecordPrivate). x.hash) w;
        unchanged = k;
        with_thumbnail = ap (λ (x : DpapRecordPrivate). x.thumbnail) w;
      }

  compared-IsComplete :
      (f : Locals) (x : Hashed) (g g' : Global h) (r r' : DpapRecordPrivate)
      → dmapd_util_hash_file lib source f.location ≡ x
      → compare_hash h f x (g, r) ≡ ok (g', r')
      → IsComplete r'
  unfolding compare_hash
  compared-IsComplete f overread g g' r r' k e = cc
  compared-IsComplete f not_hashed g g' r r' k e = cc
  compared-IsComplete f (hashed d) g g' r r' k e = elim (Bool-cases (str_eq f.hash d)) [
    | inl q ↦
        set-IsComplete f g g' r r' (k ∙ ap hashed (sym ((str_eq_iff f.hash d).0 q)))
          (or_fault-ok (object_set h (settings f) (g, r)) (g', r') (rw q at e))
    | inr q ↦ let c : ◌≡◌ {A = Outcome (State h)} (refused changed) (ok (g', r')) = rw q at e in cc
  ]

  opened-IsComplete :
      (f : Locals) (stream : Option (List Chunk)) (g g' : Global h) (r r' : DpapRecordPrivate)
      → open_media h f stream (dmapd_util_hash_file lib source f.location) (g, r) ≡ ok (g', r')
      → IsComplete r'
  unfolding open_media
  opened-IsComplete f none g g' r r' e = cc
  opened-IsComplete f (some stream) g g' r r' e =
      compared-IsComplete f _ g g' r r' (λ i. dmapd_util_hash_file lib source f.location) e

  checked-IsComplete :
      (o : Outcome (Locals × Bytes)) (g g' : Global h) (r r' : DpapRecordPrivate)
      → check_media h lib source o (g, r) ≡ ok (g', r')
      → IsComplete r'
  unfolding check_media
  checked-IsComplete fault g g' r r' e = cc
  checked-IsComplete (refused x) g g' r r' e = cc
  checked-IsComplete (ok (f, rest)) g g' r r' e =
      opened-IsComplete f (source f.location) g g' r r' e

  -- Whatever bytes the cache holds for a picture: where set_from_blob returns TRUE, the record has
  -- the location and the hash of a picture that has this hash now, and its thumbnail is not NULL.
  pub picture-IsComplete :
      (blob : Bytes) (g g' : Global h) (r r' : DpapRecordPrivate)
      → set_from_blob h lib source b blob (g, r) ≡ ok (g', r')
      → IsComplete r'
  unfolding set_from_blob
  picture-IsComplete blob g g' r r' e = checked-IsComplete (decode lib b blob) g g' r r' e
