-- ===== src/Dpap/Created.antt =====
-- What a new record of a picture holds, and the database of pictures that a cache gives:
-- src/dmapd-dpap-record.c with src/dmapd-dmap-db-ghashtable.c.
use dmapd.Prelude.{
  ℕ, ◌+◌, ◌≤◌, ◌≡◌, ap, ◌∙◌, Bool, true, false, Option, none, some, List, [], ◌∷◌, CString, Bytes,
  length, >>=_some, arith,
}
use dmapd.Build.{Build}
use dmapd.Stringleton.{StrTable, Global}
use dmapd.FileHash.{HashLib, Source, Hashed, hashed, not_hashed, overread, dmapd_util_hash_file}
use dmapd.Dpap.{
  DpapRecordPrivate, State, new_picture, finalize, object_set, prop_location, prop_hash,
}
use dmapd.Dpap.Changes.{write, write_all, object_set-write}
use dmapd.Dpap.Fresh.{IsComplete, picture-IsComplete}
use dmapd.Dpap.Create.{Surroundings, take_picture, fill, open_path, dpap_record_new, dpap_class}
use dmapd.RecordClass.{RecordClass}
use dmapd.GhashtableDb as Ghash
use dmapd.GhashtableDb.Cached.{constructor}
use dmapd.GhashtableDb.Restart.{constructor-Holds}

module _ (h : StrTable) (lib : HashLib) (source : Source) (around : Surroundings h) where
  -- A plugin that reads pictures leaves the location and the hash alone.
  abbrev pub LeavesIdentity : Type 0
  LeavesIdentity =
      (path : CString) (s s' : State h) (found : Bool)
      → around.photo_meta_reader_read path s ≡ some (found, s')
      → (s'.1.location ≡ s.1.location) × (s'.1.hash ≡ s.1.hash)

  -- The record's place is the given one, and its hash is that of the file there.
  abbrev pub IsPlaced : Option CString → DpapRecordPrivate → Type 0
  IsPlaced place r =
      (l : CString) × (d : Bytes) × (place ≡ some l)
      × (r.location ≡ some l)
      × (r.hash ≡ some d)
      × (dmapd_util_hash_file lib source l ≡ hashed d)

  take_picture-some :
      (found : Bool) (s : State h) (r : DpapRecordPrivate) (g : Global h)
      → take_picture h lib source around (found, s) ≡ some (some r, g)
      → r ≡ s.1
  unfolding take_picture
  take_picture-some true (g', r') r g e = ground arith
  take_picture-some false (g', r') r g e = let (x, f, y) = >>=_some (finalize h (g', r')) _ e in cc

  filled-IsPlaced :
      (path location : CString) (hash : Bytes) (g g' : Global h) (s : State h) (x : Bool × State h)
      (r : DpapRecordPrivate)
      → LeavesIdentity
      → dmapd_util_hash_file lib source location ≡ hashed hash
      → object_set h ((prop_location, some location) ∷ (prop_hash, some hash) ∷ []) (g, new_picture)
        ≡ some s
      → around.photo_meta_reader_read path s ≡ some x
      → take_picture h lib source around x ≡ some (some r, g')
      → IsPlaced (some location) r
  unfolding write
  filled-IsPlaced path location hash g g' (g1, r1) (found, s2) r keeps k e1 e2 e3 =
      let w : r1
          ≡ write_all ((prop_location, some location) ∷ (prop_hash, some hash) ∷ []) new_picture =
        object_set-write h _ g g1 new_picture r1 e1 in
      let (i, j) = keeps path (g1, r1) s2 found e2 in
      let t = take_picture-some found s2 r g' e3 in
      (
        location,
        hash,
        (λ z. some location),
        ap (λ (y : DpapRecordPrivate). y.location) t
            ∙ i
            ∙ ap (λ (y : DpapRecordPrivate). y.location) w,
        ap (λ (y : DpapRecordPrivate). y.hash) t ∙ j ∙ ap (λ (y : DpapRecordPrivate). y.hash) w,
        k,
      )

  fill-IsPlaced :
      (path location : CString) (x : Hashed) (g g' : Global h) (r : DpapRecordPrivate)
      → LeavesIdentity
      → dmapd_util_hash_file lib source location ≡ x
      → fill h lib source around path location x g ≡ some (some r, g')
      → IsPlaced (some location) r
  unfolding fill
  fill-IsPlaced path location overread g g' r keeps k e = cc
  fill-IsPlaced path location not_hashed g g' r keeps k e = cc
  fill-IsPlaced path location (hashed hash) g g' r keeps k e =
      let (s, e1, f1) =
        >>=_some
          (object_set h ((prop_location, some location) ∷ (prop_hash, some hash) ∷ [])
            (g, new_picture))
          _ e in
      let (x, e2, f2) = >>=_some (around.photo_meta_reader_read path s) _ f1 in
      filled-IsPlaced path location hash g g' s x r keeps k e1 e2 f2

  open_path-IsPlaced :
      (path : CString) (location : Option CString) (g g' : Global h) (r : DpapRecordPrivate)
      → LeavesIdentity
      → open_path h lib source around path location g ≡ some (some r, g')
      → IsPlaced location r
  unfolding open_path
  open_path-IsPlaced path none g g' r keeps e = cc
  open_path-IsPlaced path (some location) g g' r keeps e =
      fill-IsPlaced path location _ g g' r keeps (λ z. dmapd_util_hash_file lib source location) e

  -- With a plugin that leaves the location and the hash of a record alone: where
  -- dmapd_dpap_record_new gives a record for a path, the path has a URI, the record's location is
  -- that URI, and its hash is the one that the picture has.
  pub dpap_record_new-IsPlaced :
      (path : CString) (g g' : Global h) (r : DpapRecordPrivate)
      → LeavesIdentity
      → dpap_record_new h lib source around (some path) g ≡ some (some r, g')
      → IsPlaced (around.filename_to_uri path) r
  unfolding dpap_record_new
  dpap_record_new-IsPlaced path g g' r keeps e = open_path-IsPlaced path _ g g' r keeps e

  module _ (b : Build) (table : Ghash.RecordTable (dpap_class h lib source around b)) where
    abbrev class : RecordClass
    class = dpap_class h lib source around b

    -- A database of pictures that is made by its constructor, in a process whose next id is not
    -- above G_MAXINT and not below the number of names in the cache directory, whatever bytes the
    -- directory holds, where the constructor returns: each of its records has the location and the
    -- hash of a picture that has this hash now and a thumbnail that is not NULL, and it has as many
    -- records as ids were taken.
    pub cached_pictures-IsComplete :
        (db_dir : Option CString) (has_factory : Bool) (s t : Ghash.State class table)
        → s.nextid ≤ Ghash.max_id
        → ((dir : CString) (names : List CString)
            → db_dir ≡ some dir
            → s.disk.names dir ≡ some names
            → length names ≤ s.nextid)
        → constructor class table lib source db_dir has_factory s ≡ some t
        → ((id : ℕ) (r : DpapRecordPrivate)
            → Ghash.lookup_by_id class table id t ≡ some r
            → IsComplete h lib source b r)
          × (Ghash.count class table t + t.nextid ≡ s.nextid)
    cached_pictures-IsComplete db_dir has_factory s t n room e =
        let (k, p, m) =
          constructor-Holds class table lib source (IsComplete h lib source b) db_dir has_factory s
            t (λ blob r r' w w' f. picture-IsComplete h lib source b blob w w' r r' f) n room e in
        (p, m)
