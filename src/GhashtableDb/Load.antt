-- ===== src/GhashtableDb/Load.antt =====
-- What loading the cache does: src/dmapd-dmap-db-ghashtable.c, load_cached_records.
use dmapd.Prelude.{
  ℕ, ◌<◌, ◌≡◌, ◌⊎◌, refl, sym, ap, true, false, Option, none, some, CString, Bytes, has_suffix,
  arith, Bool-cases, inl, inr, ◌>>=◌,
}
use dmapd.Blob.{Outcome, Reason, ok, refused, fault}
use dmapd.FileHash.{HashLib, Source}
use dmapd.Cache.{Disk, extension, cache_type_record, in_dir}
use dmapd.RecordClass.{RecordClass}
use dmapd.GhashtableDb.{RecordTable, State, add}
use dmapd.GhashtableDb.Ids.{IsAllocated, Added, add-Added}
use dmapd.GhashtableDb.AddPath.{Added-world}
use dmapd.GhashtableDb.Cached.{unlink, take_or_unlink, set_or_skip, load_blob, load_entry}

module _ (c : RecordClass) (h : RecordTable c) (lib : HashLib) (source : Source) where
  -- The table and the next id are as they were, and the disk is `disk`.
  pub record Kept (disk : Disk) (s t : State c h) : Type 0 where
    pub object : t.object ≡ s.object
    pub nextid : t.nextid ≡ s.nextid
    pub disk_is : t.disk ≡ disk

  -- How one name of the cache directory is dealt with.
  pub data Loads (path : CString) (s t : State c h) : Type 0 where
    passed_over :
        (s.disk.files path ≡ none) ⊎ (has_suffix path (extension cache_type_record) ≡ false)
        → t ≡ s
        → Loads path s t
    no_record :
        (blob : Bytes) (w : c.World)
        → s.disk.files path ≡ some blob
        → has_suffix path (extension cache_type_record) ≡ true
        → c.create none s.world ≡ some (none, w)
        → Kept s.disk s t
        → Loads path s t
    stale :
        (blob : Bytes) (r : c.Record) (w : c.World) (reason : Reason)
        → s.disk.files path ≡ some blob
        → has_suffix path (extension cache_type_record) ≡ true
        → c.create none s.world ≡ some (some r, w)
        → c.set_from_blob blob (w, r) ≡ refused reason
        → Kept (unlink path s.disk) s t
        → Loads path s t
    taken :
        (blob : Bytes) (r r' : c.Record) (w w' : c.World) (id : ℕ)
        → s.disk.files path ≡ some blob
        → has_suffix path (extension cache_type_record) ≡ true
        → c.create none s.world ≡ some (some r, w)
        → c.set_from_blob blob (w, r) ≡ ok (w', r')
        → Added c h r' id s t
        → Loads path s t

  Kept-of_eq :
      (s t : State c h) (disk : Disk) (w : c.World)
      → record s { disk = disk; world = w } ≡ t
      → Kept disk s t
  Kept-of_eq s t disk w e = record {
    object = ap (λ (x : State c h). x.object) (sym e);
    nextid = ap (λ (x : State c h). x.nextid) (sym e);
    disk_is = ap (λ (x : State c h). x.disk) (sym e);
  }

  module _ (path : CString) (blob : Bytes) (s t : State c h) (k : IsAllocated c h s)
      (pos : 0 < s.nextid) (f : s.disk.files path ≡ some blob)
      (v : has_suffix path (extension cache_type_record) ≡ true) where
    finalized :
        (r : c.Record) (w : c.World) (reason : Reason) (o : Option c.World)
        → c.create none s.world ≡ some (some r, w)
        → c.set_from_blob blob (w, r) ≡ refused reason
        → ◌>>=◌ {B = State c h} o (λ w'. some (record s { disk = unlink path s.disk; world = w' }))
          ≡ some t
        → Loads path s t
    finalized r w reason none m x e = cc
    finalized r w reason (some w') m x e =
        stale blob r w reason f v m x (Kept-of_eq s t (unlink path s.disk) w' (ground arith))

    added :
        (r r' : c.Record) (w w' : c.World) (o : Option (ℕ × State c h))
        → add c h lib source r' (record s { world = w' }) ≡ o
        → c.create none s.world ≡ some (some r, w)
        → c.set_from_blob blob (w, r) ≡ ok (w', r')
        → ◌>>=◌ {B = State c h} o (λ x. some x.1) ≡ some t
        → Loads path s t
    added r r' w w' none a m x e = cc
    added r r' w w' (some (id, u)) a m x e =
        let y =
          add-Added c h lib source r' (record s { world = w' }) t id
            (record { next = k.next; used = k.used }) pos (cc) in
        taken blob r r' w w' id f v m x (Added-world c h lib source r' s t w' y)

    judged :
        (r : c.Record) (w : c.World) (o : Outcome (c.World × c.Record))
        → c.create none s.world ≡ some (some r, w)
        → c.set_from_blob blob (w, r) ≡ o
        → take_or_unlink c h lib source path r o (record s { world = w }) ≡ some t
        → Loads path s t
    unfolding take_or_unlink
    judged r w fault m x e = cc
    judged r w (ok (w', r')) m x e = added r r' w w' _ refl m x e
    judged r w (refused reason) m x e = finalized r w reason (c.finalize r w) m x e

    made :
        (x : Option (Option c.Record × c.World))
        → c.create none s.world ≡ x
        → (x >>= λ y. set_or_skip c h lib source path blob y.0 (record s { world = y.1 })) ≡ some t
        → Loads path s t
    unfolding set_or_skip
    made none m e = cc
    made (some (none, w)) m e = no_record blob w f v m (Kept-of_eq s t s.disk w (ground arith))
    made (some (some r, w)) m e = judged r w _ m refl e

  load_blob-Loads :
      (path : CString) (s t : State c h) (x : Option Bytes)
      → s.disk.files path ≡ x
      → IsAllocated c h s
      → 0 < s.nextid
      → load_blob c h lib source path x s ≡ some t
      → Loads path s t
  unfolding load_blob
  load_blob-Loads path s t none f k pos e = passed_over (inl f) (cc)
  load_blob-Loads path s t (some blob) f k pos e =
      elim (Bool-cases (has_suffix path (extension cache_type_record))) [
        | inl q ↦ made path blob s t k pos f q _ refl (rw q at e)
        | inr q ↦ let j : some s ≡ some t = rw q at e in passed_over (inr q) (ground arith)
      ]

  -- One name of the cache directory, where load_cached_records goes on after it, with the ids in
  -- use above the next one and that not 0. A path that is no regular file or not named .record is
  -- passed over: nothing changes. In the other cases the path is a regular file that is named
  -- .record. Where the factory makes no record, the database and the disk stay. Where the record
  -- refuses the file's blob, the database stays, and the file is unlinked if the system lets it.
  -- Else the record that was set from the blob gets a new id, whatever its format.
  pub load_entry-Loads :
      (dir entry : CString) (s t : State c h)
      → IsAllocated c h s
      → 0 < s.nextid
      → load_entry c h lib source dir entry s ≡ some t
      → Loads (in_dir dir entry) s t
  unfolding load_entry
  load_entry-Loads dir entry s t k pos e = load_blob-Loads (in_dir dir entry) s t _ refl k pos e
