-- ===== src/RecordClass.antt =====
-- What the databases use of a DMAPRecord and its factory: the interface that the records of
-- src/dmapd-daap-record.c and src/dmapd-dpap-record.c implement. `World` is what the records of a
-- process share. An operation that gives `none` aborts or is undefined.
use dmapd.Prelude.{Option, none, some, CString, Bytes}
use dmapd.Blob.{Outcome, ok, refused, fault}

pub record RecordClass : Type 1 where
  pub Record : Type 0
  pub World : Type 0
  -- g_object_get (record, "location", …) and "format"; `none` inside is NULL
  pub location : Record → Option CString
  pub format : Record → Option CString
  -- dmap_record_to_blob and dmap_record_set_from_blob
  pub to_blob : Record → Option Bytes
  pub set_from_blob : Bytes → World × Record → Outcome (World × Record)
  -- dmap_record_factory_create, for a path or NULL; `none` inside is NULL
  pub create : Option CString → World → Option (Option Record × World)
  -- the last g_object_unref
  pub finalize : Record → World → Option World

-- A record that the factory has made, filled from a blob by a database that does not look at the
-- value of set_from_blob. `left` is what a set_from_blob that refuses the blob leaves in the record.
module _ (c : RecordClass) (left : Bytes → c.World × c.Record → c.World × c.Record) where
  unfoldable pub filled : Bytes → c.World × c.Record → Option (Option c.Record × c.World)
  filled blob x = elim (c.set_from_blob blob x) [
    | ok (w, r) ↦ some (some r, w)
    | refused reason ↦ let (w, r) = left blob x in some (some r, w)
    | fault ↦ none
  ]

  unfoldable pub fill : Bytes → Option c.Record × c.World → Option (Option c.Record × c.World)
  unfolding filled
  fill blob (none, w) = none
  fill blob (some r, w) = filled blob (w, r)
