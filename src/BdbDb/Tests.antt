-- ===== src/BdbDb/Tests.antt =====
-- A file of songs.
use dmapd.Prelude.{
  ℕ, ◌-◌, ◌≡◌, refl, true, Option, none, some, [], ◌∷◌, CString, Bytes, str_eq, ◌==◌, arith,
  if◌then◌else◌,
}
use dmapd.Blob as Bytes_of
use dmapd.Blob.{
  blob_add_string, blob_add_atomic, int_bytes, get_string, require, get_int, get_bytes,
}
use dmapd.HashTable.{lookup}
use dmapd.HashTable.Assoc.{str_table}
use dmapd.FileHash.{dmapd_util_hash_file}
use dmapd.Stringleton.{stringleton_ref, stringleton_unref}
use dmapd.Stringleton.Counts.{live_global}
use dmapd.Daap.{DaapRecordPrivate, object_set, set_property, replace_str, finalize}
use dmapd.Daap.Create.{daap_record_new}
use dmapd.Daap.Blob.{to_blob, set_from_blob, decode, settings, or_fault}
use dmapd.GhashtableDb.{max_id}
use dmapd.RecordClass.{filled, fill}
use dmapd.BdbDb.{
  Btree, State, get_blob, read_blob, lookup_by_id, is_at, search, lookup_id_by_location, count, add,
  constructor,
}
use dmapd.BdbDb.Stored.{constructor-Forgets}
use dmapd.BdbDb.Search.{IsFirst, lookup_id_by_location-IsFirst}
use dmapd.Fixture.{songs, song, song_uri, strings_table, release}

get-if :
    (k j : ℕ) (blob : Bytes) (t t' : ℕ → Option Bytes)
    → ◌≡◌ {A = Option (ℕ → Option Bytes)} (some λ i. if k == i then some blob else t i) (some t')
    → t' j ≡ (if k == j then some blob else t j)
get-if k j blob t t' e = let i : t' ≡ (λ i. if k == i then some blob else t i) = cc in rw i refl

abbrev small_btree : Btree
small_btree = record {
  Table = ℕ → Option Bytes;
  get = λ k t. t k;
  put = λ k blob t. some λ j. if k == j then some blob else t j;
  get-put = get-if;
}

abbrev left : Bytes → songs.World × songs.Record → songs.World × songs.Record
left blob x = x

-- A process that has added nothing, and has opened no file.
abbrev started : State songs small_btree left
started = record {
  db = none;
  has_factory = true;
  nextid = max_id;
  world = live_global strings_table strings_table.empty;
}

-- A file with one record, under the first id.
abbrev old_file : small_btree.Table
old_file id = if max_id == id then some (9 ∷ []) else none

constructor-Forgets_example :
    let o = constructor songs small_btree left old_file true started in
    (count songs small_btree left o ≡ 0)
    × ((location : CString)
        → lookup_id_by_location songs small_btree left location o ≡ some (0, started.world))
    × ((r : DaapRecordPrivate) (id : ℕ) (t : State songs small_btree left)
        → add songs small_btree left r o ≡ some (id, t)
        → (id ≡ max_id) × (get_blob songs small_btree left max_id t ≡ to_blob release r))
constructor-Forgets_example = constructor-Forgets songs small_btree left old_file true started refl

abbrev song_bytes : Bytes
song_bytes = elim (to_blob release song) [ some blob ↦ blob | none ↦ [] ]

-- The same process with one song added.
abbrev stocked : State songs small_btree left
stocked = record started {
  db = some λ id. if max_id == id then some song_bytes else none;
  nextid = max_id - 1;
}

abbrev found : Option (ℕ × songs.World)
found = lookup_id_by_location songs small_btree left song_uri stocked

found_runs : (w : songs.World) × (found ≡ some (max_id, w))
unfolding lookup_id_by_location search lookup_by_id read_blob fill filled get_blob is_at
    set_from_blob decode Bytes_of.◌>>=◌ get_string require get_int get_bytes settings or_fault
    to_blob dmapd_util_hash_file str_eq blob_add_string blob_add_atomic int_bytes daap_record_new
    object_set set_property replace_str stringleton_ref stringleton_unref lookup str_table finalize
found_runs = (_, refl)

lookup_id_by_location-IsFirst_example :
    IsFirst songs small_btree left stocked song_uri max_id max_id
lookup_id_by_location-IsFirst_example =
    lookup_id_by_location-IsFirst songs small_btree left song_uri stocked max_id found_runs.0
      (omega arith) found_runs.1
