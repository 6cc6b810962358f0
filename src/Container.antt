-- ===== src/Container.antt =====
-- src/dmapd-dmap-container-record.c and src/dmapd-dmap-container-db.c: containers, which name
-- records of the media database by their ids, and the table of the containers. A process has one
-- media database, so that the pointer `full_db` is whether it is set.
pub mod Entries
use dmapd.Prelude.{
  ℕ, ◌+◌, ◌%◌, ◌^◌, Bool, true, false, Option, none, some, List, [], ◌∷◌, ◌++◌, length, CString,
  ◌==◌, ◌>>=◌, if◌then◌else◌,
}
use dmapd.HashTable.{HashTable, lookup, size}
use dmapd.FileHash.{HashLib, Source}
use dmapd.RecordClass.{RecordClass}
use dmapd.GhashtableDb.{RecordTable, State, lookup_by_id, add_with_id}
use dmapd.GhashtableDb.Cached.{constructor}

pub record ContainerRecord : Type 0 where
  pub id : ℕ
  pub name : Option CString
  pub entries : List ℕ
  pub full_db : Bool

-- The first value of the counter: 1 is the primary container.
abbrev pub first_container : ℕ
first_container = 2

-- g_object_new (TYPE_DMAPD_DMAP_CONTAINER_RECORD, "name", name, "full-db", db, NULL), with the
-- counter before and after, a gint by its pattern
unfoldable pub container_record_new : CString → ℕ → ContainerRecord × ℕ
container_record_new name nextid =
    (record { id = nextid; name = some name; entries = []; full_db = true }, (nextid + 1) % 2 ^ 32)

unfoldable pub get_id : ContainerRecord → ℕ
get_id r = r.id

unfoldable pub add_entry : ℕ → ContainerRecord → ContainerRecord
add_entry id r = record r { entries = r.entries ++ (id ∷ []) }

unfoldable pub get_entry_count : ContainerRecord → ℕ
get_entry_count r = length r.entries

module _ (c : RecordClass) (h : RecordTable c) (lib : HashLib) (source : Source) where
  -- One entry, from the media database `src` to the new database `dest`.
  unfoldable pub add_to_db : State c h → ℕ → State c h → State c h
  add_to_db src item dest = (add_with_id c h (lookup_by_id c h item src) item dest).1

  -- g_slist_foreach
  unfoldable pub add_all : State c h → List ℕ → State c h → State c h
  add_all src [] dest = dest
  add_all src (item ∷ rest) dest = add_all src rest (add_to_db src item dest)

  -- g_assert (entries != NULL)
  unfoldable pub fill_from : State c h → List ℕ → State c h → Option (State c h)
  fill_from src [] dest = none
  fill_from src (item ∷ rest) dest = some (add_all src (item ∷ rest) dest)

  -- The new database, as the object of a state, in a process where the media database is `src`.
  -- `none` is also a lookup in NULL, where there is no media database.
  unfoldable pub get_entries : ContainerRecord → State c h → Option (State c h)
  get_entries r src = constructor c h lib source none false src >>= λ dest.
      if r.full_db then fill_from src r.entries dest else none

abbrev pub ContainerTable : Type 1
ContainerTable = HashTable ℕ ContainerRecord ◌==◌

-- DmapdDMAPContainerDb
module _ (t : ContainerTable) where
  unfoldable pub lookup_container : ℕ → t.Table → Option ContainerRecord
  lookup_container id db = lookup t id db

  unfoldable pub add_container : ContainerRecord → t.Table → t.Table
  add_container r db = t.insert (get_id r) r db

  unfoldable pub count_containers : t.Table → ℕ
  count_containers db = size t db
