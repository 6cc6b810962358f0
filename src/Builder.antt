-- ===== src/Builder.antt =====
-- src/db-builder-gdir.c: the walk through the media directories, which fills the database and,
-- where it is given one, the table of containers. What the walk sees of the file system is a tree.
pub mod Growth
pub mod Walk
pub mod Tests
use dmapd.Prelude.{
  ℕ, ◌+◌, Bool, true, false, Option, none, some, List, [], ◌∷◌, CString, ltb, ◌==◌, if◌then◌else◌,
  ◌>>=◌,
}
use dmapd.FileHash.{HashLib, Source}
use dmapd.Cache.{in_dir}
use dmapd.RecordClass.{RecordClass}
use dmapd.GhashtableDb.{RecordTable, State, lookup_id_by_uri, add_path}
use dmapd.Container.{
  ContainerRecord, ContainerTable, container_record_new, add_entry, get_entry_count, add_container,
}

mutual
  -- A name in a directory, with what is there.
  pub data Entry : Type 0 where
    file : CString → Entry
    directory : CString → Dir → Entry

  -- What g_dir_open gives: the names in the order of g_dir_read_name, or an error.
  pub data Dir : Type 0 where
    unopened : Dir
    opened : Entries → Dir

  pub data Entries : Type 0 where
    end : Entries
    next : Entry → Entries → Entries

module _ (c : RecordClass) (h : RecordTable c) (containers : ContainerTable) where
  -- What the walk changes. No table of containers is NULL for `container_db`.
  pub record Build : Type 0 where
    pub state : State c h
    pub container_db : Option containers.Table
    pub next_container : ℕ

module _ (c : RecordClass) (h : RecordTable c) (containers : ContainerTable) (lib : HashLib)
    (source : Source) (filename_to_uri : CString → Option CString) where
  -- id = lookup_id_by_location (db, location); if (! id) id = add_file_to_db (path, db);
  add_unless : CString → ℕ → State c h → Option (ℕ × State c h)
  add_unless path id s = if id == 0 then add_path c h lib source path s else some (id, s)

  unfoldable pub file_id : CString → State c h → Option (ℕ × State c h)
  unfolding add_unless
  file_id path s = lookup_id_by_uri c h (filename_to_uri path) s >>= λ id. add_unless path id s

  enter : ℕ → Option ContainerRecord → Option ContainerRecord
  enter id none = none
  enter id (some r) = if id == 0 then some r else some (add_entry id r)

  unfoldable pub add_file :
      CString
      → Option ContainerRecord
      → Build c h containers
      → Option (Option ContainerRecord × Build c h containers)
  unfolding enter
  add_file path r b = file_id path b.state >>= λ x. some (enter x.0 r, record b { state = x.1 })

  -- The record of a directory that has been walked, unless it has no entry.
  keep_container : Option ContainerRecord → Option containers.Table → Option containers.Table
  keep_container r none = none
  keep_container none (some t) = some t
  keep_container (some r) (some t) =
      if ltb 0 (get_entry_count r) then some (add_container containers r t) else some t

  unfoldable pub close_container :
      Option ContainerRecord × Build c h containers → Build c h containers
  unfolding keep_container
  close_container (r, b) = record b { container_db = keep_container r b.container_db }

  unfoldable pub open_container :
      CString → Build c h containers → Option ContainerRecord × Build c h containers
  open_container name b =
      let x = container_record_new name b.next_container in
      (some x.0, record b { next_container = x.1 })

  unfoldable mutual
    unfolding add_file open_container close_container

    pub build_entry :
        CString
        → Entry
        → Option ContainerRecord
        → Build c h containers
        → Option (Option ContainerRecord × Build c h containers)
    build_entry dir (file name) r b = add_file (in_dir dir name) r b
    build_entry dir (directory name d) r b =
        let x = open_container name b in
        build_dir (in_dir dir name) d x.0 x.1 >>= λ y. some (r, close_container y)

    -- db_builder_gdir_build_db_starting_at, with the record of the directory after it
    pub build_dir :
        CString
        → Dir
        → Option ContainerRecord
        → Build c h containers
        → Option (Option ContainerRecord × Build c h containers)
    build_dir dir unopened r b = some (r, b)
    build_dir dir (opened entries) r b = build_entries dir entries r b

    pub build_entries :
        CString
        → Entries
        → Option ContainerRecord
        → Build c h containers
        → Option (Option ContainerRecord × Build c h containers)
    build_entries dir end r b = some (r, b)
    build_entries dir (next e rest) r b =
        build_entry dir e r b >>= λ x. build_entries dir rest x.0 x.1
