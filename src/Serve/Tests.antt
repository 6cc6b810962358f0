-- ===== src/Serve/Tests.antt =====
-- A process that finds nothing in its cache, and serves one music directory with one song.
use dmapd.Prelude.{
  ◌+◌, ◌-◌, ◌≡◌, ◌≤◌, refl, true, Option, none, some, List, [], ◌∷◌, CString, arith, str_eq, length,
}
use dmapd.HashTable.{lookup}
use dmapd.HashTable.Assoc.{direct_table, str_table}
use dmapd.Blob.{blob_add_string, blob_add_atomic, int_bytes}
use dmapd.FileHash.{Source, got, dmapd_util_hash_file}
use dmapd.Cache.{in_dir, cache_store}
use dmapd.Stringleton.{stringleton_ref, stringleton_unref}
use dmapd.Stringleton.Counts.{live_global}
use dmapd.Daap.{object_set, set_property, replace_str}
use dmapd.Daap.Blob.{to_blob}
use dmapd.Daap.Create.{daap_class, daap_record_new}
use dmapd.RecordClass.{RecordClass}
use dmapd.GhashtableDb.{RecordTable, State, max_id, count, add_path, lookup_id_by_uri}
use dmapd.GhashtableDb.Cached.{
  constructor, load_cached_records, load_names, load_entries, load_from,
}
use dmapd.Container.{
  ContainerTable, first_container, get_entry_count, container_record_new, add_entry, get_id,
  add_container,
}
use dmapd.Builder.{
  Dir, file, directory, opened, unopened, end, next, Build, build_dir, file_id, add_file,
  open_container, close_container,
}
use dmapd.Builder.Growth.{files_of}
use dmapd.Serve.{
  accept, build_all, Served, in_memory, ghashtable, fill_ghashtable, fill_db, daap_name,
}
use dmapd.Serve.Sound.{files_of_dirs, IsFilled, fill_db-IsFilled}
use dmapd.Fixture.{small_hash, release, strings_table, small_system, empty_disk, cache_dir}

-- Every file can be opened.
abbrev any_file : Source
any_file uri = some (got (1 ∷ 2 ∷ []) ∷ [])

abbrev class : RecordClass
class = daap_class strings_table small_hash any_file small_system release

abbrev table : RecordTable class
table = direct_table

abbrev containers : ContainerTable
containers = direct_table

abbrev tree : CString → Dir
tree dir = opened (
    next (directory (b'x' ∷ []) (opened (next (file (b'a' ∷ [])) end)))
      (next (directory (b'y' ∷ []) unopened) end))

abbrev music : List CString
music = (b'm' ∷ []) ∷ []

abbrev before : State class table
before = record {
  object = record { db = table.empty; db_dir = none; has_factory = true; acceptable_formats = [] };
  nextid = max_id;
  disk = empty_disk;
  world = live_global strings_table strings_table.empty;
}

abbrev filling : Option (Served (Build class table containers))
filling =
    fill_db class table containers small_hash any_file small_system.filename_to_uri tree ghashtable
      cache_dir daap_name music [] true first_container before

abbrev nothing : Build class table containers
nothing = record { state = before; container_db = none; next_container = first_container }

abbrev after : Build class table containers
after = elim filling [ some (in_memory b) ↦ b | _ ↦ nothing ]

filling_runs : filling ≡ some (in_memory after)
unfolding fill_db fill_ghashtable accept build_all constructor load_from load_cached_records
    load_names load_entries build_dir file_id add_file open_container close_container
    container_record_new add_entry get_entry_count add_container get_id lookup_id_by_uri add_path
    to_blob dmapd_util_hash_file str_eq blob_add_string blob_add_atomic int_bytes cache_store
    daap_record_new object_set set_property replace_str stringleton_ref stringleton_unref lookup
    str_table direct_table
filling_runs = refl

one_song : after.state.nextid ≡ max_id - 1
unfolding fill_db fill_ghashtable accept build_all constructor load_from load_cached_records
    load_names load_entries build_dir file_id add_file open_container close_container
    container_record_new add_entry get_entry_count add_container get_id lookup_id_by_uri add_path
    to_blob dmapd_util_hash_file str_eq blob_add_string blob_add_atomic int_bytes cache_store
    daap_record_new object_set set_property replace_str stringleton_ref stringleton_unref lookup
    str_table direct_table
one_song = refl

abbrev opened_db : Option (State class table)
opened_db =
    constructor class table small_hash any_file (some (in_dir cache_dir daap_name)) true before

opens : (s1 : State class table) → opened_db ≡ some s1 → s1.nextid ≡ max_id
unfolding constructor load_from load_cached_records load_names load_entries
opens s1 e = cc

files_fit : (s1 : State class table) → opened_db ≡ some s1 → files_of_dirs tree music ≤ s1.nextid
unfolding files_of_dirs files_of
files_fit s1 e = let n = opens s1 e in omega arith

no_names :
    (names : List CString)
    → before.disk.names (in_dir cache_dir daap_name) ≡ some names
    → length names ≤ max_id
no_names names e = let i : names ≡ [] = cc in rw i (omega arith)

fill_db-IsFilled_example :
    (s1 : State class table) × (opened_db ≡ some s1)
    × (count class table s1 + s1.nextid ≡ max_id)
    × IsFilled class table containers small_hash any_file small_system.filename_to_uri tree
        (files_of_dirs tree music)
        s1
        after
fill_db-IsFilled_example =
    fill_db-IsFilled class table containers small_hash any_file small_system.filename_to_uri tree
      ghashtable cache_dir daap_name music [] true first_container before after refl (omega arith)
      no_names files_fit filling_runs
