-- ===== src/Builder/Tests.antt =====
-- A tree with one song in a directory, its container, and the entries of the container.
use dmapd.Prelude.{
  ℕ, ◌≡◌, ◌≢◌, refl, ap, ◌∙◌, true, Option, none, some, [], ◌∷◌, arith, str_eq, if◌then◌else◌,
}
use dmapd.HashTable.{lookup}
use dmapd.HashTable.Laws.{lookup-empty}
use dmapd.HashTable.Assoc.{direct_table, str_table}
use dmapd.Blob.{blob_add_string, blob_add_atomic, int_bytes}
use dmapd.FileHash.{Source, got, dmapd_util_hash_file}
use dmapd.Cache.{cache_store}
use dmapd.Stringleton.{stringleton_ref, stringleton_unref}
use dmapd.Stringleton.Counts.{live_global}
use dmapd.Daap.{object_set, set_property, replace_str}
use dmapd.Daap.Blob.{to_blob}
use dmapd.Daap.Create.{daap_class, daap_record_new}
use dmapd.RecordClass.{RecordClass}
use dmapd.GhashtableDb.{RecordTable, State, max_id, lookup_by_id, count, add_path, lookup_id_by_uri}
use dmapd.Container.{
  ContainerRecord, ContainerTable, first_container, get_entries, get_entry_count,
  container_record_new, add_entry, get_id, add_container, lookup_container,
}
use dmapd.Container.Entries.{mem, NoneTwice, get_entries_lem}
use dmapd.Builder.{
  Dir, file, directory, opened, unopened, end, next, Build, build_dir, file_id, add_file,
  open_container, close_container,
}
use dmapd.Builder.Growth.{files_of}
use dmapd.Builder.Walk.{Walked, build_dir-Walked}
use dmapd.Fixture.{small_hash, release, strings_table, small_system, empty_disk, cache_dir, or_else}

-- Every file can be opened.
abbrev any_file : Source
any_file uri = some (got (1 ∷ 2 ∷ []) ∷ [])

abbrev class : RecordClass
class = daap_class strings_table small_hash any_file small_system release

abbrev table : RecordTable class
table = direct_table

abbrev containers : ContainerTable
containers = direct_table

abbrev tree : Dir
tree = opened (
    next (directory (b'x' ∷ []) (opened (next (file (b'a' ∷ [])) end)))
      (next (directory (b'y' ∷ []) unopened) end))

abbrev before : Build class table containers
before = record {
  state = record {
    object = record {
      db = table.empty;
      db_dir = some cache_dir;
      has_factory = true;
      acceptable_formats = [];
    };
    nextid = max_id;
    disk = empty_disk;
    world = live_global strings_table strings_table.empty;
  };
  container_db = some containers.empty;
  next_container = first_container;
}

abbrev after : Option ContainerRecord × Build class table containers
after =
    or_else (none, before)
      (build_dir class table containers small_hash any_file small_system.filename_to_uri (b'm' ∷ [])
        tree none before)

walk_runs :
    build_dir class table containers small_hash any_file small_system.filename_to_uri
      (b'm' ∷ [])
      tree
      none
      before
    ≡ some after
unfolding build_dir file_id add_file open_container close_container container_record_new add_entry
    get_entry_count add_container get_id lookup_id_by_uri add_path to_blob dmapd_util_hash_file
    str_eq blob_add_string blob_add_atomic int_bytes cache_store daap_record_new object_set
    set_property replace_str stringleton_ref stringleton_unref lookup str_table direct_table
walk_runs = refl

no_containers :
    (t : containers.Table) (id : ℕ) (r : ContainerRecord)
    → some containers.empty ≡ some t
    → lookup_container containers id t ≢ some r
unfolding lookup_container
no_containers t id r e f =
    let i : containers.empty ≡ t = ground arith in
    let z = lookup-empty containers id in
    let g : lookup containers id containers.empty ≡ some r = ap (lookup containers id) i ∙ f in cc

build_dir-Walked_example :
    Walked class table containers small_hash any_file small_system.filename_to_uri
      (files_of tree)
      before
      after
build_dir-Walked_example =
    build_dir-Walked class table containers small_hash any_file small_system.filename_to_uri
      (b'm' ∷ []) tree none before after
      (record {
        allocated = record {
          next = omega arith;
          used = λ id r e. let z = lookup-empty table id in cc;
        };
        filled = λ t id r e f. absurd (no_containers t id r e f);
      })
      tt (unfold files_of in omega arith) walk_runs

abbrev one_entry : ContainerRecord
one_entry = record { id = 2; name = none; entries = max_id ∷ []; full_db = true }

get_entries_example :
    (d : State class table) × (get_entries class table small_hash any_file one_entry after.1.state
      ≡ some d)
    × ((id : ℕ)
        → lookup_by_id class table id d
          ≡ (if mem id one_entry.entries then lookup_by_id class table id after.1.state else none))
    × (NoneTwice one_entry.entries → count class table d ≡ get_entry_count one_entry)
get_entries_example =
    get_entries_lem class table small_hash any_file one_entry after.1.state refl (λ e. ground arith)
