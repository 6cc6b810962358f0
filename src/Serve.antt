-- ===== src/Serve.antt =====
-- src/dmapd.c, serve: a database is made, filled from the cache and then from the media
-- directories, and, for music, transcoded. What lies under a directory is a parameter, a tree.
pub mod Sound
pub mod Tests
use dmapd.Prelude.{
  ℕ, Bool, true, false, not, Option, none, some, List, [], ◌∷◌, CString, str_eq, if◌then◌else◌,
  ◌>>=◌,
}
use dmapd.Build as Release
use dmapd.Stringleton.{StrTable}
use dmapd.FileHash.{HashLib, Source}
use dmapd.Cache.{in_dir}
use dmapd.RecordClass.{RecordClass}
use dmapd.Daap.{DaapRecordPrivate}
use dmapd.Daap.Create.{Surroundings, daap_class}
use dmapd.GhashtableDb.{RecordTable, State, insert_record}
use dmapd.GhashtableDb.Cached.{constructor}
use dmapd.Container.{ContainerTable}
use dmapd.Builder.{Dir, Build, build_dir}
use dmapd.Transcode.{Transcoding, transcode_cache}

-- "DAAP" and "DPAP"
abbrev pub daap_name : CString
daap_name = b'D' ∷ b'A' ∷ b'A' ∷ b'P' ∷ []

abbrev pub dpap_name : CString
dpap_name = b'D' ∷ b'P' ∷ b'A' ∷ b'P' ∷ []

-- DEFAULT_DB_MOD, the module of src/dmapd-dmap-db-ghashtable.c
abbrev pub ghashtable : CString
ghashtable = b'g' ∷ b'h' ∷ b'a' ∷ b's' ∷ b'h' ∷ b't' ∷ b'a' ∷ b'b' ∷ b'l' ∷ b'e' ∷ []

-- What serve shares: a database of the module "ghashtable", or one of another module, whose state
-- is not looked at here.
pub data Served (A : Type 0) : Type 0 where
  in_memory : A → Served A
  other_module : CString → Served A

module _ (c : RecordClass) (h : RecordTable c) (containers : ContainerTable) (lib : HashLib)
    (source : Source) (filename_to_uri : CString → Option CString) (tree : CString → Dir) where
  -- g_object_set (db, "acceptable-formats", …), where there are any
  unfoldable pub accept : List CString → State c h → State c h
  accept [] s = s
  accept (f ∷ formats) s = record s {
    object = record (s.object) { acceptable_formats = f ∷ formats };
  }

  -- The loop over the media directories.
  unfoldable pub build_all : List CString → Build c h containers → Option (Build c h containers)
  build_all [] b = some b
  build_all (dir ∷ dirs) b =
      build_dir c h containers lib source filename_to_uri dir (tree dir) none b >>= λ y.
      build_all dirs y.1

  -- The database of the module "ghashtable", before it is shared; `next_container` is the next id
  -- of the containers.
  unfoldable pub fill_ghashtable :
      CString
      → CString
      → List CString
      → List CString
      → Bool
      → ℕ
      → State c h
      → Option (Build c h containers)
  unfolding accept build_all
  fill_ghashtable db_dir protocol media_dirs acceptable_formats enable_dir_containers next_container
        s =
      constructor c h lib source (some (in_dir db_dir protocol)) true s >>= λ s1.
      build_all media_dirs (record {
        state = accept acceptable_formats s1;
        container_db = if enable_dir_containers then some containers.empty else none;
        next_container = next_container;
      })

  -- object_from_module (TYPE_DMAPD_DMAP_DB, module_dir, db_module, …), and what follows it, where
  -- the module can be loaded.
  unfoldable pub fill_db :
      CString
      → CString
      → CString
      → List CString
      → List CString
      → Bool
      → ℕ
      → State c h
      → Option (Served (Build c h containers))
  unfolding fill_ghashtable
  fill_db db_module db_dir protocol media_dirs acceptable_formats enable_dir_containers
        next_container s =
      if str_eq db_module ghashtable
      then (fill_ghashtable db_dir protocol media_dirs acceptable_formats enable_dir_containers
            next_container s
          >>= λ b. some (in_memory b))
      else some (other_module db_module)

module _ (strings : StrTable) (lib : HashLib) (source : Source) (around : Surroundings strings)
    (b : Release.Build) (h : RecordTable (daap_class strings lib source around b))
    (containers : ContainerTable) (tree : CString → Dir) (media : Transcoding) where
  abbrev class : RecordClass
  class = daap_class strings lib source around b

  -- dmap_db_foreach with transcode_cache, which changes each record in its place. A NULL record is
  -- `none`.
  unfoldable pub transcode_records :
      CString
      → CString
      → List (ℕ × Option DaapRecordPrivate)
      → State class h
      → Option (State class h)
  transcode_records db_dir mimetype [] s = some s
  transcode_records db_dir mimetype ((id, none) ∷ rest) s = none
  transcode_records db_dir mimetype ((id, some r) ∷ rest) s =
      transcode_cache strings lib source media db_dir mimetype (s.world, r) s.disk >>= λ x.
      transcode_records db_dir mimetype rest
        (insert_record class h id (some x.0.1) (record s { disk = x.1; world = x.0.0 }))

  unfoldable pub transcode_if :
      CString → Option CString → Bool → Build class h containers → Option (Build class h containers)
  unfolding transcode_records
  transcode_if db_dir none rt_transcode x = some x
  transcode_if db_dir (some mimetype) rt_transcode x =
      if rt_transcode
      then some x
      else (transcode_records db_dir mimetype (h.entries x.state.object.db) x.state >>= λ s.
          some (record x { state = s }))

  transcode_served :
      CString
      → Option CString
      → Bool
      → Served (Build class h containers)
      → Option (Served (Build class h containers))
  unfolding transcode_if
  transcode_served db_dir mimetype rt_transcode (in_memory x) =
      transcode_if db_dir mimetype rt_transcode x >>= λ y. some (in_memory y)
  transcode_served db_dir mimetype rt_transcode (other_module name) = some (other_module name)

  -- serve (DAAP, …)
  unfoldable pub serve_daap :
      CString
      → CString
      → List CString
      → List CString
      → Bool
      → Option CString
      → Bool
      → ℕ
      → State class h
      → Option (Served (Build class h containers))
  unfolding fill_db transcode_served
  serve_daap db_module db_dir media_dirs acceptable_formats enable_dir_containers mimetype
        rt_transcode n s =
      fill_db class h containers lib source around.filename_to_uri tree db_module db_dir daap_name
        media_dirs acceptable_formats enable_dir_containers n s
      >>= transcode_served (in_dir db_dir daap_name) mimetype rt_transcode
