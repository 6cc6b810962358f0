-- ===== src/Serve/Sound.antt =====
-- What a database that is ready to be shared holds: src/dmapd.c, serve.
use dmapd.Prelude.{
  ℕ, ◌+◌, ◌≡◌, ◌≢◌, ◌≤◌, refl, Bool, true, false, Option, none, some, List, [], ◌∷◌, CString,
  length, >>=_some, ◌>>=◌, str_eq_refl, if◌then◌else◌, arith,
}
use dmapd.HashTable.{lookup}
use dmapd.HashTable.Laws.{lookup-empty}
use dmapd.FileHash.{HashLib, Source}
use dmapd.Cache.{in_dir}
use dmapd.RecordClass.{RecordClass}
use dmapd.GhashtableDb.{RecordTable, State, max_id, lookup_by_id, count}
use dmapd.GhashtableDb.Ids.{IsAllocated}
use dmapd.GhashtableDb.Cached.{constructor}
use dmapd.GhashtableDb.Restart.{constructor-Holds}
use dmapd.Container.{ContainerTable, ContainerRecord, lookup_container}
use dmapd.Builder.{Dir, Build, build_dir}
use dmapd.Builder.Growth.{files_of, Extends}
use dmapd.Builder.Walk.{IsSound, build_dir-Walked, Extends-trans}
use dmapd.Serve.{Served, in_memory, ghashtable, accept, build_all, fill_ghashtable, fill_db}

module _ (tree : CString → Dir) where
  -- The number of files under the directories.
  unfoldable pub files_of_dirs : List CString → ℕ
  files_of_dirs [] = 0
  files_of_dirs (dir ∷ dirs) = files_of (tree dir) + files_of_dirs dirs

module _ (c : RecordClass) (h : RecordTable c) (containers : ContainerTable) (lib : HashLib)
    (source : Source) (uri : CString → Option CString) (tree : CString → Dir) where
  -- Sound, with the records of before, and not more ids taken than there were files.
  abbrev pub IsFilled : ℕ → State c h → Build c h containers → Type 0
  IsFilled n s b = IsSound c h containers lib source uri b × Extends c h n s b.state

  build_all-IsFilled :
      (dirs : List CString) (b b' : Build c h containers)
      → IsSound c h containers lib source uri b
      → files_of_dirs tree dirs ≤ b.state.nextid
      → build_all c h containers lib source uri tree dirs b ≡ some b'
      → IsFilled (files_of_dirs tree dirs) b.state b'
  unfolding build_all files_of_dirs
  build_all-IsFilled [] b b' k room e =
      let same : b' ≡ b = cc in
      rw same (k, record { allocated = k.allocated; kept = λ id r f. f; room = omega arith })
  build_all-IsFilled (dir ∷ dirs) b b' k room e =
      let (y, i, j) =
        >>=_some (build_dir c h containers lib source uri dir (tree dir) none b) _ e in
      let (sound, refers, grown) =
        build_dir-Walked c h containers lib source uri dir (tree dir) none b y k tt (omega arith)
          i in
      let left = grown.room in
      let (sound', grown') = build_all-IsFilled dirs y.1 b' sound (omega arith) j in
      (
        sound',
        Extends-trans c h containers lib source uri b.state y.1.state b'.state _ _ grown grown',
      )

  accept-IsAllocated :
      (formats : List CString) (s : State c h)
      → IsAllocated c h s
      → IsAllocated c h (accept c h containers lib source uri tree formats s)
  unfolding accept
  accept-IsAllocated [] s k = k
  accept-IsAllocated (f ∷ formats) s k = record { next = k.next; used = k.used }

  accept-Extends :
      (formats : List CString) (s t : State c h) (n : ℕ)
      → Extends c h n (accept c h containers lib source uri tree formats s) t
      → Extends c h n s t
  unfolding accept lookup_by_id
  accept-Extends [] s t n x = x
  accept-Extends (f ∷ formats) s t n x = record {
    allocated = x.allocated;
    kept = x.kept;
    room = x.room;
  }

  accept-nextid :
      (formats : List CString) (s : State c h)
      → (accept c h containers lib source uri tree formats s).nextid ≡ s.nextid
  unfolding accept
  accept-nextid [] s = refl
  accept-nextid (f ∷ formats) s = refl

  no_containers :
      (enabled : Bool) (t : containers.Table) (id : ℕ) (r : ContainerRecord)
      → (if enabled then some containers.empty else none) ≡ some t
      → lookup_container containers id t ≢ some r
  unfolding lookup_container
  no_containers true t id r e f =
      let i : t ≡ containers.empty = cc in
      let z = lookup-empty containers id in
      let g : lookup containers id containers.empty ≡ some r = rw i at f in cc
  no_containers false t id r e f = cc

  fill_ghashtable-IsFilled :
      (db_dir protocol : CString) (dirs formats : List CString) (enabled : Bool) (n : ℕ)
      (s : State c h) (b : Build c h containers)
      → s.nextid ≤ max_id
      → ((names : List CString)
          → s.disk.names (in_dir db_dir protocol) ≡ some names
          → length names ≤ s.nextid)
      → ((s1 : State c h)
          → constructor c h lib source (some (in_dir db_dir protocol)) true s ≡ some s1
          → files_of_dirs tree dirs ≤ s1.nextid)
      → fill_ghashtable c h containers lib source uri tree db_dir protocol dirs formats enabled n s
        ≡ some b
      → (s1 : State c h) × (constructor c h lib source (some (in_dir db_dir protocol)) true s
          ≡ some s1)
        × (count c h s1 + s1.nextid ≡ s.nextid)
        × IsFilled (files_of_dirs tree dirs) s1 b
  unfolding fill_ghashtable
  fill_ghashtable-IsFilled db_dir protocol dirs formats enabled n s b le names files e =
      let (s1, i, j) =
        >>=_some (constructor c h lib source (some (in_dir db_dir protocol)) true s) _ e in
      let (k, p, m) =
        constructor-Holds c h lib source (λ r. Unit) (some (in_dir db_dir protocol)) true s s1
          (λ blob r r' w w' f. tt) le
          (λ dir l q f. names l (let same : dir ≡ in_dir db_dir protocol = cc in rw same at f)) i in
      let (sound, grown) =
        build_all-IsFilled dirs _ b
          (record {
            allocated = accept-IsAllocated formats s1 k;
            filled = λ t id r f g. absurd (no_containers enabled t id r f g);
          })
          (rw (accept-nextid formats s1) (files s1 i)) j in
      (s1, i, m, (sound, accept-Extends formats s1 b.state _ grown))

  only_in_memory :
      (o : Option (Build c h containers)) (b : Build c h containers)
      → ◌>>=◌ {B = Served (Build c h containers)} o (λ x. some (in_memory x)) ≡ some (in_memory b)
      → o ≡ some b
  only_in_memory none b e = cc
  only_in_memory (some x) b e = ground arith

  -- Where serve has made a database of the module "ghashtable" and filled it, in a process whose
  -- next id is not above G_MAXINT and not below the number of names in the protocol's cache
  -- directory, and with an id left for each file of the media directories after the cache has been
  -- read: each id of the database is above the next one, each container has an entry and names only
  -- records of the database, each record of the cache is still there under its id, and not more ids
  -- were taken than there were records in the cache and files in the directories.
  pub fill_db-IsFilled :
      (db_module db_dir protocol : CString) (dirs formats : List CString) (enabled : Bool) (n : ℕ)
      (s : State c h) (b : Build c h containers)
      → db_module ≡ ghashtable
      → s.nextid ≤ max_id
      → ((names : List CString)
          → s.disk.names (in_dir db_dir protocol) ≡ some names
          → length names ≤ s.nextid)
      → ((s1 : State c h)
          → constructor c h lib source (some (in_dir db_dir protocol)) true s ≡ some s1
          → files_of_dirs tree dirs ≤ s1.nextid)
      → fill_db c h containers lib source uri tree db_module db_dir protocol dirs formats enabled n
          s
        ≡ some (in_memory b)
      → (s1 : State c h) × (constructor c h lib source (some (in_dir db_dir protocol)) true s
          ≡ some s1)
        × (count c h s1 + s1.nextid ≡ s.nextid)
        × IsFilled (files_of_dirs tree dirs) s1 b
  unfolding fill_db
  fill_db-IsFilled db_module db_dir protocol dirs formats enabled n s b m le names files e =
      fill_ghashtable-IsFilled db_dir protocol dirs formats enabled n s b le names files
        (only_in_memory _ b (rw (m, str_eq_refl ghashtable) at e))
