-- ===== src/Builder/Walk.antt =====
-- What the walk of src/db-builder-gdir.c leaves in the database and in the containers.
use mathlib.Core.Path.{subst, subst₂}
use dmapd.Prelude.{
  ℕ, ◌+◌, ◌≡◌, ◌≢◌, ◌≤◌, ◌<◌, ◌⊎◌, refl, sym, ap, ◌∙◌, Bool, true, false, Option, none, some, [],
  length, CString, arith, ltb, ◌==◌, Bool-cases, >>=_some, inl, inr, if◌then◌else◌,
}
use dmapd.HashTable.{lookup}
use dmapd.HashTable.Laws.{lookup-insert}
use dmapd.FileHash.{HashLib, Source}
use dmapd.Cache.{in_dir}
use dmapd.RecordClass.{RecordClass}
use dmapd.GhashtableDb.{RecordTable, State, lookup_id_by_uri, add_path}
use dmapd.GhashtableDb.Ids.{IsAllocated}
use dmapd.GhashtableDb.Lookup.{lookup_id_by_uri-there}
use dmapd.GhashtableDb.AddPath.{add_path-Ends}
use dmapd.Container.{
  ContainerRecord, ContainerTable, container_record_new, add_entry, get_entry_count, add_container,
  lookup_container, get_id,
}
use dmapd.Builder.{
  Entry, Dir, Entries, file, directory, unopened, opened, end, next, Build, file_id, add_unless,
  add_file, enter, keep_container, close_container, open_container, build_entry, build_dir,
  build_entries,
}
use dmapd.Builder.Growth.{
  files_of_entry, files_of, files_of_all, There, Refers, Extends, Refers-kept, Refers-append,
  same-Extends, added_path,
}

module _ (c : RecordClass) (h : RecordTable c) (containers : ContainerTable) (lib : HashLib)
    (source : Source) (uri : CString → Option CString) where
  -- The ids in use are above the next one, and every container that has been added has an entry
  -- and only entries with records.
  pub record IsSound (b : Build c h containers) : Type 0 where
    pub allocated : IsAllocated c h b.state
    pub filled :
        (t : containers.Table) (id : ℕ) (r : ContainerRecord)
        → b.container_db ≡ some t
        → lookup_container containers id t ≡ some r
        → (r.entries ≢ []) × Refers c h b.state r.entries

  abbrev pub RefersIf : State c h → Option ContainerRecord → Type 0
  RefersIf s none = Unit
  RefersIf s (some r) = Refers c h s r.entries

  -- What a part of the walk that finds `n` files leads to.
  abbrev pub Walked :
      ℕ → Build c h containers → Option ContainerRecord × Build c h containers → Type 0
  Walked n b y = IsSound y.1 × RefersIf y.1.state y.0 × Extends c h n b.state y.1.state

  RefersIf-kept :
      (s t : State c h) (n : ℕ) (r : Option ContainerRecord)
      → Extends c h n s t
      → RefersIf s r
      → RefersIf t r
  RefersIf-kept s t n none x k = tt
  RefersIf-kept s t n (some r) x k = Refers-kept c h s t n r.entries x k

  pub Extends-trans :
      (s t u : State c h) (m n : ℕ)
      → Extends c h m s t
      → Extends c h n t u
      → Extends c h (m + n) s u
  Extends-trans s t u m n a b = record {
    allocated = b.allocated;
    kept = λ id r e. b.kept id r (a.kept id r e);
    room = (let x = a.room in let y = b.room in omega arith);
  }

  IsSound-extended :
      (b : Build c h containers) (t : State c h) (n : ℕ)
      → IsSound b
      → Extends c h n b.state t
      → IsSound (record b { state = t })
  IsSound-extended b t n k x = record {
    allocated = x.allocated;
    filled = λ db id r e f.
        let (n1, m) = k.filled db id r e f in (n1, Refers-kept c h b.state t n r.entries x m);
  }

  found_or_added :
      (found : Bool) (path : CString) (s t : State c h) (i id : ℕ)
      → IsAllocated c h s
      → 0 < s.nextid
      → (i ≡ 0) ⊎ There c h s i
      → (if found then add_path c h lib source path s else some (i, s)) ≡ some (id, t)
      → Extends c h 1 s t × ((id ≡ 0) ⊎ There c h t id)
  found_or_added true path s t i id k pos x g =
      added_path c h lib source path s t id k (add_path-Ends c h lib source path s t id k pos g) pos
  found_or_added false path s t i id k pos x g =
      let a : i ≡ id = ground arith in
      let e : s ≡ t = ground arith in
      (
        same-Extends c h s t k (ap (λ (y : State c h). y.object) (sym e))
            (ap (λ (y : State c h). y.nextid) (sym e)),
        subst₂ (λ (j : ℕ) (y : State c h). (j ≡ 0) ⊎ There c h y j) a e x,
      )

  file_id-Extends :
      (path : CString) (s t : State c h) (id : ℕ)
      → IsAllocated c h s
      → 0 < s.nextid
      → file_id c h containers lib source uri path s ≡ some (id, t)
      → Extends c h 1 s t × ((id ≡ 0) ⊎ There c h t id)
  unfolding file_id add_unless
  file_id-Extends path s t id k pos e =
      let (i, f, g) = >>=_some (lookup_id_by_uri c h (uri path) s) _ e in
      found_or_added (i == 0) path s t i id k pos (lookup_id_by_uri-there c h (uri path) s i f) g

  enter-RefersIf :
      (id : ℕ) (r : Option ContainerRecord) (t : State c h)
      → RefersIf t r
      → (id ≡ 0) ⊎ There c h t id
      → RefersIf t (enter c h containers lib source uri id r)
  unfolding enter add_entry
  enter-RefersIf id none t k x = tt
  enter-RefersIf id (some r) t k (inl z) = rw z k
  enter-RefersIf id (some r) t k (inr y) = elim (Bool-cases (id == 0)) [
    | inl q ↦ rw q k
    | inr q ↦ rw q (Refers-append c h t r.entries id k y)
  ]

  add_file-Walked :
      (path : CString) (r : Option ContainerRecord) (b : Build c h containers)
      (y : Option ContainerRecord × Build c h containers)
      → IsSound b
      → RefersIf b.state r
      → 1 ≤ b.state.nextid
      → add_file c h containers lib source uri path r b ≡ some y
      → Walked 1 b y
  unfolding add_file
  add_file-Walked path r b y k m pos e =
      let ((id, t), f, g) = >>=_some (file_id c h containers lib source uri path b.state) _ e in
      let (x, there) = file_id-Extends path b.state t id k.allocated (omega arith) f in
      let z : (enter c h containers lib source uri id r, record b { state = t }) ≡ y =
        ground arith in
      subst (Walked 1 b) z (
        IsSound-extended b t 1 k x,
        enter-RefersIf id r t (RefersIf-kept b.state t 1 r x m) there,
        x,
      )

  -- What every container of a table of containers is to be.
  abbrev AllFilled : State c h → Option containers.Table → Type 0
  AllFilled s o =
      (t : containers.Table) (id : ℕ) (r : ContainerRecord)
      → o ≡ some t
      → lookup_container containers id t ≡ some r
      → (r.entries ≢ []) × Refers c h s r.entries

  add_container-AllFilled :
      (s : State c h) (r : ContainerRecord) (db : containers.Table)
      → r.entries ≢ []
      → Refers c h s r.entries
      → AllFilled s (some db)
      → AllFilled s (some (add_container containers r db))
  unfolding add_container lookup_container
  add_container-AllFilled s r db n m k t id x e f =
      let i : containers.insert (get_id r) r db ≡ t = ground arith in
      let g : (if get_id r == id then some r else lookup containers id db) ≡ some x =
        sym (lookup-insert containers (get_id r) id r db) ∙ ap (lookup containers id) i ∙ f in
      elim (Bool-cases (get_id r == id)) [
        | inl q ↦
            let z : some r ≡ some x = rw q at g in
            let y : r ≡ x = ground arith in
            subst (λ (v : ContainerRecord). (v.entries ≢ []) × Refers c h s v.entries) y (n, m)
        | inr q ↦ k db id x refl (rw q at g)
      ]

  keep_container-AllFilled :
      (s : State c h) (r : Option ContainerRecord) (o : Option containers.Table)
      → RefersIf s r
      → AllFilled s o
      → AllFilled s (keep_container c h containers lib source uri r o)
  unfolding keep_container get_entry_count
  keep_container-AllFilled s r none m k = k
  keep_container-AllFilled s none (some db) m k = k
  keep_container-AllFilled s (some r) (some db) m k = elim (Bool-cases (ltb 0 (length r.entries))) [
    | inl q ↦ rw q (add_container-AllFilled s r db (λ z. let n = ap length z in ground arith) m k)
    | inr q ↦ rw q k
  ]

  close_container-IsSound :
      (r : Option ContainerRecord) (b : Build c h containers)
      → IsSound b
      → RefersIf b.state r
      → IsSound (close_container c h containers lib source uri (r, b))
  unfolding close_container
  close_container-IsSound r b k m = record {
    allocated = k.allocated;
    filled = keep_container-AllFilled b.state r b.container_db m k.filled;
  }

  closed-Walked :
      (n : ℕ) (name : CString) (r : Option ContainerRecord) (b : Build c h containers)
      (x y : Option ContainerRecord × Build c h containers)
      → RefersIf b.state r
      → Walked n (open_container c h containers lib source uri name b).1 x
      → ◌≡◌ {A = Option (Option ContainerRecord × Build c h containers)}
          (some (r, close_container c h containers lib source uri x))
          (some y)
      → Walked n b y
  unfolding close_container open_container
  closed-Walked n name r b (r1, b1) y m (k, m1, z) e =
      let i : (r, close_container c h containers lib source uri (r1, b1)) ≡ y = ground arith in
      subst (Walked n b) i
        (close_container-IsSound r1 b1 k m1, RefersIf-kept b.state b1.state n r z m, z)

  opened-IsSound :
      (name : CString) (b : Build c h containers)
      → IsSound b
      → IsSound (open_container c h containers lib source uri name b).1
  unfolding open_container
  opened-IsSound name b k = record { allocated = k.allocated; filled = k.filled }

  opened-RefersIf :
      (name : CString) (b : Build c h containers) (s : State c h)
      → RefersIf s (open_container c h containers lib source uri name b).0
  unfolding open_container container_record_new
  opened-RefersIf name b s = tt

  unwalked :
      (r : Option ContainerRecord) (b : Build c h containers)
      (y : Option ContainerRecord × Build c h containers)
      → IsSound b
      → RefersIf b.state r
      → ◌≡◌ {A = Option (Option ContainerRecord × Build c h containers)} (some (r, b)) (some y)
      → Walked 0 b y
  unwalked r b y k m e =
      let i : (r, b) ≡ y = ground arith in
      subst (Walked 0 b) i
        (k, m, record { allocated = k.allocated; kept = λ id x f. f; room = omega arith })

  mutual
    unfolding build_entry files_of_entry open_container

    entry-Walked :
        (dir : CString) (e : Entry) (r : Option ContainerRecord) (b : Build c h containers)
        (y : Option ContainerRecord × Build c h containers)
        → IsSound b
        → RefersIf b.state r
        → files_of_entry e ≤ b.state.nextid
        → build_entry c h containers lib source uri dir e r b ≡ some y
        → Walked (files_of_entry e) b y
    entry-Walked dir (file name) r b y k m room q =
        add_file-Walked (in_dir dir name) r b y k m room q
    entry-Walked dir (directory name d) r b y k m room q =
        let new = open_container c h containers lib source uri name b in
        let (x, f, g) =
          >>=_some (build_dir c h containers lib source uri (in_dir dir name) d new.0 new.1) _ q in
        closed-Walked (files_of d) name r b x y m
          (dir-Walked (in_dir dir name) d new.0 new.1 x (opened-IsSound name b k)
            (opened-RefersIf name b _) room f)
          g

    dir-Walked :
        (dir : CString) (d : Dir) (r : Option ContainerRecord) (b : Build c h containers)
        (y : Option ContainerRecord × Build c h containers)
        → IsSound b
        → RefersIf b.state r
        → files_of d ≤ b.state.nextid
        → build_dir c h containers lib source uri dir d r b ≡ some y
        → Walked (files_of d) b y
    dir-Walked dir unopened r b y k m room q = unwalked r b y k m q
    dir-Walked dir (opened entries) r b y k m room q = entries-Walked dir entries r b y k m room q

    entries-Walked :
        (dir : CString) (l : Entries) (r : Option ContainerRecord) (b : Build c h containers)
        (y : Option ContainerRecord × Build c h containers)
        → IsSound b
        → RefersIf b.state r
        → files_of_all l ≤ b.state.nextid
        → build_entries c h containers lib source uri dir l r b ≡ some y
        → Walked (files_of_all l) b y
    entries-Walked dir end r b y k m room q = unwalked r b y k m q
    entries-Walked dir (next e rest) r b y k m room q =
        let ((r1, b1), f, g) = >>=_some (build_entry c h containers lib source uri dir e r b) _ q in
        let (k1, m1, z1) = entry-Walked dir e r b (r1, b1) k m (omega arith) f in
        let n = z1.room in
        let (k2, m2, z2) = entries-Walked dir rest r1 b1 y k1 m1 (omega arith) g in
        (
          k2,
          m2,
          Extends-trans b.state b1.state y.1.state (files_of_entry e) (files_of_all rest) z1 z2,
        )

  -- A walk that returns, from a sound state with an id left for each file of the tree, and with the
  -- record of the directory, if there is one, naming only records of the database: it ends in a
  -- sound state, where every container of the table has an entry, and every entry of these and of
  -- the record of the directory is the id of a record of the database. The records that were in the
  -- database stay under their ids, and at most as many ids are taken as the tree has files.
  pub build_dir-Walked :
      (dir : CString) (d : Dir) (r : Option ContainerRecord) (b : Build c h containers)
      (y : Option ContainerRecord × Build c h containers)
      → IsSound b
      → RefersIf b.state r
      → files_of d ≤ b.state.nextid
      → build_dir c h containers lib source uri dir d r b ≡ some y
      → Walked (files_of d) b y
  build_dir-Walked dir d r b y k m room e = dir-Walked dir d r b y k m room e
