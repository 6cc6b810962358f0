-- ===== src/Cache/Store.antt =====
-- What cache_store leaves on the disk: src/util.c.
use dmapd.Prelude.{
  ◌≡◌, ◌≢◌, ◌⊎◌, sym, ap, ◌∙◌, str_eq_iff, ◌++◌, Option, refl, true, false, none, some, CString,
  Bytes, str_eq, Bool-cases, inl, inr, if◌then◌else◌,
}
use dmapd.Blob.{Outcome, ok, refused, fault}
use dmapd.FileHash.{HashLib, Source}
use dmapd.Cache.{
  Disk, cache_type_record, cache_path, cache_store, write_file, store_at, in_dir, extension,
}
use dmapd.Cache.Paths.{cache_path-IsPath}

module _ (lib : HashLib) (source : Source) where
  -- In a directory, where the record's cache path can be told and written, cache_store returns
  -- with the blob at that path and every other file as it was.
  pub cache_store-files :
      (dir uri path : CString) (blob : Bytes) (disk : Disk)
      → disk.is_directory dir ≡ true
      → cache_path lib source cache_type_record dir uri ≡ ok (some path)
      → disk.writable path ≡ true
      → (disk' : Disk) × (cache_store lib source dir uri blob disk ≡ ok disk')
        × ((p : CString) → disk'.files p ≡ (if str_eq path p then some blob else disk.files p))
  unfolding cache_store write_file
  cache_store-files dir uri path blob disk d e w =
      (write_file path blob disk, rw (d, e) refl, λ p. rw w refl)

  -- Where there is no such directory, or the media file cannot be hashed, nothing is written.
  pub cache_store-skips :
      (dir uri : CString) (blob : Bytes) (disk : Disk)
      → (disk.is_directory dir ≡ false)
        ⊎ (cache_path lib source cache_type_record dir uri ≡ ok none)
      → cache_store lib source dir uri blob disk ≡ ok disk
  unfolding cache_store
  cache_store-skips dir uri blob disk (inl d) = rw d
  cache_store-skips dir uri blob disk (inr e) = elim (Bool-cases (disk.is_directory dir)) [
    | inl d ↦ rw (d, e)
    | inr d ↦ rw d
  ]

  -- A path that is no cache path of a record.
  abbrev pub IsOther : CString → CString → Type 0
  IsOther dir p = (d : Bytes) → p ≢ in_dir dir (lib.to_string d ++ extension cache_type_record)

  write_file-other :
      (path p : CString) (blob : Bytes) (disk : Disk)
      → path ≢ p
      → (write_file path blob disk).files p ≡ disk.files p
  unfolding write_file
  write_file-other path p blob disk n = elim (Bool-cases (disk.writable path)) [
    | inr w ↦ rw w refl
    | inl w ↦ elim (Bool-cases (str_eq path p)) [
      | inl q ↦ absurd (n ((str_eq_iff path p).0 q))
      | inr q ↦ rw (w, q) refl
    ]
  ]

  store_at-other :
      (dir uri p : CString) (o : Outcome (Option CString)) (blob : Bytes) (disk disk' : Disk)
      → cache_path lib source cache_type_record dir uri ≡ o
      → store_at lib source o blob disk ≡ ok disk'
      → IsOther dir p
      → disk'.files p ≡ disk.files p
  unfolding store_at
  store_at-other dir uri p fault blob disk disk' k e n = cc
  store_at-other dir uri p (refused r) blob disk disk' k e n = cc
  store_at-other dir uri p (ok none) blob disk disk' k e n = let i : disk' ≡ disk = cc in rw i refl
  store_at-other dir uri p (ok (some path)) blob disk disk' k e n =
      let (d, hd, pd) = cache_path-IsPath lib source cache_type_record dir uri path k in
      let i : disk' ≡ write_file path blob disk = cc in
      rw i (write_file-other path p blob disk (λ same. n d (sym same ∙ pd)))

  -- Whatever cache_store does, a file that is no cache file of a record stays as it was.
  pub cache_store-other :
      (dir uri p : CString) (blob : Bytes) (disk disk' : Disk)
      → cache_store lib source dir uri blob disk ≡ ok disk'
      → IsOther dir p
      → disk'.files p ≡ disk.files p
  unfolding cache_store
  cache_store-other dir uri p blob disk disk' e n = elim (Bool-cases (disk.is_directory dir)) [
    | inl d ↦ store_at-other dir uri p _ blob disk disk' refl (rw d at e) n
    | inr d ↦
        let k : ◌≡◌ {A = Outcome Disk} (ok disk) (ok disk') = rw d at e in
        let i : disk' ≡ disk = cc in rw i refl
  ]

  write_file-permissions :
      (path : CString) (blob : Bytes) (disk : Disk)
      → ((write_file path blob disk).is_directory ≡ disk.is_directory)
        × ((write_file path blob disk).writable ≡ disk.writable)
  unfolding write_file
  write_file-permissions path blob disk = elim (Bool-cases (disk.writable path)) [
    | inl w ↦ (rw w refl, rw w refl)
    | inr w ↦ (rw w refl, rw w refl)
  ]

  -- cache_store leaves what is a directory and what can be written.
  pub cache_store-permissions :
      (dir uri path : CString) (blob : Bytes) (disk disk' : Disk)
      → disk.is_directory dir ≡ true
      → cache_path lib source cache_type_record dir uri ≡ ok (some path)
      → cache_store lib source dir uri blob disk ≡ ok disk'
      → (disk'.is_directory ≡ disk.is_directory) × (disk'.writable ≡ disk.writable)
  unfolding cache_store
  cache_store-permissions dir uri path blob disk disk' d e f =
      let k : ◌≡◌ {A = Outcome Disk} (ok (write_file path blob disk)) (ok disk') = rw (d, e) at f in
      let i : disk' ≡ write_file path blob disk = cc in
      let (dirs, access) = write_file-permissions path blob disk in
      (ap (λ (x : Disk). x.is_directory) i ∙ dirs, ap (λ (x : Disk). x.writable) i ∙ access)
