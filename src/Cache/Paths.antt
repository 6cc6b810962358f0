-- ===== src/Cache/Paths.antt =====
-- Which paths the cache uses: src/util.c, cache_path.
use mathlib.Core.List.{append_assoc, reverse-append, append_cancel_left, append_cancel_right}
use dmapd.Prelude.{
  ◌≡◌, ◌↔◌, refl, sym, ◌∙◌, ap, true, some, ◌∷◌, ◌++◌, CString, Bytes, has_suffix,
  has_suffix-append, suffix_of_has_suffix, reverse, arith,
}
use dmapd.Blob.{ok}
use dmapd.FileHash.{HashLib, Source, Hashed, hashed, not_hashed, overread, dmapd_util_hash_file}
use dmapd.Cache.{
  CacheType, cache_type_record, cache_type_transcoded_data, cache_type_thumbnail_data, extension,
  in_dir, path_of, cache_path,
}

reverse_ends :
    (x y : CacheType) (a b : CString)
    → reverse (extension x) ++ a ≡ reverse (extension y) ++ b
    → x ≡ y
reverse_ends cache_type_record cache_type_record a b e = refl
reverse_ends cache_type_transcoded_data cache_type_transcoded_data a b e = refl
reverse_ends cache_type_thumbnail_data cache_type_thumbnail_data a b e = refl
reverse_ends _ _ a b e = ground arith

-- Two texts that are equal end in the extension of one type.
extension-injective :
    (x y : CacheType) (a b : CString) → a ++ extension x ≡ b ++ extension y → x ≡ y
extension-injective x y a b e =
    reverse_ends x y (reverse a) (reverse b)
      (sym (reverse-append a (extension x)) ∙ ap reverse e ∙ reverse-append b (extension y))

module _ (lib : HashLib) (source : Source) where
  -- The path is made from the digest.
  abbrev IsPath : CacheType → CString → Hashed → CString → Type 0
  IsPath type dir x path =
      (d : Bytes) × (x ≡ hashed d) × (path ≡ in_dir dir (lib.to_string d ++ extension type))

  path_of-IsPath :
      (type : CacheType) (dir path : CString) (x : Hashed)
      → path_of lib source type dir x ≡ ok (some path)
      → IsPath type dir x path
  unfolding path_of
  path_of-IsPath type dir path overread e = cc
  path_of-IsPath type dir path not_hashed e = cc
  path_of-IsPath type dir path (hashed d) e = (d, refl, cc)

  pub cache_path-IsPath :
      (type : CacheType) (dir uri path : CString)
      → cache_path lib source type dir uri ≡ ok (some path)
      → IsPath type dir (dmapd_util_hash_file lib source uri) path
  unfolding cache_path
  cache_path-IsPath type dir uri path e = path_of-IsPath type dir path _ e

  pub cache_path-hashed :
      (type : CacheType) (dir uri : CString) (d : Bytes)
      → dmapd_util_hash_file lib source uri ≡ hashed d
      → cache_path lib source type dir uri
        ≡ ok (some (in_dir dir (lib.to_string d ++ extension type)))
  unfolding cache_path path_of
  cache_path-hashed type dir uri d e = rw e refl

  -- Two cache files of one directory have one path only if they are of the same type and made
  -- from media files with the same hash.
  pub cache_path-injective :
      (x y : CacheType) (dir u v path : CString)
      → cache_path lib source x dir u ≡ ok (some path)
      → cache_path lib source y dir v ≡ ok (some path)
      → (x ≡ y)
        × (d : Bytes) × (dmapd_util_hash_file lib source u ≡ hashed d)
        × (dmapd_util_hash_file lib source v ≡ hashed d)
  cache_path-injective x y dir u v path e f =
      let (c, hc, pc) = cache_path-IsPath x dir u path e in
      let (d, hd, pd) = cache_path-IsPath y dir v path f in
      let name : b'/' ∷ (lib.to_string c ++ extension x) ≡ b'/' ∷ (lib.to_string d ++ extension y) =
        append_cancel_left dir _ _ (sym pc ∙ pd) in
      let body : lib.to_string c ++ extension x ≡ lib.to_string d ++ extension y = ground arith in
      let same = extension-injective x y (lib.to_string c) (lib.to_string d) body in
      let digest : c ≡ d = lib.to_string-injective c d (
        append_cancel_right (lib.to_string c) (lib.to_string d) (extension y)
          (ap (λ t. lib.to_string c ++ extension t) (sym same) ∙ body)) in
      (same, c, hc, hd ∙ ap hashed (sym digest))

  -- A cache path has the suffix by which load_cached_records knows records exactly if it is that
  -- of a record.
  pub has_suffix-cache_path :
      (type : CacheType) (dir uri path : CString)
      → cache_path lib source type dir uri ≡ ok (some path)
      → (has_suffix path (extension cache_type_record) ≡ true) ↔ (type ≡ cache_type_record)
  has_suffix-cache_path type dir uri path e =
      let (d, hd, pd) = cache_path-IsPath type dir uri path e in
      let stem : CString = dir ++ (b'/' ∷ lib.to_string d) in
      let whole : path ≡ stem ++ extension type =
        pd ∙ sym (append_assoc dir (b'/' ∷ lib.to_string d) (extension type)) in
      (to stem whole, from stem whole)
    where
      to :
          (stem : CString)
          → path ≡ stem ++ extension type
          → has_suffix path (extension cache_type_record) ≡ true
          → type ≡ cache_type_record
      to stem whole h =
          let (p, q) = suffix_of_has_suffix path (extension cache_type_record) h in
          extension-injective type cache_type_record stem p (sym whole ∙ q)

      from :
          (stem : CString)
          → path ≡ stem ++ extension type
          → type ≡ cache_type_record
          → has_suffix path (extension cache_type_record) ≡ true
      from stem whole h =
          ap (λ q. has_suffix q (extension cache_type_record))
            (whole ∙ ap (λ t. stem ++ extension t) h)
          ∙ has_suffix-append stem (extension cache_type_record)
