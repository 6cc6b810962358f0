-- ===== src/HashGen/CacheName.antt =====
-- The printed hash is the name of the cached files: src/dmapd-hashgen.c and src/util.c, cache_path.
use mathlib.Core.List.{append_cancel_left, append_cancel_right}
use dmapd.Prelude.{◌≡◌, ◌↔◌, refl, sym, ap, true, some, [], ◌∷◌, ◌++◌, CString, arith, Bytes}
use dmapd.Blob.{ok}
use dmapd.FileHash.{HashLib, Source, Hashed, hashed, not_hashed, overread}
use dmapd.Cache.{CacheType, extension, in_dir, cache_path}
use dmapd.Cache.Paths.{cache_path-IsPath, cache_path-hashed}
use dmapd.HashGen.{Paths, prints, print_hash, hash_uri, hash_path, main}

module _ (lib : HashLib) (source : Source) (paths : Paths) where
  print_hash-prints :
      (x : Hashed) (text : CString)
      → print_hash lib source paths x ≡ prints text
      → (d : Bytes) × (x ≡ hashed d) × (lib.to_string d ≡ text)
  unfolding print_hash
  print_hash-prints overread text e = cc
  print_hash-prints not_hashed text e = cc
  print_hash-prints (hashed d) text e = (d, refl, ground arith)

  -- Given the absolute path of a media file, the program prints a text exactly if that text, with
  -- the extension of the type behind it, is the name that cache_path gives the cached files of the
  -- media file, of whatever type and in whatever directory.
  pub main-cache_path :
      (path uri text dir : CString) (type : CacheType)
      → paths.path_is_absolute path ≡ true
      → paths.filename_to_uri path ≡ some uri
      → (main lib source paths (path ∷ []) ≡ prints text)
        ↔ (cache_path lib source type dir uri ≡ ok (some (in_dir dir (text ++ extension type))))
  unfolding main hash_path hash_uri
  main-cache_path path uri text dir type a u = (to, from)
    where
      to :
          main lib source paths (path ∷ []) ≡ prints text
          → cache_path lib source type dir uri ≡ ok (some (in_dir dir (text ++ extension type)))
      to e =
          let (d, hd, i) = print_hash-prints _ text (rw (a, u) at e) in
          rw i at (cache_path-hashed lib source type dir uri d hd)

      from :
          cache_path lib source type dir uri ≡ ok (some (in_dir dir (text ++ extension type)))
          → main lib source paths (path ∷ []) ≡ prints text
      from e =
          let (d, hd, pd) = cache_path-IsPath lib source type dir uri _ e in
          let name : b'/' ∷ (text ++ extension type) ≡ b'/' ∷ (lib.to_string d ++ extension type) =
            append_cancel_left dir _ _ pd in
          let body : text ++ extension type ≡ lib.to_string d ++ extension type = ground arith in
          let i = append_cancel_right text (lib.to_string d) (extension type) body in
          rw (a, u, hd) (ap prints (sym i))
