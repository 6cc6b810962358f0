-- ===== src/FileHash/Chunks.antt =====
-- The hash of a file is that of its contents, however the stream portions them.
use dmapd.Prelude.{◌≡◌, refl, some, List, [], ◌∷◌, ◌++◌, Bytes, CString, Option-cases, inl, inr}
use dmapd.FileHash.{
  HashLib, Chunk, got, failed, Source, Hashed, hashed, not_hashed, overread, hash_loop,
  dmapd_util_hash_file,
}

-- The bytes up to the end of the stream.
abbrev pub contents : List Chunk → Bytes
contents [] = []
contents (got [] ∷ rest) = []
contents (got (b ∷ bs) ∷ rest) = (b ∷ bs) ++ contents rest
contents (failed ∷ rest) = []

-- No read fails before the end of the stream.
abbrev pub IsSound : List Chunk → Type 0
IsSound [] = Unit
IsSound (got [] ∷ rest) = Unit
IsSound (got (b ∷ bs) ∷ rest) = IsSound rest
IsSound (failed ∷ rest) = ⊥

-- Reads that all give something.
abbrev pub IsUnended : List Chunk → Type 0
IsUnended [] = Unit
IsUnended (got [] ∷ rest) = ⊥
IsUnended (got (b ∷ bs) ∷ rest) = IsUnended rest
IsUnended (failed ∷ rest) = ⊥

module _ (lib : HashLib) where
  hash_loop-IsSound :
      (chunks : List Chunk) (c : lib.Context)
      → IsSound chunks
      → hash_loop lib chunks c ≡ hashed (lib.final (lib.update (contents chunks) c))
  unfolding hash_loop
  hash_loop-IsSound [] c k = rw (lib.update-nil c)
  hash_loop-IsSound (got [] ∷ rest) c k = rw (lib.update-nil c)
  hash_loop-IsSound (got (b ∷ bs) ∷ rest) c k =
      rw (lib.update-append (b ∷ bs) (contents rest) c)
        (hash_loop-IsSound rest (lib.update (b ∷ bs) c) k)
  hash_loop-IsSound (failed ∷ rest) c k = absurd k

  -- A file whose stream can be opened and read to its end has the hash of its contents.
  pub hash_file-contents :
      (source : Source) (uri : CString) (chunks : List Chunk)
      → source uri ≡ some chunks
      → IsSound chunks
      → dmapd_util_hash_file lib source uri
        ≡ hashed (lib.final (lib.update (contents chunks) lib.init))
  unfolding dmapd_util_hash_file
  hash_file-contents source uri chunks e k =
      rw (e, dmapd_util_hash_file) (hash_loop-IsSound chunks lib.init k)

  hash_loop-failed :
      (chunks rest : List Chunk) (c : lib.Context)
      → IsUnended chunks
      → hash_loop lib (chunks ++ failed ∷ rest) c ≡ overread
  unfolding hash_loop
  hash_loop-failed [] rest c k = refl
  hash_loop-failed (got [] ∷ chunks) rest c k = absurd k
  hash_loop-failed (got (b ∷ bs) ∷ chunks) rest c k =
      hash_loop-failed chunks rest (lib.update (b ∷ bs) c) k
  hash_loop-failed (failed ∷ chunks) rest c k = absurd k

  -- A read that fails before the end of the stream is not reported: the loop hashes past its
  -- buffer, whatever has been read before and whatever follows.
  pub hash_file-failed :
      (source : Source) (uri : CString) (chunks rest : List Chunk)
      → source uri ≡ some (chunks ++ failed ∷ rest)
      → IsUnended chunks
      → dmapd_util_hash_file lib source uri ≡ overread
  unfolding dmapd_util_hash_file
  hash_file-failed source uri chunks rest e k =
      rw (e, dmapd_util_hash_file) (hash_loop-failed chunks rest lib.init k)

  -- What has a hash can be opened.
  pub hashed_opens :
      (source : Source) (uri : CString) (d : Bytes)
      → dmapd_util_hash_file lib source uri ≡ hashed d
      → (stream : List Chunk) × (source uri ≡ some stream)
  unfolding dmapd_util_hash_file
  hashed_opens source uri d e = elim (Option-cases (source uri)) [
    | inl x ↦ let y : ◌≡◌ {A = Hashed} not_hashed (hashed d) = rw x at e in cc
    | inr x ↦ x
  ]
