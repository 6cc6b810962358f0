-- ===== src/FileHash.antt =====
-- src/util.c, dmapd_util_hash_file. The hash functions of libdmapsharing and the streams of GIO
-- are parameters.
pub mod Chunks
pub mod Tests
use dmapd.Prelude.{ℕ, ◌≡◌, Option, none, some, List, [], ◌∷◌, ◌++◌, Bytes, CString, length}

-- dmap_hash_progressive_*, documented: a digest of DMAP_HASH_SIZE bytes of all the bytes that
-- were put in, in whatever portions.
pub record HashLib : Type 1 where
  pub Context : Type 0
  pub hash_size : ℕ
  pub init : Context
  pub update : Bytes → Context → Context
  pub final : Context → Bytes
  -- dmap_hash_progressive_to_string, the digest in text
  pub to_string : Bytes → CString
  pub update-append : (a b : Bytes) (c : Context) → update (a ++ b) c ≡ update b (update a c)
  pub update-nil : (c : Context) → update [] c ≡ c
  pub length-final : (c : Context) → length (final c) ≡ hash_size
  pub to_string-injective : (a b : Bytes) → to_string a ≡ to_string b → a ≡ b

-- What one g_input_stream_read gives: the bytes that it has read, none at the end of the stream,
-- or -1 with an error.
pub data Chunk : Type 0 where
  got : Bytes → Chunk
  failed : Chunk

-- What g_file_read of a URI gives: NULL and an error, or a stream by its reads to come.
abbrev pub Source : Type 0
Source = CString → Option (List Chunk)

pub data Hashed : Type 0 where
  hashed : Bytes → Hashed
  not_hashed : Hashed
  overread : Hashed

module _ (lib : HashLib) where
  open lib use {Context, init, update, final}

  -- `bytes_read` is a gsize, so that the -1 of a failed read counts as more than 0, and the body
  -- hashes that many bytes from the buffer.
  hash_loop : List Chunk → Context → Hashed
  hash_loop [] c = hashed (final c)
  hash_loop (got [] ∷ rest) c = hashed (final c)
  hash_loop (got (b ∷ bs) ∷ rest) c = hash_loop rest (update (b ∷ bs) c)
  hash_loop (failed ∷ rest) c = overread

  hash_stream : Option (List Chunk) → Hashed
  unfolding hash_loop
  hash_stream none = not_hashed
  hash_stream (some chunks) = hash_loop chunks init

  unfoldable pub dmapd_util_hash_file : Source → CString → Hashed
  unfolding hash_stream
  dmapd_util_hash_file source uri = hash_stream (source uri)
