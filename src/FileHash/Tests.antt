-- ===== src/FileHash/Tests.antt =====
-- A concrete hash and concrete streams.
use dmapd.Prelude.{◌≡◌, refl, some, [], ◌∷◌, str_eq}
use dmapd.FileHash.{got, failed, hashed, overread, dmapd_util_hash_file}
use dmapd.FileHash.Chunks.{hash_file-contents, hash_file-failed}
use dmapd.Fixture.{small_hash, song_uri, one_file}

hash_runs : dmapd_util_hash_file small_hash one_file song_uri ≡ hashed (6 ∷ 3 ∷ [])
unfolding dmapd_util_hash_file str_eq
hash_runs = refl

hash_file-contents_example :
    dmapd_util_hash_file small_hash (λ uri. some (got (4 ∷ []) ∷ got (5 ∷ 6 ∷ []) ∷ [])) song_uri
    ≡ hashed (15 ∷ 3 ∷ [])
hash_file-contents_example =
    hash_file-contents small_hash (λ uri. some (got (4 ∷ []) ∷ got (5 ∷ 6 ∷ []) ∷ [])) song_uri
      (got (4 ∷ []) ∷ got (5 ∷ 6 ∷ []) ∷ []) refl tt

hash_file-failed_example :
    dmapd_util_hash_file small_hash (λ uri. some (got (4 ∷ []) ∷ failed ∷ [])) song_uri ≡ overread
hash_file-failed_example =
    hash_file-failed small_hash (λ uri. some (got (4 ∷ []) ∷ failed ∷ [])) song_uri
      (got (4 ∷ []) ∷ []) [] refl tt
