-- ===== src/Transcode/Failed.antt =====
-- A decoded stream that fails: src/util-gst.c, do_transcode.
use dmapd.Prelude.{◌≡◌, refl, Option, none, some, List, [], ◌∷◌, ◌++◌, CString, Bytes, ◌>>=◌}
use dmapd.Stringleton.{StrTable}
use dmapd.Blob.{Outcome, ok, refused, fault}
use dmapd.FileHash.{HashLib, Source}
use dmapd.Cache.{Disk, cache_type_transcoded_data, cache_path}
use dmapd.Daap.{State}
use dmapd.Transcode.{
  Piece, piece, at_end, failed, copy, do_transcode, Transcoding, name_at, cache_at, transcode_to,
  transcode_cache,
}

copy-failed :
    (pieces rest : List Piece) (written : Bytes)
    → copy (pieces ++ (failed ∷ rest)) written ≡ copy (pieces ++ (at_end ∷ [])) written
unfolding copy
copy-failed [] rest written = refl
copy-failed (at_end ∷ l) rest written = refl
copy-failed (failed ∷ l) rest written = refl
copy-failed (piece bytes taken ∷ l) rest written = rw (copy-failed l rest (written ++ taken)) refl

bind_ap :
    {A B : Type 0} (o : Option A) (f g : A → Option B)
    → ((a : A) → f a ≡ g a)
    → (o >>= f) ≡ (o >>= g)
bind_ap none f g k = refl
bind_ap (some a) f g k = k a

module _ (h : StrTable) (lib : HashLib) (source : Source) where
  -- The decoded stream of every record gives the same pieces.
  abbrev pub streaming : Transcoding → List Piece → Transcoding
  streaming around pieces = record around { open_decoded = λ r. some (some pieces) }

  module _ (around : Transcoding) (pieces rest : List Piece) where
    abbrev broken : Transcoding
    broken = streaming around (pieces ++ (failed ∷ rest))

    abbrev whole : Transcoding
    whole = streaming around (pieces ++ (at_end ∷ []))

    cache_at-failed :
        (o : Outcome (Option CString)) (format : CString) (s : State h) (disk : Disk)
        → cache_at h lib source broken o format s disk ≡ cache_at h lib source whole o format s disk
    unfolding cache_at do_transcode name_at
    cache_at-failed fault format s disk = refl
    cache_at-failed (refused r) format s disk = refl
    cache_at-failed (ok none) format s disk = refl
    cache_at-failed (ok (some cachepath)) format s disk = rw (copy-failed pieces rest []) refl

    transcode_to-failed :
        (db_dir location format : CString) (o : Option CString) (s : State h) (disk : Disk)
        → transcode_to h lib source broken db_dir location format o s disk
          ≡ transcode_to h lib source whole db_dir location format o s disk
    unfolding transcode_to
    transcode_to-failed db_dir location format none s disk = refl
    transcode_to-failed db_dir location format (some format2) s disk =
        rw
          (cache_at-failed (cache_path lib source cache_type_transcoded_data db_dir location)
            format2 s disk)
          refl

    -- Where the decoded stream fails after some pieces, transcoding does just what it does where
    -- the stream ends after them: the same file, the same record, and no error.
    pub transcode_cache-failed :
        (db_dir mimetype : CString) (s : State h) (disk : Disk)
        → transcode_cache h lib source
            (streaming around (pieces ++ (failed ∷ rest)))
            db_dir
            mimetype
            s
            disk
          ≡ transcode_cache h lib source
              (streaming around (pieces ++ (at_end ∷ [])))
              db_dir
              mimetype
              s
              disk
    unfolding transcode_cache
    transcode_cache-failed db_dir mimetype s disk = bind_ap s.1.location _ _ λ location.
        bind_ap s.1.format _ _ λ format.
          transcode_to-failed db_dir location format (around.mime_to_format mimetype) s disk
