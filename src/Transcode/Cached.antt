-- ===== src/Transcode/Cached.antt =====
-- What transcoding does to the record and to the cache directory: src/util-gst.c, transcode_cache.
use dmapd.Prelude.{
  ◌≡◌, ◌⊎◌, inl, inr, refl, sym, ◌∙◌, ap, ℕ, true, false, Bool-cases, Option-cases, Option, none,
  some, List, [], ◌∷◌, CString, Bytes, str_eq, str_eq_iff, >>=_some,
}
use dmapd.Stringleton.{StrTable}
use dmapd.Blob.{Outcome, ok, refused, fault}
use dmapd.FileHash.{HashLib, Source}
use dmapd.Cache.{Disk, cache_type_transcoded_data, cache_path, write_file}
use dmapd.Daap.{prop_location, prop_format, prop_filesize, State}
use dmapd.Daap.Properties.{write}
use dmapd.Daap.Live.{object_set-write}
use dmapd.Transcode.{
  Piece, copy, do_transcode, Transcoding, stat_size, exists, name_cached, name_at, cache_at,
  transcode_to, transcode_cache,
}

module _ (h : StrTable) (lib : HashLib) (source : Source) where
  module _ (around : Transcoding) where
    -- The record names the file at the cache path, by its URI, the target format and its size, and
    -- is otherwise as before.
    pub record IsNamed (db_dir mimetype : CString) (s s' : State h) (disk' : Disk) : Type 0 where
      pub cachepath : CString
      pub uri : CString
      pub format : CString
      pub size : ℕ
      pub location : CString
      pub was_at : s.1.location ≡ some location
      pub is_path :
          cache_path lib source cache_type_transcoded_data db_dir location ≡ ok (some cachepath)
      pub is_format : around.mime_to_format mimetype ≡ some format
      pub is_uri : around.filename_to_uri cachepath ≡ some uri
      pub is_size : stat_size around.directory_size disk' cachepath ≡ some size
      pub renamed :
          s'.1 ≡ record (s.1) { location = some uri; format = some format; filesize = size }

    -- Every file is still there, as it was.
    abbrev pub Keeps : Disk → Disk → Type 0
    Keeps disk disk' =
        (path : CString) (bytes : Bytes)
        → disk.files path ≡ some bytes
        → disk'.files path ≡ some bytes

    -- The record is as before, or it names a file.
    abbrev pub IsTranscoded : CString → CString → State h → Disk → State h → Disk → Type 0
    IsTranscoded db_dir mimetype s disk s' disk' =
        Keeps disk disk' × ((s' ≡ s) ⊎ IsNamed db_dir mimetype s s' disk')

    absent : (disk : Disk) (path : CString) → exists disk path ≡ false → disk.files path ≡ none
    unfolding exists
    absent disk path x = elim (Option-cases (disk.files path)) [
      | inl q ↦ q
      | inr (b, q) ↦ let i : true ≡ false = rw (q, exists) at x in cc
    ]

    write_file-Keeps :
        (path : CString) (blob : Bytes) (disk : Disk)
        → disk.files path ≡ none
        → Keeps disk (write_file path blob disk)
    unfolding write_file
    write_file-Keeps path blob disk a p bytes f = elim (Bool-cases (disk.writable path)) [
      | inr q ↦ rw q f
      | inl q ↦ elim (Bool-cases (str_eq path p)) [
        | inl t ↦
            let same : path ≡ p = (str_eq_iff path p).0 t in
            let i : disk.files p ≡ none = ap disk.files (sym same) ∙ a in cc
        | inr t ↦ rw (q, t) f
      ]
    ]

    do_transcode-Keeps :
        (o : Option (Option (List Piece))) (path : CString) (disk disk' : Disk)
        → exists disk path ≡ false
        → do_transcode o path disk ≡ some disk'
        → Keeps disk disk'
    unfolding do_transcode
    do_transcode-Keeps none path disk disk' x e = cc
    do_transcode-Keeps (some none) path disk disk' x e = cc
    do_transcode-Keeps (some (some pieces)) path disk disk' x e =
        let i : disk' ≡ write_file path (copy pieces []) disk = cc in
        rw i (write_file-Keeps path (copy pieces []) disk (absent disk path x))

    name_cached-cases :
        (size : Option ℕ) (uri : Option CString) (format : CString) (s s' : State h)
        → name_cached h lib source around size uri format s ≡ some s'
        → (s' ≡ s)
          ⊎ ((n : ℕ) × (u : CString) × (size ≡ some n)
              × (uri ≡ some u)
              × (s'.1 ≡ record (s.1) { location = some u; format = some format; filesize = n }))
    unfolding name_cached write
    name_cached-cases none uri format s s' e = inl cc
    name_cached-cases (some n) none format s s' e = inl cc
    name_cached-cases (some n) (some u) format (g, r) (g', r') e = inr (
      n,
      u,
      refl,
      refl,
      object_set-write h
          ((prop_location, some u) ∷ (prop_format, some format) ∷ (prop_filesize, n) ∷ []) g g' r r'
          e,
    )

    name_at-IsTranscoded :
        (db_dir mimetype location cachepath format : CString) (s s' : State h)
        (start disk disk' : Disk)
        → Keeps start disk
        → s.1.location ≡ some location
        → cache_path lib source cache_type_transcoded_data db_dir location ≡ ok (some cachepath)
        → around.mime_to_format mimetype ≡ some format
        → name_at h lib source around cachepath format s disk ≡ some (s', disk')
        → IsTranscoded db_dir mimetype s start s' disk'
    unfolding name_at
    name_at-IsTranscoded db_dir mimetype location cachepath format s s' start disk disk' k l p m e =
        let size = stat_size around.directory_size disk cachepath in
        let uri = around.filename_to_uri cachepath in
        let (t, i, j) = >>=_some (name_cached h lib source around size uri format s) _ e in
        let same : t ≡ s' = cc in
        let disks : disk' ≡ disk = cc in
        rw disks (
          k,
          elim (name_cached-cases size uri format s s' (i ∙ ap some same)) [
            | inl q ↦ inl q
            | inr (n, u, q, v, w) ↦ inr (record {
              cachepath = cachepath;
              uri = u;
              format = format;
              size = n;
              location = location;
              was_at = l;
              is_path = p;
              is_format = m;
              is_uri = v;
              is_size = q;
              renamed = w;
            })
          ],
        )

    cache_at-IsTranscoded :
        (db_dir mimetype location format : CString) (o : Outcome (Option CString)) (s s' : State h)
        (disk disk' : Disk)
        → s.1.location ≡ some location
        → cache_path lib source cache_type_transcoded_data db_dir location ≡ o
        → around.mime_to_format mimetype ≡ some format
        → cache_at h lib source around o format s disk ≡ some (s', disk')
        → IsTranscoded db_dir mimetype s disk s' disk'
    unfolding cache_at
    cache_at-IsTranscoded db_dir mimetype location format fault s s' disk disk' l p m e = cc
    cache_at-IsTranscoded db_dir mimetype location format (refused r) s s' disk disk' l p m e = cc
    cache_at-IsTranscoded db_dir mimetype location format (ok none) s s' disk disk' l p m e =
        let i : s' ≡ s = cc in let j : disk' ≡ disk = cc in rw j (λ path bytes f. f, inl i)
    cache_at-IsTranscoded db_dir mimetype location format (ok (some path)) s s' disk disk' l p m e =
        elim (Bool-cases (exists disk path)) [
          | inl q ↦
              name_at-IsTranscoded db_dir mimetype location path format s s' disk disk disk'
                (λ path bytes f. f) l p m (rw q at e)
          | inr q ↦
              let (mid, i, j) =
                >>=_some (do_transcode (around.open_decoded s.1) path disk)
                  (λ d. name_at h lib source around path format s d) (rw q at e) in
              name_at-IsTranscoded db_dir mimetype location path format s s' disk mid disk'
                (do_transcode-Keeps (around.open_decoded s.1) path disk mid q i) l p m j
        ]

    transcode_to-IsTranscoded :
        (db_dir mimetype location format : CString) (o : Option CString) (s s' : State h)
        (disk disk' : Disk)
        → s.1.location ≡ some location
        → around.mime_to_format mimetype ≡ o
        → transcode_to h lib source around db_dir location format o s disk ≡ some (s', disk')
        → IsTranscoded db_dir mimetype s disk s' disk'
    unfolding transcode_to
    transcode_to-IsTranscoded db_dir mimetype location format none s s' disk disk' l m e =
        let i : s' ≡ s = cc in let j : disk' ≡ disk = cc in rw j (λ path bytes f. f, inl i)
    transcode_to-IsTranscoded db_dir mimetype location format (some f2) s s' disk disk' l m e =
        elim (Bool-cases (str_eq format f2)) [
          | inl q ↦
              let k : ◌≡◌ {A = Option (State h × Disk)} (some (s, disk)) (some (s', disk')) =
                rw q at e in
              let i : s' ≡ s = cc in let j : disk' ≡ disk = cc in rw j (λ path bytes f. f, inl i)
          | inr q ↦
              cache_at-IsTranscoded db_dir mimetype location f2 _ s s' disk disk' l refl m
                (rw q at e)
        ]

    -- Where transcode_cache returns: every file is still there, as it was, so that data which was
    -- transcoded before is used and not made again; and the record is as before, or else it names
    -- the cache path of its location, in the target format, with the size that the file there has
    -- now, and is otherwise as before.
    pub transcode_cache-IsTranscoded :
        (db_dir mimetype : CString) (s s' : State h) (disk disk' : Disk)
        → transcode_cache h lib source around db_dir mimetype s disk ≡ some (s', disk')
        → IsTranscoded db_dir mimetype s disk s' disk'
    unfolding transcode_cache
    transcode_cache-IsTranscoded db_dir mimetype s s' disk disk' e =
        let (location, l, f) = >>=_some s.1.location _ e in
        let (format, i, j) = >>=_some s.1.format _ f in
        transcode_to-IsTranscoded db_dir mimetype location format _ s s' disk disk' l refl j
