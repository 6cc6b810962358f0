-- ===== src/Daap/Tests.antt =====
-- A song that is cached and read back, and the cached forms that are not taken.
use dmapd.Prelude.{
  ℕ, zero, suc, ◌+◌, ◌≡◌, ◌≢◌, inl, inr, refl, ap, ◌∙◌, All, none, some, [], ◌∷◌, ◌++◌, Bytes,
  arith, str_eq,
}
use dmapd.HashTable.Laws.{lookup-empty}
use dmapd.Stringleton.Counts.{Tracks, live_global, no_references}
use dmapd.FileHash.{got, dmapd_util_hash_file}
use dmapd.Blob.{
  int_bytes, blob_add_string, blob_add_atomic, ok, refused, fault, wrong_version, bad_hash_size,
  unreadable, changed, Reason,
}
use dmapd.Daap.{
  DaapRecordPrivate, fresh, PropId, prop_album, prop_sort_album, prop_title, get_property,
  set_property, finalize, State,
}
use dmapd.Daap.Properties.{write, get_property-set_property}
use dmapd.Daap.References.{set_property-Tracks, finalize-Tracks, held, holds}
use dmapd.Daap.Blob.{to_blob, encode, set_from_blob}
use dmapd.Daap.RoundTrip.{IsStorable, restored, set_from_blob-to_blob}
use dmapd.Blob.Yields.{IsByte}
use dmapd.Daap.Storable.{set_from_blob-again}
use dmapd.Daap.Stale.{set_from_blob-stale}
use dmapd.Daap.Refusals
use dmapd.Fixture.{
  small_hash, release, big_release, strings_table, one_file, other_file, no_file, unknown, song,
  song-IsStorable,
}

empty_state : State strings_table
empty_state = (live_global strings_table strings_table.empty, fresh)

set_from_blob-to_blob_example :
    (blob : Bytes) × (t' : strings_table.Table) × (to_blob release song ≡ some blob)
    × (set_from_blob strings_table small_hash one_file release blob
          (live_global strings_table strings_table.empty, fresh)
        ≡ ok (live_global strings_table t', restored song fresh))
unfolding song-IsStorable dmapd_util_hash_file str_eq
set_from_blob-to_blob_example =
    set_from_blob-to_blob strings_table small_hash one_file release song fresh song-IsStorable
      strings_table.empty (got (1 ∷ 2 ∷ []) ∷ got (3 ∷ []) ∷ []) (omega arith) (omega arith) refl
      refl

abbrev song_blob : Bytes
song_blob = encode release song-IsStorable.strings song

abbrev without_first : ℕ → Bytes → Bytes
without_first zero bs = bs
without_first (suc n) [] = []
without_first (suc n) (b ∷ bs) = without_first n bs

-- The cached song ends in the bitrate, so that its last byte is 0.
encode_runs : without_first 76 song_blob ≡ 0 ∷ []
unfolding encode song-IsStorable blob_add_string blob_add_atomic int_bytes
encode_runs = refl

changed_song :
    set_from_blob strings_table small_hash other_file release song_blob empty_state
    ≡ refused changed
unfolding song-IsStorable dmapd_util_hash_file str_eq
changed_song =
    Refusals.set_from_blob-changed strings_table small_hash other_file release song song-IsStorable
      (omega arith) (omega arith) empty_state (got (9 ∷ []) ∷ []) (9 ∷ 1 ∷ []) refl refl
      (λ e. ground arith)

unreadable_song :
    set_from_blob strings_table small_hash no_file release song_blob empty_state
    ≡ refused unreadable
unreadable_song =
    Refusals.set_from_blob-unreadable strings_table small_hash no_file release song song-IsStorable
      (omega arith) (omega arith) empty_state refl

other_version_song :
    set_from_blob strings_table small_hash one_file release
      ((b'2' ∷ [] ++ 0 ∷ []) ++ [])
      empty_state
    ≡ refused wrong_version
other_version_song =
    Refusals.set_from_blob-other_version strings_table small_hash one_file release (b'2' ∷ []) []
      empty_state (omega arith) (λ e. ground arith)

other_endian_song :
    set_from_blob strings_table small_hash one_file release
      (encode big_release song-IsStorable.strings song)
      empty_state
    ≡ refused bad_hash_size
other_endian_song =
    Refusals.set_from_blob-other_endian strings_table small_hash one_file release big_release song
      song-IsStorable empty_state (encode big_release song-IsStorable.strings song) (omega arith)
      refl (λ e. cc) (omega arith) (omega arith) (unfold to_blob song-IsStorable in refl)

set_from_blob-truncated_example :
    set_from_blob strings_table small_hash one_file release (b'1' ∷ b'.' ∷ []) empty_state ≡ fault
unfolding encode song-IsStorable blob_add_string blob_add_atomic int_bytes to_blob
set_from_blob-truncated_example =
    Refusals.set_from_blob-truncated strings_table small_hash one_file release song song-IsStorable
      (omega arith) (omega arith) song_blob (b'1' ∷ b'.' ∷ []) (without_first 2 song_blob)
      empty_state refl refl (λ e. ground arith)

song_read :
    (blob : Bytes) × (t' : strings_table.Table) × (to_blob release song ≡ some blob)
    × (set_from_blob strings_table small_hash one_file release blob empty_state
        ≡ ok (live_global strings_table t', restored song fresh))
unfolding song-IsStorable dmapd_util_hash_file str_eq empty_state
song_read =
    set_from_blob-to_blob strings_table small_hash one_file release song fresh song-IsStorable
      strings_table.empty (got (1 ∷ 2 ∷ []) ∷ got (3 ∷ []) ∷ []) (omega arith) (omega arith) refl
      refl

set_from_blob-IsFresh_example :
    Refusals.IsFresh strings_table small_hash one_file release (restored song fresh)
unfolding empty_state
set_from_blob-IsFresh_example =
    Refusals.set_from_blob-IsFresh strings_table small_hash one_file release song_read.0
      (live_global strings_table strings_table.empty) (live_global strings_table song_read.1) fresh
      (restored song fresh) song_read.3

title_set :
    (get_property prop_title (record fresh { title = some unknown }) ≡ some unknown)
    × ((q : PropId)
        → q ≢ prop_title
        → get_property q (record fresh { title = some unknown }) ≡ get_property q fresh)
unfolding set_property
title_set =
    get_property-set_property strings_table prop_title (some unknown)
      (live_global strings_table strings_table.empty)
      (live_global strings_table strings_table.empty) fresh (record fresh { title = some unknown })
      refl

set_property-Tracks_example :
    (t' : strings_table.Table) × (set_property strings_table prop_album
        (some unknown)
        (live_global strings_table strings_table.empty, fresh)
      ≡ some (live_global strings_table t', record fresh { album = some unknown }))
    × Tracks strings_table t' (λ s. 0 + held (record fresh { album = some unknown }) s)
unfolding write
set_property-Tracks_example =
    set_property-Tracks strings_table prop_album (some unknown) strings_table.empty fresh
      no_references tt (lookup-empty strings_table) (λ s. omega arith)

abbrev named : DaapRecordPrivate
named = record fresh { sort_album = some unknown }

-- A table with the one reference of a record that has a sort name.
abbrev sorted :
    (t' : strings_table.Table) × (set_property strings_table prop_sort_album
        (some unknown)
        (live_global strings_table strings_table.empty, fresh)
      ≡ some (live_global strings_table t', write prop_sort_album (some unknown) fresh))
    × Tracks strings_table t' (λ s. 0 + held (write prop_sort_album (some unknown) fresh) s)
sorted =
    set_property-Tracks strings_table prop_sort_album (some unknown) strings_table.empty fresh
      no_references tt (lookup-empty strings_table) (λ s. omega arith)

finalize-Tracks_example :
    (t' : strings_table.Table) × (finalize strings_table (live_global strings_table sorted.0, named)
      ≡ some (live_global strings_table t'))
    × Tracks strings_table t' (λ s. 0 + (holds (some unknown) s + holds none s))
unfolding write
finalize-Tracks_example =
    finalize-Tracks strings_table sorted.0 named no_references sorted.2 (λ s. omega arith)

-- The song's record from a build of the other byte order.
set_from_blob-stale_example :
    (why : Reason) × (set_from_blob strings_table small_hash one_file release
        (encode big_release song-IsStorable.strings song)
        empty_state
      ≡ refused why)
set_from_blob-stale_example =
    set_from_blob-stale strings_table small_hash one_file release big_release song song-IsStorable
      empty_state (encode big_release song-IsStorable.strings song) (omega arith) (omega arith)
      (omega arith) (omega arith) (unfold to_blob song-IsStorable in refl) (inr (inl λ e. cc))

song_blob_read :
    set_from_blob strings_table small_hash one_file release song_blob empty_state
    ≡ ok (live_global strings_table song_read.1, restored song fresh)
unfolding to_blob song-IsStorable
song_blob_read =
    let e : some song_blob ≡ some song_read.0 = song_read.2 in
    let i : song_blob ≡ song_read.0 = ground arith in
    ap (λ b. set_from_blob strings_table small_hash one_file release b empty_state) i ∙ song_read.3

song_blob_bytes : All IsByte song_blob
unfolding encode song-IsStorable blob_add_string blob_add_atomic int_bytes
song_blob_bytes = omega arith

set_from_blob-again_example :
    IsStorable small_hash (restored song fresh)
    × (again : Bytes) × (t' : strings_table.Table) × (to_blob release (restored song fresh)
        ≡ some again)
    × (set_from_blob strings_table small_hash one_file release again empty_state
        ≡ ok (live_global strings_table t', restored (restored song fresh) fresh))
unfolding empty_state
set_from_blob-again_example =
    set_from_blob-again strings_table small_hash one_file release song_blob
      (live_global strings_table strings_table.empty) (live_global strings_table song_read.1) fresh
      (restored song fresh) fresh strings_table.empty song_blob_bytes (omega arith) (omega arith)
      song_blob_read
