-- ===== src/Daap/Stale.antt =====
-- The cached records that are not taken: src/dmapd-daap-record.c, set_from_blob after to_blob.
use dmapd.Prelude.{
  ◌≡◌, ◌≢◌, ◌⊎◌, inl, inr, refl, ◌<◌, none, some, List, Bool-cases, Bytes, IsCString, str_eq,
  str_eq_iff, arith,
}
use dmapd.Build.{Build, Endian, little, big}
use dmapd.Blob.{refused, Reason, wrong_version, bad_hash_size, unreadable, changed}
use dmapd.Stringleton.{StrTable}
use dmapd.FileHash.{HashLib, Source, Chunk, hashed, dmapd_util_hash_file}
use dmapd.Daap.{DaapRecordPrivate, State}
use dmapd.Daap.Blob.{encode, to_blob, set_from_blob}
use dmapd.Daap.RoundTrip.{IsStorable, encode-head, asserted_lem}
use dmapd.Daap.Refusals.{
  set_from_blob-other_version, set_from_blob-other_endian, set_from_blob-unreadable,
  set_from_blob-changed,
}

Endian-cases : (a b : Endian) → (a ≡ b) ⊎ (a ≢ b)
Endian-cases little little = inl refl
Endian-cases big big = inl refl
Endian-cases little big = inr (λ e. cc)
Endian-cases big little = inr (λ e. cc)

build_eq : (a c : Build) → a.version ≡ c.version → a.endian ≡ c.endian → a ≡ c
build_eq a c e f = cc

module _ (h : StrTable) (lib : HashLib) (source : Source) (b b' : Build) (r : DaapRecordPrivate)
    (k : IsStorable lib r) where
  open k use {strings}

  -- The media file of the record cannot be opened, or it has another hash now.
  abbrev pub HasChanged : Type 0
  HasChanged =
      (source strings.location ≡ none)
      ⊎ ((stream : List Chunk) × (hash2 : Bytes) × (source strings.location ≡ some stream)
          × (dmapd_util_hash_file lib source strings.location ≡ hashed hash2)
          × (hash2 ≢ strings.hash))

  -- The record was written by a build with another version or byte order, or its file has changed.
  abbrev pub IsStale : Type 0
  IsStale = (b'.version ≢ b.version) ⊎ (b'.endian ≢ b.endian) ⊎ HasChanged

  abbrev Refuses : Bytes → State h → Type 0
  Refuses blob s = (why : Reason) × (set_from_blob h lib source b blob s ≡ refused why)

  changed-Refuses :
      (s : State h) (blob : Bytes)
      → IsCString b.version
      → lib.hash_size < 256
      → to_blob b r ≡ some blob
      → HasChanged
      → Refuses blob s
  unfolding to_blob
  changed-Refuses s blob v hi e x =
      let i : some (encode b strings r) ≡ some blob = rw (asserted_lem r strings k.fields) at e in
      let j : blob ≡ encode b strings r = cc in
      elim x [
        | inl f ↦
            (unreadable, rw j (set_from_blob-unreadable h lib source b r k v (omega arith) s f))
        | inr (stream, hash2, f, d, n) ↦ (
          changed,
          rw j (set_from_blob-changed h lib source b r k v (omega arith) s stream hash2 f d n),
        )
      ]

  version-Refuses :
      (s : State h) (blob : Bytes)
      → IsCString b'.version
      → to_blob b' r ≡ some blob
      → b'.version ≢ b.version
      → Refuses blob s
  unfolding to_blob
  version-Refuses s blob v e n =
      let (rest, c) = encode-head lib b' strings r in
      let i : some (encode b' strings r) ≡ some blob = rw (asserted_lem r strings k.fields) at e in
      let j : blob ≡ encode b' strings r = cc in
      (wrong_version, rw (j, c) (set_from_blob-other_version h lib source b b'.version _ s v n))

  -- What to_blob has written of a record is refused where the build that wrote it has another
  -- version or another byte order, where the media file cannot be opened, and where the media file
  -- has another hash now; digests have between 1 and 255 bytes.
  pub set_from_blob-stale :
      (s : State h) (blob : Bytes)
      → IsCString b.version
      → IsCString b'.version
      → 0 < lib.hash_size
      → lib.hash_size < 256
      → to_blob b' r ≡ some blob
      → IsStale
      → (why : Reason) × (set_from_blob h lib source b blob s ≡ refused why)
  set_from_blob-stale s blob v v' lo hi e x = elim (Bool-cases (str_eq b'.version b.version)) [
    | inr q ↦
        version-Refuses s blob v' e (λ same. let t = (str_eq_iff b'.version b.version).1 same in cc)
    | inl q ↦
        let same = (str_eq_iff b'.version b.version).0 q in
        elim (Endian-cases b'.endian b.endian) [
          | inr n ↦ (
            bad_hash_size,
            set_from_blob-other_endian h lib source b b' r k s blob v same n lo hi e,
          )
          | inl order ↦ elim x [
            | inl n ↦ absurd (n same)
            | inr (inl n) ↦ absurd (n order)
            | inr (inr y) ↦
                let i : b' ≡ b = build_eq b' b same order in
                changed-Refuses s blob v hi (rw i at e) y
          ]
        ]
  ]
