-- ===== src/Daap/Refusals.antt =====
-- Which cached forms of a DAAP record are not taken: src/dmapd-daap-record.c, set_from_blob.
use mathlib.Core.List.{append-nil}
use dmapd.Prelude.{
  ◌*◌, ◌^◌, ◌<◌, ◌≡◌, ◌≢◌, refl, sym, ◌∙◌, ap, false, Option, none, some, List, [], ◌∷◌, ◌++◌,
  CString, Bytes, IsCString, str_eq, str_eq_iff, str_eq_refl, Bool-cases, inl, inr, ◌==◌, arith,
  length,
}
use dmapd.Build.{Build}
use dmapd.Blob.{
  Outcome, ok, refused, fault, wrong_version, bad_hash_size, unreadable, changed, int_bytes, ◌>>=◌,
  require,
}
use dmapd.Blob.RoundTrip.{Exact-get_string, get_int-swapped}
use dmapd.Stringleton.{StrTable, Global}
use dmapd.FileHash.{
  HashLib, Chunk, Source, Hashed, hashed, not_hashed, overread, dmapd_util_hash_file,
}
use dmapd.Daap.{DaapRecordPrivate, State, object_set}
use dmapd.Daap.Properties.{write}
use dmapd.Daap.Live.{write_all, object_set-write}
use dmapd.Daap.Blob.{
  encode, to_blob, Locals, decode, settings, or_fault, compare_hash, open_media, check_media,
  set_from_blob,
}
use dmapd.Daap.RoundTrip.{IsStorable, locals, encode-head, decode-Exact, asserted_lem}

module _ (h : StrTable) (lib : HashLib) (source : Source) (b : Build) where
  -- A cached record that was written with another version string is refused, whatever follows.
  pub set_from_blob-other_version :
      (v : CString) (rest : Bytes) (s : State h)
      → IsCString v
      → v ≢ b.version
      → set_from_blob h lib source b ((v ++ 0 ∷ []) ++ rest) s ≡ refused wrong_version
  unfolding set_from_blob check_media decode ◌>>=◌ require
  set_from_blob-other_version v rest s k n = elim (Bool-cases (str_eq v b.version)) [
    | inl e ↦ absurd (n ((str_eq_iff v b.version).0 e))
    | inr e ↦ rw ((Exact-get_string v k).whole rest, e)
  ]

  module _ (r : DaapRecordPrivate) (k : IsStorable lib r) (v : IsCString b.version)
      (n : lib.hash_size < 2 ^ 32) where
    open k use {strings}

    decoded : decode lib b (encode b strings r) ≡ ok (locals strings r, [])
    decoded = rw append-nil at ((decode-Exact lib b strings r v n k.text k.range).whole [])

    -- A blob of to_blob that has lost any number of bytes at its end, however few, makes
    -- set_from_blob read past what is left.
    pub set_from_blob-truncated :
        (blob p q : Bytes) (s : State h)
        → to_blob b r ≡ some blob
        → blob ≡ p ++ q
        → q ≢ []
        → set_from_blob h lib source b p s ≡ fault
    unfolding set_from_blob check_media to_blob
    set_from_blob-truncated blob p q s e c m =
        let whole : some (encode b strings r) ≡ some blob =
          rw (asserted_lem r strings k.fields) at e in
        rw ((decode-Exact lib b strings r v n k.text k.range).short p q (cc) m)

    -- A well-formed cached record whose media file cannot be opened is refused.
    pub set_from_blob-unreadable :
        (s : State h)
        → source strings.location ≡ none
        → set_from_blob h lib source b (encode b strings r) s ≡ refused unreadable
    unfolding set_from_blob check_media open_media
    set_from_blob-unreadable s e = rw (decoded, e)

    -- A well-formed cached record whose media file now has another hash is refused.
    pub set_from_blob-changed :
        (s : State h) (stream : List Chunk) (hash2 : Bytes)
        → source strings.location ≡ some stream
        → dmapd_util_hash_file lib source strings.location ≡ hashed hash2
        → hash2 ≢ strings.hash
        → set_from_blob h lib source b (encode b strings r) s ≡ refused changed
    unfolding set_from_blob check_media open_media compare_hash
    set_from_blob-changed s stream hash2 e d m = elim (Bool-cases (str_eq strings.hash hash2)) [
      | inl q ↦ absurd (m (sym ((str_eq_iff strings.hash hash2).0 q)))
      | inr q ↦ rw (decoded, e, d, q)
    ]

  -- The record holds a location and the hash that its media file has.
  abbrev pub IsFresh : DaapRecordPrivate → Type 0
  IsFresh r =
      (l : CString) × (d : Bytes) × (r.location ≡ some l)
      × (r.hash ≡ some d)
      × (dmapd_util_hash_file lib source l ≡ hashed d)

  or_fault-ok : (o : Option (State h)) (s : State h) → or_fault h o ≡ ok s → o ≡ some s
  unfolding or_fault
  or_fault-ok none s e = cc
  or_fault-ok (some x) s e = ground arith

  -- What the record is filled with.
  abbrev Takes : Locals → DaapRecordPrivate → DaapRecordPrivate → Type 0
  Takes f r r' =
      (dmapd_util_hash_file lib source f.location ≡ hashed f.hash) × (r' ≡ write_all (settings f) r)

  compared-Takes :
      (f : Locals) (x : Hashed) (g g' : Global h) (r r' : DaapRecordPrivate)
      → dmapd_util_hash_file lib source f.location ≡ x
      → compare_hash h f x (g, r) ≡ ok (g', r')
      → Takes f r r'
  unfolding compare_hash
  compared-Takes f overread g g' r r' k e = cc
  compared-Takes f not_hashed g g' r r' k e = cc
  compared-Takes f (hashed d) g g' r r' k e = elim (Bool-cases (str_eq f.hash d)) [
    | inl q ↦ (
      k ∙ ap hashed (sym ((str_eq_iff f.hash d).0 q)),
      object_set-write h (settings f) g g' r r'
          (or_fault-ok (object_set h (settings f) (g, r)) (g', r') (rw q at e)),
    )
    | inr q ↦ let c : ◌≡◌ {A = Outcome (State h)} (refused changed) (ok (g', r')) = rw q at e in cc
  ]

  opened-Takes :
      (f : Locals) (stream : Option (List Chunk)) (g g' : Global h) (r r' : DaapRecordPrivate)
      → open_media h f stream (dmapd_util_hash_file lib source f.location) (g, r) ≡ ok (g', r')
      → Takes f r r'
  unfolding open_media
  opened-Takes f none g g' r r' e = cc
  opened-Takes f (some stream) g g' r r' e = compared-Takes f _ g g' r r' refl e

  checked-Takes :
      (o : Outcome (Locals × Bytes)) (g g' : Global h) (r r' : DaapRecordPrivate)
      → check_media h lib source o (g, r) ≡ ok (g', r')
      → (f : Locals) × (rest : Bytes) × (o ≡ ok (f, rest)) × Takes f r r'
  unfolding check_media
  checked-Takes fault g g' r r' e = cc
  checked-Takes (refused x) g g' r r' e = cc
  checked-Takes (ok (f, rest)) g g' r r' e =
      (f, rest, refl, opened-Takes f (source f.location) g g' r r' e)

  pub set_from_blob-Takes :
      (blob : Bytes) (g g' : Global h) (r r' : DaapRecordPrivate)
      → set_from_blob h lib source b blob (g, r) ≡ ok (g', r')
      → (f : Locals) × (rest : Bytes) × (decode lib b blob ≡ ok (f, rest)) × Takes f r r'
  unfolding set_from_blob
  set_from_blob-Takes blob g g' r r' e = checked-Takes (decode lib b blob) g g' r r' e

  -- Whatever bytes the cache holds: where set_from_blob returns TRUE, the record has the location
  -- and the hash of a media file that has this hash now.
  pub set_from_blob-IsFresh :
      (blob : Bytes) (g g' : Global h) (r r' : DaapRecordPrivate)
      → set_from_blob h lib source b blob (g, r) ≡ ok (g', r')
      → IsFresh r'
  unfolding settings write
  set_from_blob-IsFresh blob g g' r r' e =
      let (f, rest, m, (k, w)) = set_from_blob-Takes blob g g' r r' e in
      (
        f.location,
        f.hash,
        ap (λ (x : DaapRecordPrivate). x.location) w,
        ap (λ (x : DaapRecordPrivate). x.hash) w,
        k,
      )

  -- A record of the cache that was written with the other byte order is refused by its hash
  -- size, which is that of a digest of at least one and at most 255 bytes.
  pub set_from_blob-other_endian :
      (b' : Build) (r : DaapRecordPrivate) (k : IsStorable lib r) (s : State h) (blob : Bytes)
      → IsCString b.version
      → b'.version ≡ b.version
      → b'.endian ≢ b.endian
      → 0 < lib.hash_size
      → lib.hash_size < 256
      → to_blob b' r ≡ some blob
      → set_from_blob h lib source b blob s ≡ refused bad_hash_size
  unfolding set_from_blob check_media to_blob decode ◌>>=◌ require
  set_from_blob-other_endian b' r k s blob v p q lo hi e =
      let (rest, c) = encode-head lib b' k.strings r in
      let x : some (encode b' k.strings r) ≡ some blob =
        rw (asserted_lem r k.strings k.fields) at e in
      let y : blob
          ≡ (b.version ++ 0 ∷ [])
            ++ ((k.strings.location ++ 0 ∷ [])
                ++ (int_bytes b'.endian 4 (length k.strings.hash) ++ rest)) =
        cc (x, c, p) in
      let d = k.text.hash in
      let m : (lib.hash_size == length k.strings.hash * 2 ^ 24) ≡ false = ground arith in
      rw (y, (Exact-get_string b.version v).whole, str_eq_refl b.version)
        (rw (
          (Exact-get_string k.strings.location k.text.location).whole,
          get_int-swapped b.endian b'.endian (length k.strings.hash) rest q (omega arith),
          m,
        ))
