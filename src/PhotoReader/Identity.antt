-- ===== src/PhotoReader/Identity.antt =====
-- What reading a picture does to the location and the hash of its record:
-- src/photo-meta-reader-vips.c.
use dmapd.Prelude.{
  ◌≡◌, refl, ◌∙◌, ℕ, Bool, true, false, Option, none, some, [], ◌∷◌, ◌++◌, CString, All, length,
  ltb, if◌then◌else◌, >>=_some,
}
use dmapd.Stringleton.{StrTable}
use dmapd.Dpap.{
  DpapRecordPrivate, PropId, Value, prop_location, prop_hash, prop_thumbnail, State, object_set,
}
use dmapd.Dpap.Changes.{write, write_all, object_set-write}
use dmapd.TagReader.{first_four}
use dmapd.PhotoReader.{VipsLib, thumbnail_open, thumbnail_shrink}
use dmapd.PhotoReader.Vips.{
  System, Writes, size_writes, name_writes, basic_writes, ratio_writes, comment_writes, year_writes,
  date_writes, picture_writes, thumbnail_writes, take_thumbnail, read_image,
  photo_meta_reader_vips_read, photo_meta_reader_vips_get_str, user_comment, date_and_time,
}

-- The same picture: neither the location nor the hash has changed.
abbrev pub IsSame : DpapRecordPrivate → DpapRecordPrivate → Type 0
IsSame r r' = (r'.location ≡ r.location) × (r'.hash ≡ r.hash)

abbrev IsTagged : PropId → Type 0
IsTagged prop_location = ⊥
IsTagged prop_hash = ⊥
IsTagged _ = Unit

abbrev AreTagged : Writes → Type 0
AreTagged = All λ x. IsTagged x.0

IsSame-trans : (r s t : DpapRecordPrivate) → IsSame r s → IsSame s t → IsSame r t
IsSame-trans r s t (a, b) (c, d) = (c ∙ a, d ∙ b)

write-IsSame :
    (p : PropId) (v : Value p) (r : DpapRecordPrivate) → IsTagged p → IsSame r (write p v r)
unfolding write
write-IsSame prop_location v r k = absurd k
write-IsSame prop_hash v r k = absurd k
write-IsSame _ v r k = (refl, refl)

write_all-IsSame : (l : Writes) (r : DpapRecordPrivate) → AreTagged l → IsSame r (write_all l r)
write_all-IsSame [] r k = (refl, refl)
write_all-IsSame ((p, v) ∷ l) r (k, ks) =
    IsSame-trans r (write p v r) (write_all l (write p v r)) (write-IsSame p v r k)
      (write_all-IsSame l (write p v r) ks)

pub write_all-append :
    (l m : Writes) (r : DpapRecordPrivate) → write_all (l ++ m) r ≡ write_all m (write_all l r)
write_all-append [] m r = refl
write_all-append ((p, v) ∷ l) m r = write_all-append l m (write p v r)

append-AreTagged : (l m : Writes) → AreTagged l → AreTagged m → AreTagged (l ++ m)
append-AreTagged [] m k j = j
append-AreTagged (x ∷ l) m (k, ks) j = (k, append-AreTagged l m ks j)

size_writes-AreTagged : (o : Option (ℕ × ℕ)) → AreTagged (size_writes o)
unfolding size_writes
size_writes-AreTagged none = tt
size_writes-AreTagged (some (size, mtime)) = (tt, tt)

name_writes-AreTagged : (o : Option CString) → AreTagged (name_writes o)
unfolding name_writes
name_writes-AreTagged none = tt
name_writes-AreTagged (some name) = (tt, tt)

ratio_writes-AreTagged : (o : Option CString) → AreTagged (ratio_writes o)
unfolding ratio_writes
ratio_writes-AreTagged none = tt
ratio_writes-AreTagged (some ratio) = (tt, tt)

comment_writes-AreTagged : (o : Option CString) → AreTagged (comment_writes o)
unfolding comment_writes
comment_writes-AreTagged none = tt
comment_writes-AreTagged (some str) = (tt, tt)

year_writes-AreTagged : (b : Bool) (o : Option ℕ) → AreTagged (if b then [] else year_writes o)
unfolding year_writes
year_writes-AreTagged true o = tt
year_writes-AreTagged false none = tt
year_writes-AreTagged false (some l) = (tt, tt)

module _ (h : StrTable) where
  object_set-IsSame :
      (l : Writes) (s s' : State h) → AreTagged l → object_set h l s ≡ some s' → IsSame s.1 s'.1
  object_set-IsSame l (g, r) (g', r') k e =
      rw (object_set-write h l g g' r r' e) (write_all-IsSame l r k)

  module _ (lib : VipsLib) (system : System) (width : ℕ) where
    date_writes-AreTagged : (o : Option CString) → AreTagged (date_writes h lib system width o)
    unfolding date_writes
    date_writes-AreTagged none = tt
    date_writes-AreTagged (some str) =
        year_writes-AreTagged (ltb (length str) 19) (system.strtol (first_four str))

    abbrev str_of : lib.Image → CString → Option CString
    str_of = photo_meta_reader_vips_get_str h lib system width

    picture_writes-AreTagged :
        (path format : CString) (im : lib.Image)
        → AreTagged (picture_writes h lib system width path format im)
    unfolding picture_writes basic_writes
    picture_writes-AreTagged path format im =
        append-AreTagged (size_writes (system.stat path)) _ (size_writes-AreTagged _) (
          append-AreTagged (name_writes (system.path_get_basename path)) _ (name_writes-AreTagged _)
            (append-AreTagged (basic_writes h lib system width path format im) _
              (tt, (tt, (tt, (tt, (tt, (tt, tt))))))
              (append-AreTagged (ratio_writes (system.print_ratio (lib.xsize im) (lib.ysize im))) _
                (ratio_writes-AreTagged _)
                (append-AreTagged (comment_writes (str_of im user_comment))
                  (date_writes h lib system width (str_of im date_and_time))
                  (comment_writes-AreTagged (str_of im user_comment))
                  (date_writes-AreTagged (str_of im date_and_time))))))

    thumbnail_writes-AreTagged :
        (im : lib.Image) → AreTagged (thumbnail_writes h lib system width im)
    unfolding thumbnail_writes
    thumbnail_writes-AreTagged im =
        elim (thumbnail_shrink lib width im)
          as (λ o. AreTagged (elim o [
            | none ↦ (prop_thumbnail, some []) ∷ []
            | some bytes ↦ (prop_thumbnail, some bytes) ∷ []
          ])) [ none ↦ (tt, tt) | some bytes ↦ (tt, tt) ]

    answer-IsSame :
        (b : Bool) (s : State h) (x : Bool × State h) → some (b, s) ≡ some x → IsSame s.1 x.1.1
    answer-IsSame b s x e = let i : x ≡ (b, s) = cc in rw i (refl, refl)

    take_thumbnail-IsSame :
        (thumb : Option lib.Image) (s : State h) (x : Bool × State h)
        → take_thumbnail h lib system width thumb s ≡ some x
        → IsSame s.1 x.1.1
    unfolding take_thumbnail
    take_thumbnail-IsSame none s x e = answer-IsSame false s x e
    take_thumbnail-IsSame (some im) s x e =
        let (s1, i, j) = >>=_some (object_set h (thumbnail_writes h lib system width im) s) _ e in
        IsSame-trans s.1 s1.1 x.1.1
          (object_set-IsSame (thumbnail_writes h lib system width im) s s1
            (thumbnail_writes-AreTagged im) i)
          (answer-IsSame true s1 x j)

    read_image-IsSame :
        (path format : CString) (o : Option lib.Image) (s : State h) (x : Bool × State h)
        → read_image h lib system width path format o s ≡ some x
        → IsSame s.1 x.1.1
    unfolding read_image
    read_image-IsSame path format none s x e = answer-IsSame false s x e
    read_image-IsSame path format (some im) s x e =
        let (s1, i, j) =
          >>=_some (object_set h (picture_writes h lib system width path format im) s) _ e in
        let (thumb, k, m) = >>=_some (thumbnail_open lib width path) _ j in
        IsSame-trans s.1 s1.1 x.1.1
          (object_set-IsSame (picture_writes h lib system width path format im) s s1
            (picture_writes-AreTagged path format im) i)
          (take_thumbnail-IsSame thumb s1 x m)

    -- Whatever VIPS finds in a picture, its record keeps the location and the hash.
    pub photo_meta_reader_vips_read-IsSame :
        (path : CString) (s : State h) (x : Bool × State h)
        → photo_meta_reader_vips_read h lib system width path s ≡ some x
        → IsSame s.1 x.1.1
    unfolding photo_meta_reader_vips_read
    photo_meta_reader_vips_read-IsSame path s x = go (lib.format_for_file path)
      where
        go :
            (o : Option CString)
            → (elim o [
              | none ↦ some (false, s)
              | some format ↦ read_image h lib system width path format (lib.new_from_file path) s
            ])
              ≡ some x
            → IsSame s.1 x.1.1
        go none e = answer-IsSame false s x e
        go (some format) e = read_image-IsSame path format (lib.new_from_file path) s x e
