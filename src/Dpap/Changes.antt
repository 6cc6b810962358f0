-- ===== src/Dpap/Changes.antt =====
-- What setting a property of a picture changes, and that a live string table serves it:
-- src/dmapd-dpap-record.c, set_property.
use dmapd.Prelude.{◌∙◌, ◌≡◌, refl, ap, none, some, List, [], ◌∷◌, arith, All, >>=_some}
use dmapd.Stringleton.{StrTable, Global, table_ref}
use dmapd.Stringleton.Counts.{live_global}
use dmapd.Daap.{replace_str}
use dmapd.Daap.Properties.{replace_str-eq}
use dmapd.Daap.Live.{dropped, replace_str-live}
use dmapd.Dpap.{
  DpapRecordPrivate, PropId, Value, prop_location, prop_hash, prop_large_filesize,
  prop_creation_date, prop_rating, prop_filename, prop_aspect_ratio, prop_pixel_height,
  prop_pixel_width, prop_format, prop_comments, prop_thumbnail, set_property, object_set,
}

-- The record with one field replaced.
unfoldable pub write : (p : PropId) → Value p → DpapRecordPrivate → DpapRecordPrivate
write prop_location v r = record r { location = v }
write prop_hash v r = record r { hash = v }
write prop_large_filesize v r = record r { largefilesize = v }
write prop_creation_date v r = record r { creationdate = v }
write prop_rating v r = record r { rating = v }
write prop_filename v r = record r { filename = v }
write prop_aspect_ratio v r = record r { aspectratio = v }
write prop_pixel_height v r = record r { height = v }
write prop_pixel_width v r = record r { width = v }
write prop_format v r = record r { format = v }
write prop_comments v r = record r { comments = v }
write prop_thumbnail v r = record r { thumbnail = v }

-- A property whose string must not be NULL has one.
abbrev pub IsGiven : (p : PropId) → Value p → Type 0
IsGiven prop_aspect_ratio none = ⊥
IsGiven prop_format none = ⊥
IsGiven _ _ = Unit

abbrev pub write_all : List ((p : PropId) × Value p) → DpapRecordPrivate → DpapRecordPrivate
write_all [] r = r
write_all ((p, v) ∷ l) r = write_all l (write p v r)

module _ (h : StrTable) where
  pub set_property-write :
      (p : PropId) (v : Value p) (g g' : Global h) (r r' : DpapRecordPrivate)
      → set_property h p v (g, r) ≡ some (g', r')
      → r' ≡ write p v r
  unfolding set_property write
  set_property-write prop_aspect_ratio v g g' r r' e =
      let ((new, g1), k, f) = >>=_some (replace_str h r.aspectratio v g) _ e in
      let n = replace_str-eq h r.aspectratio v new g g1 k in cc
  set_property-write prop_format v g g' r r' e =
      let ((new, g1), k, f) = >>=_some (replace_str h r.format v g) _ e in
      let n = replace_str-eq h r.format v new g g1 k in cc
  set_property-write _ v g g' r r' e = ground arith

  -- What g_object_set has set, whatever the stringletons did.
  pub object_set-write :
      (l : List ((p : PropId) × Value p)) (g g' : Global h) (r r' : DpapRecordPrivate)
      → object_set h l (g, r) ≡ some (g', r')
      → r' ≡ write_all l r
  unfolding object_set
  object_set-write [] g g' r r' e = ground arith
  object_set-write ((p, v) ∷ l) g g' r r' e =
      let ((g1, r1), k, f) = >>=_some (set_property h p v (g, r)) _ e in
      object_set-write l g1 g' r1 r' f ∙ ap (write_all l) (set_property-write p v g g1 r r1 k)

  abbrev Serves : (p : PropId) → Value p → h.Table → DpapRecordPrivate → Type 0
  Serves p v t r =
      (t' : h.Table) × (set_property h p v (live_global h t, r)
        ≡ some (live_global h t', write p v r))

  set_property-live :
      (p : PropId) (v : Value p) (t : h.Table) (r : DpapRecordPrivate)
      → IsGiven p v
      → Serves p v t r
  unfolding set_property write
  set_property-live prop_aspect_ratio none t r k = absurd k
  set_property-live prop_aspect_ratio (some str) t r k =
      (table_ref h str (dropped h r.aspectratio t), rw (replace_str-live h r.aspectratio str t))
  set_property-live prop_format none t r k = absurd k
  set_property-live prop_format (some str) t r k =
      (table_ref h str (dropped h r.format t), rw (replace_str-live h r.format str t))
  set_property-live _ v t r k = (t, refl)

  pub object_set-live :
      (l : List ((p : PropId) × Value p)) (t : h.Table) (r : DpapRecordPrivate)
      → All (λ x. IsGiven x.0 x.1) l
      → (t' : h.Table) × (object_set h l (live_global h t, r)
          ≡ some (live_global h t', write_all l r))
  unfolding object_set
  object_set-live [] t r k = (t, refl)
  object_set-live ((p, v) ∷ l) t r k =
      let (t1, e1) = set_property-live p v t r k.0 in
      let (t2, e2) = object_set-live l t1 (write p v r) k.1 in (t2, rw e1 e2)
