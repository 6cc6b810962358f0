-- ===== src/Daap/Live.antt =====
-- A live string table serves every property: src/dmapd-daap-record.c, set_property.
use dmapd.Prelude.{
  ◌≡◌, refl, ◌∙◌, ap, Option, none, some, List, [], ◌∷◌, CString, All, ◌>>=◌, arith,
}
use dmapd.Stringleton.{StrTable, Global, table_ref, table_unref, stringleton_ref, stringleton_unref}
use dmapd.Stringleton.Counts.{live_global}
use dmapd.Daap.{
  DaapRecordPrivate, PropId, Value, prop_album, prop_artist, prop_genre, prop_format,
  prop_sort_album, prop_sort_artist, replace_str, replace_sort_str, set_property, object_set,
}
use dmapd.Daap.Properties.{write, set_property-write}

-- A property whose string must not be NULL has one.
abbrev pub IsGiven : (p : PropId) → Value p → Type 0
IsGiven prop_album none = ⊥
IsGiven prop_artist none = ⊥
IsGiven prop_genre none = ⊥
IsGiven prop_format none = ⊥
IsGiven _ _ = Unit

abbrev pub write_all : List ((p : PropId) × Value p) → DaapRecordPrivate → DaapRecordPrivate
write_all [] r = r
write_all ((p, v) ∷ l) r = write_all l (write p v r)

module _ (h : StrTable) where
  abbrev pub dropped : Option CString → h.Table → h.Table
  dropped none t = t
  dropped (some str) t = table_unref h str t

  pub unref-live :
      (old : Option CString) (t : h.Table)
      → stringleton_unref h old (live_global h t) ≡ some (live_global h (dropped old t))
  unfolding stringleton_unref
  unref-live none t = refl
  unref-live (some str) t = refl

  pub replace_str-live :
      (old : Option CString) (str : CString) (t : h.Table)
      → replace_str h old (some str) (live_global h t)
        ≡ some (some str, live_global h (table_ref h str (dropped old t)))
  unfolding replace_str stringleton_ref
  replace_str-live old str t = rw (unref-live old t)

  pub replace_sort_str-live :
      (old str : Option CString) (t : h.Table)
      → (t' : h.Table) × (replace_sort_str h old str (live_global h t)
          ≡ some (str, live_global h t'))
  unfolding replace_sort_str
  replace_sort_str-live old none t = (dropped old t, rw (unref-live old t))
  replace_sort_str-live old (some str) t =
      (table_ref h str (dropped old t), replace_str-live old str t)

  abbrev Serves : (p : PropId) → Value p → h.Table → DaapRecordPrivate → Type 0
  Serves p v t r =
      (t' : h.Table) × (set_property h p v (live_global h t, r)
        ≡ some (live_global h t', write p v r))

  pub set_property-live :
      (p : PropId) (v : Value p) (t : h.Table) (r : DaapRecordPrivate)
      → IsGiven p v
      → Serves p v t r
  unfolding set_property write
  set_property-live prop_album none t r k = absurd k
  set_property-live prop_album (some str) t r k =
      (table_ref h str (dropped r.album t), rw (replace_str-live r.album str t))
  set_property-live prop_artist none t r k = absurd k
  set_property-live prop_artist (some str) t r k =
      (table_ref h str (dropped r.artist t), rw (replace_str-live r.artist str t))
  set_property-live prop_genre none t r k = absurd k
  set_property-live prop_genre (some str) t r k =
      (table_ref h str (dropped r.genre t), rw (replace_str-live r.genre str t))
  set_property-live prop_format none t r k = absurd k
  set_property-live prop_format (some str) t r k =
      (table_ref h str (dropped r.format t), rw (replace_str-live r.format str t))
  set_property-live prop_sort_album v t r k =
      let (t', e) = replace_sort_str-live r.sort_album v t in (t', rw e)
  set_property-live prop_sort_artist v t r k =
      let (t', e) = replace_sort_str-live r.sort_artist v t in (t', rw e)
  set_property-live _ v t r k = (t, refl)

  pub object_set-live :
      (l : List ((p : PropId) × Value p)) (t : h.Table) (r : DaapRecordPrivate)
      → All (λ x. IsGiven x.0 x.1) l
      → (t' : h.Table) × (object_set h l (live_global h t, r)
          ≡ some (live_global h t', write_all l r))
  unfolding object_set
  object_set-live [] t r k = (t, refl)
  object_set-live ((p, v) ∷ l) t r k =
      let (t1, e1) = set_property-live p v t r k.0 in
      let (t2, e2) = object_set-live l t1 (write p v r) k.1 in (t2, rw e1 e2)

  set_then-write :
      (l : List ((p : PropId) × Value p)) (o : Option (Global h × DaapRecordPrivate))
      (w : DaapRecordPrivate) (g' : Global h) (r' : DaapRecordPrivate)
      → ((g1 : Global h) (r1 : DaapRecordPrivate) → o ≡ some (g1, r1) → r1 ≡ w)
      → ((g1 : Global h) (r1 : DaapRecordPrivate)
          → object_set h l (g1, r1) ≡ some (g', r')
          → r' ≡ write_all l r1)
      → ◌>>=◌ {B = Global h × DaapRecordPrivate} o (object_set h l) ≡ some (g', r')
      → r' ≡ write_all l w
  set_then-write l none w g' r' k rest e = cc
  set_then-write l (some (g1, r1)) w g' r' k rest e = rest g1 r1 e ∙ ap (write_all l) (k g1 r1 refl)

  -- What g_object_set has set, whatever the stringletons did.
  pub object_set-write :
      (l : List ((p : PropId) × Value p)) (g g' : Global h) (r r' : DaapRecordPrivate)
      → object_set h l (g, r) ≡ some (g', r')
      → r' ≡ write_all l r
  unfolding object_set
  object_set-write [] g g' r r' e = ground arith
  object_set-write ((p, v) ∷ l) g g' r r' e =
      set_then-write l (set_property h p v (g, r)) (write p v r) g' r'
        (λ g1 r1 k. set_property-write h p v g g1 r r1 k)
        (λ g1 r1 k. object_set-write l g1 g' r1 r' k) e
