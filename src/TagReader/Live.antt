-- ===== src/TagReader/Live.antt =====
-- Inserting tags never fails on a live string table: src/av-meta-reader-gst.c, insert_tag.
use mathlib.Core.Path.{subst}
use dmapd.Prelude.{
  ◌≡◌, refl, sym, ap, ◌∙◌, ℕ, zero, suc, ◌+◌, ◌<◌, true, Option, none, some, List, [], ◌∷◌, CString,
  All, Bool-cases, Option-cases, inl, inr, ◌>>=◌, arith,
}
use dmapd.Stringleton.{StrTable}
use dmapd.Stringleton.Counts.{live_global}
use dmapd.Daap.{DaapRecordPrivate, State}
use dmapd.Daap.Live.{object_set-live}
use dmapd.TagReader.Written.{tag_writes-some}
use dmapd.TagReader.Tagged.{with_value, with_values, value_at, values_from, with_tags}
use dmapd.TagReader.{TagLib, Tag, tag_of, insert_value, insert_values, insert_tag, insert_tags}
use dmapd.TagReader.Identity.{write_all-IsSame, tag_writes-AreTagged}

module _ (h : StrTable) (lib : TagLib) (location : CString) where
  -- A step that makes `r'` of `r` on a live string table, and leaves the location alone.
  abbrev Inserts :
      (State h → Option (State h)) → h.Table → DaapRecordPrivate → DaapRecordPrivate → Type 0
  Inserts f t r r' =
      (t' : h.Table) × (f (live_global h t, r) ≡ some (live_global h t', r'))
      × (r'.location ≡ some location)

  then-Inserts :
      (f k : State h → Option (State h)) (t : h.Table) (r r' r'' : DaapRecordPrivate)
      → Inserts f t r r'
      → ((t' : h.Table) → r'.location ≡ some location → Inserts k t' r' r'')
      → Inserts (λ s. f s >>= k) t r r''
  then-Inserts f k t r r' r'' (t1, e1, i1) j = let (t2, e2, i2) = j t1 i1 in (t2, rw e1 e2, i2)

  insert_value-Inserts :
      (tag : Tag) (val : CString) (t : h.Table) (r : DaapRecordPrivate)
      → r.location ≡ some location
      → Inserts (insert_value h lib tag val) t r (with_value lib location tag val r)
  unfolding insert_value
  insert_value-Inserts tag val t r e =
      let (l, i, k, w) = tag_writes-some h lib location tag val r e in
      let (t', j) = object_set-live h l t r k in
      let same = (write_all-IsSame l r (tag_writes-AreTagged h lib tag val r l i)).0 in
      (t', rw i (rw w at j), ap (λ (x : DaapRecordPrivate). x.location) (sym w) ∙ same ∙ e)

  -- A string tag has a value at every index below its size.
  abbrev pub HasStrings : lib.TagList → CString → Type 0
  HasStrings tags tag =
      (i : ℕ)
      → i < lib.size tags tag
      → lib.is_string tag ≡ true
      → (val : CString) × (lib.string_index tags tag i ≡ some val)

  values_from-some :
      (n i : ℕ) (tags : lib.TagList) (tag val : CString)
      → value_at lib tags tag i ≡ some val
      → values_from lib tags (suc n) i tag ≡ val ∷ values_from lib tags n (suc i) tag
  unfolding values_from
  values_from-some n i tags tag val v = rw (values_from, v) refl

  values_from-none :
      (n i : ℕ) (tags : lib.TagList) (tag : CString)
      → value_at lib tags tag i ≡ none
      → values_from lib tags (suc n) i tag ≡ []
  unfolding values_from
  values_from-none n i tags tag v = rw (values_from, v) refl

  insert_values-some :
      (n i : ℕ) (tags : lib.TagList) (tag val : CString) (s : State h)
      → value_at lib tags tag i ≡ some val
      → insert_values h lib (suc n) i tags tag s
        ≡ (insert_value h lib (tag_of tag) val s >>= insert_values h lib n (suc i) tags tag)
  unfolding insert_values value_at
  insert_values-some n i tags tag val s v = elim (Bool-cases (lib.is_string tag)) [
    | inl b ↦ let w : lib.string_index tags tag i ≡ some val = rw b at v in rw (b, w) refl
    | inr b ↦ let w : lib.value_contents tags tag i ≡ some val = rw b at v in rw (b, w) refl
  ]

  insert_values-none :
      (n i : ℕ) (tags : lib.TagList) (tag : CString) (s : State h)
      → HasStrings tags tag
      → i < lib.size tags tag
      → value_at lib tags tag i ≡ none
      → insert_values h lib (suc n) i tags tag s ≡ some s
  unfolding insert_values value_at
  insert_values-none n i tags tag s k lt v = elim (Bool-cases (lib.is_string tag)) [
    | inl b ↦
        let (val, there) = k i lt b in let w : lib.string_index tags tag i ≡ none = rw b at v in cc
    | inr b ↦ let w : lib.value_contents tags tag i ≡ none = rw b at v in rw (b, w) refl
  ]

  -- What is made of `r` by the values from an index on.
  abbrev rest_of : ℕ → ℕ → lib.TagList → CString → DaapRecordPrivate → DaapRecordPrivate
  rest_of n i tags tag r = with_values lib location (tag_of tag) (values_from lib tags n i tag) r

  rest_of-some :
      (n i : ℕ) (tags : lib.TagList) (tag val : CString) (r : DaapRecordPrivate)
      → value_at lib tags tag i ≡ some val
      → rest_of (suc n) i tags tag r
        ≡ rest_of n (suc i) tags tag (with_value lib location (tag_of tag) val r)
  unfolding with_values
  rest_of-some n i tags tag val r v =
      ap (λ vals. with_values lib location (tag_of tag) vals r)
        (values_from-some n i tags tag val v)

  rest_of-none :
      (n i : ℕ) (tags : lib.TagList) (tag : CString) (r : DaapRecordPrivate)
      → value_at lib tags tag i ≡ none
      → rest_of (suc n) i tags tag r ≡ r
  unfolding with_values
  rest_of-none n i tags tag r v =
      ap (λ vals. with_values lib location (tag_of tag) vals r) (values_from-none n i tags tag v)

  rest_of-zero :
      (i : ℕ) (tags : lib.TagList) (tag : CString) (r : DaapRecordPrivate)
      → rest_of zero i tags tag r ≡ r
  unfolding with_values values_from
  rest_of-zero i tags tag r = refl

  insert_values-Inserts :
      (n i : ℕ) (tags : lib.TagList) (tag : CString) (t : h.Table) (r : DaapRecordPrivate)
      → HasStrings tags tag
      → i + n ≡ lib.size tags tag
      → r.location ≡ some location
      → Inserts (insert_values h lib n i tags tag) t r (rest_of n i tags tag r)
  insert_values-Inserts zero i tags tag t r k m e =
      subst (Inserts (insert_values h lib zero i tags tag) t r) (sym (rest_of-zero i tags tag r))
        (t, unfold insert_values in refl, e)
  insert_values-Inserts (suc n) i tags tag t r k m e =
      elim (Option-cases (value_at lib tags tag i)) [
        | inl v ↦
            subst (Inserts (insert_values h lib (suc n) i tags tag) t r)
              (sym (rest_of-none n i tags tag r v))
              (t, insert_values-none n i tags tag _ k (omega (arith, m)) v, e)
        | inr (val, v) ↦
            let (t', x, y) =
              then-Inserts (insert_value h lib (tag_of tag) val)
                (insert_values h lib n (suc i) tags tag) t r
                (with_value lib location (tag_of tag) val r)
                (rest_of n (suc i) tags tag (with_value lib location (tag_of tag) val r))
                (insert_value-Inserts (tag_of tag) val t r e)
                (λ t1 q. insert_values-Inserts n (suc i) tags tag t1 _ k (omega (arith, m)) q) in
            subst (Inserts (insert_values h lib (suc n) i tags tag) t r)
              (sym (rest_of-some n i tags tag val r v))
              (t', insert_values-some n i tags tag val _ v ∙ x, y)
      ]

  insert_tags-Inserts :
      (tags : lib.TagList) (l : List CString) (t : h.Table) (r : DaapRecordPrivate)
      → All (HasStrings tags) l
      → r.location ≡ some location
      → Inserts (insert_tags h lib tags l) t r (with_tags lib tags location l r)
  unfolding insert_tags insert_tag with_tags
  insert_tags-Inserts tags [] t r k e = (t, refl, e)
  insert_tags-Inserts tags (tag ∷ l) t r (k, ks) e =
      then-Inserts (insert_tag h lib tags tag) (insert_tags h lib tags l) t r _ _
        (insert_values-Inserts (lib.size tags tag) 0 tags tag t r k (omega arith) e)
        λ t' q. insert_tags-Inserts tags l t' _ ks q

  -- On a live string table, for a record that has a location, and where every tag of type string
  -- has its values: the tags are inserted, with no failed assertion, no NULL that is read and no
  -- missing stringleton, and the string table is live afterwards. The record is the one of before
  -- with every value of every tag of the list set, in their order, but those of a tag from the
  -- first value without contents on: with_tags says which fields a value sets, and to what. The
  -- location is the one of before.
  pub insert_tags-live :
      (tags : lib.TagList) (t : h.Table) (r : DaapRecordPrivate)
      → All (HasStrings tags) (lib.names tags)
      → r.location ≡ some location
      → (t' : h.Table) × (insert_tags h lib tags (lib.names tags) (live_global h t, r)
          ≡ some (live_global h t', with_tags lib tags location (lib.names tags) r))
        × ((with_tags lib tags location (lib.names tags) r).location ≡ r.location)
  insert_tags-live tags t r k e =
      let (t', x, y) = insert_tags-Inserts tags (lib.names tags) t r k e in (t', x, y ∙ sym e)
