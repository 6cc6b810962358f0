-- ===== src/TagReader/Identity.antt =====
-- What reading tags leaves alone: src/av-meta-reader-gst.c, insert_tag and av_meta_reader_gst_read.
use dmapd.Prelude.{
  ◌≡◌, refl, ◌∙◌, ℕ, zero, suc, Bool, true, false, ◌&&◌, not, Option, none, some, List, [], ◌∷◌,
  CString, All, Bool-cases, inl, inr, ltb, length, if◌then◌else◌, ◌>>=◌, >>=_some,
}
use dmapd.Stringleton.{StrTable}
use dmapd.Daap.{
  DaapRecordPrivate, PropId, Value, prop_location, prop_hash, prop_disc, prop_year, prop_track,
  prop_duration, prop_has_video, State, object_set,
}
use dmapd.Daap.Properties.{write}
use dmapd.Daap.Live.{write_all, object_set-write}
use dmapd.TagReader.{
  TagLib, Tag, tag_title, tag_artist, tag_album, tag_disc, tag_date, tag_genre, tag_codec,
  tag_track, tag_unused, tag_of, determine_format, Writes, write_number, first_four, write_codec,
  tag_writes, insert_value, insert_values, insert_tag, insert_tags,
}
use dmapd.TagReader.Session.{
  Session, add_pads, message_loop, seconds, flag, take_messages, take_duration, stop_pipeline,
  run_session, av_meta_reader_gst_read,
}

-- The same file: neither the location nor the hash has changed.
abbrev pub IsSame : DaapRecordPrivate → DaapRecordPrivate → Type 0
IsSame r r' = (r'.location ≡ r.location) × (r'.hash ≡ r.hash)

-- A property that does not say which file it is.
abbrev pub IsTagged : PropId → Type 0
IsTagged prop_location = ⊥
IsTagged prop_hash = ⊥
IsTagged _ = Unit

IsSame-trans : (r s t : DaapRecordPrivate) → IsSame r s → IsSame s t → IsSame r t
IsSame-trans r s t (a, b) (c, d) = (c ∙ a, d ∙ b)

write-IsSame :
    (p : PropId) (v : Value p) (r : DaapRecordPrivate) → IsTagged p → IsSame r (write p v r)
unfolding write
write-IsSame prop_location v r k = absurd k
write-IsSame prop_hash v r k = absurd k
write-IsSame _ v r k = (refl, refl)

pub write_all-IsSame :
    (l : Writes) (r : DaapRecordPrivate) → All (λ x. IsTagged x.0) l → IsSame r (write_all l r)
write_all-IsSame [] r k = (refl, refl)
write_all-IsSame ((p, v) ∷ l) r (k, ks) =
    IsSame-trans r (write p v r) (write_all l (write p v r)) (write-IsSame p v r k)
      (write_all-IsSame l (write p v r) ks)

abbrev pub AreTagged : Writes → Type 0
AreTagged = All λ x. IsTagged x.0

some-AreTagged : (l l' : Writes) → some l ≡ some l' → AreTagged l → AreTagged l'
some-AreTagged l l' e k = let i : l' ≡ l = cc in rw i k

then-AreTagged :
    (o : Option CString) (f : CString → Writes) (l : Writes)
    → ((x : CString) → AreTagged (f x))
    → ◌>>=◌ {B = Writes} o (λ x. some (f x)) ≡ some l
    → AreTagged l
then-AreTagged none f l k e = cc
then-AreTagged (some x) f l k e = some-AreTagged (f x) l e (k x)

write_number-AreTagged :
    (p : ℕ → (p : PropId) × Value p) (o : Option ℕ)
    → ((n : ℕ) → IsTagged (p n).0)
    → AreTagged (write_number p o)
unfolding write_number
write_number-AreTagged p none k = tt
write_number-AreTagged p (some n) k = (k _, tt)

year-AreTagged :
    (b : Bool) (o : Option ℕ) → AreTagged (if b then [] else write_number (λ n. (prop_year, n)) o)
year-AreTagged true o = tt
year-AreTagged false o = write_number-AreTagged (λ n. (prop_year, n)) o (λ n. tt)

module _ (h : StrTable) where
  -- A step after which the record is of the same file.
  abbrev pub Keeps : {A : Type 0} → (A → State h) → (State h → Option A) → Type 0
  Keeps {A = A} out f = (s : State h) (a : A) → f s ≡ some a → IsSame s.1 (out a).1

  object_set-Keeps : (l : Writes) → All (λ x. IsTagged x.0) l → Keeps (λ s. s) (object_set h l)
  object_set-Keeps l k (g, r) (g', r') e =
      rw (object_set-write h l g g' r r' e) (write_all-IsSame l r k)

  -- Two such steps, one after the other.
  then-Keeps :
      {A : Type 0} (out : A → State h) (f : State h → Option (State h)) (k : State h → Option A)
      → Keeps (λ s. s) f
      → Keeps out k
      → Keeps out (λ s. f s >>= k)
  then-Keeps out f k i j s a e =
      let (s1, e1, e2) = >>=_some (f s) k e in
      IsSame-trans s.1 s1.1 (out a).1 (i s s1 e1) (j s1 a e2)

  done-Keeps : Keeps (λ s. s) some
  done-Keeps s s' e = let i : s' ≡ s = cc in rw i (refl, refl)

  if-Keeps :
      {A : Type 0} (out : A → State h) (b : Bool) (f g : State h → Option A)
      → Keeps out f
      → Keeps out g
      → Keeps out (λ s. if b then f s else g s)
  if-Keeps out true f g i j = i
  if-Keeps out false f g i j = j

  -- A step that needs a value.
  from-Keeps :
      {A X : Type 0} (out : A → State h) (o : Option X) (f : X → State h → Option A)
      → ((x : X) → Keeps out (f x))
      → Keeps out (λ s. o >>= λ x. f x s)
  from-Keeps out none f k s a e = cc
  from-Keeps out (some x) f k s a e = k x s a e

  -- A step for a value where there is one.
  either-Keeps :
      {A X : Type 0} (out : A → State h) (o : Option X) (g : State h → Option A)
      (f : X → State h → Option A)
      → Keeps out g
      → ((x : X) → Keeps out (f x))
      → Keeps out (λ s. elim o [ none ↦ g s | some x ↦ f x s ])
  either-Keeps out none g f j k = j
  either-Keeps out (some x) g f j k = k x

  abbrev answer_state : Bool × State h → State h
  answer_state x = x.1

  module _ (lib : TagLib) where
    write_codec-AreTagged :
        (n : ℕ) (val : CString) (r : DaapRecordPrivate) (l : Writes)
        → write_codec h lib n val r ≡ some l
        → AreTagged l
    unfolding write_codec
    write_codec-AreTagged zero val r l e =
        then-AreTagged (determine_format r val) _ l (λ x. (tt, (tt, tt))) e
    write_codec-AreTagged (suc n) val r l e = then-AreTagged r.location _ l (λ x. (tt, (tt, tt))) e

    pub tag_writes-AreTagged :
        (tag : Tag) (val : CString) (r : DaapRecordPrivate) (l : Writes)
        → tag_writes h lib tag val r ≡ some l
        → AreTagged l
    unfolding tag_writes
    tag_writes-AreTagged tag_title val r l e = some-AreTagged _ l e (tt, tt)
    tag_writes-AreTagged tag_artist val r l e = some-AreTagged _ l e (tt, tt)
    tag_writes-AreTagged tag_album val r l e = some-AreTagged _ l e (tt, tt)
    tag_writes-AreTagged tag_genre val r l e = some-AreTagged _ l e (tt, tt)
    tag_writes-AreTagged tag_unused val r l e = some-AreTagged _ l e tt
    tag_writes-AreTagged tag_codec val r l e = write_codec-AreTagged r.has_video val r l e
    tag_writes-AreTagged tag_disc val r l e =
        some-AreTagged _ l e (write_number-AreTagged (λ n. (prop_disc, n)) _ (λ n. tt))
    tag_writes-AreTagged tag_track val r l e =
        some-AreTagged _ l e (write_number-AreTagged (λ n. (prop_track, n)) _ (λ n. tt))
    tag_writes-AreTagged tag_date val r l e =
        some-AreTagged _ l e (year-AreTagged (ltb (length val) 4) (lib.strtol (first_four val)))

    insert_value-Keeps : (tag : Tag) (val : CString) → Keeps (λ s. s) (insert_value h lib tag val)
    unfolding insert_value
    insert_value-Keeps tag val s s' e =
        let (l, i, j) = >>=_some (tag_writes h lib tag val s.1) (λ l. object_set h l s) e in
        object_set-Keeps l (tag_writes-AreTagged tag val s.1 l i) s s' j

    insert_values-Keeps :
        (n i : ℕ) (tags : lib.TagList) (tag : CString)
        → Keeps (λ s. s) (insert_values h lib n i tags tag)
    unfolding insert_values
    insert_values-Keeps zero i tags tag = done-Keeps
    insert_values-Keeps (suc n) i tags tag =
        let rest = insert_values h lib n (suc i) tags tag in
        let one = λ (val : CString) (s : State h). insert_value h lib (tag_of tag) val s >>= rest in
        let keep = λ (val : CString).
          then-Keeps (λ s. s) (insert_value h lib (tag_of tag) val) rest
            (insert_value-Keeps (tag_of tag) val) (insert_values-Keeps n (suc i) tags tag) in
        if-Keeps (λ s. s) (lib.is_string tag)
          (λ s. lib.string_index tags tag i >>= λ val. one val s) _
          (from-Keeps (λ s. s) (lib.string_index tags tag i) one keep)
          (either-Keeps (λ s. s) (lib.value_contents tags tag i) some one done-Keeps keep)

    insert_tags-Keeps :
        (tags : lib.TagList) (l : List CString) → Keeps (λ s. s) (insert_tags h lib tags l)
    unfolding insert_tags insert_tag
    insert_tags-Keeps tags [] = done-Keeps
    insert_tags-Keeps tags (tag ∷ l) =
        then-Keeps (λ s. s) (insert_tag h lib tags tag) (insert_tags h lib tags l)
          (insert_values-Keeps (lib.size tags tag) 0 tags tag) (insert_tags-Keeps tags l)

    answer-Keeps : (b : Bool) → Keeps answer_state (λ s. some (b, s))
    answer-Keeps b s (b', s') e = let i : s' ≡ s = cc in rw i (refl, refl)

    take_messages-Keeps :
        (m : Bool × Option lib.TagList) (v : Bool) → Keeps answer_state (take_messages h lib m v)
    unfolding take_messages
    take_messages-Keeps (false, tags) v = answer-Keeps false
    take_messages-Keeps (true, none) v =
        then-Keeps answer_state (object_set h ((prop_has_video, flag v) ∷ [])) _
          (object_set-Keeps _ (tt, tt)) (answer-Keeps true)
    take_messages-Keeps (true, some tags) v =
        then-Keeps answer_state (object_set h ((prop_has_video, flag v) ∷ [])) _
          (object_set-Keeps _ (tt, tt))
          (then-Keeps answer_state (insert_tags h lib tags (lib.names tags)) _
            (insert_tags-Keeps tags (lib.names tags)) (answer-Keeps true))

    take_duration-Keeps :
        (x : Session lib) (v : Bool) → Keeps answer_state (take_duration h lib x v)
    unfolding take_duration
    take_duration-Keeps x v =
        either-Keeps answer_state x.duration (λ s. some (false, s)) _ (answer-Keeps false)
          (λ n.
            then-Keeps answer_state (object_set h ((prop_duration, seconds n) ∷ [])) _
              (object_set-Keeps _ (tt, tt)) (take_messages-Keeps (message_loop lib x.bus none) v))

    stop_pipeline-eq :
        (x : Session lib) (r r' : Bool × State h) → stop_pipeline h lib x r ≡ some r' → r' ≡ r
    unfolding stop_pipeline
    stop_pipeline-eq x r r' e = elim (Bool-cases (x.pauses && not x.stops)) [
      | inl q ↦ let i : none ≡ some r' = rw q at e in cc
      | inr q ↦ let i : some r ≡ some r' = rw q at e in cc
    ]

    run_session-Keeps : (x : Session lib) → Keeps answer_state (run_session h lib x)
    unfolding run_session
    run_session-Keeps x =
        if-Keeps answer_state (not x.pipeline) (λ s. some (false, s)) _ (answer-Keeps false)
          (if-Keeps answer_state (not (x.src_decoder && x.sink)) (λ s. some (false, s)) _
            (answer-Keeps false)
            (from-Keeps answer_state (add_pads x.pads (false, false)) _ λ v s r e.
              let (r1, i, j) = >>=_some (take_duration h lib x v.0 s) (stop_pipeline h lib x) e in
              rw (stop_pipeline-eq x r1 r j) (take_duration-Keeps x v.0 s r1 i)))

    -- Whatever GStreamer finds in a file, and whether the reader succeeds or not, the record still
    -- has the location and the hash that it had before.
    pub av_meta_reader_gst_read-IsSame :
        (uri : CString → Option CString) (session : CString → Session lib) (path : CString)
        (s s' : State h) (found : Bool)
        → av_meta_reader_gst_read h lib uri session path s ≡ some (found, s')
        → IsSame s.1 s'.1
    unfolding av_meta_reader_gst_read
    av_meta_reader_gst_read-IsSame uri session path s s' found e =
        from-Keeps answer_state (uri path) (λ u. run_session h lib (session u))
          (λ u. run_session-Keeps (session u)) s (found, s') e
