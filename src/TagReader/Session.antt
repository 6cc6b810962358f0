-- ===== src/TagReader/Session.antt =====
-- src/av-meta-reader-gst.c, message_loop, pad_added_cb and av_meta_reader_gst_read. What GStreamer
-- does with one URI is a session: the answers to the calls that the reader makes, in their order.
-- The main loop runs the callbacks for the pads and then ends, by no_more_pads_cb or by the timer.
use dmapd.Prelude.{
  ℕ, ◌-◌, ◌/◌, ◌%◌, ◌^◌, Bool, true, false, ◌&&◌, not, Option, none, some, List, [], ◌∷◌, CString,
  ltb, if◌then◌else◌, ◌>>=◌,
}
use dmapd.Stringleton.{StrTable}
use dmapd.Daap.{prop_duration, prop_has_video, State, object_set}
use dmapd.TagReader.{TagLib, contains, insert_tags}

-- A pad that uridecodebin adds: its mimetype where its caps tell one, whether the sink has a static
-- pad, whether the two are compatible, and whether gst_pad_link links them.
pub record Pad : Type 0 where
  pub mimetype : Option CString
  pub has_sink_pad : Bool
  pub compatible : Bool
  pub links : Bool

module _ (lib : TagLib) where
  pub data Message : Type 0 where
    -- GST_MESSAGE_TAG, with the tag list that gst_message_parse_tag gives
    tag_message : Option lib.TagList → Message
    other_message : Message

  pub record Session : Type 0 where
    pub pipeline : Bool
    pub src_decoder : Bool
    pub sink : Bool
    -- transition_pipeline (pipeline, GST_STATE_PAUSED)
    pub pauses : Bool
    pub pads : List Pad
    -- the 64 bits of gst_element_query_duration's gint64
    pub duration : Option ℕ
    pub bus : Option (List Message)
    -- transition_pipeline (pipeline, GST_STATE_NULL)
    pub stops : Bool

  merge_tags : Option lib.TagList → lib.TagList → Option lib.TagList
  merge_tags none new_tags = some new_tags
  merge_tags (some old_tags) new_tags = lib.merge old_tags new_tags

  -- The function's value, and the tags that it leaves.
  unfoldable pub messages : List Message → Option lib.TagList → Bool × Option lib.TagList
  unfolding merge_tags
  messages [] tags = (true, tags)
  messages (other_message ∷ l) tags = messages l tags
  messages (tag_message none ∷ l) tags = (false, tags)
  messages (tag_message (some new_tags) ∷ l) tags =
      let rest = messages l in
      elim (merge_tags tags new_tags) [ none ↦ (false, none) | some t ↦ rest (some t) ]

  unfoldable pub message_loop :
      Option (List Message) → Option lib.TagList → Bool × Option lib.TagList
  unfolding messages
  message_loop none tags = (false, tags)
  message_loop (some l) tags = messages l tags

-- "video" and "audio"
abbrev pub video : CString
video = b'v' ∷ b'i' ∷ b'd' ∷ b'e' ∷ b'o' ∷ []

abbrev pub audio : CString
audio = b'a' ∷ b'u' ∷ b'd' ∷ b'i' ∷ b'o' ∷ []

-- has_video, and whether the sink's pad is linked.
abbrev pub Links : Type 0
Links = Bool × Bool

-- `none` is the failed assertion that the sink's pad is not linked.
unfoldable pub link_pad : Pad → Links → Option Links
link_pad pad (v, linked) =
    if pad.has_sink_pad && pad.compatible
    then (if linked then none else some (v, pad.links))
    else some (v, linked)

unfoldable pub pad_added_cb : Pad → Links → Option Links
unfolding link_pad
pad_added_cb pad (v, linked) = elim pad.mimetype [
  | none ↦ some (v, linked)
  | some mimetype ↦
      if contains mimetype video
      then some (true, linked)
      else if contains mimetype audio
      then link_pad pad (v, linked)
      else some (v, linked)
]

unfoldable pub add_pads : List Pad → Links → Option Links
unfolding pad_added_cb
add_pads [] s = some s
add_pads (pad ∷ pads) s = pad_added_cb pad s >>= add_pads pads

-- (gint32) (nanoduration / GST_SECOND), where division rounds toward zero
unfoldable pub seconds : ℕ → ℕ
seconds n =
    if ltb n (2 ^ 63)
    then (n / 1000000000) % 2 ^ 32
    else (2 ^ 64 - (2 ^ 64 - n) / 1000000000) % 2 ^ 32

abbrev pub flag : Bool → ℕ
flag true = 1
flag false = 0

module _ (h : StrTable) (lib : TagLib) where
  -- The tags, when message_loop has gone well.
  unfoldable pub take_messages :
      Bool × Option lib.TagList → Bool → State h → Option (Bool × State h)
  take_messages (false, tags) v s = some (false, s)
  take_messages (true, none) v s =
      object_set h ((prop_has_video, flag v) ∷ []) s >>= λ s1. some (true, s1)
  take_messages (true, some tags) v s = object_set h ((prop_has_video, flag v) ∷ []) s >>= λ s1.
      insert_tags h lib tags (lib.names tags) s1 >>= λ s2. some (true, s2)

  -- From the query of the duration to the end of the metadata.
  unfoldable pub take_duration : Session lib → Bool → State h → Option (Bool × State h)
  unfolding take_messages seconds message_loop
  take_duration x v s = elim x.duration [
    | none ↦ some (false, s)
    | some nanoduration ↦
        object_set h ((prop_duration, seconds nanoduration) ∷ []) s
        >>= take_messages (message_loop lib x.bus none) v
  ]

  -- g_error where a paused pipeline does not stop.
  unfoldable pub stop_pipeline : Session lib → Bool × State h → Option (Bool × State h)
  stop_pipeline x r = if x.pauses && not x.stops then none else some r

  unfoldable pub run_session : Session lib → State h → Option (Bool × State h)
  unfolding take_duration stop_pipeline add_pads
  run_session x s =
      if not x.pipeline
      then some (false, s)
      else if not (x.src_decoder && x.sink)
      then some (false, s)
      else add_pads x.pads (false, false) >>= λ v. take_duration x v.0 s >>= stop_pipeline x

  -- Where the path has no URI, the code gives back a mutex that it has not taken, which is `none`.
  unfoldable pub av_meta_reader_gst_read :
      (CString → Option CString)
      → (CString → Session lib)
      → CString
      → State h
      → Option (Bool × State h)
  unfolding run_session
  av_meta_reader_gst_read filename_to_uri session path s =
      filename_to_uri path >>= λ uri. run_session (session uri) s
