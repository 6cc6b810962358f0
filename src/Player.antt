-- ===== src/Player.antt =====
-- src/av-render-gst.c: the player that sends the songs of a cue to a speaker. GStreamer's answers
-- are parameters. The results of transition_pipeline that the code does not look at are left out.
pub mod Cue
pub mod Tests
use dmapd.Prelude.{
  ℕ, zero, suc, Bool, true, false, ◌&&◌, not, Option, none, some, List, [], ◌∷◌, CString,
  if◌then◌else◌, ◌>>=◌,
}
use dmapd.TagReader.{contains}
use dmapd.TagReader.Session.{Pad, video, audio}

pub data PlayState : Type 0 where
  stopped paused playing : PlayState

-- The location of a song's record.
abbrev pub Song : Type 0
Song = Option CString

pub record AvRenderGst : Type 0 where
  -- whether there is a pipeline, and with it the decoder and the sink
  pub pipeline : Bool
  -- what the decoder is set to play
  pub uri : Song
  pub play_state : PlayState
  pub song_list : List Song
  -- the cue from the current song on; NULL where it is empty
  pub song_current : List Song
  -- whether g_main_loop_quit has been put into the idle queue
  pub quits : Bool

abbrev pub new_render : AvRenderGst
new_render = record {
  pipeline = false;
  uri = none;
  play_state = stopped;
  song_list = [];
  song_current = [];
  quits = false;
}

unfoldable pub now_playing_record : AvRenderGst → Option Song
now_playing_record s = elim s.song_current [ [] ↦ none | song ∷ rest ↦ some song ]

unfoldable pub pause : AvRenderGst → AvRenderGst
pause s = record s { play_state = paused }

-- What gst_element_get_state gives: no success, or whether the pipeline is paused.
unfoldable pub play_pause : Option Bool → AvRenderGst → AvRenderGst
unfolding pause
play_pause none s = s
play_pause (some is_paused) s =
    if not s.pipeline then s else if is_paused then record s { play_state = playing } else pause s

-- `none` is the read of a NULL song.
unfoldable play_from : List Song → AvRenderGst → Option AvRenderGst
play_from [] s = none
play_from (song ∷ rest) s = some (record s { uri = song; play_state = playing })

unfoldable pub play_list_starting_at_current : AvRenderGst → Option AvRenderGst
unfolding play_from
play_list_starting_at_current s = play_from s.song_current s

unfoldable skip_from : List Song → AvRenderGst → Option AvRenderGst
unfolding play_list_starting_at_current
skip_from [] s = none
skip_from (song ∷ rest) s = play_list_starting_at_current (record s { song_current = rest })

-- `none` where there is no current song, or none after it.
unfoldable pub next_item : AvRenderGst → Option AvRenderGst
unfolding skip_from
next_item s = skip_from s.song_current s

unfoldable pub cue_clear : AvRenderGst → AvRenderGst
cue_clear s =
    if s.pipeline
    then record s {
      pipeline = false;
      play_state = stopped;
      song_list = [];
      song_current = [];
      quits = true;
    }
    else record s { song_list = []; song_current = [] }

pub data Message : Type 0 where
  message_error message_eos message_other : Message

-- song_current && song_current->next
unfoldable has_next : List Song → Bool
has_next [] = false
has_next (song ∷ []) = false
has_next (song ∷ next ∷ rest) = true

unfoldable pub bus_cb : Message → AvRenderGst → Option AvRenderGst
unfolding next_item has_next
bus_cb message_error s = some (record s { play_state = stopped; quits = true })
bus_cb message_eos s =
    if has_next s.song_current then next_item s else some (record s { quits = true })
bus_cb message_other s = some s

-- What the main loop runs: the bus, and what the user does.
pub data Event : Type 0 where
  bus : Message → Event
  user_play_pause : Option Bool → Event
  user_pause user_next_item user_cue_clear : Event

unfoldable pub handle : Event → AvRenderGst → Option AvRenderGst
unfolding bus_cb play_pause cue_clear
handle (bus message) s = bus_cb message s
handle (user_play_pause answer) s = some (play_pause answer s)
handle user_pause s = some (pause s)
handle user_next_item s = next_item s
handle user_cue_clear s = some (cue_clear s)

-- g_main_loop_run: the events until the loop quits. Where it does not, the last state still waits.
-- No event is dispatched between a call to g_idle_add and the quit, though GLib may do so.
unfoldable pub main_loop : List Event → AvRenderGst → Option AvRenderGst
unfolding handle
main_loop [] s = some s
main_loop (event ∷ events) s =
    let rest = main_loop events in if s.quits then some s else handle event s >>= rest

-- What is made of the pipeline's elements, and what links.
pub record Parts : Type 0 where
  pub pipeline : Bool
  pub src_decoder : Bool
  pub resample : Bool
  pub convert : Bool
  pub sink : Bool
  pub links_resample : Bool
  pub links_convert : Bool
  pub bus : Bool
  -- transition_pipeline (pipeline, GST_STATE_NULL) at the end
  pub stops : Bool
  -- whether a call to quit is in the idle queue after the loop: one that was put there more than
  -- once, or one that GLib keeps, as g_main_loop_quit gives no value to a caller that reads one
  pub quit_stays : Bool

unfoldable pub setup_pipeline : Parts → Bool
setup_pipeline p =
    p.pipeline && p.src_decoder && p.resample && p.convert && p.sink && p.links_resample
    && p.links_convert

-- g_list_nth
unfoldable pub nth : ℕ → List Song → List Song
nth n [] = []
nth zero l = l
nth (suc n) (song ∷ l) = nth n l

-- The cue from the given index on, before the main loop runs. A call to quit that is still in the
-- idle queue stays there.
unfoldable pub cue_start : List Song → ℕ → AvRenderGst → Option AvRenderGst
unfolding nth play_list_starting_at_current
cue_start records index s =
    play_list_starting_at_current
      (record s { pipeline = true; song_list = records; song_current = nth index records })

unfoldable cue_end : Parts → AvRenderGst → AvRenderGst
cue_end p s =
    if s.pipeline && p.stops
    then record s { pipeline = false; play_state = stopped; quits = p.quit_stays }
    else record s { pipeline = false; quits = p.quit_stays }

-- The events are those that come while the main loop runs. `none` is also a loop that still waits
-- after them.
unfoldable pub cue_play : Parts → List Song → ℕ → List Event → AvRenderGst → Option AvRenderGst
unfolding setup_pipeline cue_start main_loop cue_end
cue_play p records index events s =
    if setup_pipeline p && p.bus
    then (cue_start records index s >>= main_loop events >>= λ t.
        if t.quits then some (cue_end p t) else none)
    else some (record s { pipeline = false })

-- `none` is a failed assertion: no sink pad, or one that is linked.
unfoldable link_pad : Pad → Bool → Option Bool
link_pad pad linked =
    if not pad.has_sink_pad
    then none
    else if not pad.compatible
    then some linked
    else if linked
    then none
    else some pad.links

unfoldable pub pad_added_cb : Pad → Bool → Option Bool
unfolding link_pad
pad_added_cb pad linked = elim pad.mimetype [
  | none ↦ some linked
  | some mimetype ↦
      if contains mimetype video
      then some linked
      else if contains mimetype audio
      then link_pad pad linked
      else some linked
]
