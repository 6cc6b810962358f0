-- ===== src/Player/Tests.antt =====
-- A cue of two songs, played to its end with a pause between them.
use dmapd.Prelude.{◌≡◌, refl, true, some, List, [], ◌∷◌, arith, inl}
use dmapd.Player.{
  AvRenderGst, Song, Event, bus, user_pause, message_eos, message_other, main_loop, new_render,
  cue_start, playing, nth,
}
use dmapd.Player.Cue.{IsPlaying, ends, count_eos, main_loop-quits, cue_start-IsPlaying}

abbrev cue : List Song
cue = some (b'a' ∷ []) ∷ some (b'b' ∷ []) ∷ []

abbrev at_start : AvRenderGst
at_start = record new_render {
  pipeline = true;
  uri = some (b'a' ∷ []);
  play_state = playing;
  song_list = cue;
  song_current = cue;
}

abbrev evening : List Event
evening = bus message_other ∷ bus message_eos ∷ user_pause ∷ bus message_eos ∷ []

main_loop-quits_example :
    (t : AvRenderGst) × (main_loop evening at_start ≡ some t) × (t.quits ≡ true)
unfolding count_eos
main_loop-quits_example =
    main_loop-quits evening at_start (tt, (tt, (tt, (tt, tt)))) (omega arith) (inl (omega arith))

cue_start-IsPlaying_example :
    (t : AvRenderGst) × (u : AvRenderGst) × (cue_start cue 0 new_render ≡ some t)
    × (main_loop (ends 1) t ≡ some u)
    × IsPlaying u (some (b'b' ∷ [])) []
unfolding nth
cue_start-IsPlaying_example = cue_start-IsPlaying cue 0 1 new_render (some (b'b' ∷ [])) [] refl refl
