-- ===== src/Player/Cue.antt =====
-- A cue is played to its end: src/av-render-gst.c, bus_cb and the main loop of cue_play.
use dmapd.Prelude.{
  ℕ, zero, suc, ◌+◌, ◌≤◌, ◌<◌, ◌≡◌, refl, ◌∙◌, Bool, true, false, Bool-cases, ◌⊎◌, if◌then◌else◌,
  inl, inr, Option, none, some, List, [], ◌∷◌, length, All, arith,
}
use dmapd.Player.{
  AvRenderGst, Song, Event, bus, user_play_pause, user_pause, user_next_item, user_cue_clear,
  message_eos, message_error, message_other, handle, main_loop, bus_cb, play_pause, pause,
  next_item, skip_from, play_from, play_list_starting_at_current, has_next, playing, nth, cue_start,
}

-- Neither a skip nor a clear: what the bus sends, and what pauses.
abbrev pub IsPatient : Event → Type 0
IsPatient user_next_item = ⊥
IsPatient user_cue_clear = ⊥
IsPatient _ = Unit

-- How many songs have come to their end.
unfoldable pub count_eos : List Event → ℕ
count_eos [] = 0
count_eos (bus message_eos ∷ l) = suc (count_eos l)
count_eos (_ ∷ l) = count_eos l

unfoldable is_error : Event → Bool
is_error (bus message_error) = true
is_error _ = false

-- Whether the bus sends an error.
unfoldable pub has_error : List Event → Bool
unfolding is_error
has_error [] = false
has_error (event ∷ l) = if is_error event then true else has_error l

-- What a handled event leaves: the loop quits, or the event is no error and the cue is shorter by
-- the songs that have ended.
abbrev Progress : AvRenderGst → AvRenderGst → Event → Type 0
Progress s t event =
    (t.quits ≡ true)
    ⊎ ((0 < length t.song_current)
        × (length t.song_current + count_eos (event ∷ []) ≤ length s.song_current)
        × (is_error event ≡ false))

abbrev Handled : Event → AvRenderGst → Type 0
Handled event s = (t : AvRenderGst) × (handle event s ≡ some t) × Progress s t event

play_pause-current :
    (answer : Option Bool) (s : AvRenderGst) → (play_pause answer s).song_current ≡ s.song_current
unfolding play_pause pause
play_pause-current none s = refl
play_pause-current (some true) s = ground arith
play_pause-current (some false) s = ground arith

eos-Handled :
    (l : List Song) (s : AvRenderGst)
    → s.song_current ≡ l
    → 0 < length l
    → Handled (bus message_eos) s
unfolding handle bus_cb has_next next_item skip_from play_list_starting_at_current play_from
    count_eos is_error
eos-Handled [] s e pos = absurd (omega arith)
eos-Handled (song ∷ []) s e pos = (record s { quits = true }, rw e refl, inl refl)
eos-Handled (song ∷ next ∷ rest) s e pos = (
  record s { song_current = next ∷ rest; uri = next; play_state = playing },
  rw e refl,
  inr (omega arith, rw e (omega arith), refl),
)

handle-Handled :
    (event : Event) (s : AvRenderGst)
    → IsPatient event
    → 0 < length s.song_current
    → Handled event s
unfolding handle bus_cb count_eos pause is_error
handle-Handled (bus message_error) s k pos = (_, refl, inl refl)
handle-Handled (bus message_eos) s k pos = eos-Handled s.song_current s refl pos
handle-Handled (bus message_other) s k pos = (s, refl, inr (pos, omega arith, refl))
handle-Handled (user_play_pause answer) s k pos =
    (play_pause answer s, refl, inr (rw (play_pause-current answer s) (pos, omega arith, refl)))
handle-Handled user_pause s k pos = (_, refl, inr (pos, omega arith, refl))
handle-Handled user_next_item s k pos = absurd k
handle-Handled user_cue_clear s k pos = absurd k

main_loop-stopped :
    (events : List Event) (s : AvRenderGst) → s.quits ≡ true → main_loop events s ≡ some s
unfolding main_loop
main_loop-stopped [] s q = refl
main_loop-stopped (event ∷ events) s q = rw q refl

count_eos-cons :
    (event : Event) (l : List Event) → count_eos (event ∷ l) ≡ count_eos (event ∷ []) + count_eos l
unfolding count_eos
count_eos-cons (bus message_eos) l = omega arith
count_eos-cons _ l = omega arith

main_loop-step :
    (event : Event) (events : List Event) (s t : AvRenderGst)
    → s.quits ≡ false
    → handle event s ≡ some t
    → main_loop (event ∷ events) s ≡ main_loop events t
unfolding main_loop
main_loop-step event events s t q e = rw (e, q) refl

-- The end that is still to come after an event that was not it.
later :
    (event : Event) (events : List Event) (s t : AvRenderGst)
    → length t.song_current + count_eos (event ∷ []) ≤ length s.song_current
    → is_error event ≡ false
    → (length s.song_current ≤ count_eos (event ∷ events)) ⊎ (has_error (event ∷ events) ≡ true)
    → (length t.song_current ≤ count_eos events) ⊎ (has_error events ≡ true)
unfolding has_error
later event events s t le no_error (inl enough) = inl (omega (arith, count_eos-cons event events))
later event events s t le no_error (inr found) = inr (rw no_error at found)

-- While songs are left, and whatever else the bus sends and however often the player is paused,
-- in any order: once as many songs have come to their end as the cue had left, or once the bus has
-- sent an error, the main loop has quit, and no NULL was read.
pub main_loop-quits :
    (events : List Event) (s : AvRenderGst)
    → All IsPatient events
    → 0 < length s.song_current
    → (length s.song_current ≤ count_eos events) ⊎ (has_error events ≡ true)
    → (t : AvRenderGst) × (main_loop events s ≡ some t) × (t.quits ≡ true)
unfolding main_loop count_eos has_error
main_loop-quits [] s k pos (inl le) = absurd (omega arith)
main_loop-quits [] s k pos (inr e) = cc
main_loop-quits (event ∷ events) s (k, ks) pos last = elim (Bool-cases s.quits) [
  | inl q ↦ (s, rw q refl, q)
  | inr q ↦
      let (t, e, p) = handle-Handled event s k pos in
      elim p [
        | inl stop ↦
            (t, main_loop-step event events s t q e ∙ main_loop-stopped events t stop, stop)
        | inr (pos', le', no_error) ↦
            let (u, f, r) =
              main_loop-quits events t ks pos' (later event events s t le' no_error last) in
            (u, main_loop-step event events s t q e ∙ f, r)
      ]
]

-- The player plays the first song of `l`, and the loop runs.
pub record IsPlaying (s : AvRenderGst) (song : Song) (rest : List Song) : Type 0 where
  pub current : s.song_current ≡ song ∷ rest
  pub uri : s.uri ≡ song
  pub plays : s.play_state ≡ playing
  pub runs : s.quits ≡ false

abbrev pub ends : ℕ → List Event
ends zero = []
ends (suc k) = bus message_eos ∷ ends k

next-IsPlaying :
    (s : AvRenderGst) (song next : Song) (rest : List Song)
    → IsPlaying s song (next ∷ rest)
    → (t : AvRenderGst) × (handle (bus message_eos) s ≡ some t) × IsPlaying t next rest
unfolding handle bus_cb has_next next_item skip_from play_list_starting_at_current play_from
next-IsPlaying s song next rest p = (
  record s { song_current = next ∷ rest; uri = next; play_state = playing },
  rw p.current refl,
  record { current = refl; uri = refl; plays = refl; runs = p.runs },
)

main_loop-IsPlaying :
    (k : ℕ) (s : AvRenderGst) (song : Song) (rest : List Song) (song' : Song) (rest' : List Song)
    → IsPlaying s song rest
    → nth k (song ∷ rest) ≡ song' ∷ rest'
    → (t : AvRenderGst) × (main_loop (ends k) s ≡ some t) × IsPlaying t song' rest'
unfolding nth main_loop
main_loop-IsPlaying zero s song rest song' rest' p e =
    let i : song ≡ song' = cc in
    (s, refl, record { current = p.current ∙ e; uri = p.uri ∙ i; plays = p.plays; runs = p.runs })
main_loop-IsPlaying (suc k) s song [] song' rest' p e = cc
main_loop-IsPlaying (suc k) s song (next ∷ rest) song' rest' p e =
    let (t, h, q) = next-IsPlaying s song next rest p in
    let (u, m, r) = main_loop-IsPlaying k t next rest song' rest' q e in
    (u, main_loop-step (bus message_eos) (ends k) s t p.runs h ∙ m, r)

nth_add : (i k : ℕ) (l : List Song) → nth k (nth i l) ≡ nth (i + k) l
unfolding nth
nth_add i k [] = refl
nth_add zero k (song ∷ l) = let e : 0 + k ≡ k = omega arith in rw e refl
nth_add (suc i) k (song ∷ l) = let e : suc i + k ≡ suc (i + k) = omega arith in rw e (nth_add i k l)

start_at :
    (records l : List Song) (index k : ℕ) (s : AvRenderGst) (song : Song) (rest : List Song)
    → s.quits ≡ false
    → nth index records ≡ l
    → nth k l ≡ song ∷ rest
    → (t : AvRenderGst) × (u : AvRenderGst) × (cue_start records index s ≡ some t)
      × (main_loop (ends k) t ≡ some u)
      × IsPlaying u song rest
unfolding cue_start play_list_starting_at_current play_from nth
start_at records [] index k s song rest q d e = cc
start_at records (first ∷ l) index k s song rest c d e =
    let t : AvRenderGst = record s {
      pipeline = true;
      uri = first;
      play_state = playing;
      song_list = records;
      song_current = first ∷ l;
    } in
    let (u, m, q) =
      main_loop-IsPlaying k t first l song rest
        (record { current = refl; uri = refl; plays = refl; runs = c }) e in
    (t, u, rw d refl, m, q)

-- Where no call to quit is left in the idle queue from before, and for an index in the cue and as
-- many songs after it: playing the cue from the index on starts,
-- and when that many songs have come to their end, the player plays the song as far behind the
-- index, from its location, and the main loop still runs.
pub cue_start-IsPlaying :
    (records : List Song) (index k : ℕ) (s : AvRenderGst) (song : Song) (rest : List Song)
    → s.quits ≡ false
    → nth (index + k) records ≡ song ∷ rest
    → (t : AvRenderGst) × (u : AvRenderGst) × (cue_start records index s ≡ some t)
      × (main_loop (ends k) t ≡ some u)
      × IsPlaying u song rest
cue_start-IsPlaying records index k s song rest q e =
    start_at records (nth index records) index k s song rest q refl (nth_add index k records ∙ e)
