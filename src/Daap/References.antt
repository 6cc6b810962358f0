-- ===== src/Daap/References.antt =====
-- Which references to stringletons a DAAP record holds: src/dmapd-daap-record.c, set_property and
-- finalize.
use dmapd.Prelude.{
  ◌+◌, ◌<◌, ◌≤◌, ◌≡◌, refl, Option, none, some, CString, str_eq, arith, if◌then◌else◌,
}
use dmapd.Stringleton.{StrTable, table_ref, table_unref, guint_mod}
use dmapd.Stringleton.Counts.{Counts, Tracks, live_global, table_ref-Tracks, table_unref-Tracks}
use dmapd.Daap.{
  DaapRecordPrivate, PropId, Value, prop_album, prop_sort_album, prop_artist, prop_sort_artist,
  prop_genre, prop_format, replace_str, replace_sort_str, set_property, finalize,
}
use dmapd.Daap.Properties.{write}
use dmapd.Daap.Live.{IsGiven, dropped, unref-live, replace_str-live}

-- The references that one field holds.
abbrev pub holds : Option CString → Counts
holds none s = 0
holds (some x) s = if str_eq x s then 1 else 0

holds-le : (o : Option CString) (s : CString) → holds o s ≤ 1
holds-le none s = omega arith
holds-le (some x) s = ground arith

-- The references of a record's six stringleton fields.
abbrev pub held : DaapRecordPrivate → Counts
held r s =
    holds r.format s
    + holds r.album s
    + holds r.sort_album s
    + holds r.artist s
    + holds r.sort_artist s
    + holds r.genre s

abbrev pub with : Counts → Counts → Counts
with m n s = m s + n s

module _ (h : StrTable) where
  Tracks-cong :
      (t : h.Table) (m n : Counts) → ((s : CString) → m s ≡ n s) → Tracks h t m → Tracks h t n
  Tracks-cong t m n e k s = rw (← e s) (k s)

  dropped-Tracks :
      (old : Option CString) (t : h.Table) (c : Counts)
      → Tracks h t (with c (holds old))
      → ((s : CString) → c s + 1 < guint_mod)
      → Tracks h (dropped h old t) c
  dropped-Tracks none t c k b = Tracks-cong t _ c (λ s. omega arith) k
  dropped-Tracks (some x) t c k b =
      Tracks-cong (table_unref h x t) _ c (λ s. ground arith)
        (table_unref-Tracks h x t (with c (holds (some x))) k (let b' = b x in ground arith))

  added-Tracks :
      (str : CString) (t : h.Table) (c : Counts)
      → Tracks h t c
      → c str + 1 < guint_mod
      → Tracks h (table_ref h str t) (with c (holds (some str)))
  added-Tracks str t c k b =
      Tracks-cong (table_ref h str t) _ (with c (holds (some str))) (λ s. ground arith)
        (table_ref-Tracks h str t c k b)

  replace_str-Tracks :
      (old : Option CString) (str : CString) (t : h.Table) (c : Counts)
      → Tracks h t (with c (holds old))
      → ((s : CString) → c s + 1 < guint_mod)
      → (t' : h.Table) × (replace_str h old (some str) (live_global h t)
          ≡ some (some str, live_global h t'))
        × Tracks h t' (with c (holds (some str)))
  replace_str-Tracks old str t c k b = (
    table_ref h str (dropped h old t),
    replace_str-live h old str t,
    added-Tracks str (dropped h old t) c (dropped-Tracks old t c k b) (b str),
  )

  replace_sort_str-Tracks :
      (old str : Option CString) (t : h.Table) (c : Counts)
      → Tracks h t (with c (holds old))
      → ((s : CString) → c s + 1 < guint_mod)
      → (t' : h.Table) × (replace_sort_str h old str (live_global h t)
          ≡ some (str, live_global h t'))
        × Tracks h t' (with c (holds str))
  unfolding replace_sort_str
  replace_sort_str-Tracks old none t c k b = (
    dropped h old t,
    rw (unref-live h old t),
    Tracks-cong (dropped h old t) c _ (λ s. omega arith) (dropped-Tracks old t c k b),
  )
  replace_sort_str-Tracks old (some str) t c k b = replace_str-Tracks old str t c k b

  abbrev Balances : (p : PropId) → Value p → h.Table → DaapRecordPrivate → Counts → Type 0
  Balances p v t r others =
      (t' : h.Table) × (set_property h p v (live_global h t, r)
        ≡ some (live_global h t', write p v r))
      × Tracks h t' (with others (held (write p v r)))

  -- With the table tracking the references of others and of the record, setting any property, a
  -- string property that cannot be NULL to a string, returns, writes the one field, and leaves
  -- the table tracking the references of others and of the new record. The references of others
  -- stay seven below 2^32.
  pub set_property-Tracks :
      (p : PropId) (v : Value p) (t : h.Table) (r : DaapRecordPrivate) (others : Counts)
      → IsGiven p v
      → Tracks h t (with others (held r))
      → ((s : CString) → others s + 7 < guint_mod)
      → Balances p v t r others
  unfolding set_property write
  set_property-Tracks prop_format none t r others g k b = absurd g
  set_property-Tracks prop_format (some str) t r others g k b =
      let c : Counts = λ s.
        others s
        + (holds r.album s
            + holds r.sort_album s
            + holds r.artist s
            + holds r.sort_artist s
            + holds r.genre s) in
      let (t', e, k') =
        replace_str-Tracks r.format str t c (Tracks-cong t _ _ (λ s. omega arith) k) (λ s.
          let b' = b s in
          omega (
            arith,
            holds-le r.album s,
            holds-le r.sort_album s,
            holds-le r.artist s,
            holds-le r.sort_artist s,
            holds-le r.genre s,
          )) in
      (t', rw e, Tracks-cong t' _ _ (λ s. omega arith) k')
  set_property-Tracks prop_album none t r others g k b = absurd g
  set_property-Tracks prop_album (some str) t r others g k b =
      let c : Counts = λ s.
        others s
        + (holds r.format s
            + holds r.sort_album s
            + holds r.artist s
            + holds r.sort_artist s
            + holds r.genre s) in
      let (t', e, k') =
        replace_str-Tracks r.album str t c (Tracks-cong t _ _ (λ s. omega arith) k) (λ s.
          let b' = b s in
          omega (
            arith,
            holds-le r.format s,
            holds-le r.sort_album s,
            holds-le r.artist s,
            holds-le r.sort_artist s,
            holds-le r.genre s,
          )) in
      (t', rw e, Tracks-cong t' _ _ (λ s. omega arith) k')
  set_property-Tracks prop_sort_album v t r others g k b =
      let c : Counts = λ s.
        others s
        + (holds r.format s
            + holds r.album s
            + holds r.artist s
            + holds r.sort_artist s
            + holds r.genre s) in
      let (t', e, k') =
        replace_sort_str-Tracks r.sort_album v t c (Tracks-cong t _ _ (λ s. omega arith) k) (λ s.
          let b' = b s in
          omega (
            arith,
            holds-le r.format s,
            holds-le r.album s,
            holds-le r.artist s,
            holds-le r.sort_artist s,
            holds-le r.genre s,
          )) in
      (t', rw e, Tracks-cong t' _ _ (λ s. omega arith) k')
  set_property-Tracks prop_artist none t r others g k b = absurd g
  set_property-Tracks prop_artist (some str) t r others g k b =
      let c : Counts = λ s.
        others s
        + (holds r.format s
            + holds r.album s
            + holds r.sort_album s
            + holds r.sort_artist s
            + holds r.genre s) in
      let (t', e, k') =
        replace_str-Tracks r.artist str t c (Tracks-cong t _ _ (λ s. omega arith) k) (λ s.
          let b' = b s in
          omega (
            arith,
            holds-le r.format s,
            holds-le r.album s,
            holds-le r.sort_album s,
            holds-le r.sort_artist s,
            holds-le r.genre s,
          )) in
      (t', rw e, Tracks-cong t' _ _ (λ s. omega arith) k')
  set_property-Tracks prop_sort_artist v t r others g k b =
      let c : Counts = λ s.
        others s
        + (holds r.format s
            + holds r.album s
            + holds r.sort_album s
            + holds r.artist s
            + holds r.genre s) in
      let (t', e, k') =
        replace_sort_str-Tracks r.sort_artist v t c (Tracks-cong t _ _ (λ s. omega arith) k) (λ s.
          let b' = b s in
          omega (
            arith,
            holds-le r.format s,
            holds-le r.album s,
            holds-le r.sort_album s,
            holds-le r.artist s,
            holds-le r.genre s,
          )) in
      (t', rw e, Tracks-cong t' _ _ (λ s. omega arith) k')
  set_property-Tracks prop_genre none t r others g k b = absurd g
  set_property-Tracks prop_genre (some str) t r others g k b =
      let c : Counts = λ s.
        others s
        + (holds r.format s
            + holds r.album s
            + holds r.sort_album s
            + holds r.artist s
            + holds r.sort_artist s) in
      let (t', e, k') =
        replace_str-Tracks r.genre str t c (Tracks-cong t _ _ (λ s. omega arith) k) (λ s.
          let b' = b s in
          omega (
            arith,
            holds-le r.format s,
            holds-le r.album s,
            holds-le r.sort_album s,
            holds-le r.artist s,
            holds-le r.sort_artist s,
          )) in
      (t', rw e, Tracks-cong t' _ _ (λ s. omega arith) k')
  set_property-Tracks _ v t r others g k b = (t, refl, k)

  released-Tracks :
      (old : Option CString) (t : h.Table) (c m : Counts)
      → Tracks h t m
      → ((s : CString) → m s ≡ c s + holds old s)
      → ((s : CString) → c s + 1 < guint_mod)
      → Tracks h (dropped h old t) c
  released-Tracks old t c m k e b = dropped-Tracks old t c (Tracks-cong t m _ e k) b

  -- Finalizing a record returns and gives back its references to the format, album, artist and
  -- genre. Those to the two sort names stay in the table, where nothing will give them back.
  pub finalize-Tracks :
      (t : h.Table) (r : DaapRecordPrivate) (others : Counts)
      → Tracks h t (with others (held r))
      → ((s : CString) → others s + 7 < guint_mod)
      → (t' : h.Table) × (finalize h (live_global h t, r) ≡ some (live_global h t'))
        × Tracks h t' (λ s. others s + (holds r.sort_album s + holds r.sort_artist s))
  unfolding finalize
  finalize-Tracks t r others k b =
      let left : Counts = λ s. others s + (holds r.sort_album s + holds r.sort_artist s) in
      let c3 : Counts = with left (holds r.genre) in
      let c2 : Counts = with c3 (holds r.artist) in
      let c1 : Counts = with c2 (holds r.album) in
      let t1 = dropped h r.format t in
      let t2 = dropped h r.album t1 in
      let t3 = dropped h r.artist t2 in
      let room : (s : CString) → c1 s + 1 < guint_mod = λ s.
        let b' = b s in
        omega (
          arith,
          holds-le r.sort_album s,
          holds-le r.sort_artist s,
          holds-le r.genre s,
          holds-le r.artist s,
          holds-le r.album s,
        ) in
      let k1 = released-Tracks r.format t c1 _ k (λ s. omega arith) room in
      let k2 = dropped-Tracks r.album t1 c2 k1 (λ s. let m = room s in omega arith) in
      let k3 = dropped-Tracks r.artist t2 c3 k2 (λ s. let m = room s in omega arith) in
      let k4 = dropped-Tracks r.genre t3 left k3 (λ s. let m = room s in omega arith) in
      (
        dropped h r.genre t3,
        rw (unref-live h r.format t, unref-live h r.album t1, unref-live h r.artist t2)
            (unref-live h r.genre t3),
        k4,
      )
