-- ===== src/BdbDb/Search.antt =====
-- The search for a location: src/dmapd-dmap-db-bdb.c, lookup_id_by_location.
use mathlib.Core.Path.{subst}
use dmapd.Prelude.{
  ℕ, zero, suc, ◌+◌, ◌-◌, ◌≤◌, ◌<◌, ◌≡◌, ◌≢◌, refl, ap, ◌∙◌, Bool, true, false, Option, none, some,
  CString, Bytes, ◌⊎◌, inl, inr, Bool-cases, ◌==◌, ==_iff, sym, str_eq, str_eq_iff, if◌then◌else◌,
  ◌>>=◌, >>=_some, arith,
}
use dmapd.RecordClass.{RecordClass}
use dmapd.GhashtableDb.{max_id}
use dmapd.BdbDb.{Btree, State, lookup_by_id, is_at, search, lookup_id_by_location}

module _ (c : RecordClass) (b : Btree)
    (left : Bytes → c.World × c.Record → c.World × c.Record) where
  -- What a lookup of the id has given: the record, or NULL.
  abbrev pub Gives : State c b left → ℕ → Option c.Record → Type 0
  Gives s id o = (w : c.World) × (w' : c.World) × (lookup_by_id c b left id s w ≡ some (o, w'))

  abbrev pub IsHit : State c b left → CString → ℕ → Type 0
  IsHit s location id = (r : c.Record) × Gives s id (some r) × (c.location r ≡ some location)

  abbrev pub IsMiss : State c b left → CString → ℕ → Type 0
  IsMiss s location id =
      (o : Option c.Record) × Gives s id o
      × ((r : c.Record) → o ≡ some r → c.location r ≢ some location)

  -- The answer of a search down from `top`: the first hit, or 0.
  pub record IsFirst (s : State c b left) (location : CString) (top id : ℕ) : Type 0 where
    pub hit : (id ≡ 0) ⊎ ((s.nextid < id) × (id ≤ top) × IsHit s location id)
    pub misses : (j : ℕ) → s.nextid < j → id < j → j ≤ top → IsMiss s location j

  is_at-hit :
      (location : CString) (o : Option c.Record) (w w' : c.World)
      → is_at c b left location (o, w) ≡ some (true, w')
      → (r : c.Record) × (o ≡ some r) × (c.location r ≡ some location)
  unfolding is_at
  is_at-hit location none w w' e = cc
  is_at-hit location (some r) w w' e =
      let (l, i, j) = >>=_some (c.location r) _ e in
      let (w1, k, m) = >>=_some (c.finalize r w) _ j in
      let q : str_eq l location ≡ true = cc in
      let same : l ≡ location = (str_eq_iff l location).0 q in (r, refl, i ∙ ap some same)

  is_at-miss :
      (location : CString) (o : Option c.Record) (w w' : c.World)
      → is_at c b left location (o, w) ≡ some (false, w')
      → (r : c.Record) → o ≡ some r
      → c.location r ≢ some location
  unfolding is_at
  is_at-miss location none w w' e r i n = cc
  is_at-miss location (some r') w w' e r i n =
      let (l, p, j) = >>=_some (c.location r') _ e in
      let (w1, k, m) = >>=_some (c.finalize r' w) _ j in
      let q : str_eq l location ≡ false = cc in
      let same : l ≡ location = cc in
      let t : str_eq l location ≡ true = (str_eq_iff l location).1 same in cc

  search-IsFirst :
      (location : CString) (n : ℕ) (s : State c b left) (w : c.World) (id : ℕ) (w' : c.World)
      → search c b left location n s w ≡ some (id, w')
      → IsFirst s location (s.nextid + n) id
  unfolding search
  search-IsFirst location zero s w id w' e = record {
    hit = inl (ground arith);
    misses = λ j lo up le. absurd (omega arith);
  }
  search-IsFirst location (suc n) s w id w' e =
      let ((found, w2), i, p) =
        >>=_some (lookup_by_id c b left (s.nextid + suc n) s w >>= is_at c b left location)
          (λ x. if x.0 then some ((s.nextid + suc n), x.1) else search c b left location n s x.1)
          e in
      let ((o, w1), j, k) =
        >>=_some (lookup_by_id c b left (s.nextid + suc n) s w) (is_at c b left location) i in
      go found o w1 w2 (w, w1, j) k p (λ q. search-IsFirst location n s w2 id w' q)
    where
      miss :
          (o : Option c.Record) (w1 w2 : c.World)
          → Gives s (s.nextid + suc n) o
          → is_at c b left location (o, w1) ≡ some (false, w2)
          → IsFirst s location (s.nextid + n) id
          → (j : ℕ) → s.nextid < j
          → id < j
          → j ≤ (s.nextid + suc n)
          → IsMiss s location j
      miss o w1 w2 given k rest j lo up le = elim (Bool-cases (j == (s.nextid + suc n))) [
        | inl q ↦
            let same : j ≡ (s.nextid + suc n) = (==_iff j (s.nextid + suc n)).0 q in
            subst (IsMiss s location) (sym same) (o, given, is_at-miss location o w1 w2 k)
        | inr q ↦
            let ne : j ≢ (s.nextid + suc n) = ground arith in rest.misses j lo up (omega arith)
      ]

      go :
          (found : Bool) (o : Option c.Record) (w1 w2 : c.World)
          → Gives s (s.nextid + suc n) o
          → is_at c b left location (o, w1) ≡ some (found, w2)
          → (if found then some ((s.nextid + suc n), w2) else search c b left location n s w2)
            ≡ some (id, w')
          → (search c b left location n s w2 ≡ some (id, w') → IsFirst s location (s.nextid + n) id)
          → IsFirst s location (s.nextid + suc n) id
      go true o w1 w2 given k p below =
          let (r, q, m) = is_at-hit location o w1 w2 k in
          let same : (s.nextid + suc n) ≡ id = ground arith in
          subst (IsFirst s location (s.nextid + suc n)) same (record {
            hit =
                inr (omega arith, omega arith, (r, subst (Gives s (s.nextid + suc n)) q given, m));
            misses = λ j lo up le. absurd (omega arith);
          })
      go false o w1 w2 given k p below =
          let rest = below p in
          record {
            hit = elim rest.hit [ inl z ↦ inl z | inr (lo, up, h) ↦ inr (lo, omega arith, h) ];
            misses = miss o w1 w2 given k rest;
          }

  -- Where the search for a location returns, in a process whose next id is not above G_MAXINT: its
  -- answer is 0, or an id between the next one and G_MAXINT under which a lookup gives a record at
  -- the location; and under every id in use that is above the answer, a lookup gives NULL or a
  -- record that is not at the location.
  pub lookup_id_by_location-IsFirst :
      (location : CString) (s : State c b left) (id : ℕ) (w : c.World)
      → s.nextid ≤ max_id
      → lookup_id_by_location c b left location s ≡ some (id, w)
      → IsFirst s location max_id id
  unfolding lookup_id_by_location
  lookup_id_by_location-IsFirst location s id w le e =
      let top : s.nextid + (max_id - s.nextid) ≡ max_id = omega arith in
      subst (λ t. IsFirst s location t id) top
        (search-IsFirst location (max_id - s.nextid) s s.world id w e)
