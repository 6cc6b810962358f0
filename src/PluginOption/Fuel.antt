-- ===== src/PluginOption/Fuel.antt =====
-- The fuel of the loop of src/util.c, parse_plugin_option.
use dmapd.Prelude.{
  ℕ, zero, suc, ◌≤◌, ◌<◌, ◌≡◌, refl, ap, Option, none, some, [], ◌∷◌, CString, length, arith, ◌==◌,
  Bool-cases, Option-cases, inl, inr,
}
use dmapd.PluginOption.{OptionTable, cut, put_before, take_pair, parse_pairs}

put_before-shorter :
    (d n : ℕ) (o : Option (CString × CString)) (a r : CString)
    → ((a' r' : CString) → o ≡ some (a', r') → length r' < n)
    → put_before d o ≡ some (a, r)
    → length r < n
put_before-shorter d n none a r f e = cc
put_before-shorter d n (some (a', r')) a r f e =
    let k = f a' r' refl in let i : r' ≡ r = ground arith in omega (arith, ap length i)

-- What is after the character is shorter than the text.
cut-shorter : (c : ℕ) (s a r : CString) → cut c s ≡ some (a, r) → length r < length s
unfolding cut
cut-shorter c [] a r e = cc
cut-shorter c (d ∷ s) a r e = elim (Bool-cases (d == c)) [
  | inl q ↦
      let k : ◌≡◌ {A = Option (CString × CString)} (some ([], s)) (some (a, r)) = rw q at e in
      let i : s ≡ r = ground arith in omega (arith, ap length i)
  | inr q ↦
      put_before-shorter d (suc (length s)) (cut c s) a r
        (λ a' r' f. let k = cut-shorter c s a' r' f in omega arith) (rw q at e)
]

module _ (h : OptionTable) where
  -- The rounds of the loop, from the text `key` and the table `t` on: it ends with g_error, where
  -- there is no equals sign, or with a table, where no comma follows; else it goes on after the
  -- comma.
  pub data Rounds : CString → h.Table → Option h.Table → Type 0 where
    no_value : (key : CString) (t : h.Table) → cut b'=' key ≡ none → Rounds key t none
    last_pair :
        (key : CString) (t : h.Table) (k v : CString)
        → cut b'=' key ≡ some (k, v)
        → cut b',' v ≡ none
        → Rounds key t (some (h.insert k v t))
    one_pair :
        (key : CString) (t : h.Table) (k v v' rest : CString) (o : Option h.Table)
        → cut b'=' key ≡ some (k, v)
        → cut b',' v ≡ some (v', rest)
        → Rounds rest (h.insert k v' t) o
        → Rounds key t o

  -- With any fuel that is not below the length of the text, what the loop of the model gives is
  -- what the loop of the source ends with after finitely many rounds: the table that it has filled
  -- or, for none, the g_error at a pair without an equals sign.
  pub parse_pairs-Rounds :
      (n : ℕ) (key : CString) (t : h.Table) → length key ≤ n → Rounds key t (parse_pairs h n key t)
  unfolding parse_pairs take_pair
  parse_pairs-Rounds zero [] t i = no_value [] t (unfold cut in refl)
  parse_pairs-Rounds zero (c ∷ key) t i = absurd (omega arith)
  parse_pairs-Rounds (suc n) key t i = elim (Option-cases (cut b'=' key)) [
    | inl e ↦ rw e (no_value key t e)
    | inr ((k, v), e) ↦
        let a = cut-shorter b'=' key k v e in
        rw e (elim (Option-cases (cut b',' v)) [
          | inl f ↦ rw f (last_pair key t k v e f)
          | inr ((v', rest), f) ↦
              let b = cut-shorter b',' v v' rest f in
              rw f (
                one_pair key t k v v' rest _ e f
                  (parse_pairs-Rounds n rest (h.insert k v' t) (omega arith)))
        ])
  ]
