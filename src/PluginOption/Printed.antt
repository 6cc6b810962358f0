-- ===== src/PluginOption/Printed.antt =====
-- What src/util.c, parse_plugin_option, makes of an option that is written as its comment says.
use dmapd.Prelude.{
  ℕ, zero, suc, ◌<◌, ◌≡◌, ◌≢◌, refl, none, some, List, [], ◌∷◌, ◌++◌, CString, length,
  length-append, All, arith,
}
use dmapd.PluginOption.{OptionTable, cut, take_pair, parse_pairs, after_colon, parse_plugin_option}

-- The character is not in the string.
abbrev pub Lacks : ℕ → CString → Type 0
Lacks c = All λ d. d ≢ c

cut-append : (c : ℕ) (s rest : CString) → Lacks c s → cut c (s ++ (c ∷ rest)) ≡ some (s, rest)
unfolding cut
cut-append c [] rest k = ground arith
cut-append c (d ∷ s) rest k = ground (arith, cut-append c s rest k.1, k.0)

cut-Lacks : (c : ℕ) (s : CString) → Lacks c s → cut c s ≡ none
unfolding cut
cut-Lacks c [] k = refl
cut-Lacks c (d ∷ s) k = ground (arith, cut-Lacks c s k.1, k.0)

-- key=value,key=value
abbrev pub print_pairs : CString × CString → List (CString × CString) → CString
print_pairs (k, v) [] = k ++ (b'=' ∷ v)
print_pairs (k, v) (p ∷ l) = k ++ (b'=' ∷ (v ++ (b',' ∷ print_pairs p l)))

abbrev pub IsPair : CString × CString → Type 0
IsPair (k, v) = Lacks b'=' k × Lacks b',' v

module _ (h : OptionTable) where
  -- Each pair is inserted in its turn.
  abbrev pub insert_all : CString × CString → List (CString × CString) → h.Table → h.Table
  insert_all (k, v) [] t = h.insert k v t
  insert_all (k, v) (p ∷ l) t = insert_all p l (h.insert k v t)

  parse_pairs-print_pairs :
      (n : ℕ) (p : CString × CString) (l : List (CString × CString)) (t : h.Table)
      → IsPair p
      → All IsPair l
      → length l < n
      → parse_pairs h n (print_pairs p l) t ≡ some (insert_all p l t)
  unfolding parse_pairs take_pair
  parse_pairs-print_pairs zero p l t kp kl m = absurd (omega arith)
  parse_pairs-print_pairs (suc n) (k, v) [] t kp kl m =
      rw (cut-append b'=' k v kp.0) (rw (cut-Lacks b',' v kp.1) refl)
  parse_pairs-print_pairs (suc n) (k, v) (p ∷ l) t kp kl m =
      rw (cut-append b'=' k (v ++ (b',' ∷ print_pairs p l)) kp.0) (
        rw (cut-append b',' v (print_pairs p l) kp.1)
          (parse_pairs-print_pairs n p l (h.insert k v t) kl.0 kl.1 (omega arith)))

  enough :
      (p : CString × CString) (l : List (CString × CString)) → length l < length (print_pairs p l)
  enough (k, v) [] = omega (arith, length-append k (b'=' ∷ v))
  enough (k, v) (p ∷ l) = omega (
    arith,
    enough p l,
    length-append k (b'=' ∷ (v ++ (b',' ∷ print_pairs p l))),
    length-append v (b',' ∷ print_pairs p l),
  )

  -- An option that is a plugin's name without a colon, a colon and one or more pairs, separated
  -- by commas, of a key without an equals sign and a value without a comma: parse_plugin_option
  -- returns the name, and has inserted the pairs in their order.
  pub parse_plugin_option-print :
      (plugin : CString) (p : CString × CString) (l : List (CString × CString)) (t : h.Table)
      → Lacks b':' plugin
      → IsPair p
      → All IsPair l
      → parse_plugin_option h (plugin ++ (b':' ∷ print_pairs p l)) t
        ≡ some (plugin, insert_all p l t)
  unfolding parse_plugin_option after_colon
  parse_plugin_option-print plugin p l t k kp kl =
      rw (cut-append b':' plugin (print_pairs p l) k)
        (rw (parse_pairs-print_pairs _ p l t kp kl (enough p l)) refl)
