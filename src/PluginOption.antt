-- ===== src/PluginOption.antt =====
-- src/util.c, parse_plugin_option: "plugin:key=value,key=value" or "plugin".
pub mod Printed
pub mod Fuel
pub mod Tests
use dmapd.Prelude.{
  ℕ, zero, suc, Bool, true, false, Option, none, some, List, [], ◌∷◌, CString, length, str_eq, ◌==◌,
  if◌then◌else◌, ◌>>=◌,
}
use dmapd.HashTable.{HashTable}

abbrev pub OptionTable : Type 1
OptionTable = HashTable CString CString str_eq

abbrev put_before : ℕ → Option (CString × CString) → Option (CString × CString)
put_before c none = none
put_before c (some (s, rest)) = some (c ∷ s, rest)

-- strchr (str, c), where the text ends at the character once it is overwritten by NUL: what is
-- before it and what is after it, or `none` for NULL
unfoldable pub cut : ℕ → CString → Option (CString × CString)
cut c [] = none
cut c (d ∷ s) = let rest = cut c s in if d == c then some ([], s) else put_before d rest

module _ (h : OptionTable) where
  -- The body of the loop from the comma on; `others` is the next round.
  unfoldable pub take_pair :
      CString
      → CString
      → Option (CString × CString)
      → h.Table
      → (CString → h.Table → Option h.Table)
      → Option h.Table
  take_pair key val none t others = some (h.insert key val t)
  take_pair key val (some (val', rest)) t others = others rest (h.insert key val' t)

  -- The loop, where `key` is the text from the key on, and `none` is g_error. The fuel is spent
  -- one for each pair.
  unfoldable pub parse_pairs : ℕ → CString → h.Table → Option h.Table
  unfolding take_pair
  parse_pairs zero key t = none
  parse_pairs (suc n) key t =
      cut b'=' key >>= λ x. take_pair x.0 x.1 (cut b',' x.1) t (parse_pairs n)

  -- What follows the colon, if there is one. Each pair takes two characters or more, the last one
  -- or more.
  unfoldable pub after_colon :
      CString → Option (CString × CString) → h.Table → Option (CString × h.Table)
  unfolding parse_pairs
  after_colon str none t = some (str, t)
  after_colon str (some x) t = parse_pairs (length x.1) x.1 t >>= λ t'. some (x.0, t')

  -- The plugin's name and the table.
  unfoldable pub parse_plugin_option : CString → h.Table → Option (CString × h.Table)
  unfolding after_colon cut
  parse_plugin_option str t = after_colon str (cut b':' str) t
