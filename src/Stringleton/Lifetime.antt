-- ===== src/Stringleton/Lifetime.antt =====
-- When the table is there: src/util.c, stringleton_init and stringleton_deinit.
use dmapd.Prelude.{◌≡◌, true, Option, none, some, CString, arith}
use dmapd.Stringleton.{
  StrTable, Global, stringleton_init, stringleton_ref, stringleton_unref, stringleton_deinit, live,
}

module _ (h : StrTable) where
  -- After a stringleton_deinit that returns, once stringleton_init had made the table, a further
  -- stringleton_init does not bring the table back: the next stringleton_ref, of a string or of
  -- NULL, and the next stringleton_unref of a string use the destroyed table. A stringleton_unref
  -- of NULL returns, and changes nothing.
  pub deinit_is_final :
      (g g' : Global h) (t : h.Table) (str : Option CString) (s : CString)
      → g.initialized ≡ true
      → g.stringleton ≡ live t
      → stringleton_deinit h g ≡ some g'
      → (stringleton_ref h str (stringleton_init h g') ≡ none)
        × (stringleton_unref h (some s) (stringleton_init h g') ≡ none)
        × (stringleton_unref h none (stringleton_init h g') ≡ some g')
  unfolding stringleton_init stringleton_ref stringleton_unref stringleton_deinit
  deinit_is_final g g' t none s i l e = ground arith
  deinit_is_final g g' t (some str) s i l e = ground arith

  -- What ref returns equals what it was given.
  pub stringleton_ref-eq :
      (str : Option CString) (s : CString) (g g' : Global h)
      → stringleton_ref h str g ≡ some (s, g')
      → str ≡ some s
  unfolding stringleton_ref
  stringleton_ref-eq none s g g' e = ground arith
  stringleton_ref-eq (some str) s g g' e = ground arith
