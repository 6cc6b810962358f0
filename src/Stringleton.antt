-- ===== src/Stringleton.antt =====
-- src/util.c, stringleton_*: strings that equal one another are kept once, with a count of the
-- references to them. The count is a pointer in the table, and unref reads it as a guint.
pub mod Counts
pub mod Lifetime
pub mod Tests
use dmapd.Prelude.{
  ℕ, suc, ◌+◌, ◌-◌, ◌%◌, ◌^◌, Bool, true, false, Option, none, some, List, [], ◌∷◌, CString, str_eq,
  ltb, ◌==◌, if◌then◌else◌, ◌>>=◌,
}
use dmapd.HashTable.{HashTable, lookup}

abbrev pub guint_mod : ℕ
guint_mod = 2 ^ 32

-- A gpointer has 64 bits.
abbrev pub pointer_mod : ℕ
pointer_mod = 2 ^ 64

abbrev pub StrTable : Type 1
StrTable = HashTable CString ℕ str_eq

-- A call of the functions of the file, by the string that is passed; `none` is NULL.
pub data Op : Type 0 where
  ref unref : Option CString → Op

module _ (h : StrTable) where
  open h use {Table, empty, insert, remove}

  -- What the global variable points to.
  pub data Pointer : Type 0 where
    null dangling : Pointer
    live : Table → Pointer

  pub record Global : Type 0 where
    pub initialized : Bool
    pub stringleton : Pointer

  -- Before the first call of `stringleton_init`.
  abbrev pub start : Global
  start = record { initialized = false; stringleton = null }

  unfoldable pub stringleton_init : Global → Global
  stringleton_init g =
      if g.initialized then g else record { initialized = true; stringleton = live empty }

  count_up : CString → Option ℕ → Table → Table
  count_up str none t = insert str 1 t
  count_up str (some val) t = insert str ((val + 1) % pointer_mod) t

  -- `none` is an abort by g_assert, or undefined behaviour: a null or dangling table, a null key.
  unfoldable pub table_ref : CString → Table → Table
  unfolding count_up
  table_ref str t = count_up str (lookup h str t) t

  ref_at : Option CString → Pointer → Option (CString × Pointer)
  unfolding table_ref
  ref_at (some str) (live t) = some (str, live (table_ref str t))
  ref_at (some str) null = none
  ref_at (some str) dangling = none
  ref_at none p = none

  unfoldable pub stringleton_ref : Option CString → Global → Option (CString × Global)
  unfolding ref_at
  stringleton_ref str g =
      ref_at str g.stringleton >>= λ r. some (r.0, record g { stringleton = r.1 })

  -- GPOINTER_TO_UINT, which is 0 for a missing key
  abbrev to_uint : Option ℕ → ℕ
  to_uint none = 0
  to_uint (some p) = p % guint_mod

  unfoldable pub table_unref : CString → Table → Table
  table_unref str t =
      let count = to_uint (lookup h str t) in
      if ltb 1 count then insert str (count - 1) t else if count == 1 then remove str t else t

  unref_at : Option CString → Pointer → Option Pointer
  unfolding table_unref
  unref_at (some str) (live t) = some (live (table_unref str t))
  unref_at none (live t) = some (live t)
  unref_at none dangling = some dangling
  unref_at (some str) dangling = none
  unref_at str null = none

  unfoldable pub stringleton_unref : Option CString → Global → Option Global
  unfolding unref_at
  stringleton_unref str g = unref_at str g.stringleton >>= λ p. some (record g { stringleton = p })

  destroy : Pointer → Option Pointer
  destroy (live t) = some dangling
  destroy null = some null
  destroy dangling = none

  unfoldable pub stringleton_deinit : Global → Option Global
  unfolding destroy
  stringleton_deinit g = destroy g.stringleton >>= λ p. some (record g { stringleton = p })

  step : Op → Global → Option Global
  unfolding stringleton_ref stringleton_unref
  step (ref str) g = stringleton_ref str g >>= λ r. some r.1
  step (unref str) g = stringleton_unref str g

  pub run : List Op → Global → Option Global
  unfolding step
  run [] g = some g
  run (op ∷ ops) g = step op g >>= λ g'. run ops g'
