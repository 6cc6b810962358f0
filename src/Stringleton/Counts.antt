-- ===== src/Stringleton/Counts.antt =====
-- The table counts the references that are out.
use dmapd.Prelude.{
  ℕ, zero, suc, ◌+◌, ◌-◌, ◌%◌, ap, ◌<◌, ◌≤◌, ◌≡◌, refl, true, Option, none, some, List, [], ◌∷◌,
  CString, str_eq, str_eq_iff, length, All, arith, if◌then◌else◌,
}
use dmapd.HashTable.{lookup}
use dmapd.HashTable.Laws.{lookup-empty, lookup-insert, lookup-remove}
use dmapd.Stringleton.{
  pointer_mod, StrTable, Op, ref, unref, live, Global, start, stringleton_init, table_ref,
  table_unref, step, run, guint_mod,
}

-- How many references to each string are out.
abbrev pub Counts : Type 0
Counts = CString → ℕ

abbrev pub no_references : Counts
no_references s = 0

abbrev pub change : CString → (ℕ → ℕ) → Counts → Counts
change str f m s = if str_eq str s then f (m s) else m s

-- The specification: one more for each ref, one less for each unref.
abbrev pub counted : Op → Counts → Counts
counted (ref none) m = m
counted (ref (some s)) m = change s (λ n. n + 1) m
counted (unref none) m = m
counted (unref (some s)) m = change s (λ n. n - 1) m

abbrev pub counted_all : List Op → Counts → Counts
counted_all [] m = m
counted_all (op ∷ ops) m = counted_all ops (counted op m)

abbrev pub stored : ℕ → Option ℕ
stored zero = none
stored (suc n) = some (suc n)

-- The table has exactly the strings to which references are out, each with its count.
abbrev pub Tracks : (h : StrTable) → h.Table → Counts → Type 0
Tracks h t m = (s : CString) → lookup h s t ≡ stored (m s)

module _ (h : StrTable) where
  table_ref-insert :
      (str : CString) (t : h.Table) (n : ℕ)
      → lookup h str t ≡ stored n
      → n + 1 < guint_mod
      → table_ref h str t ≡ h.insert str (n + 1) t
  unfolding table_ref
  table_ref-insert str t zero k b = rw (k, table_ref)
  table_ref-insert str t (suc n) k b =
      let e : (suc n + 1) % pointer_mod ≡ suc n + 1 = omega arith in rw (k, table_ref, e)

  pub table_ref-Tracks :
      (str : CString) (t : h.Table) (m : Counts)
      → Tracks h t m
      → m str + 1 < guint_mod
      → Tracks h (table_ref h str t) (change str (λ n. n + 1) m)
  table_ref-Tracks str t m k b s =
      rw (table_ref-insert str t (m str) (k str) b)
        (ground (arith, k s, str_eq_iff str s, lookup-insert h str s (m str + 1) t))

  -- What unref makes of a table that holds n references.
  abbrev less : CString → ℕ → h.Table → h.Table
  less str zero t = t
  less str (suc zero) t = h.remove str t
  less str (suc (suc n)) t = h.insert str (suc n) t

  table_unref-less :
      (str : CString) (t : h.Table) (n : ℕ)
      → lookup h str t ≡ stored n
      → n < guint_mod
      → table_unref h str t ≡ less str n t
  unfolding table_unref
  table_unref-less str t zero k b = rw (k, table_unref)
  table_unref-less str t (suc zero) k b = rw (k, table_unref)
  table_unref-less str t (suc (suc n)) k b =
      let e : suc (suc n) % guint_mod ≡ suc (suc n) = omega arith in
      rw (k, table_unref, e) (ground arith)

  less-Tracks :
      (str s : CString) (t : h.Table) (n k : ℕ)
      → lookup h str t ≡ stored n
      → lookup h s t ≡ stored k
      → (str ≡ s → n ≡ k)
      → lookup h s (less str n t) ≡ stored (if str_eq str s then k - 1 else k)
  less-Tracks str s t zero k p q e = ground (arith, str_eq_iff str s)
  less-Tracks str s t (suc zero) k p q e = ground (arith, str_eq_iff str s, lookup-remove h str s t)
  less-Tracks str s t (suc (suc n)) k p q e =
      ground (arith, str_eq_iff str s, lookup-insert h str s (suc n) t)

  pub table_unref-Tracks :
      (str : CString) (t : h.Table) (m : Counts)
      → Tracks h t m
      → m str < guint_mod
      → Tracks h (table_unref h str t) (change str (λ n. n - 1) m)
  table_unref-Tracks str t m k b s =
      rw (table_unref-less str t (m str) (k str) b)
        (less-Tracks str s t (m str) (m s) (k str) (k s) (ap m))

-- What a call leaves of a live table.
abbrev table_step : (h : StrTable) → Op → h.Table → h.Table
table_step h (ref (some str)) t = table_ref h str t
table_step h (unref (some str)) t = table_unref h str t
table_step h (ref none) t = t
table_step h (unref none) t = t

abbrev pub live_global : (h : StrTable) → h.Table → Global h
live_global h t = record { initialized = true; stringleton = live t }

-- `stringleton_ref (NULL)` is undefined; `stringleton_unref (NULL)` does nothing.
abbrev pub IsDefined : Op → Type 0
IsDefined (ref none) = ⊥
IsDefined _ = Unit

module _ (h : StrTable) where
  step-live :
      (op : Op) (t : h.Table)
      → IsDefined op
      → step h op (live_global h t) ≡ some (live_global h (table_step h op t))
  unfolding step
  step-live (ref none) t d = absurd d
  step-live (ref (some str)) t d = refl
  step-live (unref none) t d = refl
  step-live (unref (some str)) t d = refl

  step-Tracks :
      (op : Op) (t : h.Table) (m : Counts)
      → Tracks h t m
      → ((s : CString) → m s + 1 < guint_mod)
      → Tracks h (table_step h op t) (counted op m)
  step-Tracks (ref none) t m k b = k
  step-Tracks (ref (some str)) t m k b = table_ref-Tracks h str t m k (b str)
  step-Tracks (unref none) t m k b = k
  step-Tracks (unref (some str)) t m k b =
      let b' = b str in table_unref-Tracks h str t m k (omega arith)

  counted_le : (op : Op) (m : Counts) (s : CString) → counted op m s ≤ m s + 1
  counted_le (ref none) m s = omega arith
  counted_le (ref (some str)) m s = ground arith
  counted_le (unref none) m s = omega arith
  counted_le (unref (some str)) m s = ground arith

  run-Tracks :
      (ops : List Op) (t : h.Table) (m : Counts)
      → All IsDefined ops
      → Tracks h t m
      → ((s : CString) → m s + length ops < guint_mod)
      → (t' : h.Table) × (run h ops (live_global h t) ≡ some (live_global h t'))
        × Tracks h t' (counted_all ops m)
  unfolding run
  run-Tracks [] t m d k b = (t, refl, k)
  run-Tracks (op ∷ ops) t m d k b =
      let room : (s : CString) → m s + 1 < guint_mod = λ s. omega (arith, b s) in
      let (t', e, k') =
        run-Tracks ops (table_step h op t) (counted op m) d.1 (step-Tracks op t m k room)
          (λ s. omega (arith, b s, counted_le op m s)) in
      (t', rw (step-live op t d.0) e, k')

  -- After stringleton_init and any calls of ref and unref, fewer than 2^32 of them and none a
  -- ref of NULL, the calls have succeeded and the table holds exactly the strings with more refs
  -- than unrefs, each unref counted where a reference was out, with the number that is left.
  pub run-counted :
      (ops : List Op)
      → All IsDefined ops
      → length ops < guint_mod
      → (t : h.Table) × (run h ops (stringleton_init h (start h)) ≡ some (live_global h t))
        × Tracks h t (counted_all ops no_references)
  unfolding stringleton_init
  run-counted ops d b = run-Tracks ops h.empty no_references d (lookup-empty h) (λ s. omega arith)
