-- ===== src/Prelude/Lists.antt =====
-- Lists measured by native numbers, C strings, and predicates on all elements.
use Prim.Native.Nat.{ℕ, suc, ◌+◌, ◌<◌}
use mathlib.Core.Path.{◌≡◌, refl, ap}
use mathlib.Core.Logic.{◌↔◌, inl, inr}
use mathlib.Core.Bool.{Bool, true, false, ◌&&◌, ◌||◌}
use mathlib.Core.List.{List, [], ◌∷◌, ◌++◌, reverse, reverse-cons}
use native.Mathlib.Omega.{arith}
use dmapd.Prelude.Tests.{◌==◌, Bool-cases}

module _ {ℓ} {A : Type ℓ} where
  abbrev pub length : List A → ℕ
  length [] = 0
  length (x ∷ xs) = suc (length xs)

  pub length-append : (xs ys : List A) → length (xs ++ ys) ≡ length xs + length ys
  length-append [] ys = omega arith
  length-append (x ∷ xs) ys = omega (arith, length-append xs ys)

  pub length-reverse : (xs : List A) → length (reverse xs) ≡ length xs
  length-reverse [] = refl
  length-reverse (x ∷ xs) =
      omega (
        arith,
        ap length (reverse-cons x xs),
        length-append (reverse xs) (x ∷ []),
        length-reverse xs,
      )

  abbrev pub All {κ} : (A → Type κ) → List A → Type κ
  All P [] = Unit
  All P (x ∷ xs) = P x × All P xs

-- A C string without its terminator, and the contents of a byte array.
abbrev pub CString : Type 0
CString = List ℕ

abbrev pub Bytes : Type 0
Bytes = List ℕ

-- strcmp (s, t) == 0
unfoldable pub str_eq : CString → CString → Bool
str_eq [] [] = true
str_eq [] (d ∷ t) = false
str_eq (c ∷ s) [] = false
str_eq (c ∷ s) (d ∷ t) = (c == d) && str_eq s t

str_eq→eq : (s t : CString) → str_eq s t ≡ true → s ≡ t
unfolding str_eq
str_eq→eq [] [] h = refl
str_eq→eq [] (d ∷ t) h = cc
str_eq→eq (c ∷ s) [] h = cc
str_eq→eq (c ∷ s) (d ∷ t) h = ground (arith, str_eq→eq s t)

pub str_eq_refl : (s : CString) → str_eq s s ≡ true
unfolding str_eq
str_eq_refl [] = refl
str_eq_refl (c ∷ s) = ground (arith, str_eq_refl s)

pub str_eq_iff : (s t : CString) → (str_eq s t ≡ true) ↔ (s ≡ t)
str_eq_iff s t = (str_eq→eq s t, λ e. rw e (str_eq_refl t))

-- No byte of a C string is the terminator.
abbrev pub IsCString : CString → Type 0
IsCString = All λ c. 0 < c

-- g_str_has_suffix (s, suffix)
unfoldable pub has_suffix : CString → CString → Bool
has_suffix [] suffix = str_eq [] suffix
has_suffix (c ∷ s) suffix = str_eq (c ∷ s) suffix || has_suffix s suffix

pub has_suffix-append : (s suffix : CString) → has_suffix (s ++ suffix) suffix ≡ true
unfolding has_suffix
has_suffix-append [] [] = str_eq_refl []
has_suffix-append [] (d ∷ suffix) = ground (arith, str_eq_refl (d ∷ suffix))
has_suffix-append (c ∷ s) suffix = ground (arith, has_suffix-append s suffix)

-- The suffix is all of `s`, or the end of its tail.
pub suffix_of_has_suffix :
    (s suffix : CString) → has_suffix s suffix ≡ true → (p : CString) × (s ≡ p ++ suffix)
unfolding has_suffix
suffix_of_has_suffix [] suffix h = ([], str_eq→eq [] suffix h)
suffix_of_has_suffix (c ∷ s) suffix h = elim (Bool-cases (str_eq (c ∷ s) suffix)) [
  | inl e ↦ ([], str_eq→eq (c ∷ s) suffix e)
  | inr e ↦
      let (p, q) = suffix_of_has_suffix s suffix (ground arith) in
      (c ∷ p, ap (λ (t : CString). c ∷ t) q)
]
