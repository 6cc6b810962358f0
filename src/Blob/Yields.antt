-- ===== src/Blob/Yields.antt =====
-- What the reads of a blob give, whatever bytes it has.
use mathlib.Core.Path.{subst}
use mathlib.Core.List.{reverse-cons}
use native.Mathlib.Nat.{pow-suc}
use dmapd.Prelude.{
  ℕ, zero, suc, ◌^◌, ◌<◌, ◌≡◌, refl, ap, sym, ◌∙◌, Bool, true, false, [], ◌∷◌, ◌++◌, Bytes,
  IsCString, All, length, length-reverse, reverse, ◌==◌, Bool-cases, inl, inr, arith,
}
use dmapd.Build.{Endian, little, big}
use dmapd.Blob.{
  from_low_bytes, from_int_bytes, get_bytes, get_int, get_string, Read, Reason, Outcome, ok,
  refused, fault, continue, cons_to, ◌>>=◌, pure, require,
}

-- An octet of a GByteArray.
abbrev pub IsByte : ℕ → Type 0
IsByte b = b < 256

-- Where `m` returns, its value has the property, and it leaves bytes.
abbrev pub Yields : {A : Type 0} → Read A → (A → Type 0) → Type 0
Yields {A} m P =
    (bs rest : Bytes) (a : A) → All IsByte bs → m bs ≡ ok (a, rest) → P a × All IsByte rest

module _ {A B : Type 0} {P : A → Type 0} {Q : B → Type 0} where
  pub Yields-bind :
      (m : Read A) (f : A → Read B)
      → Yields m P
      → ((a : A) → P a → Yields (f a) Q)
      → Yields (m >>= f) Q
  unfolding ◌>>=◌
  Yields-bind m f g k bs rest b q e = after (m bs) refl e
    where
      after :
          (o : Outcome (A × Bytes)) → m bs ≡ o → continue o f ≡ ok (b, rest) → Q b × All IsByte rest
      after fault x y = cc
      after (refused r) x y = cc
      after (ok (a, mid)) x y = let (p, left) = g bs mid a q x in k a p mid rest b left y

pub Yields-pure : {A : Type 0} (P : A → Type 0) (a : A) → P a → Yields (pure a) P
unfolding pure
Yields-pure P a p bs rest x q e =
    let i : a ≡ x = ground arith in
    let j : bs ≡ rest = ground arith in (subst P i p, subst (All IsByte) j q)

pub Yields-require : (t : Bool) (r : Reason) → Yields (require t r) (λ _. t ≡ true)
unfolding require
Yields-require true r bs rest x q e =
    let j : bs ≡ rest = ground arith in (refl, subst (All IsByte) j q)
Yields-require false r bs rest x q e = cc

cons_to-ok :
    (b : ℕ) (o : Outcome (Bytes × Bytes)) (x rest : Bytes)
    → cons_to b o ≡ ok (x, rest)
    → (y : Bytes) × (b ∷ y ≡ x) × (o ≡ ok (y, rest))
cons_to-ok b fault x rest e = cc
cons_to-ok b (refused r) x rest e = cc
cons_to-ok b (ok (y, mid)) x rest e = (y, ground arith, ground arith)

pub Yields-get_bytes : (n : ℕ) → Yields (get_bytes n) (λ bs. (length bs ≡ n) × All IsByte bs)
unfolding get_bytes
Yields-get_bytes zero bs rest x q e =
    let i : [] ≡ x = ground arith in
    let j : bs ≡ rest = ground arith in
    ((sym (ap length i), subst (All IsByte) i tt), subst (All IsByte) j q)
Yields-get_bytes (suc n) [] rest x q e = cc
Yields-get_bytes (suc n) (b ∷ bs) rest x q e =
    let (y, i, f) = cons_to-ok b (get_bytes n bs) x rest e in
    let ((l, k), left) = Yields-get_bytes n bs rest y q.1 f in
    ((sym (ap length i) ∙ ap suc l, subst (All IsByte) i (q.0, k)), left)

from_low_bytes_bound : (bs : Bytes) → All IsByte bs → from_low_bytes bs < 256 ^ length bs
unfolding from_low_bytes
from_low_bytes_bound [] k = omega arith
from_low_bytes_bound (b ∷ bs) k =
    let rec = from_low_bytes_bound bs k.1 in
    let h = k.0 in rw (pow-suc 256 (length bs)) (omega arith)

All-append : (P : ℕ → Type 0) (xs ys : Bytes) → All P xs → All P ys → All P (xs ++ ys)
All-append P [] ys k l = l
All-append P (x ∷ xs) ys k l = (k.0, All-append P xs ys k.1 l)

All-reverse : (P : ℕ → Type 0) (xs : Bytes) → All P xs → All P (reverse xs)
All-reverse P [] k = k
All-reverse P (x ∷ xs) k =
    subst (All P) (sym (reverse-cons x xs))
      (All-append P (reverse xs) (x ∷ []) (All-reverse P xs k.1) (k.0, tt))

from_int_bytes_bound :
    (e : Endian) (bs : Bytes) → All IsByte bs → from_int_bytes e bs < 256 ^ length bs
unfolding from_int_bytes
from_int_bytes_bound little bs k = from_low_bytes_bound bs k
from_int_bytes_bound big bs k =
    rw (length-reverse bs) at (from_low_bytes_bound (reverse bs) (All-reverse IsByte bs k))

pub Yields-get_int : (e : Endian) (w : ℕ) → Yields (get_int e w) (λ n. n < 256 ^ w)
unfolding get_int
Yields-get_int e w =
    Yields-bind (get_bytes w) _ (Yields-get_bytes w)
      (λ bs k. Yields-pure _ _ (rw k.0 at (from_int_bytes_bound e bs k.1)))

pub Yields-get_string : Yields get_string IsCString
unfolding get_string
Yields-get_string [] rest x q e = cc
Yields-get_string (b ∷ bs) rest x q e = elim (Bool-cases (b == 0)) [
  | inl z ↦
      let d : ◌≡◌ {A = Outcome (Bytes × Bytes)} (ok ([], bs)) (ok (x, rest)) = rw z at e in
      let i : [] ≡ x = ground arith in
      let j : bs ≡ rest = ground arith in (subst IsCString i tt, subst (All IsByte) j q.1)
  | inr z ↦
      let (y, i, f) = cons_to-ok b (get_string bs) x rest (rw z at e) in
      let (k, left) = Yields-get_string bs rest y q.1 f in
      let pos : 0 < b = ground arith in (subst IsCString i (pos, k), left)
]
