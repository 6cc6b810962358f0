-- ===== src/Blob/RoundTrip.antt =====
-- What the blob_add functions write is what the reads give back, whatever follows it, and a read
-- of anything shorter runs past the end.
use mathlib.Core.List.{reverse-reverse, append_assoc}
use native.Mathlib.Nat.{pow-suc}
use dmapd.Prelude.{
  ℕ, zero, suc, ◌*◌, ◌/◌, ◌^◌, ◌<◌, ◌≡◌, ◌≢◌, ◌⊎◌, inl, inr, refl, ap, sym, ◌∙◌, Bool, true, [],
  ◌∷◌, ◌++◌, Bytes, CString, IsCString, length, length-append, length-reverse, arith,
}
use dmapd.Build.{Endian, little, big}
use dmapd.Blob.{
  low_bytes, from_low_bytes, int_bytes, from_int_bytes, get_bytes, get_int, get_string, Read,
  Reason, ok, fault, ◌>>=◌, pure, require,
}

-- `m` reads exactly `bs`, gives `a`, and needs all of `bs`.
pub record Exact {ℓ} {A : Type ℓ} (m : Read A) (bs : Bytes) (a : A) : Type ℓ where
  pub whole : (rest : Bytes) → m (bs ++ rest) ≡ ok (a, rest)
  pub short : (p q : Bytes) → bs ≡ p ++ q → q ≢ [] → m p ≡ fault

tail_nil : (p q : Bytes) → [] ≡ p ++ q → q ≡ []
tail_nil [] q e = sym e
tail_nil (b ∷ p) q e = cc

-- Two ways to cut a list in two: the cut of the right side lies in `xs`, or behind it.
abbrev Cut : Bytes → Bytes → Bytes → Bytes → Type 0
Cut xs ys p q =
    ((r : Bytes) × (xs ≡ p ++ r) × (r ≢ [])) ⊎ ((r : Bytes) × (p ≡ xs ++ r) × (ys ≡ r ++ q))

Cut-append : (xs ys p q : Bytes) → xs ++ ys ≡ p ++ q → Cut xs ys p q
Cut-append [] ys p q e = inr (p, refl, e)
Cut-append (x ∷ xs) ys [] q e = inl (x ∷ xs, refl, λ c. cc)
Cut-append (x ∷ xs) ys (b ∷ p) q e = elim (Cut-append xs ys p q (ground arith)) [
  | inl (r, f, g) ↦ inl (r, ground arith, g)
  | inr (r, f, g) ↦ inr (r, ground arith, g)
]

module _ {ℓ κ} {A : Type ℓ} {B : Type κ} where
  pub Exact-bind :
      (m : Read A) (f : A → Read B) {xs ys : Bytes} {a : A} {b : B}
      → Exact m xs a
      → Exact (f a) ys b
      → Exact (m >>= f) (xs ++ ys) b
  unfolding ◌>>=◌
  Exact-bind m f {xs} {ys} {a} {b} g h = record {
    whole = λ rest. rw (append_assoc xs ys rest, g.whole (ys ++ rest)) (h.whole rest);
    short = λ p q e n. elim (Cut-append xs ys p q e) [
      | inl (r, c, k) ↦ rw (g.short p r c k)
      | inr (r, c, k) ↦ rw (c, g.whole r) (h.short r q k n)
    ];
  }

pub Exact-pure {ℓ} : {A : Type ℓ} (a : A) → Exact (pure a) [] a
unfolding pure
Exact-pure a = record { whole = λ rest. refl; short = λ p q e n. absurd (n (tail_nil p q e)) }

pub Exact-require : (t : Bool) (r : Reason) → t ≡ true → Exact (require t r) [] tt
unfolding require pure
Exact-require t r e = rw e (Exact-pure {A = Unit {0}} tt)

get_bytes_whole : (bs rest : Bytes) → get_bytes (length bs) (bs ++ rest) ≡ ok (bs, rest)
unfolding get_bytes
get_bytes_whole [] rest = refl
get_bytes_whole (b ∷ bs) rest = rw (get_bytes_whole bs rest)

get_bytes_short : (n : ℕ) (p : Bytes) → length p < n → get_bytes n p ≡ fault
unfolding get_bytes
get_bytes_short zero p h = absurd (omega arith)
get_bytes_short (suc n) [] h = refl
get_bytes_short (suc n) (b ∷ p) h = rw (get_bytes_short n p (omega arith))

length_pos : (q : Bytes) → q ≢ [] → 0 < length q
length_pos [] h = absurd (h refl)
length_pos (b ∷ q) h = omega arith

pub Exact-get_bytes : (n : ℕ) (bs : Bytes) → length bs ≡ n → Exact (get_bytes n) bs bs
Exact-get_bytes n bs e = record {
  whole = λ rest. rw (← e) (get_bytes_whole bs rest);
  short = λ p q f k.
      get_bytes_short n p (omega (arith, ap length f, length-append p q, length_pos q k));
}

length-low_bytes : (w n : ℕ) → length (low_bytes w n) ≡ w
unfolding low_bytes
length-low_bytes zero n = refl
length-low_bytes (suc w) n = ap suc (length-low_bytes w _)

pub length-int_bytes : (e : Endian) (w n : ℕ) → length (int_bytes e w n) ≡ w
unfolding int_bytes
length-int_bytes little w n = length-low_bytes w n
length-int_bytes big w n = length-reverse (low_bytes w n) ∙ length-low_bytes w n

from_low_bytes-low_bytes : (w n : ℕ) → n < 256 ^ w → from_low_bytes (low_bytes w n) ≡ n
unfolding low_bytes from_low_bytes
from_low_bytes-low_bytes zero n h = omega arith
from_low_bytes-low_bytes (suc w) n h =
    let h' : n < 256 ^ w * 256 = rw (pow-suc 256 w) at h in
    omega (arith, from_low_bytes-low_bytes w (n / 256) (omega arith))

from_int_bytes-int_bytes :
    (e : Endian) (w n : ℕ) → n < 256 ^ w → from_int_bytes e (int_bytes e w n) ≡ n
unfolding int_bytes from_int_bytes
from_int_bytes-int_bytes little w n h = from_low_bytes-low_bytes w n h
from_int_bytes-int_bytes big w n h =
    rw (reverse-reverse (low_bytes w n)) (from_low_bytes-low_bytes w n h)

pub Exact-get_int : (e : Endian) (w n : ℕ) → n < 256 ^ w → Exact (get_int e w) (int_bytes e w n) n
unfolding get_int
Exact-get_int e w n h = record {
  whole = λ rest. rw (
    (Exact-get_bytes w (int_bytes e w n) (length-int_bytes e w n)).whole rest,
    from_int_bytes-int_bytes e w n h,
  );
  short =
      λ p q f k. rw ((Exact-get_bytes w (int_bytes e w n) (length-int_bytes e w n)).short p q f k);
}

get_string_whole :
    (s : CString) (rest : Bytes) → IsCString s → get_string ((s ++ 0 ∷ []) ++ rest) ≡ ok (s, rest)
unfolding get_string
get_string_whole [] rest h = refl
get_string_whole (c ∷ s) rest h = ground (arith, get_string_whole s rest h.1)

get_string_short :
    (s : CString) (p q : Bytes) → IsCString s → s ++ 0 ∷ [] ≡ p ++ q → q ≢ [] → get_string p ≡ fault
unfolding get_string
get_string_short s [] q h e n = refl
get_string_short [] (b ∷ p) q h e n = absurd (n (tail_nil p q (ground arith)))
get_string_short (c ∷ s) (b ∷ p) q h e n =
    ground (arith, get_string_short s p q h.1 (ground arith) n)

pub Exact-get_string : (s : CString) → IsCString s → Exact get_string (s ++ 0 ∷ []) s
Exact-get_string s h = record {
  whole = λ rest. get_string_whole s rest h;
  short = λ p q e n. get_string_short s p q h e n;
}

-- A byte that was written as an integer of four bytes in the other byte order.
from_int_bytes-swapped :
    (e e' : Endian) (n : ℕ) → e' ≢ e → n < 256 → from_int_bytes e (int_bytes e' 4 n) ≡ n * 2 ^ 24
unfolding int_bytes from_int_bytes
from_int_bytes-swapped little little n k h = absurd (k refl)
from_int_bytes-swapped big big n k h = absurd (k refl)
from_int_bytes-swapped little big n k h = omega arith
from_int_bytes-swapped big little n k h = omega arith

pub get_int-swapped :
    (e e' : Endian) (n : ℕ) (rest : Bytes)
    → e' ≢ e
    → n < 256
    → get_int e 4 (int_bytes e' 4 n ++ rest) ≡ ok (n * 2 ^ 24, rest)
unfolding get_int
get_int-swapped e e' n rest k h = rw (
  (Exact-get_bytes 4 (int_bytes e' 4 n) (length-int_bytes e' 4 n)).whole rest,
  from_int_bytes-swapped e e' n k h,
)
