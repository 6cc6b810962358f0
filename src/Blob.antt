-- ===== src/Blob.antt =====
-- Byte blobs: the blob_add functions of src/util.c, and the reads through a moving pointer that
-- the set_from_blob functions of src/dmapd-daap-record.c and src/dmapd-dpap-record.c make.
pub mod RoundTrip
pub mod Yields
use mathlib.Core.List.{reverse}
use dmapd.Prelude.{
  ℕ, zero, suc, ◌+◌, ◌*◌, ◌/◌, ◌%◌, ◌≡◌, [], ◌∷◌, ◌++◌, Bool, true, false, Bytes, CString, ◌==◌,
  if◌then◌else◌,
}
use dmapd.Build.{Endian, little, big}

-- The w low bytes of an integer, the lowest first.
low_bytes : ℕ → ℕ → Bytes
low_bytes zero n = []
low_bytes (suc w) n = (n % 256) ∷ low_bytes w (n / 256)

from_low_bytes : Bytes → ℕ
from_low_bytes [] = 0
from_low_bytes (b ∷ bs) = b + 256 * from_low_bytes bs

-- An integer of w bytes as it lies in memory.
unfoldable pub int_bytes : Endian → ℕ → ℕ → Bytes
unfolding low_bytes
int_bytes little w n = low_bytes w n
int_bytes big w n = reverse (low_bytes w n)

unfoldable pub from_int_bytes : Endian → Bytes → ℕ
unfolding from_low_bytes
from_int_bytes little bs = from_low_bytes bs
from_int_bytes big bs = from_low_bytes (reverse bs)

-- g_byte_array_append (blob, ptr, size), where `bs` is what lies at `ptr`.
unfoldable pub blob_add_atomic : Bytes → Bytes → Bytes
blob_add_atomic blob bs = blob ++ bs

-- The string goes in with its terminator.
unfoldable pub blob_add_string : Bytes → CString → Bytes
blob_add_string blob str = blob ++ (str ++ 0 ∷ [])

-- Why a cached record is not taken.
pub data Reason : Type 0 where
  wrong_version bad_hash_size unreadable changed : Reason

-- `fault` is an abort, or what C leaves undefined: above all a read past the end of the blob.
pub data Outcome {ℓ} (A : Type ℓ) : Type ℓ where
  ok : A → Outcome A
  refused : Reason → Outcome A
  fault : Outcome A

-- A read gives its value and the bytes behind it, where the pointer then stands.
abbrev pub Read {ℓ} : Type ℓ → Type ℓ
Read A = Bytes → Outcome (A × Bytes)

module _ {ℓ κ} {A : Type ℓ} {B : Type κ} where
  abbrev pub continue : Outcome (A × Bytes) → (A → Read B) → Outcome (B × Bytes)
  continue (ok (a, rest)) f = f a rest
  continue (refused r) f = refused r
  continue fault f = fault

  infixl 5 ◌>>=◌ ◌>>◌
  unfoldable pub ◌>>=◌ : Read A → (A → Read B) → Read B
  ◌>>=◌ m f bs = continue (m bs) f

  abbrev pub ◌>>◌ : Read A → Read B → Read B
  m >> k = m >>= λ _. k

unfoldable pub pure {ℓ} : {A : Type ℓ} → A → Read A
pure a bs = ok (a, bs)

-- if (! test) goto _done;
unfoldable pub require : Bool → Reason → Read (Unit {0})
require true r bs = ok (tt, bs)
require false r bs = refused r

abbrev cons_to : ℕ → Outcome (Bytes × Bytes) → Outcome (Bytes × Bytes)
cons_to b (ok (bs, rest)) = ok (b ∷ bs, rest)
cons_to b (refused r) = refused r
cons_to b fault = fault

-- g_byte_array_append (array, ptr, n); ptr += n;
unfoldable pub get_bytes : ℕ → Read Bytes
get_bytes zero bs = ok ([], bs)
get_bytes (suc n) [] = fault
get_bytes (suc n) (b ∷ bs) = cons_to b (get_bytes n bs)

-- value = *(type *) ptr; ptr += sizeof (type);
unfoldable pub get_int : Endian → ℕ → Read ℕ
unfolding get_bytes from_int_bytes ◌>>=◌ pure
get_int e w = get_bytes w >>= λ bs. pure (from_int_bytes e bs)

-- str = (char *) ptr; ptr += strlen (str) + 1;
unfoldable pub get_string : Read CString
get_string [] = fault
get_string (b ∷ bs) = let rest = cons_to b (get_string bs) in if b == 0 then ok ([], bs) else rest
