-- ===== src/HashTable.antt =====
-- GLib's GHashTable as the program uses it: an interface with the documented laws. The program
-- names no order for `foreach` and `find`, so `entries` is any order that the table has.
pub mod Assoc
pub mod Laws
use dmapd.Prelude.{
  ℕ, suc, ◌≡◌, Bool, true, false, Option, none, some, List, [], ◌∷◌, length, All, if◌then◌else◌,
}

module _ {K V : Type 0} (eq : K → K → Bool) where
  abbrev pub find_key : K → List (K × V) → Option V
  find_key k [] = none
  find_key k ((j, v) ∷ l) = if eq j k then some v else find_key k l

  -- No key stands twice.
  abbrev pub Distinct : List (K × V) → Type 0
  Distinct [] = Unit
  Distinct ((k, v) ∷ l) = (find_key k l ≡ none) × Distinct l

abbrev pub bump_if_new : {V : Type 0} → Option V → ℕ → ℕ
bump_if_new none n = suc n
bump_if_new (some v) n = n

pub record HashTable (K V : Type 0) (eq : K → K → Bool) : Type 1 where
  pub Table : Type 0
  pub empty : Table
  -- g_hash_table_insert, which replaces the value of a key that is there
  pub insert : K → V → Table → Table
  -- g_hash_table_remove
  pub remove : K → Table → Table
  -- the pairs in the order in which g_hash_table_foreach and g_hash_table_find visit them
  pub entries : Table → List (K × V)
  pub entries-empty : entries empty ≡ []
  pub distinct : (t : Table) → Distinct eq (entries t)
  pub find-insert :
      (k j : K) (v : V) (t : Table)
      → find_key eq j (entries (insert k v t))
        ≡ (if eq k j then some v else find_key eq j (entries t))
  pub find-remove :
      (k j : K) (t : Table)
      → find_key eq j (entries (remove k t)) ≡ (if eq k j then none else find_key eq j (entries t))
  pub size-insert :
      (k : K) (v : V) (t : Table)
      → length (entries (insert k v t))
        ≡ bump_if_new (find_key eq k (entries t)) (length (entries t))

module _ {K V : Type 0} {eq : K → K → Bool} (h : HashTable K V eq) where
  open h use {Table, entries}

  -- g_hash_table_lookup
  unfoldable pub lookup : K → Table → Option V
  lookup k t = find_key eq k (entries t)

  -- g_hash_table_size
  unfoldable pub size : Table → ℕ
  size t = length (entries t)
