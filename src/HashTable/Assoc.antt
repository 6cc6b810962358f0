-- ===== src/HashTable/Assoc.antt =====
-- A table that has the laws: an association list with its newest key in front.
use dmapd.Prelude.{
  ℕ, suc, ◌≡◌, ◌↔◌, refl, Bool, true, none, some, List, [], ◌∷◌, arith, length, CString, str_eq,
  str_eq_iff, ◌==◌, ==_iff, if◌then◌else◌,
}
use dmapd.HashTable.{HashTable, find_key, Distinct, bump_if_new}

abbrev Store : {K : Type 0} → (K → K → Bool) → Type 0 → Type 0
Store {K} eq V = (l : List (K × V)) × Distinct eq l

module _ {K V : Type 0} (eq : K → K → Bool) (eq_iff : (a b : K) → (eq a b ≡ true) ↔ (a ≡ b)) where
  unfoldable pub without : K → List (K × V) → List (K × V)
  without k [] = []
  without k ((j, v) ∷ l) = let rest = without k l in if eq j k then rest else (j, v) ∷ rest

  find-without :
      (k j : K) (l : List (K × V))
      → find_key eq j (without k l) ≡ (if eq k j then none else find_key eq j l)
  unfolding without
  find-without k j [] = ground arith
  find-without k j ((i, v) ∷ l) =
      ground (arith, find-without k j l, eq_iff i k, eq_iff i j, eq_iff k j)

  pub without-Distinct : (k : K) (l : List (K × V)) → Distinct eq l → Distinct eq (without k l)
  unfolding without
  without-Distinct k [] d = tt
  without-Distinct k ((j, v) ∷ l) d =
      ground (arith, without-Distinct k l d.1, find-without k j l, d.0)

  without-absent : (k : K) (l : List (K × V)) → find_key eq k l ≡ none → without k l ≡ l
  unfolding without
  without-absent k [] h = refl
  without-absent k ((j, v) ∷ l) h = ground (arith, without-absent k l)

  length-without :
      (k : K) (l : List (K × V))
      → Distinct eq l
      → suc (length (without k l)) ≡ bump_if_new (find_key eq k l) (length l)
  unfolding without
  length-without k [] d = refl
  length-without k ((j, v) ∷ l) d =
      ground (arith, length-without k l d.1, eq_iff j k, d.0, without-absent k l)

  pub find-without_self : (k : K) (l : List (K × V)) → find_key eq k (without k l) ≡ none
  find-without_self k l = ground (arith, find-without k k l, eq_iff k k)

  unfoldable pub store_insert : K → V → Store eq V → Store eq V
  store_insert k v (l, d) = ((k, v) ∷ without k l, (find-without_self k l, without-Distinct k l d))

  unfoldable pub store_remove : K → Store eq V → Store eq V
  store_remove k (l, d) = (without k l, without-Distinct k l d)

  pub find-store_insert :
      (k j : K) (v : V) (t : Store eq V)
      → find_key eq j (store_insert k v t).0 ≡ (if eq k j then some v else find_key eq j t.0)
  unfolding store_insert
  find-store_insert k j v (l, d) = ground (arith, find-without k j l)

  pub size-store_insert :
      (k : K) (v : V) (t : Store eq V)
      → length (store_insert k v t).0 ≡ bump_if_new (find_key eq k t.0) (length t.0)
  unfolding store_insert
  size-store_insert k v (l, d) = length-without k l d

  pub find-store_remove :
      (k j : K) (t : Store eq V)
      → find_key eq j (store_remove k t).0 ≡ (if eq k j then none else find_key eq j t.0)
  unfolding store_remove
  find-store_remove k j (l, d) = find-without k j l

  unfoldable pub assoc_table : HashTable K V eq
  unfolding store_insert store_remove
  assoc_table = record {
    Table = Store eq V;
    empty = ([], tt);
    insert = store_insert;
    remove = store_remove;
    entries = λ t. t.0;
    entries-empty = refl;
    distinct = λ t. t.1;
    find-insert = find-store_insert;
    find-remove = find-store_remove;
    size-insert = size-store_insert;
  }

-- g_direct_hash and g_direct_equal
unfoldable pub direct_table : {V : Type 0} → HashTable ℕ V ◌==◌
unfolding assoc_table
direct_table = assoc_table ◌==◌ ==_iff

-- g_str_hash and g_str_equal
unfoldable pub str_table : {V : Type 0} → HashTable CString V str_eq
unfolding assoc_table str_eq
str_table = assoc_table str_eq str_eq_iff
