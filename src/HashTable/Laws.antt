-- ===== src/HashTable/Laws.antt =====
-- The laws of a table in terms of `lookup` and `size`.
use dmapd.Prelude.{◌≡◌, Bool, none, some, if◌then◌else◌}
use dmapd.HashTable.{HashTable, lookup, size, bump_if_new}

module _ {K V : Type 0} {eq : K → K → Bool} (h : HashTable K V eq) where
  pub lookup-empty : (k : K) → lookup h k h.empty ≡ none
  unfolding lookup
  lookup-empty k = rw h.entries-empty

  pub lookup-insert :
      (k j : K) (v : V) (t : h.Table)
      → lookup h j (h.insert k v t) ≡ (if eq k j then some v else lookup h j t)
  unfolding lookup
  lookup-insert k j v t = h.find-insert k j v t

  pub lookup-remove :
      (k j : K) (t : h.Table) → lookup h j (h.remove k t) ≡ (if eq k j then none else lookup h j t)
  unfolding lookup
  lookup-remove k j t = h.find-remove k j t

  pub size-empty : size h h.empty ≡ 0
  unfolding size
  size-empty = rw h.entries-empty

  pub size-insert :
      (k : K) (v : V) (t : h.Table)
      → size h (h.insert k v t) ≡ bump_if_new (lookup h k t) (size h t)
  unfolding lookup size
  size-insert k v t = h.size-insert k v t
