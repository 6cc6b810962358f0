-- ===== src/Builder/Growth.antt =====
-- What the addition of files does to the database, and the files of a tree, which
-- src/db-builder-gdir.c walks.
use dmapd.Prelude.{
  ℕ, ◌+◌, ◌≡◌, ◌≤◌, ◌<◌, ◌⊎◌, ◌∙◌, none, some, List, [], ◌∷◌, ◌++◌, CString, arith, ◌==◌, ==_iff,
  Bool-cases, inl, inr,
}
use dmapd.FileHash.{HashLib, Source}
use dmapd.RecordClass.{RecordClass}
use dmapd.GhashtableDb.{RecordTable, State, lookup_by_id}
use dmapd.GhashtableDb.Ids.{IsAllocated, Added}
use dmapd.GhashtableDb.AddPath.{Ends}
use dmapd.Builder.{Entry, Dir, Entries, file, directory, unopened, opened, end, next}

unfoldable mutual
  pub files_of_entry : Entry → ℕ
  files_of_entry (file name) = 1
  files_of_entry (directory name d) = files_of d

  -- The number of files in the tree.
  pub files_of : Dir → ℕ
  files_of unopened = 0
  files_of (opened entries) = files_of_all entries

  pub files_of_all : Entries → ℕ
  files_of_all end = 0
  files_of_all (next e rest) = files_of_entry e + files_of_all rest

module _ (c : RecordClass) (h : RecordTable c) where
  abbrev pub There : State c h → ℕ → Type 0
  There s id = (r : c.Record) × (lookup_by_id c h id s ≡ some r)

  -- Every entry is an id with a record.
  abbrev pub Refers : State c h → List ℕ → Type 0
  Refers s [] = Unit
  Refers s (id ∷ l) = There s id × Refers s l

  -- From `s` to `t` records stay, and at most `n` ids are taken.
  pub record Extends (n : ℕ) (s t : State c h) : Type 0 where
    pub allocated : IsAllocated c h t
    pub kept :
        (id : ℕ) (r : c.Record) → lookup_by_id c h id s ≡ some r → lookup_by_id c h id t ≡ some r
    pub room : s.nextid ≤ t.nextid + n

  pub Refers-kept : (s t : State c h) (n : ℕ) (l : List ℕ) → Extends n s t → Refers s l → Refers t l
  Refers-kept s t n [] x k = tt
  Refers-kept s t n (id ∷ l) x ((r, f), k) = ((r, x.kept id r f), Refers-kept s t n l x k)

  pub Refers-append :
      (s : State c h) (l : List ℕ) (id : ℕ) → Refers s l → There s id → Refers s (l ++ (id ∷ []))
  Refers-append s [] id k x = (x, tt)
  Refers-append s (j ∷ l) id k x = (k.0, Refers-append s l id k.1 x)

  pub same-Extends :
      (s t : State c h)
      → IsAllocated c h s
      → t.object ≡ s.object
      → t.nextid ≡ s.nextid
      → Extends 1 s t
  unfolding lookup_by_id
  same-Extends s t k o n = record {
    allocated = record { next = rw n (k.next); used = λ id r e. rw n (k.used id r (rw o at e)) };
    kept = λ id r e. rw o e;
    room = omega (arith, n);
  }

  Added-Extends :
      (r : c.Record) (id : ℕ) (s t : State c h) → 0 < s.nextid → Added c h r id s t → Extends 1 s t
  Added-Extends r id s t pos a = record {
    allocated = a.allocated;
    kept = λ j x e. elim (Bool-cases (j == id)) [
      | inl q ↦ let i = (==_iff j id).0 q in let absent = a.absent in cc
      | inr q ↦ a.others j (λ i. ground (arith, (==_iff j id).1 i)) ∙ e
    ];
    room = (let n = a.next in omega arith);
  }

  module _ (lib : HashLib) (source : Source) where
    pub added_path :
        (path : CString) (s t : State c h) (id : ℕ)
        → IsAllocated c h s
        → Ends c h lib source path s id t
        → 0 < s.nextid
        → Extends 1 s t × ((id ≡ 0) ⊎ There t id)
    added_path path s t id k (none, w, f, inl (i, u)) pos =
        (same-Extends s t k u.object u.nextid, inl i)
    added_path path s t id k (none, w, f, inr x) pos = absurd x
    added_path path s t id k (some r, w, f, inl (i, u, n)) pos =
        (same-Extends s t k u.object u.nextid, inl i)
    added_path path s t id k (some r, w, f, inr (i, a, y)) pos =
        (Added-Extends r id s t pos a, inr (r, a.there))
