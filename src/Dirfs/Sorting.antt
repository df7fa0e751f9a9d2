-- ===== src/Dirfs/Sorting.antt =====
-- examples/dirfs/dirfs.go: the order that readDir gives the entries of a directory.
use mathlib.Core.List.{Perm}
use mathlib.Core.List.Perm
use p.Common.{ℕ, ◌<◌, ◌≡◌, ◌⊎◌, inl, inr, List, [], ◌∷◌, true, false, arith}
use p.Common.Tests.{Bool-cases}
use p.Common.Lists.{All}
use p.Common.Sort.{bytes_le}
use p.Dirfs.{DirEntry}
use p.Dirfs.Reading.{insert_entry, sort_entries}

-- The order of names: that of the first bytes in which they differ, and a front of a name is before it.
abbrev pub IsBefore : List ℕ → List ℕ → Type 0
IsBefore [] ys = Unit
IsBefore (x ∷ xs) [] = ⊥
IsBefore (x ∷ xs) (y ∷ ys) = (x < y) ⊎ ((x ≡ y) × IsBefore xs ys)

-- Entries whose names are in order.
abbrev pub IsOrdered : List DirEntry → Type 0
IsOrdered [] = Unit
IsOrdered (e ∷ es) = All (λ f. IsBefore e.name f.name) es × IsOrdered es

bytes_le-IsBefore : (xs ys : List ℕ) → bytes_le xs ys ≡ true → IsBefore xs ys
unfolding bytes_le
bytes_le-IsBefore [] ys h = tt
bytes_le-IsBefore (x ∷ xs) [] h = cc h
bytes_le-IsBefore (x ∷ xs) (y ∷ ys) h = ground (arith, bytes_le-IsBefore xs ys)

bytes_le-IsAfter : (xs ys : List ℕ) → bytes_le xs ys ≡ false → IsBefore ys xs
unfolding bytes_le
bytes_le-IsAfter [] ys h = cc h
bytes_le-IsAfter (x ∷ xs) [] h = tt
bytes_le-IsAfter (x ∷ xs) (y ∷ ys) h = ground (arith, bytes_le-IsAfter xs ys)

IsBefore-trans : (xs ys zs : List ℕ) → IsBefore xs ys → IsBefore ys zs → IsBefore xs zs
IsBefore-trans [] ys zs h k = tt
IsBefore-trans (x ∷ xs) [] zs h k = elim h [ ]
IsBefore-trans (x ∷ xs) (y ∷ ys) [] h k = elim k [ ]
IsBefore-trans (x ∷ xs) (y ∷ ys) (z ∷ zs) h k = ground (arith, IsBefore-trans xs ys zs)

module _ (P : DirEntry → Type 0) where
  insert_entry-All :
      (e : DirEntry) (es : List DirEntry) → P e → All P es → All P (insert_entry e es)
  unfolding insert_entry
  insert_entry-All e [] h all = (h, tt)
  insert_entry-All e (f ∷ es) h all = elim (Bool-cases (bytes_le e.name f.name)) [
    | inl le ↦ rw le (h, all)
    | inr gt ↦ rw gt (all.0, insert_entry-All e es h all.1)
  ]

  pub sort_entries-All : (es : List DirEntry) → All P es → All P (sort_entries es)
  unfolding sort_entries
  sort_entries-All [] all = tt
  sort_entries-All (e ∷ es) all =
      insert_entry-All e (sort_entries es) all.0 (sort_entries-All es all.1)

All-IsBefore :
    (e f : DirEntry) (es : List DirEntry)
    → IsBefore e.name f.name
    → All (λ g. IsBefore f.name g.name) es
    → All (λ g. IsBefore e.name g.name) es
All-IsBefore e f [] h all = tt
All-IsBefore e f (g ∷ es) h all =
    (IsBefore-trans e.name f.name g.name h all.0, All-IsBefore e f es h all.1)

insert_entry-IsOrdered :
    (e : DirEntry) (es : List DirEntry) → IsOrdered es → IsOrdered (insert_entry e es)
unfolding insert_entry
insert_entry-IsOrdered e [] s = (tt, tt)
insert_entry-IsOrdered e (f ∷ es) s = elim (Bool-cases (bytes_le e.name f.name)) [
  | inl le ↦ let h = bytes_le-IsBefore e.name f.name le in rw le ((h, All-IsBefore e f es h s.0), s)
  | inr gt ↦ rw gt (
    insert_entry-All (λ g. IsBefore f.name g.name) e es (bytes_le-IsAfter e.name f.name gt) s.0,
    insert_entry-IsOrdered e es s.1,
  )
]

pub sort_entries-IsOrdered : (es : List DirEntry) → IsOrdered (sort_entries es)
unfolding sort_entries
sort_entries-IsOrdered [] = tt
sort_entries-IsOrdered (e ∷ es) =
    insert_entry-IsOrdered e (sort_entries es) (sort_entries-IsOrdered es)

insert_entry-Perm : (e : DirEntry) (es : List DirEntry) → Perm (e ∷ es) (insert_entry e es)
unfolding insert_entry
insert_entry-Perm e [] = Perm.refl _
insert_entry-Perm e (f ∷ es) = elim (Bool-cases (bytes_le e.name f.name)) [
  | inl le ↦ rw le (Perm.refl _)
  | inr gt ↦ rw gt (Perm.trans (Perm.swap _ _ _) (Perm.cons _ (insert_entry-Perm e es)))
]

pub sort_entries-Perm : (es : List DirEntry) → Perm es (sort_entries es)
unfolding sort_entries
sort_entries-Perm [] = Perm.refl _
sort_entries-Perm (e ∷ es) =
    Perm.trans (Perm.cons e (sort_entries-Perm es)) (insert_entry-Perm e (sort_entries es))
