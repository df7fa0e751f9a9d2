-- ===== src/Common/Sort.antt =====
-- sort.Strings of the standard library, on byte strings.
use Prim.Native.Nat.{ℕ}
use mathlib.Core.Bool.{Bool, true, false}
use mathlib.Core.List.{List, [], ◌∷◌}
use p.Common.Tests.{ltb, ◌==◌, if◌then◌else◌}

-- Go's `a <= b` on strings.
unfoldable pub bytes_le : List ℕ → List ℕ → Bool
bytes_le [] ys = true
bytes_le (x ∷ xs) [] = false
bytes_le (x ∷ xs) (y ∷ ys) =
    let rest = bytes_le xs ys in if ltb x y then true else if x == y then rest else false

unfoldable pub insert_sorted : List ℕ → List (List ℕ) → List (List ℕ)
insert_sorted a [] = a ∷ []
insert_sorted a (b ∷ bs) =
    let rest = insert_sorted a bs in if bytes_le a b then a ∷ b ∷ bs else b ∷ rest

unfoldable pub sort_names : List (List ℕ) → List (List ℕ)
sort_names [] = []
sort_names (a ∷ rest) = insert_sorted a (sort_names rest)
