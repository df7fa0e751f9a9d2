-- ===== src/Common/Names.antt =====
-- Strings as lists of bytes: their equality, their order, and Go maps with strings for keys.
use Prim.Native.Nat.{ℕ}
use mathlib.Core.Path.{◌≡◌, refl, sym, ap, subst}
use mathlib.Core.Logic.{◌≢◌, inl, inr}
use mathlib.Core.Bool.{Bool, true, false}
use mathlib.Core.List.{List, [], ◌∷◌}
use mathlib.Core.Option.{Option, none, some}
use native.Mathlib.Omega.{arith}
use p.Common.Tests.{◌==◌, if◌then◌else◌, Bool-cases}

-- The equality of two byte strings.
unfoldable pub same_bytes : List ℕ → List ℕ → Bool
same_bytes [] [] = true
same_bytes [] (y ∷ ys) = false
same_bytes (x ∷ xs) [] = false
same_bytes (x ∷ xs) (y ∷ ys) = let rest = same_bytes xs ys in if x == y then rest else false

pub same_bytes_sound : (xs ys : List ℕ) → same_bytes xs ys ≡ true → xs ≡ ys
unfolding same_bytes
same_bytes_sound [] [] h = refl
same_bytes_sound [] (y ∷ ys) h = cc
same_bytes_sound (x ∷ xs) [] h = cc
same_bytes_sound (x ∷ xs) (y ∷ ys) h = ground (arith, same_bytes_sound xs ys)

pub same_bytes_refl : (xs : List ℕ) → same_bytes xs xs ≡ true
unfolding same_bytes
same_bytes_refl [] = refl
same_bytes_refl (x ∷ xs) = ground (arith, same_bytes_refl xs)

pub same_bytes_complete : (xs ys : List ℕ) → same_bytes xs ys ≡ false → xs ≢ ys
same_bytes_complete xs ys h = λ e. cc (subst (λ zs. same_bytes xs zs ≡ true) e (same_bytes_refl xs))

pub ne→same_bytes : (xs ys : List ℕ) → xs ≢ ys → same_bytes xs ys ≡ false
ne→same_bytes xs ys h = elim (Bool-cases (same_bytes xs ys)) [
  | inl same ↦ absurd (h (same_bytes_sound xs ys same))
  | inr other ↦ other
]

module _ {V : Type 0} where
  unfoldable pub lookup_name : List ℕ → List (List ℕ × V) → Option V
  lookup_name k [] = none
  lookup_name k ((j, v) ∷ m) = let rest = lookup_name k m in if same_bytes j k then some v else rest

  unfoldable pub delete_name : List ℕ → List (List ℕ × V) → List (List ℕ × V)
  delete_name k [] = []
  delete_name k ((j, v) ∷ m) =
      let rest = delete_name k m in if same_bytes j k then rest else (j, v) ∷ rest

  unfoldable pub insert_name : List ℕ → V → List (List ℕ × V) → List (List ℕ × V)
  insert_name k v m = (k, v) ∷ delete_name k m

-- Where the deleted key stands, another key is not.
other_key : (i k j : List ℕ) → same_bytes i k ≡ true → same_bytes k j ≡ same_bytes i j
other_key i k j h = ap (λ x. same_bytes x j) (sym (same_bytes_sound i k h))

same_key : (i k j : List ℕ) → same_bytes k j ≡ true → same_bytes i k ≡ same_bytes i j
same_key i k j h = ap (same_bytes i) (same_bytes_sound k j h)

module _ {V : Type 0} where
  pub lookup_name-delete_name :
      (k j : List ℕ) (m : List (List ℕ × V))
      → lookup_name j (delete_name k m) ≡ (if same_bytes k j then none else lookup_name j m)
  unfolding lookup_name delete_name
  lookup_name-delete_name k j [] = ground arith
  lookup_name-delete_name k j ((i, v) ∷ m) =
      ground (arith, lookup_name-delete_name k j m, other_key i k j, same_key i k j)

  pub lookup_name-insert_name :
      (k j : List ℕ) (v : V) (m : List (List ℕ × V))
      → lookup_name j (insert_name k v m) ≡ (if same_bytes k j then some v else lookup_name j m)
  unfolding lookup_name insert_name
  lookup_name-insert_name k j v m = ground (arith, lookup_name-delete_name k j m)
