-- ===== src/Common/Strings.antt =====
-- The functions of Go's package strings that the source calls on paths.
use Prim.Native.Nat.{ℕ}
use mathlib.Core.Path.{◌≡◌, refl}
use mathlib.Core.Bool.{Bool, false, ◌||◌}
use mathlib.Core.Logic.{inl, inr}
use mathlib.Core.List.{List, [], ◌∷◌, ◌++◌}
use native.Mathlib.Omega.{arith}
use p.Common.Tests.{◌==◌, if◌then◌else◌, Bool-cases}

-- `strings.Trim(p, "/")`
unfoldable pub trim_left : List ℕ → List ℕ
trim_left [] = []
trim_left (c ∷ cs) = let rest = trim_left cs in if c == 47 then rest else c ∷ cs

abbrev pub cons_unless_slash : ℕ → List ℕ → List ℕ
cons_unless_slash c [] = if c == 47 then [] else c ∷ []
cons_unless_slash c (d ∷ ds) = c ∷ d ∷ ds

unfoldable pub trim_right : List ℕ → List ℕ
trim_right [] = []
trim_right (c ∷ cs) = cons_unless_slash c (trim_right cs)

abbrev pub cons_first : ℕ → List (List ℕ) → List (List ℕ)
cons_first c [] = (c ∷ []) ∷ []
cons_first c (part ∷ parts) = (c ∷ part) ∷ parts

-- `strings.Split(p, "/")`
unfoldable pub split_slash : List ℕ → List (List ℕ)
split_slash [] = [] ∷ []
split_slash (c ∷ cs) = let rest = split_slash cs in if c == 47 then [] ∷ rest else cons_first c rest

-- `strings.Join(parts, sep)`
unfoldable pub join : List ℕ → List (List ℕ) → List ℕ
join sep [] = []
join sep (part ∷ []) = part
join sep (part ∷ (next ∷ parts)) = part ++ (sep ++ join sep (next ∷ parts))

-- `strings.ContainsRune(s, '/')`
unfoldable pub has_slash : List ℕ → Bool
has_slash [] = false
has_slash (c ∷ cs) = let rest = has_slash cs in (c == 47) || rest

-- A string without slashes is a single part.
pub split_slash_one : (name : List ℕ) → has_slash name ≡ false → split_slash name ≡ name ∷ []
unfolding split_slash has_slash
split_slash_one [] h = refl
split_slash_one (c ∷ cs) h = elim (Bool-cases (c == 47)) [
  | inl slash ↦ absurd (ground (arith, slash))
  | inr other ↦ rw (other, split_slash_one cs (ground (arith, other))) refl
]

-- There is a part at least.
pub split_slash_parts :
    (s : List ℕ) → (part : List ℕ) × (parts : List (List ℕ)) × (split_slash s ≡ part ∷ parts)
unfolding split_slash
split_slash_parts [] = ([], [], refl)
split_slash_parts (c ∷ cs) = elim (Bool-cases (c == 47)) [
  | inl slash ↦ ([], split_slash cs, rw slash refl)
  | inr other ↦ let (part, parts, e) = split_slash_parts cs in (c ∷ part, parts, rw (other, e) refl)
]

-- Splitting at a slash between two strings.
pub split_slash-append :
    (a b : List ℕ) → split_slash (a ++ (47 ∷ b)) ≡ split_slash a ++ split_slash b
unfolding split_slash
split_slash-append [] b = refl
split_slash-append (c ∷ cs) b = elim (Bool-cases (c == 47)) [
  | inl slash ↦ rw (slash, split_slash-append cs b) refl
  | inr other ↦
      let (part, parts, e) = split_slash_parts cs in rw (other, split_slash-append cs b, e) refl
]
