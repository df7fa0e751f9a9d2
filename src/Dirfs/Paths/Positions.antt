-- ===== src/Dirfs/Paths/Positions.antt =====
-- The paths that lead to a position below a directory, and the steps from one to another.
use p.Common.{ℕ, ◌≡◌, ◌⊎◌, refl, sym, ap, ◌∙◌, inl, inr, List, [], ◌∷◌, ◌++◌, true, false, arith}
use p.Common.Tests.{◌==◌, if◌then◌else◌, Bool-cases}
use p.Common.Names.{same_bytes, same_bytes_sound, same_bytes_refl}
use p.Common.Lists.{length, All, All-append}
use p.Common.Strings.{split_slash, join, has_slash}
use p.Wire.Types.{text}
use p.Dirfs.Paths.{drop_last, last_part, clean_step, path_of, join_path, dir_of}
use p.Dirfs.Paths.Names.{IsName, split_path_of, join_path-path_of, drop_last-All, dir_of-path_of}

-- A path below the directory: its names are those of entries, so that it never goes up.
abbrev pub IsInside : List ℕ → Type 0
IsInside path = (names : List (List ℕ)) × All IsName names × (path ≡ path_of names)

-- The position that a part of a walk leads to.
unfoldable pub target : List (List ℕ) → List ℕ → List (List ℕ)
target names name =
    if same_bytes name (text "..")
    then drop_last names
    else if same_bytes name (text ".")
    then names
    else names ++ (name ∷ [])

-- What the source asks of a part.
pub record IsPart (name : List ℕ) : Type 0 where
  pub some_bytes : (length name == 0) ≡ false
  pub one : has_slash name ≡ false

last_part-IsName :
    (n : List ℕ) (names : List (List ℕ))
    → All IsName (n ∷ names)
    → same_bytes (last_part (n ∷ names)) (text "..") ≡ false
unfolding last_part
last_part-IsName n [] h = h.0.not_dotdot
last_part-IsName n (m ∷ names) h = last_part-IsName m names h.1

-- Stepping up from the directory itself leads out of it; all other steps are those to the target.
pub clean_step-target :
    (names : List (List ℕ)) (name : List ℕ)
    → All IsName names
    → IsPart name
    → (clean_step false names name ≡ target names name)
      ⊎ ((name ≡ text "..") × (names ≡ []) × (clean_step false names name ≡ text ".." ∷ []))
unfolding clean_step target same_bytes
clean_step-target names name h part = by_dotdot names h (Bool-cases (same_bytes name (text "..")))
  where
    by_dotdot :
        (names : List (List ℕ))
        → All IsName names
        → (same_bytes name (text "..") ≡ true) ⊎ (same_bytes name (text "..") ≡ false)
        → (clean_step false names name ≡ target names name)
          ⊎ ((name ≡ text "..") × (names ≡ []) × (clean_step false names name ≡ text ".." ∷ []))
    by_dotdot names h (inr other) = inl (rw (clean_step, target, part.some_bytes, other) refl)
    by_dotdot [] h (inl up) =
        let same = same_bytes_sound name (text "..") up in
        inr (same, refl, rw same (unfold clean_step same_bytes in refl))
    by_dotdot (n ∷ names) h (inl up) =
        let same = same_bytes_sound name (text "..") up in
        inl (rw same (ground (arith, last_part-IsName n names h)))

pub target-All :
    (names : List (List ℕ)) (name : List ℕ)
    → All IsName names
    → IsPart name
    → All IsName (target names name)
unfolding target
target-All names name h part = elim (Bool-cases (same_bytes name (text ".."))) [
  | inl up ↦ rw up (drop_last-All names h)
  | inr not_up ↦ elim (Bool-cases (same_bytes name (text "."))) [
    | inl dot ↦ rw (not_up, dot) h
    | inr not_dot ↦
        rw (not_up, not_dot)
          (All-append IsName names (name ∷ []) h (
            record {
              some_bytes = part.some_bytes;
              one = part.one;
              not_dot = not_dot;
              not_dotdot = not_up;
            },
            tt,
          ))
  ]
]

-- The path of a position other than the directory is not ".".
pub path_of-dot :
    (n : List ℕ) (names : List (List ℕ))
    → All IsName (n ∷ names)
    → same_bytes (path_of (n ∷ names)) (text ".") ≡ false
path_of-dot n names h = elim (Bool-cases (same_bytes (path_of (n ∷ names)) (text "."))) [
  | inr other ↦ other
  | inl dot ↦
      let same : n ∷ names ≡ text "." ∷ [] =
        sym (split_path_of n names h)
        ∙ (ap split_slash (same_bytes_sound _ _ dot) ∙ unfold split_slash in refl) in
      let dotted : n ≡ text "." = cc same in
      absurd (cc (dotted, h.0.not_dot, same_bytes_refl (text ".")))
]

-- Joining a path with a part gives the path of the target, but ".." at the directory itself gives "..".
pub join_path-target :
    (names : List (List ℕ)) (name : List ℕ)
    → All IsName names
    → IsPart name
    → (join_path (path_of names) name ≡ path_of (target names name))
      ⊎ ((name ≡ text "..") × (join_path (path_of names) name ≡ text ".."))
join_path-target names name h part = elim (clean_step-target names name h part) [
  | inl e ↦ inl (join_path-path_of names name h part.one ∙ ap path_of e)
  | inr out ↦ inr (
    out.0,
    join_path-path_of names name h part.one ∙ (ap path_of out.2 ∙ unfold path_of join in refl),
  )
]

-- A part other than ".." leads to its target.
pub join_path-not_up :
    (names : List (List ℕ)) (name : List ℕ)
    → All IsName names
    → IsPart name
    → same_bytes name (text "..") ≡ false
    → join_path (path_of names) name ≡ path_of (target names name)
join_path-not_up names name h part not_up = elim (join_path-target names name h part) [
  | inl e ↦ e
  | inr out ↦ absurd (cc (out.0, not_up, same_bytes_refl (text "..")))
]

pub join_path-IsInside :
    (path name : List ℕ)
    → IsInside path
    → IsPart name
    → same_bytes name (text "..") ≡ false
    → IsInside (join_path path name)
join_path-IsInside path name (names, h, e) part not_up = (
  target names name,
  target-All names name h part,
  ap (λ p. join_path p name) e ∙ join_path-not_up names name h part not_up,
)

pub dir_of-IsInside : (path : List ℕ) → IsInside path → IsInside (dir_of path)
dir_of-IsInside path (names, h, e) =
    (drop_last names, drop_last-All names h, ap dir_of e ∙ dir_of-path_of names h)

-- A new name beside a file: its path is below the directory, or is "..".
pub join_path-dir_of :
    (path name : List ℕ)
    → IsInside path
    → IsPart name
    → IsInside (join_path (dir_of path) name) ⊎ (join_path (dir_of path) name ≡ text "..")
join_path-dir_of path name inside part =
    let (names, h, e) = dir_of-IsInside path inside in
    elim (join_path-target names name h part) [
      | inl f ↦
          inl (target names name, target-All names name h part, ap (λ p. join_path p name) e ∙ f)
      | inr out ↦ inr (ap (λ p. join_path p name) e ∙ out.1)
    ]
