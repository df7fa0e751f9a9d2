-- ===== src/Namespace/Subtree.antt =====
-- ns/subtree.go: a subtree that is served as a whole, and how its walks are kept inside of it.
use p.Common.{
  ℕ, zero, suc, ◌+◌, ◌-◌, ◌≡◌, refl, inl, inr, List, [], ◌∷◌, ◌++◌, Bool, true, false, not, Option,
  none, some, arith,
}
use p.Common.Tests.{◌==◌, if◌then◌else◌, Bool-cases}
use p.Common.Names.{same_bytes}
use p.Wire.Types.{text, qid_is_dir}
use p.Server.Backend.{Outcome, okay, failed}
use p.Namespace.{Outside, File, ro_file, rooted, in_tree, Ns}
use p.Namespace.Files.{pass_on, ns_stat, ns_walk, walk_all}
use p.Namespace.Paths.{join}

module _ {N W : Type 0} (out : Outside N W) where
  -- The end of subtreeFS.Attach, for the file that the path leads to.
  unfoldable pub serve :
      Bool → Bool → List (List ℕ) → Ns N × W → File N → (Ns N × W) × Outcome (File N)
  serve u ro parts s f =
      let st = ns_stat out u s f in
      let not_dir = text "ns: serving /" ++ (join (text "/") parts ++ text ": not a directory") in
      elim st.1 [
        | failed e ↦ (st.0, failed e)
        | okay x ↦
            if not (qid_is_dir x.qid)
            then (st.0, failed not_dir)
            else (st.0, okay (if ro then ro_file (rooted f 0) else rooted f 0))
      ]

  -- subtreeFS.Attach
  unfoldable pub subtree_attach :
      ℕ → Bool → Bool → List (List ℕ) → Ns N × W → Option ((Ns N × W) × Outcome (File N))
  subtree_attach k u ro parts s = elim (walk_all out k u s (in_tree 0) parts) [
    | none ↦ none
    | some r ↦ elim r.1 [
      | failed e ↦
          some (r.0, failed (text "ns: serving /" ++ (join (text "/") parts ++ (text ": " ++ e))))
      | okay f ↦ some (serve u ro parts r.0 f)
    ]
  ]

-- What a rooted file at a depth hands on of the names that it is walked by: all but each `..` at the
-- root; and the depth after them.
abbrev pub is_up : List ℕ → Bool
is_up name = same_bytes name (text "..")

pub inside : ℕ → List (List ℕ) → List (List ℕ)
inside d [] = []
inside zero (name ∷ names) =
    let at_root = inside 0 names in
    let below = name ∷ inside 1 names in if is_up name then at_root else below
inside (suc d) (name ∷ names) =
    let up = name ∷ inside d names in
    let below = name ∷ inside (suc (suc d)) names in if is_up name then up else below

pub depth_after : ℕ → List (List ℕ) → ℕ
depth_after d [] = d
depth_after zero (name ∷ names) =
    let at_root = depth_after 0 names in
    let below = depth_after 1 names in if is_up name then at_root else below
depth_after (suc d) (name ∷ names) =
    let up = depth_after d names in
    let below = depth_after (suc (suc d)) names in if is_up name then up else below

-- From this depth the names go up no further than to the root.
pub StaysInside : ℕ → List (List ℕ) → Type 0
StaysInside d [] = Unit
StaysInside zero (name ∷ names) = (is_up name ≡ false) × StaysInside 1 names
StaysInside (suc d) (name ∷ names) =
    if is_up name then StaysInside d names else StaysInside (suc (suc d)) names

inside-StaysInside : (d : ℕ) (names : List (List ℕ)) → StaysInside d (inside d names)
unfolding inside StaysInside
inside-StaysInside d [] = tt
inside-StaysInside zero (name ∷ names) =
    ground (arith, inside-StaysInside 0 names, inside-StaysInside 1 names)
inside-StaysInside (suc d) (name ∷ names) =
    ground (arith, inside-StaysInside d names, inside-StaysInside (suc (suc d)) names)

module _ {N W : Type 0} (out : Outside N W) where
  -- The rooted file for a result.
  abbrev root_all :
      ℕ → Option ((Ns N × W) × Outcome (File N)) → Option ((Ns N × W) × Outcome (File N))
  root_all d o = pass_on (λ g. rooted g d) o

  -- A name that is handed on, from one depth to another.
  walk_all_on :
      (k : ℕ) (u : Bool) (s : Ns N × W) (f : File N) (d d' e : ℕ) (name : List ℕ)
      (names parts : List (List ℕ))
      → ns_walk out (suc k) u s (rooted f d) name ≡ root_all d' (ns_walk out k u s f name)
      → ((s' : Ns N × W) (g : File N)
          → walk_all out (suc k) u s' (rooted g d') names
            ≡ root_all e (walk_all out k u s' g parts))
      → walk_all out (suc k) u s (rooted f d) (name ∷ names)
        ≡ root_all e (walk_all out k u s f (name ∷ parts))
  unfolding walk_all
  walk_all_on k u s f d d' e name names parts step rest = by_result (ns_walk out k u s f name) refl
    where
      by_result :
          (o : Option ((Ns N × W) × Outcome (File N)))
          → ns_walk out k u s f name ≡ o
          → walk_all out (suc k) u s (rooted f d) (name ∷ names)
            ≡ root_all e (walk_all out k u s f (name ∷ parts))
      by_result none h = rw (walk_all, step, h) refl
      by_result (some (s', failed x)) h = rw (walk_all, step, h) refl
      by_result (some (s', okay g)) h = rw (walk_all, step, h) (rest s' g)

  ns_walk-up :
      (k : ℕ) (u : Bool) (s : Ns N × W) (f : File N) (d : ℕ) (name : List ℕ)
      → is_up name ≡ true
      → ns_walk out (suc k) u s (rooted f (suc d)) name ≡ root_all d (ns_walk out k u s f name)
  unfolding ns_walk
  ns_walk-up k u s f d name up =
      let below : (suc d == 0) ≡ false = ground arith in
      let less : suc d - 1 ≡ d = omega arith in rw (up, below, less) refl

  ns_walk-down :
      (k : ℕ) (u : Bool) (s : Ns N × W) (f : File N) (d : ℕ) (name : List ℕ)
      → is_up name ≡ false
      → ns_walk out (suc k) u s (rooted f d) name ≡ root_all (suc d) (ns_walk out k u s f name)
  unfolding ns_walk
  ns_walk-down k u s f d name down = let more : d + 1 ≡ suc d = omega arith in rw (down, more) refl

  ns_walk_at_root :
      (k : ℕ) (u : Bool) (s : Ns N × W) (f : File N) (name : List ℕ)
      → is_up name ≡ true
      → ns_walk out (suc k) u s (rooted f 0) name ≡ some (s, okay (rooted f 0))
  unfolding ns_walk
  ns_walk_at_root k u s f name up = rw up refl

  walk_all-rooted :
      (k : ℕ) (u : Bool) (s : Ns N × W) (f : File N) (d : ℕ) (names : List (List ℕ))
      → walk_all out (suc k) u s (rooted f d) names
        ≡ root_all (depth_after d names) (walk_all out k u s f (inside d names))
  unfolding walk_all inside depth_after
  walk_all-rooted k u s f d [] = refl
  walk_all-rooted k u s f zero (name ∷ names) = elim (Bool-cases (is_up name)) [
    | inl up ↦ rw (up, walk_all, ns_walk_at_root k u s f name up) (walk_all-rooted k u s f 0 names)
    | inr down ↦ rw down (
        walk_all_on k u s f 0 1 (depth_after 1 names) name names (inside 1 names)
          (ns_walk-down k u s f 0 name down) (λ s' g. walk_all-rooted k u s' g 1 names))
  ]
  walk_all-rooted k u s f (suc d) (name ∷ names) = elim (Bool-cases (is_up name)) [
    | inl up ↦ rw up (
        walk_all_on k u s f (suc d) d (depth_after d names) name names (inside d names)
          (ns_walk-up k u s f d name up) (λ s' g. walk_all-rooted k u s' g d names))
    | inr down ↦ rw down (
        walk_all_on k u s f (suc d) (suc (suc d)) (depth_after (suc (suc d)) names) name names
          (inside (suc (suc d)) names) (ns_walk-down k u s f (suc d) name down)
          (λ s' g. walk_all-rooted k u s' g (suc (suc d)) names))
  ]

  -- Walking a served subtree by any names, from its root, is walking the file underneath by names that
  -- go up no further than to where they began, and gives that file, rooted at its depth, or that error,
  -- and the same state.
  pub walk_all-inside :
      (k : ℕ) (u : Bool) (s : Ns N × W) (f : File N) (names : List (List ℕ))
      → StaysInside 0 (inside 0 names)
        × (walk_all out (suc k) u s (rooted f 0) names
            ≡ pass_on (λ g. rooted g (depth_after 0 names)) (walk_all out k u s f (inside 0 names)))
  walk_all-inside k u s f names = (inside-StaysInside 0 names, walk_all-rooted k u s f 0 names)
