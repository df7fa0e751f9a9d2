-- ===== src/Namespace/Loops/Finite.antt =====
-- ns/file.go: walks that end.
use mathlib.Core.Path.{subst}
use p.Common.{
  ℕ, zero, suc, ◌+◌, ◌-◌, ◌≤◌, ◌≡◌, refl, ap, List, [], ◌∷◌, ◌++◌, Bool, true, false, Option, none,
  some, arith,
}
use p.Common.Tests.{◌==◌, if◌then◌else◌}
use p.Common.Names.{same_bytes, lookup_name}
use p.Wire.Types.{text}
use p.Server.Backend.{Outcome, okay, failed}
use p.Namespace.{
  Outside, File, foreign, ro_file, unstamped, rooted, in_tree, bound, Origin, mounted, captured, Ns,
  layer_dev, layer_root, set_resolved, mount_root,
}
use p.Namespace.Files.{dotdot_error, as_ro, try_layers, ns_walk}
use p.Namespace.Loops.{
  height, origin_height, IsRanked, Same, Same-refl, Same-trans, IsBelow, Same-IsBelow,
  Same-IsRanked, Ends, Ends-after, Ends-on, Ends-if, height_pos,
}

okay_injective : {A : Type 0} (x y : A) → okay x ≡ okay y → x ≡ y
okay_injective x y e = cc e

module _ {N W : Type 0} (out : Outside N W) (rank : ℕ → ℕ) where
  set_resolved-Same :
      (ns : Ns N) (l fs : ℕ) (sub : List (List ℕ)) (f : File N)
      → (ns.layers l).origin ≡ mounted fs sub none
      → height rank f ≤ 2
      → Same rank ns (set_resolved out ns l fs sub f)
  unfolding set_resolved origin_height
  set_resolved-Same ns l fs sub f e low = record {
    nodes = refl;
    heights = λ a. ground (arith, ap (origin_height rank) e);
  }

  -- The root of a layer is found or not; either way nothing else changes, and it is as high as said.
  record RootFound (s : Ns N × W) (l : ℕ) (r : (Ns N × W) × Outcome (File N)) : Type 0 where
    pub same : Same rank s.0 r.0.0
    pub low : (f : File N) → r.1 ≡ okay f → height rank f ≤ origin_height rank (s.0.layers l).origin

  found_okay :
      (s s' : Ns N × W) (l : ℕ) (f : File N)
      → Same rank s.0 s'.0
      → height rank f ≤ origin_height rank (s.0.layers l).origin
      → RootFound s l (s', okay f)
  found_okay s s' l f same low = record {
    same = same;
    low = λ g e.
        subst (λ h. height rank h ≤ origin_height rank (s.0.layers l).origin) (okay_injective f g e)
          low;
  }

  found_failed :
      (s s' : Ns N × W) (l : ℕ) (e : List ℕ) → Same rank s.0 s'.0 → RootFound s l (s', failed e)
  found_failed s s' l e same = record { same = same; low = λ g h. cc h }

  fresh_root : (ro : Bool) (n : N) → height rank (if ro then ro_file (foreign n) else foreign n) ≤ 2
  unfolding height
  fresh_root true n = omega arith
  fresh_root false n = omega arith

  layer_root-RootFound : (u : Bool) (s : Ns N × W) (l : ℕ) → RootFound s l (layer_root out u s l)
  unfolding layer_root origin_height
  layer_root-RootFound u (ns, w) l = by_origin (ns.layers l).origin refl
    where
      mount : ℕ → List (List ℕ) → W × Outcome N
      mount fs sub = mount_root out u w (ns.layers l).user fs sub

      by_mount :
          (fs : ℕ) (sub : List (List ℕ)) (o : Outcome N)
          → (ns.layers l).origin ≡ mounted fs sub none
          → (mount fs sub).1 ≡ o
          → RootFound (ns, w) l (layer_root out u (ns, w) l)
      by_mount fs sub (failed e') e m =
          rw (e, m) (found_failed (ns, w) (ns, (mount fs sub).0) l e' (Same-refl rank ns))
      by_mount fs sub (okay n) e m =
          let f : File N = if (ns.layers l).ro then ro_file (foreign n) else foreign n in
          let low : height rank f ≤ 2 = fresh_root (ns.layers l).ro n in
          rw (e, m)
            (found_okay (ns, w) (set_resolved out ns l fs sub f, (mount fs sub).0) l f
              (set_resolved-Same ns l fs sub f e low)
              (omega (arith, low, ap (origin_height rank) e)))

      by_origin :
          (o : Origin N)
          → (ns.layers l).origin ≡ o
          → RootFound (ns, w) l (layer_root out u (ns, w) l)
      by_origin (captured f path) e = rw e (
          found_okay (ns, w) (ns, w) l f (Same-refl rank ns)
            (omega (arith, ap (origin_height rank) e)))
      by_origin (mounted fs sub (some f)) e = rw e (
          found_okay (ns, w) (ns, w) l f (Same-refl rank ns)
            (omega (arith, ap (origin_height rank) e)))
      by_origin (mounted fs sub none) e = by_mount fs sub (mount fs sub).1 e refl

  try_layers-Ends :
      (walk_in : Ns N × W → File N → Option ((Ns N × W) × Outcome (File N))) (u : Bool) (top : ℕ)
      → ((s : Ns N × W) (f : File N)
          → height rank f ≤ top
          → IsRanked rank s.0
          → Ends rank s.0 (walk_in s f))
      → (ls : List ℕ) (s : Ns N × W) (last : List ℕ) → IsBelow rank s.0 top ls
      → IsRanked rank s.0
      → Ends rank s.0 (try_layers out walk_in u s ls last)
  unfolding try_layers IsBelow
  try_layers-Ends walk_in u top ends [] s last below ranked =
      ((s, failed last), refl, Same-refl rank s.0)
  try_layers-Ends walk_in u top ends (l ∷ ls) s last below ranked =
      by_root (λ s' e b h. try_layers-Ends walk_in u top ends ls s' e b h) r.1 refl
    where
      r : (Ns N × W) × Outcome (File N)
      r = layer_root out u s l

      found : RootFound s l r
      found = layer_root-RootFound u s l

      Rest : Type 0
      Rest =
          (s' : Ns N × W) (e : List ℕ)
          → IsBelow rank s'.0 top ls
          → IsRanked rank s'.0
          → Ends rank s'.0 (try_layers out walk_in u s' ls e)

      go_on :
          Rest
          → (s' : Ns N × W) (e : List ℕ) → Same rank s.0 s'.0
          → Ends rank s.0 (try_layers out walk_in u s' ls e)
      go_on rest s' e same = Ends-after rank s.0 s'.0 _ same (
          rest s' e (Same-IsBelow rank s.0 s'.0 top ls same below.1)
            (Same-IsRanked rank s.0 s'.0 same ranked))

      by_walked :
          Rest
          → (root : File N) → r.1 ≡ okay root
          → (q : (Ns N × W) × Outcome (File N)) → walk_in r.0 root ≡ some q
          → Same rank s.0 q.0.0
          → (o : Outcome (File N)) → q.1 ≡ o
          → Ends rank s.0 (try_layers out walk_in u s (l ∷ ls) last)
      by_walked rest root e q walked same (failed e') outcome =
          rw (try_layers, e, walked, outcome) (go_on rest q.0 e' same)
      by_walked rest root e q walked same (okay f) outcome = (
        (q.0, okay (bound f (layer_dev (s.0.layers l)))),
        rw (try_layers, e, walked, outcome) refl,
        same,
      )

      by_root :
          Rest
          → (o : Outcome (File N)) → r.1 ≡ o
          → Ends rank s.0 (try_layers out walk_in u s (l ∷ ls) last)
      by_root rest (failed e') e = rw (try_layers, e) (go_on rest r.0 e' found.same)
      by_root rest (okay root) e =
          let low = found.low root e in
          let walked =
            ends r.0 root (omega (arith, low, below.0))
              (Same-IsRanked rank s.0 r.0.0 found.same ranked) in
          by_walked rest root e walked.0 walked.1
            (Same-trans rank s.0 r.0.0 walked.0.0.0 found.same walked.2) walked.0.1 refl

  -- Where the nodes have ranks such that the roots of a node's layers are below the node, a walk ends,
  -- with a file or an error: fuel as much as the height of the file is enough.
  pub ns_walk-Ends :
      (k : ℕ) (u : Bool) (s : Ns N × W) (f : File N) (name : List ℕ)
      → IsRanked rank s.0
      → height rank f ≤ k
      → Ends rank s.0 (ns_walk out k u s f name)
  unfolding ns_walk height IsRanked IsBelow
  ns_walk-Ends zero u s f name ranked enough = absurd (omega (arith, height_pos rank f))
  ns_walk-Ends (suc k) u s (foreign n) name ranked enough = (_, refl, Same-refl rank s.0)
  ns_walk-Ends (suc k) u s (ro_file f) name ranked enough =
      Ends-on rank as_ro s.0 _ (ns_walk-Ends k u s f name ranked (omega arith))
  ns_walk-Ends (suc k) u s (unstamped f) name ranked enough =
      Ends-on rank unstamped s.0 _ (ns_walk-Ends k u s f name ranked (omega arith))
  ns_walk-Ends (suc k) u s (bound real dev) name ranked enough =
      Ends-on rank (λ g. bound g dev) s.0 _ (ns_walk-Ends k u s real name ranked (omega arith))
  ns_walk-Ends (suc k) u s (rooted f depth) name ranked enough =
      let rest = ns_walk-Ends k u s f name ranked (omega arith) in
      Ends-if rank s.0 _ _ (same_bytes name (text ".."))
        (Ends-if rank s.0 _ _ (depth == 0) ((s, okay (rooted f 0)), refl, Same-refl rank s.0)
          (Ends-on rank (λ g. rooted g (depth - 1)) s.0 _ rest))
        (Ends-on rank (λ g. rooted g (depth + 1)) s.0 _ rest)
  ns_walk-Ends (suc k) u s (in_tree n) name ranked enough =
      let down =
        try_layers-Ends (λ s' f. ns_walk out k u s' f name) u (rank n)
          (λ s' f low ranked'. ns_walk-Ends k u s' f name ranked' (omega arith))
          (s.0.nodes n).layers s (text "ns: " ++ (name ++ text ": no such file")) (ranked n)
          ranked in
      Ends-if rank s.0 _ _ (same_bytes name (text ".."))
        ((s, failed dotdot_error), refl, Same-refl rank s.0)
        (by_child (lookup_name name (s.0.nodes n).children) down)
    where
      by_child :
          (o : Option ℕ) {d : Option ((Ns N × W) × Outcome (File N))}
          → Ends rank s.0 d
          → Ends rank s.0 (elim o [ none ↦ d | some c ↦ some (s, okay (in_tree c)) ])
      by_child none down = down
      by_child (some c) down = ((s, okay (in_tree c)), refl, Same-refl rank s.0)
