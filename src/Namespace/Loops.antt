-- ===== src/Namespace/Loops.antt =====
-- ns/file.go: how far a walk in the tree can go. Layers may be bound from paths of the tree itself.
pub mod Finite
pub mod Endless
pub mod Binds
use Prim.Native.Nat.{max}
use mathlib.Core.Path.{subst}
use p.Common.{
  ◌⊎◌, inl, inr, ◌≢◌, ℕ, zero, suc, ◌+◌, ◌-◌, ◌≤◌, ◌<◌, ◌≡◌, refl, sym, ap, ◌∙◌, List, [], ◌∷◌,
  ◌++◌, Bool, true, false, Option, none, some, arith,
}
use p.Common.Tests.{◌==◌, if◌then◌else◌}
use p.Common.Names.{same_bytes, lookup_name}
use p.Common.Lists.{All}
use p.Wire.Types.{text}
use p.Server.Backend.{Outcome, okay, failed, Backend}
use p.Namespace.{
  Outside, File, foreign, ro_file, unstamped, rooted, in_tree, bound, Origin, mounted, captured,
  Layer, TreeNode, Ns, layer_dev, layer_root, set_resolved, mount_root,
}
use p.Namespace.Files.{map_outcome, dotdot_error, pass_on, as_ro, try_layers, ns_walk}

module _ {N : Type 0} (rank : ℕ → ℕ) where
  -- How many files a walk passes through before it is in the tree again, counted with the rank of the
  -- node that it is at then.
  unfoldable pub height : File N → ℕ
  height (foreign n) = 1
  height (ro_file f) = suc (height f)
  height (unstamped f) = suc (height f)
  height (rooted f depth) = suc (height f)
  height (bound real dev) = suc (height real)
  height (in_tree n) = suc (rank n)

  unfoldable pub origin_height : Origin N → ℕ
  origin_height (captured f path) = height f
  origin_height (mounted fs sub none) = 2
  origin_height (mounted fs sub (some f)) = max 2 (height f)

  -- The roots of a node's layers are below the node.
  unfoldable pub IsRanked : Ns N → Type 0
  IsRanked ns = (n : ℕ) → All (λ l. origin_height (ns.layers l).origin ≤ rank n) (ns.nodes n).layers

module _ {N : Type 0} (rank : ℕ → ℕ) where
  -- What walks keep: the nodes, and how high the roots of layers are.
  pub record Same (ns ns' : Ns N) : Type 0 where
    pub nodes : ns'.nodes ≡ ns.nodes
    pub heights :
        (l : ℕ) → origin_height rank (ns'.layers l).origin ≡ origin_height rank (ns.layers l).origin

  pub Same-refl : (ns : Ns N) → Same ns ns
  Same-refl ns = record { nodes = refl; heights = λ l. refl }

  pub Same-trans : (a b c : Ns N) → Same a b → Same b c → Same a c
  Same-trans a b c x y = record {
    nodes = y.nodes ∙ x.nodes;
    heights = λ l. y.heights l ∙ x.heights l;
  }

  unfoldable pub IsBelow : Ns N → ℕ → List ℕ → Type 0
  IsBelow ns top ls = All (λ l. origin_height rank (ns.layers l).origin ≤ top) ls

  pub Same-IsBelow :
      (a b : Ns N) (top : ℕ) (ls : List ℕ) → Same a b → IsBelow a top ls → IsBelow b top ls
  unfolding IsBelow
  Same-IsBelow a b top [] same below = tt
  Same-IsBelow a b top (l ∷ ls) same below =
      (omega (arith, same.heights l, below.0), Same-IsBelow a b top ls same below.1)

  pub Same-IsRanked : (a b : Ns N) → Same a b → IsRanked rank a → IsRanked rank b
  unfolding IsBelow IsRanked
  Same-IsRanked a b same ranked n =
      let here = ap (λ (nodes : ℕ → TreeNode). (nodes n).layers) same.nodes in
      subst (IsBelow b (rank n)) (sym here)
        (Same-IsBelow a b (rank n) (a.nodes n).layers same (ranked n))

  -- A walk that ends.
  abbrev pub Ends : {W : Type 0} → Ns N → Option ((Ns N × W) × Outcome (File N)) → Type 0
  Ends {W} ns o = (r : (Ns N × W) × Outcome (File N)) × (o ≡ some r) × Same ns r.0.0

  pub Ends-after :
      {W : Type 0} (a b : Ns N) (o : Option ((Ns N × W) × Outcome (File N)))
      → Same a b
      → Ends b o
      → Ends a o
  Ends-after a b o same (r, e, kept) = (r, e, Same-trans a b r.0.0 same kept)

  pub Ends-on :
      {W : Type 0} (g : File N → File N) (a : Ns N) (o : Option ((Ns N × W) × Outcome (File N)))
      → Ends a o
      → Ends a (pass_on g o)
  Ends-on g a o (r, e, kept) = rw e ((r.0, map_outcome g r.1), refl, kept)

  pub Ends-if :
      {W : Type 0} (a : Ns N) (x y : Option ((Ns N × W) × Outcome (File N))) (b : Bool)
      → Ends a x
      → Ends a y
      → Ends a (if b then x else y)
  Ends-if a x y true ex ey = ex
  Ends-if a x y false ex ey = ey

  pub height_pos : (f : File N) → 0 < height rank f
  unfolding height
  height_pos (foreign n) = omega arith
  height_pos (ro_file f) = omega arith
  height_pos (unstamped f) = omega arith
  height_pos (rooted f depth) = omega arith
  height_pos (bound real dev) = omega arith
  height_pos (in_tree n) = omega arith
