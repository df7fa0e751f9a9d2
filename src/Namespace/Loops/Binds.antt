-- ===== src/Namespace/Loops/Binds.antt =====
-- ns/ns.go: binding file systems keeps the tree such that walks end.
use mathlib.Core.Path.{subst}
use p.Common.{inl, inr, ℕ, ◌+◌, ◌≤◌, sym, List, [], ◌∷◌, ◌++◌, Bool, none, arith}
use p.Common.Tests.{◌==◌, Bool-cases, ==_iff, Option-cases}
use p.Common.Names.{lookup_name}
use p.Wire.Types.{text}
use p.Namespace.{mounted, Layer, TreeNode, Ns}
use p.Namespace.Loops.{origin_height, IsRanked, IsBelow}
use p.Common.Names.{insert_name}
use p.Namespace.Bind.{
  Disposition, replace, before, after, other_disposition, blank_tree_node, new_ns, ensure_from,
  ensure_node, set_node, add_layers, new_layer, add_and_log, bind_fs,
}
use p.Namespace.Paths.{split_path}

IsBelow-append :
    {N : Type 0} (rank : ℕ → ℕ) (ns : Ns N) (top : ℕ) (xs ys : List ℕ)
    → IsBelow rank ns top xs
    → IsBelow rank ns top ys
    → IsBelow rank ns top (xs ++ ys)
unfolding IsBelow
IsBelow-append rank ns top [] ys hx hy = hy
IsBelow-append rank ns top (x ∷ xs) ys hx hy = (hx.0, IsBelow-append rank ns top xs ys hx.1 hy)

module _ {N : Type 0} (rank : ℕ → ℕ) (high : (n : ℕ) → 2 ≤ rank n) where
  pub new_ns-IsRanked :
      (hash_path : List ℕ → ℕ) (no_layer : Layer N) (user : List ℕ)
      → IsRanked rank (new_ns hash_path no_layer user)
  unfolding IsRanked new_ns blank_tree_node
  new_ns-IsRanked hash_path no_layer user n = tt

  new_layer-IsBelow :
      (ns : Ns N) (fs : ℕ) (sub : List (List ℕ)) (spec : List ℕ) (ro : Bool) (top : ℕ) (ls : List ℕ)
      → 2 ≤ top
      → IsBelow rank ns top ls
      → IsBelow rank (new_layer ns (mounted fs sub none) spec ro).0 top ls
  unfolding IsBelow new_layer origin_height
  new_layer-IsBelow ns fs sub spec ro top [] h below = tt
  new_layer-IsBelow ns fs sub spec ro top (l ∷ ls) h below =
      (ground (arith, below.0), new_layer-IsBelow ns fs sub spec ro top ls h below.1)

  new_layer_itself :
      (ns : Ns N) (fs : ℕ) (sub : List (List ℕ)) (spec : List ℕ) (ro : Bool) (top : ℕ)
      → 2 ≤ top
      → IsBelow rank
          (new_layer ns (mounted fs sub none) spec ro).0
          top
          ((new_layer ns (mounted fs sub none) spec ro).1 ∷ [])
  unfolding IsBelow new_layer origin_height
  new_layer_itself ns fs sub spec ro top h = (ground arith, tt)

  -- A node with other layers, all of them below it.
  set_node-IsRanked :
      (ns : Ns N) (n : ℕ) (node : TreeNode)
      → IsBelow rank ns (rank n) node.layers
      → IsRanked rank ns
      → IsRanked rank (set_node ns n node)
  unfolding IsRanked IsBelow
  set_node-IsRanked ns n node below ranked a = elim (Bool-cases (a == n)) [
    | inl here ↦
        rw here
          (subst (λ m. IsBelow rank ns (rank m) node.layers) (sym ((==_iff a n).0 here)) below)
    | inr other ↦ rw other (ranked a)
  ]

  ensure_from-IsRanked :
      (hash_path : List ℕ → ℕ) (ns : Ns N) (n : ℕ) (acc : List ℕ) (parts : List (List ℕ))
      → IsRanked rank ns
      → IsRanked rank (ensure_from hash_path ns n acc parts).0
  unfolding ensure_from IsRanked IsBelow blank_tree_node
  ensure_from-IsRanked hash_path ns n acc [] ranked = ranked
  ensure_from-IsRanked hash_path ns n acc (part ∷ parts) ranked =
      elim (Option-cases (lookup_name part (ns.nodes n).children)) [
        | inr (c, there) ↦
            rw (ensure_from, there) (ensure_from-IsRanked hash_path ns c acc' parts ranked)
        | inl missing ↦
            let child = set_node ns ns.made (blank_tree_node (hash_path acc')) in
            let node : TreeNode = record (ns.nodes n) {
              children = insert_name part ns.made (ns.nodes n).children;
            } in
            let grown : IsRanked rank (set_node child n node) =
              set_node-IsRanked child n node (ranked n)
                (set_node-IsRanked ns ns.made _ tt ranked) in
            rw (ensure_from, missing)
              (ensure_from-IsRanked hash_path
                (record (set_node child n node) { made = ns.made + 1 }) ns.made acc' parts grown)
      ]
    where
      acc' : List ℕ
      acc' = acc ++ (text "/" ++ part)

  add_layers-IsRanked :
      (ns : Ns N) (n : ℕ) (new : List ℕ) (disp : Disposition)
      → IsBelow rank ns (rank n) new
      → IsRanked rank ns
      → IsRanked rank (add_layers ns n new disp).0
  unfolding add_layers IsRanked IsBelow
  add_layers-IsRanked ns n new replace below ranked = set_node-IsRanked ns n _ below ranked
  add_layers-IsRanked ns n new before below ranked =
      set_node-IsRanked ns n _
        (IsBelow-append rank ns (rank n) new (ns.nodes n).layers below (ranked n)) ranked
  add_layers-IsRanked ns n new after below ranked =
      set_node-IsRanked ns n _
        (IsBelow-append rank ns (rank n) (ns.nodes n).layers new (ranked n) below) ranked
  add_layers-IsRanked ns n new (other_disposition d) below ranked = ranked

  add_and_log-IsRanked :
      (time : List ℕ) (ns : Ns N) (n : ℕ) (new dst src : List ℕ) (disp : Disposition) (ro : Bool)
      → IsBelow rank ns (rank n) new
      → IsRanked rank ns
      → IsRanked rank (add_and_log time ns n new dst src disp ro).0
  unfolding add_and_log add_layers IsRanked
  add_and_log-IsRanked time ns n new dst src replace ro below ranked =
      add_layers-IsRanked ns n new replace below ranked
  add_and_log-IsRanked time ns n new dst src before ro below ranked =
      add_layers-IsRanked ns n new before below ranked
  add_and_log-IsRanked time ns n new dst src after ro below ranked =
      add_layers-IsRanked ns n new after below ranked
  add_and_log-IsRanked time ns n new dst src (other_disposition d) ro below ranked = ranked

  -- A bind of a file system keeps the roots of layers below their nodes, in a namespace where every
  -- node has a rank of two at least.
  pub bind_fs-IsRanked :
      (hash_path : List ℕ → ℕ) (time : List ℕ) (ns : Ns N) (fs : ℕ) (sub dst : List ℕ)
      (disp : Disposition) (spec : List ℕ) (ro : Bool)
      → IsRanked rank ns
      → IsRanked rank (bind_fs hash_path time ns fs sub dst disp spec ro).0
  unfolding bind_fs ensure_node IsRanked IsBelow new_layer
  bind_fs-IsRanked hash_path time ns fs sub dst disp spec ro ranked =
      let at = ensure_node hash_path ns dst in
      let ensured : IsRanked rank at.0 =
        ensure_from-IsRanked hash_path ns 0 [] (split_path dst) ranked in
      let l = new_layer at.0 (mounted fs (split_path sub) none) spec ro in
      let layered : IsRanked rank l.0 = λ n.
        new_layer-IsBelow at.0 fs (split_path sub) spec ro (rank n) (at.0.nodes n).layers (high n)
          (ensured n) in
      add_and_log-IsRanked time l.0 at.1 (l.1 ∷ []) dst spec disp ro
        (new_layer_itself at.0 fs (split_path sub) spec ro (rank at.1) (high at.1)) layered
