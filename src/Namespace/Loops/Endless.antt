-- ===== src/Namespace/Loops/Endless.antt =====
-- ns/file.go: walks that do not end.
use p.Common.Tests.{Option-cases, ==-refl}
use p.Namespace.Paths.{split_path, join}
use p.Namespace.Bind.{
  replace, find_from, find_node, ensure_from, ensure_node, add_layers, new_layer, add_and_log,
  capture_all, bind_path,
}
use p.Namespace.Files.{walk_all}
use p.Common.{inl, inr, some, [], arith}
use p.Common.{ℕ, zero, suc, ◌≡◌, refl, ap, List, ◌∷◌, ◌++◌, Bool, false, Option, none}
use p.Common.Names.{same_bytes, lookup_name}
use p.Wire.Types.{text}
use p.Server.Backend.{Outcome, okay}
use p.Namespace.{Outside, File, in_tree, Origin, captured, Ns, layer_root}
use p.Namespace.Files.{try_layers, ns_walk}

layer_root-captured :
    {N W : Type 0} (out : Outside N W) (u : Bool) (s : Ns N × W) (l : ℕ) (f : File N)
    (path : List ℕ)
    → (s.0.layers l).origin ≡ captured f path
    → layer_root out u s l ≡ (s, okay f)
unfolding layer_root
layer_root-captured out u (ns, w) l f path e = rw e refl

-- A walk in the first layer's root that does not end.
try_layers-none :
    {N W : Type 0} (out : Outside N W)
    (walk_in : Ns N × W → File N → Option ((Ns N × W) × Outcome (File N))) (u : Bool) (s : Ns N × W)
    (l : ℕ) (ls last : List ℕ) (f : File N)
    → layer_root out u s l ≡ (s, okay f)
    → walk_in s f ≡ none
    → try_layers out walk_in u s (l ∷ ls) last ≡ none
unfolding try_layers
try_layers-none out walk_in u s l ls last f root stuck =
    rw (try_layers, ap (λ r. r.1) root, ap (λ r. r.0) root, stuck) refl

-- Where the first layer of a node was bound from the node itself, a walk to a name that is no child in
-- the tree goes on in that layer, which is the node again: however much fuel it is given, it does not
-- end.
ns_walk-none :
    {N W : Type 0} (out : Outside N W) (k : ℕ) (u : Bool) (s : Ns N × W) (n l : ℕ) (ls : List ℕ)
    (name path : List ℕ)
    → (s.0.nodes n).layers ≡ l ∷ ls
    → (s.0.layers l).origin ≡ captured (in_tree n) path
    → lookup_name name (s.0.nodes n).children ≡ none
    → same_bytes name (text "..") ≡ false
    → ns_walk out k u s (in_tree n) name ≡ none
unfolding ns_walk try_layers
ns_walk-none out zero u s n l ls name path first itself no_child no_up = refl
ns_walk-none out (suc k) u s n l ls name path first itself no_child no_up =
    let again = ns_walk-none out k u s n l ls name path first itself no_child no_up in
    let root = layer_root-captured out u s l (in_tree n) path itself in
    let stuck =
      try_layers-none out (λ s' f. ns_walk out k u s' f name) u s l ls
        (text "ns: " ++ (name ++ text ": no such file")) (in_tree n) root again in
    rw (no_child, no_up, first) stuck

some_injective : (a b : ℕ) → some a ≡ some b → a ≡ b
some_injective a b e = cc e

no_node : {n : ℕ} → ¬ (none ≡ some n)
no_node e = cc e

-- A path that the tree has is found, also after a new layer, and makes no node.
ensure_from-find_from :
    {N : Type 0} (hash_path : List ℕ → ℕ) (ns : Ns N) (o : Origin N) (spec : List ℕ) (at n : ℕ)
    (acc : List ℕ) (parts : List (List ℕ))
    → find_from ns at parts ≡ some n
    → ensure_from hash_path (new_layer ns o spec false).0 at acc parts
      ≡ ((new_layer ns o spec false).0, n)
unfolding find_from ensure_from new_layer
ensure_from-find_from hash_path ns o spec at n acc [] e =
    ap (λ m. ((new_layer ns o spec false).0, m)) (some_injective at n e)
ensure_from-find_from hash_path ns o spec at n acc (part ∷ parts) e =
    elim (Option-cases (lookup_name part (ns.nodes at).children)) [
      | inl missing ↦ absurd (no_node (rw (find_from, missing) at e))
      | inr (c, there) ↦
          rw (ensure_from, there)
            (ensure_from-find_from hash_path ns o spec c n (acc ++ (text "/" ++ part)) parts
              (rw (find_from, there) at e))
    ]

module _ {N W : Type 0} (out : Outside N W) (hash_path : List ℕ → ℕ) (time sp : List ℕ) (k : ℕ)
    (u : Bool) (ns : Ns N) (w : W) (n : ℕ) where
  -- The namespace after the bind of the path at itself.
  looped : Ns N
  looped =
      let l = new_layer ns (captured (in_tree n) sp) sp false in
      (add_and_log time l.0 n (l.1 ∷ []) sp sp replace false).0

  added :
      (add_and_log time
        (new_layer ns (captured (in_tree n) sp) sp false).0
        n
        ((new_layer ns (captured (in_tree n) sp) sp false).1 ∷ [])
        sp
        sp
        replace
        false).1
      ≡ okay tt
  unfolding add_and_log add_layers
  added = refl

  bind_path-looped :
      find_node ns sp ≡ some n
      → walk_all out k u (ns, w) (in_tree 0) (split_path sp) ≡ some ((ns, w), okay (in_tree n))
      → bind_path out hash_path time k u (ns, w) (sp ∷ []) sp replace false
        ≡ some ((looped, w), okay tt)
  unfolding bind_path capture_all looped join
  bind_path-looped found reached =
      let at : ensure_node hash_path (new_layer ns (captured (in_tree n) sp) sp false).0 sp
          ≡ ((new_layer ns (captured (in_tree n) sp) sp false).0, n) =
        unfold ensure_node in
        ensure_from-find_from hash_path ns (captured (in_tree n) sp) sp 0 n [] (split_path sp)
          found in
      rw (bind_path, capture_all, reached, ap (λ r. r.1) at, ap (λ r. r.0) at)
        (ap (λ o. some ((looped, w), o)) added)

  -- BindPath of a path of the tree at itself, with Replace, succeeds where the path walks to its node;
  -- after it, a walk from that node to a name that is no child in the tree does not end, however much
  -- fuel it is given.
  pub bind_path_endless :
      find_node ns sp ≡ some n
      → walk_all out k u (ns, w) (in_tree 0) (split_path sp) ≡ some ((ns, w), okay (in_tree n))
      → (s : Ns N × W) × (bind_path out hash_path time k u (ns, w) (sp ∷ []) sp replace false
          ≡ some (s, okay tt))
        × ((fuel : ℕ) (name : List ℕ)
            → lookup_name name (ns.nodes n).children ≡ none
            → same_bytes name (text "..") ≡ false
            → ns_walk out fuel u s (in_tree n) name ≡ none)
  unfolding looped add_and_log add_layers new_layer
  bind_path_endless found reached = (
    (looped, w),
    bind_path-looped found reached,
    λ fuel name no_child no_up.
        ns_walk-none out fuel u (looped, w) n ns.made_layers [] name sp (ground arith)
          (ground arith) (rw (==-refl n) no_child) no_up,
  )
