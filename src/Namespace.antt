-- ===== src/Namespace.antt =====
-- ns/: a namespace, that is a tree made by bind, and the files that wrap others. A *node and a *layer
-- are numbers, places in a store. What lies outside is a parameter: the file systems that are bound,
-- by number, and their files. Each call here runs with no other between its steps.
pub mod Files
pub mod Paths
pub mod Read
pub mod Bind
pub mod Resolve
pub mod Remote
pub mod Subtree
pub mod ReadOnly
pub mod Loops
mod Tests
use p.Common.{ℕ, ◌%◌, ◌^◌, List, [], ◌∷◌, Bool, true, false, Option, none, some}
use p.Common.Tests.{◌==◌, if◌then◌else◌}
use p.Server.Backend.{Outcome, okay, failed, Backend}

-- The file systems outside, and the files of all of them.
pub record Outside (N W : Type 0) : Type 0 where
  pub files : Backend N W
  pub attach : ℕ → Bool → W → List ℕ → List ℕ → W × Outcome N

-- The types of server.File: one from outside, roFile, rootedFile with its depth, unstampedFile, and
-- nsFile at a node of the tree or with a real file and a dev.
pub data File (N : Type 0) : Type 0 where
  foreign : N → File N
  ro_file unstamped : File N → File N
  rooted : File N → (depth : ℕ) → File N
  in_tree : (n : ℕ) → File N
  bound : (real : File N) → (dev : ℕ) → File N

-- Where a layer's root comes from: a file system and the subpath in it, with the root once it is
-- resolved, or a file that was resolved at the bind, and the path it was bound from.
pub data Origin (N : Type 0) : Type 0 where
  mounted : (fs : ℕ) → (subpath : List (List ℕ)) → Option (File N) → Origin N
  captured : File N → (src_path : List ℕ) → Origin N

pub record Layer (N : Type 0) : Type 0 where
  pub origin : Origin N
  pub spec : List ℕ
  pub seq : ℕ
  pub ro : Bool
  pub user : List ℕ

-- node, with its children by name and its layers in order.
pub record TreeNode : Type 0 where
  pub children : List (List ℕ × ℕ)
  pub layers : List ℕ
  pub path_hash : ℕ

pub record LogEntry : Type 0 where
  pub seq : ℕ
  pub time : List ℕ
  pub op : List ℕ
  pub dst : List ℕ
  pub src : List ℕ
  pub disp : List ℕ
  pub ro : Bool

-- bindLog, without its hook
pub record BindLog : Type 0 where
  pub entries : List LogEntry
  pub dropped : ℕ

-- Namespace, with its nodes and layers. The root is node 0.
pub record Ns (N : Type 0) : Type 0 where
  pub nodes : ℕ → TreeNode
  pub made : ℕ
  pub layers : ℕ → Layer N
  pub made_layers : ℕ
  pub user : List ℕ
  pub seq : ℕ
  pub log : BindLog

-- layer.dev
unfoldable pub layer_dev : {N : Type 0} → Layer N → ℕ
layer_dev l = elim l.origin [ mounted fs sub root ↦ l.seq % 2 ^ 32 | captured f path ↦ 0 ]

module _ {N W : Type 0} (out : Outside N W) where
  -- The walk of a layer's subpath.
  unfoldable pub walk_down : Bool → W → N → List (List ℕ) → W × Outcome N
  walk_down unix w f [] = (w, okay f)
  walk_down unix w f (part ∷ parts) =
      let r = out.files.walk unix w f part in
      elim r.1 [ failed e ↦ (r.0, failed e) | okay g ↦ walk_down unix r.0 g parts ]

  -- The root of a file system, walked to a subpath.
  unfoldable pub mount_root : Bool → W → List ℕ → ℕ → List (List ℕ) → W × Outcome N
  mount_root unix w user fs sub =
      let r = out.attach fs unix w user [] in
      elim r.1 [ failed e ↦ (r.0, failed e) | okay f ↦ walk_down unix r.0 f sub ]

  -- `l.resolved = f` for the layer `l`.
  unfoldable pub set_resolved : Ns N → ℕ → ℕ → List (List ℕ) → File N → Ns N
  set_resolved ns l fs sub f =
      let lay = record (ns.layers l) { origin = mounted fs sub (some f) } in
      record ns { layers = λ a. if a == l then lay else ns.layers a }

  -- layer.root
  unfoldable pub layer_root : Bool → Ns N × W → ℕ → (Ns N × W) × Outcome (File N)
  layer_root unix (ns, w) l = elim (ns.layers l).origin [
    | captured f path ↦ ((ns, w), okay f)
    | mounted fs sub (some f) ↦ ((ns, w), okay f)
    | mounted fs sub none ↦
        let r = mount_root unix w (ns.layers l).user fs sub in
        elim r.1 [
          | failed e ↦ ((ns, r.0), failed e)
          | okay n ↦
              let f = if (ns.layers l).ro then ro_file (foreign n) else foreign n in
              ((set_resolved ns l fs sub f, r.0), okay f)
        ]
  ]
