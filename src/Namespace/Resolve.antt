-- ===== src/Namespace/Resolve.antt =====
-- ns/binds.go: which bind point and which of its layers serve a path. What a Resolve that fails
-- returns beside its error is not looked at. A layer's spec, seq and ro never change once it is made,
-- and l.dev() reads no more than these and the kind of its origin.
pub mod Walks
use p.Common.{ℕ, zero, suc, ◌+◌, List, [], ◌∷◌, ◌++◌, Bool, true, false, Option, none, some}
use p.Common.Tests.{◌==◌, if◌then◌else◌}
use p.Common.Lists.{length}
use p.Common.Names.{same_bytes, lookup_name}
use p.Wire.Types.{text, Stat}
use p.Server.Backend.{Outcome, okay, failed}
use p.Namespace.{Outside, File, in_tree, Layer, TreeNode, Ns, layer_dev, layer_root}
use p.Namespace.Paths.{split_path, join}
use p.Namespace.Files.{dotdot_error, ns_stat, ns_walk, walk_all}

-- The Kind of a Resolution.
pub data Kind : Type 0 where
  in_layer bind_point tree_only : Kind

-- `layer` is none for -1.
pub record Resolution : Type 0 where
  pub path : List ℕ
  pub kind : Kind
  pub dst : List ℕ
  pub src : List ℕ
  pub layer : Option ℕ
  pub layers : ℕ
  pub dev : ℕ
  pub inner : List ℕ
  pub ro : Bool

-- The layer that a name was found in: its position in the union, its place, what it is, and the file.
pub record Served (N : Type 0) : Type 0 where
  pub position : ℕ
  pub place : ℕ
  pub layer : Layer N
  pub file : File N

abbrev pub path_text : List (List ℕ) → List ℕ
path_text parts = text "/" ++ join (text "/") parts

-- `if dst == "" { dst = "/" }`
abbrev pub or_root : List ℕ → List ℕ
or_root cur = if length cur == 0 then text "/" else cur

-- The end of resolve, at a node of the tree.
unfoldable pub at_node : {N : Type 0} → Ns N → List ℕ → ℕ → Resolution × Option ℕ
at_node ns path n =
    let layers = (ns.nodes n).layers in
    let res : Resolution = record {
      path = path;
      kind = tree_only;
      dst = path;
      src = [];
      layer = none;
      layers = length layers;
      dev = 0;
      inner = [];
      ro = false;
    } in
    elim layers [
      | [] ↦ (res, none)
      | l ∷ ls ↦ (record res { kind = bind_point; ro = (ns.layers l).ro }, some l)
    ]

module _ {N W : Type 0} (out : Outside N W) where
  abbrev pub Result : Type 0 → Type 0
  Result A = Option ((Ns N × W) × Outcome A)

  -- The layers from the position `i` on, until the walk to the name in the root of one succeeds; `last`
  -- is the last error.
  unfoldable pub find_layer :
      (Ns N × W → File N → Result (File N))
      → Bool
      → Ns N × W
      → ℕ
      → List ℕ
      → List ℕ
      → Result (Served N)
  find_layer walk_in u s i [] last = some (s, failed last)
  find_layer walk_in u s i (l ∷ ls) last =
      let r = layer_root out u s l in
      elim r.1 [
        | failed e ↦ find_layer walk_in u r.0 (i + 1) ls e
        | okay root ↦ elim (walk_in r.0 root) [
          | none ↦ none
          | some q ↦ elim q.1 [
            | failed e ↦ find_layer walk_in u q.0 (i + 1) ls e
            | okay f ↦
                some
                  (q.0, okay (record { position = i; place = l; layer = s.0.layers l; file = f }))
          ]
        ]
      ]

  -- The dev: that of the layer, or else that of the file's Stat, if it has one.
  unfoldable pub serving_dev : Bool → Ns N × W → Layer N → File N → (Ns N × W) × ℕ
  serving_dev u s lay f =
      let st = ns_stat out u s f in
      let from_stat : (Ns N × W) × ℕ = elim st.1 [
        | failed e ↦ (st.0, 0)
        | okay x ↦ (st.0, x.dev)
      ] in
      if layer_dev lay == 0 then from_stat else (s, layer_dev lay)

  -- What resolve makes of the layer that has the name, for the names from it on, in a union of `count`
  -- layers.
  unfoldable pub report :
      ℕ
      → Bool
      → List ℕ
      → List ℕ
      → ℕ
      → List (List ℕ)
      → Ns N × W
      → Served N
      → Result (Resolution × Option ℕ)
  report k u path cur count [] s served = none
  report k u path cur count (name ∷ rest) s served = elim (walk_all out k u s served.file rest) [
    | none ↦ none
    | some r ↦ elim r.1 [
      | failed e ↦ some (r.0, failed (text "ns: " ++ (path ++ (text ": " ++ e))))
      | okay f ↦
          let lay = served.layer in
          let d = serving_dev u r.0 lay f in
          let res : Resolution = record {
            path = path;
            kind = in_layer;
            dst = or_root cur;
            src = lay.spec;
            layer = some served.position;
            layers = count;
            dev = d.1;
            inner = path_text (name ∷ rest);
            ro = lay.ro;
          } in
          some (d.0, okay (res, some served.place))
    ]
  ]

  -- The loop of resolve, from the node `n`, whose path is `cur`.
  unfoldable pub resolve_from :
      ℕ → Bool → List ℕ → Ns N × W → ℕ → List ℕ → List (List ℕ) → Result (Resolution × Option ℕ)
  resolve_from k u path s n cur [] = some (s, okay (at_node s.0 path n))
  resolve_from k u path s n cur (name ∷ rest) =
      let layers = (s.0.nodes n).layers in
      let served : Result (Resolution × Option ℕ) =
        elim (find_layer (λ s' f. ns_walk out k u s' f name) u s 0 layers
          (text "ns: " ++ (name ++ text ": no such file"))) [
            | none ↦ none
            | some r ↦ elim r.1 [
              | failed e ↦ some (r.0, failed (text "ns: " ++ (path ++ (text ": " ++ e))))
              | okay x ↦ report k u path cur (length layers) (name ∷ rest) r.0 x
            ]
          ] in
      let down : Result (Resolution × Option ℕ) = elim (lookup_name name (s.0.nodes n).children) [
        | some c ↦ resolve_from k u path s c (cur ++ (text "/" ++ name)) rest
        | none ↦ served
      ] in
      if same_bytes name (text "..") then some (s, failed dotdot_error) else down

  -- Namespace.resolve
  unfoldable pub resolve : ℕ → Bool → Ns N × W → List ℕ → Result (Resolution × Option ℕ)
  resolve k u s path =
      let parts = split_path path in resolve_from k u (path_text parts) s 0 [] parts
