-- ===== src/Namespace/Bind.antt =====
-- ns/ns.go and ns/bindlog.go: a new namespace, bind, unbind, and the log of them.
use p.Common.{
  ℕ, zero, suc, ◌+◌, ◌-◌, ◌/◌, ◌%◌, ◌^◌, List, [], ◌∷◌, ◌++◌, Bool, true, false, Option, none, some,
}
use p.Common.Tests.{ltb, ◌==◌, if◌then◌else◌}
use p.Common.Lists.{length, drop}
use p.Common.Names.{lookup_name, insert_name}
use p.Wire.Types.{text}
use p.Server.Backend.{Outcome, okay, failed}
use p.Namespace.{
  Outside, ro_file, in_tree, Origin, mounted, captured, Layer, TreeNode, LogEntry, BindLog, Ns,
}
use p.Namespace.Paths.{split_path, join}
use p.Namespace.Files.{walk_all}

-- A Disposition, which is an int; a negative one is left out.
pub data Disposition : Type 0 where
  replace before after : Disposition
  other_disposition : ℕ → Disposition

-- Disposition.String
abbrev pub disposition_text : Disposition → List ℕ
disposition_text before = text "before"
disposition_text after = text "after"
disposition_text replace = text "replace"
disposition_text (other_disposition n) = text "replace"

-- bindLog.add, with the time as it is written.
abbrev pub max_log_entries : ℕ
max_log_entries = 1000

unfoldable pub log_entry : BindLog → List ℕ → Bool → List ℕ → List ℕ → Disposition → Bool → LogEntry
log_entry log time is_bind dst src disp ro = record {
  seq = (log.dropped + length log.entries + 1) % 2 ^ 64;
  time = time;
  op = if is_bind then text "bind" else text "unbind";
  dst = text "/" ++ join (text "/") (split_path dst);
  src = src;
  disp = if is_bind then disposition_text disp else [];
  ro = ro;
}

unfoldable pub log_add : BindLog → LogEntry → BindLog
log_add log e =
    let entries = log.entries ++ (e ∷ []) in
    let extra = length entries - max_log_entries in
    if ltb max_log_entries (length entries)
    then record { entries = drop extra entries; dropped = (log.dropped + extra) % 2 ^ 64 }
    else record log { entries = entries }

unfoldable pub blank_tree_node : ℕ → TreeNode
blank_tree_node path_hash = record { children = []; layers = []; path_hash = path_hash }

-- A number of at most as many digits as the fuel, in decimal.
unfoldable pub decimal : ℕ → ℕ → List ℕ
decimal zero n = []
decimal (suc k) n =
    let rest = decimal k (n / 10) in
    let digit = (48 + n % 10) ∷ [] in if ltb n 10 then digit else rest ++ digit

module _ {N : Type 0} where
  abbrev pub set_node : Ns N → ℕ → TreeNode → Ns N
  set_node ns n node = record ns { nodes = λ a. if a == n then node else ns.nodes a }

  -- New, with the user of WithUser or DefaultUser. hashPath is a parameter; `no_layer` stands at the
  -- places of layers that were not made.
  unfoldable pub new_ns : (List ℕ → ℕ) → Layer N → List ℕ → Ns N
  new_ns hash_path no_layer user = record {
    nodes = λ a. blank_tree_node (hash_path (text "/"));
    made = 1;
    layers = λ a. no_layer;
    made_layers = 0;
    user = user;
    seq = 0;
    log = record { entries = []; dropped = 0 };
  }

  -- The loop of Namespace.ensureNode from the node `n`, whose path is `acc`.
  unfoldable pub ensure_from : (List ℕ → ℕ) → Ns N → ℕ → List ℕ → List (List ℕ) → Ns N × ℕ
  ensure_from hash_path ns n acc [] = (ns, n)
  ensure_from hash_path ns n acc (part ∷ parts) =
      let acc' = acc ++ (text "/" ++ part) in
      let node = ns.nodes n in
      let child = set_node ns ns.made (blank_tree_node (hash_path acc')) in
      let linked =
        set_node child n (record node { children = insert_name part ns.made node.children }) in
      elim (lookup_name part node.children) [
        | some c ↦ ensure_from hash_path ns c acc' parts
        | none ↦ ensure_from hash_path (record linked { made = ns.made + 1 }) ns.made acc' parts
      ]

  unfoldable pub ensure_node : (List ℕ → ℕ) → Ns N → List ℕ → Ns N × ℕ
  ensure_node hash_path ns path = ensure_from hash_path ns 0 [] (split_path path)

  -- Namespace.findNode, from the node `n`.
  unfoldable pub find_from : Ns N → ℕ → List (List ℕ) → Option ℕ
  find_from ns n [] = some n
  find_from ns n (part ∷ parts) = elim (lookup_name part (ns.nodes n).children) [
    | none ↦ none
    | some c ↦ find_from ns c parts
  ]

  abbrev pub find_node : Ns N → List ℕ → Option ℕ
  find_node ns path = find_from ns 0 (split_path path)

  abbrev set_layers : Ns N → ℕ → List ℕ → Ns N
  set_layers ns n ls = set_node ns n (record (ns.nodes n) { layers = ls })

  -- node.addLayers
  unfoldable pub add_layers : Ns N → ℕ → List ℕ → Disposition → Ns N × Outcome (Unit {0})
  add_layers ns n new replace = (set_layers ns n new, okay tt)
  add_layers ns n new before = (set_layers ns n (new ++ (ns.nodes n).layers), okay tt)
  add_layers ns n new after = (set_layers ns n ((ns.nodes n).layers ++ new), okay tt)
  add_layers ns n new (other_disposition d) =
      (ns, failed (text "ns: unknown disposition " ++ decimal 19 d))

  -- A new layer, with the next seq.
  unfoldable pub new_layer : Ns N → Origin N → List ℕ → Bool → Ns N × ℕ
  new_layer ns origin spec ro =
      let seq = (ns.seq + 1) % 2 ^ 64 in
      let l : Layer N = record {
        origin = origin;
        spec = spec;
        seq = seq;
        ro = ro;
        user = ns.user;
      } in
      let layers : ℕ → Layer N = λ a. if a == ns.made_layers then l else ns.layers a in
      (record ns { layers = layers; made_layers = ns.made_layers + 1; seq = seq }, ns.made_layers)

  -- The end of both binds: the layers are added, and the bind is logged if they were.
  unfoldable pub add_and_log :
      List ℕ → Ns N → ℕ → List ℕ → List ℕ → List ℕ → Disposition → Bool → Ns N × Outcome (Unit {0})
  add_and_log time ns n new dst src disp ro =
      let r = add_layers ns n new disp in
      elim r.1 [
        | failed e ↦ r
        | okay _ ↦ (
          record r.0 { log = log_add r.0.log (log_entry r.0.log time true dst src disp ro) },
          okay tt,
        )
      ]

  -- Namespace.BindFSOpts
  unfoldable pub bind_fs :
      (List ℕ → ℕ)
      → List ℕ
      → Ns N
      → ℕ
      → List ℕ
      → List ℕ
      → Disposition
      → List ℕ
      → Bool
      → Ns N × Outcome (Unit {0})
  bind_fs hash_path time ns fs subpath dst disp spec ro =
      let at = ensure_node hash_path ns dst in
      let l = new_layer at.0 (mounted fs (split_path subpath) none) spec ro in
      add_and_log time l.0 at.1 (l.1 ∷ []) dst spec disp ro

  -- Namespace.Unbind
  unfoldable pub unbind : List ℕ → Ns N → List ℕ → Ns N × Outcome (Unit {0})
  unbind time ns path =
      let nothing = text "ns: unbind: nothing bound at " ++ path in
      let logged : ℕ → Ns N = λ n. record (set_layers ns n []) {
        log = log_add ns.log (log_entry ns.log time false path [] replace false);
      } in
      elim (find_node ns path) [
        | none ↦ (ns, failed nothing)
        | some n ↦
            if length (ns.nodes n).layers == 0 then (ns, failed nothing) else (logged n, okay tt)
      ]

module _ {N W : Type 0} (out : Outside N W) where
  -- The loop of Namespace.BindPathOpts: each source path is walked from the root, and makes a layer.
  unfoldable pub capture_all :
      ℕ → Bool → Ns N × W → Bool → List (List ℕ) → Option ((Ns N × W) × Outcome (List ℕ))
  capture_all k u s ro [] = some (s, okay [])
  capture_all k u s ro (sp ∷ sps) = elim (walk_all out k u s (in_tree 0) (split_path sp)) [
    | none ↦ none
    | some r ↦ elim r.1 [
      | failed e ↦ some (r.0, failed (text "ns: bind: " ++ (sp ++ (text ": " ++ e))))
      | okay f ↦
          let l = new_layer r.0.0 (captured (if ro then ro_file f else f) sp) sp ro in
          elim (capture_all k u (l.0, r.0.1) ro sps) [
            | none ↦ none
            | some q ↦ elim q.1 [
              | failed e ↦ some (q.0, failed e)
              | okay ls ↦ some (q.0, okay (l.1 ∷ ls))
            ]
          ]
    ]
  ]

  -- Namespace.BindPathOpts
  unfoldable pub bind_path :
      (List ℕ → ℕ)
      → List ℕ
      → ℕ
      → Bool
      → Ns N × W
      → List (List ℕ)
      → List ℕ
      → Disposition
      → Bool
      → Option ((Ns N × W) × Outcome (Unit {0}))
  bind_path hash_path time k u s [] dst disp ro =
      some (s, failed (text "ns: bind: no source path given"))
  bind_path hash_path time k u s (sp ∷ sps) dst disp ro = elim (capture_all k u s ro (sp ∷ sps)) [
    | none ↦ none
    | some r ↦ elim r.1 [
      | failed e ↦ some (r.0, failed e)
      | okay ls ↦
          let at = ensure_node hash_path r.0.0 dst in
          let b = add_and_log time at.0 at.1 ls dst (join (text " + ") (sp ∷ sps)) disp ro in
          some ((b.0, r.0.1), b.1)
    ]
  ]
