-- ===== src/Namespace/Resolve/Walks.antt =====
-- ns/binds.go and ns/file.go: Resolve gives the answer that a walk gives.
use p.Common.{
  ℕ, suc, ◌+◌, ◌≡◌, refl, ap, ◌∙◌, ◌⊎◌, inl, inr, List, [], ◌∷◌, ◌++◌, Bool, true, false, Option,
  none, some, arith,
}
use p.Common.Tests.{◌==◌, if◌then◌else◌, Bool-cases}
use p.Common.Lists.{length}
use p.Common.Names.{same_bytes, lookup_name}
use p.Wire.Types.{text, Stat}
use p.Server.Backend.{Outcome, okay, failed}
use p.Namespace.{Outside, File, in_tree, bound, Layer, Ns, layer_dev, layer_root}
use p.Namespace.Paths.{split_path}
use p.Namespace.Files.{
  pass_on, map_outcome, dotdot_error, stamp, ns_stat, try_layers, ns_walk, walk_all,
}
use p.Namespace.Resolve.{
  in_layer, bind_point, tree_only, Resolution, Served, at_node, find_layer, serving_dev, report,
  resolve_from, resolve, path_text,
}

module _ {N W : Type 0} (out : Outside N W) (u : Bool) where
  bound_all : ℕ → Option ((Ns N × W) × Outcome (File N)) → Option ((Ns N × W) × Outcome (File N))
  bound_all dev o = pass_on (λ g. bound g dev) o

  -- Walks in a bound file are walks in the real one.
  walk_all-bound :
      (k : ℕ) (s : Ns N × W) (f : File N) (dev : ℕ) (names : List (List ℕ))
      → walk_all out (suc k) u s (bound f dev) names ≡ bound_all dev (walk_all out k u s f names)
  unfolding walk_all ns_walk bound_all
  walk_all-bound k s f dev [] = refl
  walk_all-bound k s f dev (name ∷ names) =
      by_result (ns_walk out k u s f name) refl (λ s' g. walk_all-bound k s' g dev names)
    where
      by_result :
          (o : Option ((Ns N × W) × Outcome (File N)))
          → ns_walk out k u s f name ≡ o
          → ((s' : Ns N × W) (g : File N)
              → walk_all out (suc k) u s' (bound g dev) names
                ≡ bound_all dev (walk_all out k u s' g names))
          → walk_all out (suc k) u s (bound f dev) (name ∷ names)
            ≡ bound_all dev (walk_all out k u s f (name ∷ names))
      by_result none h rest = rw (walk_all, ns_walk, h) refl
      by_result (some (s', failed x)) h rest = rw (walk_all, ns_walk, h) refl
      by_result (some (s', okay g)) h rest = rw (walk_all, ns_walk, h) (rest s' g)

  abbrev served_file : Served N → File N
  served_file x = bound x.file (layer_dev x.layer)

  -- A walk finds the same layer.
  try_layers-find_layer :
      (walk_in : Ns N × W → File N → Option ((Ns N × W) × Outcome (File N))) (s : Ns N × W) (i : ℕ)
      (ls last : List ℕ)
      → try_layers out walk_in u s ls last
        ≡ pass_on served_file (find_layer out walk_in u s i ls last)
  unfolding try_layers find_layer
  try_layers-find_layer walk_in s i [] last = refl
  try_layers-find_layer walk_in s i (l ∷ ls) last =
      by_root r.1 refl (λ s' e. try_layers-find_layer walk_in s' (i + 1) ls e)
    where
      r : (Ns N × W) × Outcome (File N)
      r = layer_root out u s l

      Goal : Type 0
      Goal =
          try_layers out walk_in u s (l ∷ ls) last
          ≡ pass_on served_file (find_layer out walk_in u s i (l ∷ ls) last)

      Rest : Type 0
      Rest =
          (s' : Ns N × W) (e : List ℕ)
          → try_layers out walk_in u s' ls e
            ≡ pass_on served_file (find_layer out walk_in u s' (i + 1) ls e)

      by_walked :
          (root : File N)
          → r.1 ≡ okay root
          → (o : Option ((Ns N × W) × Outcome (File N))) → walk_in r.0 root ≡ o
          → Rest
          → Goal
      by_walked root e none walked rest = rw (try_layers, find_layer, e, walked) refl
      by_walked root e (some (s', failed x)) walked rest =
          rw (try_layers, find_layer, e, walked) (rest s' x)
      by_walked root e (some (s', okay f)) walked rest = rw (try_layers, find_layer, e, walked) refl

      by_root : (o : Outcome (File N)) → r.1 ≡ o → Rest → Goal
      by_root (failed x) e rest = rw (try_layers, find_layer, e) (rest r.0 x)
      by_root (okay root) e rest = by_walked root e (walk_in r.0 root) refl rest

no_stat : (e : List ℕ) (st : Stat) → ¬ (failed e ≡ okay st)
no_stat e st h = cc h

abbrev dev_of : Outcome Stat → ℕ
dev_of (failed e) = 0
dev_of (okay st) = st.dev

-- The dev of the layer, or else that of the Stat, is the dev of the Stat that is stamped with it.
stamped-dev : (d : ℕ) (x : Stat) → (if d == 0 then x.dev else d) ≡ (stamp d x).dev
stamped-dev d x = elim (Bool-cases (d == 0)) [ inl e ↦ rw e refl | inr e ↦ rw e refl ]

-- The answer that a path ends in a node of the tree, and what it says of the node's layers.
pub record AtNode {N W : Type 0} (s : Ns N × W) (res : Resolution) (place : Option ℕ)
    (o : Option ((Ns N × W) × Outcome (File N))) : Type 0 where
  pub node : ℕ
  pub walked : o ≡ some (s, okay (in_tree node))
  pub count : res.layers ≡ length (s.0.nodes node).layers
  pub kind :
      ((res.kind ≡ tree_only) × ((s.0.nodes node).layers ≡ []) × (place ≡ none))
      ⊎ ((res.kind ≡ bind_point)
          × ((l : ℕ) × (ls : List ℕ) × ((s.0.nodes node).layers ≡ l ∷ ls)
              × (place ≡ some l)
              × (res.ro ≡ (s.0.layers l).ro)))

module _ {N W : Type 0} (out : Outside N W) (u : Bool) where
  -- The answer that a path ends in a file of a layer; its dev is what the Stat of that file says.
  pub record InLayer (res : Resolution) (o : Option ((Ns N × W) × Outcome (File N))) : Type 0 where
    pub kind : res.kind ≡ in_layer
    pub state : Ns N × W
    pub file : File N
    pub dev : ℕ
    pub walked : o ≡ some (state, okay (bound file dev))
    pub stated :
        (s' : Ns N × W) (st : Stat)
        → ns_stat out u state (bound file dev) ≡ (s', okay st)
        → res.dev ≡ st.dev

  -- What Resolve answers against what the walk gives.
  abbrev pub Answers :
      Option ((Ns N × W) × Outcome (Resolution × Option ℕ))
      → Option ((Ns N × W) × Outcome (File N))
      → Type 0
  Answers none o = o ≡ none
  Answers (some (s, failed e)) o = (e' : List ℕ) × (o ≡ some (s, failed e'))
  Answers (some (s, okay (res, place))) o = AtNode s res place o ⊎ InLayer res o

  at_node-AtNode :
      (s : Ns N × W) (path : List ℕ) (n : ℕ)
      → AtNode s (at_node s.0 path n).0 (at_node s.0 path n).1 (some (s, okay (in_tree n)))
  unfolding at_node
  at_node-AtNode s path n = by_layers (s.0.nodes n).layers refl
    where
      by_layers :
          (ls : List ℕ)
          → (s.0.nodes n).layers ≡ ls
          → AtNode s (at_node s.0 path n).0 (at_node s.0 path n).1 (some (s, okay (in_tree n)))
      by_layers [] e = record {
        node = n;
        walked = refl;
        count = ground (arith, e);
        kind = inl (ground (arith, e), e, ground (arith, e));
      }
      by_layers (l ∷ ls) e = record {
        node = n;
        walked = refl;
        count = ground (arith, e);
        kind = inr (ground (arith, e), (l, ls, e, ground (arith, e), ground (arith, e)));
      }

  serving_dev-stat :
      (s : Ns N × W) (lay : Layer N) (f : File N) (s' : Ns N × W) (st : Stat)
      → ns_stat out u s (bound f (layer_dev lay)) ≡ (s', okay st)
      → (serving_dev out u s lay f).1 ≡ st.dev
  unfolding serving_dev ns_stat
  serving_dev-stat s lay f s' st e =
      let r : Outcome Stat = (ns_stat out u s f).1 in by_stat r refl (ap (λ q. q.1) e)
    where
      by_stat :
          (r : Outcome Stat)
          → (ns_stat out u s f).1 ≡ r
          → map_outcome (stamp (layer_dev lay)) (ns_stat out u s f).1 ≡ okay st
          → (serving_dev out u s lay f).1 ≡ st.dev
      by_stat (failed y) h g = absurd (no_stat y st (rw h at g))
      by_stat (okay x) h g =
          by_dev (Bool-cases (layer_dev lay == 0))
          ∙ (stamped-dev (layer_dev lay) x ∙ ap dev_of (rw h at g))
        where
          by_dev :
              ((layer_dev lay == 0) ≡ true) ⊎ ((layer_dev lay == 0) ≡ false)
              → (serving_dev out u s lay f).1
                ≡ (if layer_dev lay == 0 then x.dev else layer_dev lay)
          by_dev (inl e) = rw (serving_dev, h, e) refl
          by_dev (inr e) = rw (serving_dev, h, e) refl

  report-Answers :
      (k : ℕ) (path cur : List ℕ) (count : ℕ) (name : List ℕ) (rest : List (List ℕ)) (s : Ns N × W)
      (x : Served N)
      → Answers
          (report out k u path cur count (name ∷ rest) s x)
          (pass_on (λ g. bound g (layer_dev x.layer)) (walk_all out k u s x.file rest))
  unfolding report
  report-Answers k path cur count name rest s x = by_walk (walk_all out k u s x.file rest) refl
    where
      by_walk :
          (o : Option ((Ns N × W) × Outcome (File N)))
          → walk_all out k u s x.file rest ≡ o
          → Answers
              (report out k u path cur count (name ∷ rest) s x)
              (pass_on (λ g. bound g (layer_dev x.layer)) (walk_all out k u s x.file rest))
      by_walk none e = rw (report, e) refl
      by_walk (some (s', failed y)) e = rw (report, e) (y, refl)
      by_walk (some (s', okay f)) e =
          rw (report, e)
            (inr (record {
              kind = refl;
              state = s';
              file = f;
              dev = layer_dev x.layer;
              walked = refl;
              stated = λ s'' st h. serving_dev-stat s' x.layer f s'' st h;
            }))

  walks_dotdot :
      (k : ℕ) (s : Ns N × W) (n : ℕ) (name : List ℕ)
      → same_bytes name (text "..") ≡ true
      → ns_walk out (suc k) u s (in_tree n) name ≡ some (s, failed dotdot_error)
  unfolding ns_walk
  walks_dotdot k s n name e = rw e refl

  walks_child :
      (k : ℕ) (s : Ns N × W) (n c : ℕ) (name : List ℕ)
      → same_bytes name (text "..") ≡ false
      → lookup_name name (s.0.nodes n).children ≡ some c
      → ns_walk out (suc k) u s (in_tree n) name ≡ some (s, okay (in_tree c))
  unfolding ns_walk
  walks_child k s n c name e h = rw (e, h) refl

  walks_layers :
      (k : ℕ) (s : Ns N × W) (n : ℕ) (name : List ℕ)
      → same_bytes name (text "..") ≡ false
      → lookup_name name (s.0.nodes n).children ≡ none
      → ns_walk out (suc k) u s (in_tree n) name
        ≡ pass_on
            (λ x. bound x.file (layer_dev x.layer))
            (find_layer out
              (λ s' f. ns_walk out k u s' f name)
              u
              s
              0
              (s.0.nodes n).layers
              (text "ns: " ++ (name ++ text ": no such file")))
  unfolding ns_walk
  walks_layers k s n name e h =
      rw (e, h)
        (try_layers-find_layer out u (λ s' f. ns_walk out k u s' f name) s 0 (s.0.nodes n).layers
          (text "ns: " ++ (name ++ text ": no such file")))

  -- The loop of resolve and the walk, from a node of the tree.
  resolve_from-Answers :
      (k : ℕ) (path : List ℕ) (s : Ns N × W) (n : ℕ) (cur : List ℕ) (parts : List (List ℕ))
      → Answers
          (resolve_from out k u path s n cur parts)
          (walk_all out (suc k) u s (in_tree n) parts)
  unfolding resolve_from walk_all bound_all
  resolve_from-Answers k path s n cur [] = inl (at_node-AtNode s path n)
  resolve_from-Answers k path s n cur (name ∷ rest) =
      by_name (Bool-cases (same_bytes name (text "..")))
        (λ c. resolve_from-Answers k path s c (cur ++ (text "/" ++ name)) rest)
    where
      Goal : Type 0
      Goal =
          Answers (resolve_from out k u path s n cur (name ∷ rest))
            (walk_all out (suc k) u s (in_tree n) (name ∷ rest))

      missing : List ℕ
      missing = text "ns: " ++ (name ++ text ": no such file")

      found : Option ((Ns N × W) × Outcome (Served N))
      found = find_layer out (λ s' f. ns_walk out k u s' f name) u s 0 (s.0.nodes n).layers missing

      by_found :
          same_bytes name (text "..") ≡ false
          → lookup_name name (s.0.nodes n).children ≡ none
          → (o : Option ((Ns N × W) × Outcome (Served N))) → found ≡ o
          → ns_walk out (suc k) u s (in_tree n) name
            ≡ pass_on (λ x. bound x.file (layer_dev x.layer)) o
          → Goal
      by_found e h none g w = rw (resolve_from, walk_all, e, h, g, w) refl
      by_found e h (some (s', failed y)) g w = rw (resolve_from, walk_all, e, h, g, w) (y, refl)
      by_found e h (some (s', okay x)) g w =
          rw
            (
              resolve_from,
              walk_all,
              e,
              h,
              g,
              w,
              walk_all-bound out u k s' x.file (layer_dev x.layer) rest,
            )
            (report-Answers k path cur (length (s.0.nodes n).layers) name rest s' x)

      by_child :
          same_bytes name (text "..") ≡ false
          → (o : Option ℕ) → lookup_name name (s.0.nodes n).children ≡ o
          → ((c : ℕ)
              → Answers
                  (resolve_from out k u path s c (cur ++ (text "/" ++ name)) rest)
                  (walk_all out (suc k) u s (in_tree c) rest))
          → Goal
      by_child e (some c) h deeper =
          rw (resolve_from, walk_all, walks_child k s n c name e h, e, h) (deeper c)
      by_child e none h deeper = by_found e h found refl (walks_layers k s n name e h)

      by_name :
          (same_bytes name (text "..") ≡ true) ⊎ (same_bytes name (text "..") ≡ false)
          → ((c : ℕ)
              → Answers
                  (resolve_from out k u path s c (cur ++ (text "/" ++ name)) rest)
                  (walk_all out (suc k) u s (in_tree c) rest))
          → Goal
      by_name (inl e) deeper =
          rw (resolve_from, walk_all, walks_dotdot k s n name e, e) (dotdot_error, refl)
      by_name (inr e) deeper = by_child e (lookup_name name (s.0.nodes n).children) refl deeper

  -- Resolve at a path gives the answer of the walk along it from the root, from the same state: where
  -- one fails so does the other, and both leave the same state. Where it ends in the tree, the report
  -- names the node's layers and the first of them; where it ends in a layer, the report's dev is the
  -- one in the Stat of the file that the walk gives.
  pub resolve-Answers :
      (k : ℕ) (s : Ns N × W) (path : List ℕ)
      → Answers (resolve out k u s path) (walk_all out (suc k) u s (in_tree 0) (split_path path))
  unfolding resolve
  resolve-Answers k s path =
      resolve_from-Answers k (path_text (split_path path)) s 0 [] (split_path path)
