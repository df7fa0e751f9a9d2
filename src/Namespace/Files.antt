-- ===== src/Namespace/Files.antt =====
-- ns/file.go, ns/rofile.go, ns/subtree.go and ns/dev.go: the methods of the namespace's files. A walk
-- or a create in the tree goes on in the files of layers, which may stand in the tree themselves: it
-- takes fuel, a unit for each file that it passes through, and `none` says that this ran out.
use Prim.Native.Nat.{bit_or}
use p.Common.{ℕ, zero, suc, ◌+◌, ◌-◌, List, [], ◌∷◌, ◌++◌, Bool, ◌||◌, bit_and, Option, none, some}
use p.Common.Tests.{◌==◌, if◌then◌else◌}
use p.Common.Names.{same_bytes, lookup_name}
use p.Wire.Types.{
  text, owrite, ordwr, otrunc, orclose, has_bits, dmdir, qtdir, Qid, Stat, zero_stat,
}
use p.Server.Backend.{Outcome, okay, failed}
use p.Namespace.{
  Outside, File, foreign, ro_file, unstamped, rooted, in_tree, bound, Ns, layer_dev, layer_root,
}

abbrev pub map_outcome : {A B : Type 0} → (A → B) → Outcome A → Outcome B
map_outcome g (okay x) = okay (g x)
map_outcome g (failed e) = failed e

-- roFile.Walk's wrapping of a child, which may be a roFile already.
unfoldable pub as_ro : {N : Type 0} → File N → File N
as_ro (ro_file f) = ro_file f
as_ro (foreign n) = ro_file (foreign n)
as_ro (unstamped f) = ro_file (unstamped f)
as_ro (rooted f depth) = ro_file (rooted f depth)
as_ro (in_tree n) = ro_file (in_tree n)
as_ro (bound real dev) = ro_file (bound real dev)

abbrev pub read_only_error : List ℕ
read_only_error = text "ns: read-only bind"

abbrev pub dotdot_error : List ℕ
dotdot_error = text "ns: '..' is not supported at a namespace bind point"

-- Whether roFile.Open refuses a mode.
unfoldable pub opens_for_write : ℕ → Bool
opens_for_write mode =
    (bit_and mode 3 == owrite) || (bit_and mode 3 == ordwr) || has_bits mode (bit_or otrunc orclose)

-- The stat of a node of the tree.
unfoldable pub tree_stat : List ℕ → ℕ → List ℕ → Stat
tree_stat user path_hash name = record zero_stat {
  qid = record { type = qtdir; version = 0; path = path_hash };
  mode = bit_or dmdir 0x1ED;
  name = name;
  uid = user;
  gid = user;
  muid = user;
}

-- A result with the state after it.
abbrev pub pass : {S A B : Type 0} → (A → B) → S × Outcome A → S × Outcome B
pass g r = (r.0, map_outcome g r.1)

abbrev pub pass_on : {S A B : Type 0} → (A → B) → Option (S × Outcome A) → Option (S × Outcome B)
pass_on g none = none
pass_on g (some r) = some (pass g r)

-- The mode without 0222.
abbrev pub no_write_bits : Stat → Stat
no_write_bits st = record st { mode = bit_and st.mode 0xFFFFFF6D }

abbrev pub unstamp : Stat → Stat
unstamp st = record st { dev = 0 }

abbrev pub stamp : ℕ → Stat → Stat
stamp dev st = if dev == 0 then st else record st { dev = dev }

module _ {N W : Type 0} (out : Outside N W) where
  abbrev pub Done : Type 0 → Type 0
  Done A = (Ns N × W) × Outcome A

  abbrev outside : {A : Type 0} → Ns N → W × Outcome A → Done A
  outside ns r = ((ns, r.0), r.1)

  unfoldable pub ns_qid : Ns N × W → File N → Qid
  ns_qid s (foreign n) = out.files.qid s.1 n
  ns_qid s (ro_file f) = ns_qid s f
  ns_qid s (unstamped f) = ns_qid s f
  ns_qid s (rooted f depth) = ns_qid s f
  ns_qid s (bound real dev) = ns_qid s real
  ns_qid s (in_tree n) = record { type = qtdir; version = 0; path = (s.0.nodes n).path_hash }

  unfoldable pub ns_stat : Bool → Ns N × W → File N → Done Stat
  ns_stat u s (foreign n) = outside s.0 (out.files.stat u s.1 n)
  ns_stat u s (ro_file f) = pass no_write_bits (ns_stat u s f)
  ns_stat u s (unstamped f) = pass unstamp (ns_stat u s f)
  ns_stat u s (rooted f depth) = ns_stat u s f
  ns_stat u s (bound real dev) = pass (stamp dev) (ns_stat u s real)
  ns_stat u s (in_tree n) = (s, okay (tree_stat s.0.user (s.0.nodes n).path_hash (text "/")))

  unfoldable pub ns_wstat : Bool → Ns N × W → File N → Stat → Done (Unit {0})
  ns_wstat u s (foreign n) st = outside s.0 (out.files.wstat u s.1 n st)
  ns_wstat u s (ro_file f) st = (s, failed read_only_error)
  ns_wstat u s (unstamped f) st = ns_wstat u s f st
  ns_wstat u s (rooted f depth) st = ns_wstat u s f st
  ns_wstat u s (bound real dev) st = ns_wstat u s real st
  ns_wstat u s (in_tree n) st =
      (s, failed (text "ns: cannot modify metadata of a namespace tree node"))

  unfoldable pub ns_open : Bool → Ns N × W → File N → ℕ → Done (Unit {0})
  ns_open u s (foreign n) mode = outside s.0 (out.files.open_file u s.1 n mode)
  ns_open u s (ro_file f) mode =
      let r = ns_open u s f mode in if opens_for_write mode then (s, failed read_only_error) else r
  ns_open u s (unstamped f) mode = ns_open u s f mode
  ns_open u s (rooted f depth) mode = ns_open u s f mode
  ns_open u s (bound real dev) mode = ns_open u s real mode
  ns_open u s (in_tree n) mode = (s, okay tt)

  unfoldable pub ns_write : Bool → Ns N × W → File N → ℕ → List ℕ → Done ℕ
  ns_write u s (foreign n) offset bytes = outside s.0 (out.files.write u s.1 n offset bytes)
  ns_write u s (ro_file f) offset bytes = (s, failed read_only_error)
  ns_write u s (unstamped f) offset bytes = ns_write u s f offset bytes
  ns_write u s (rooted f depth) offset bytes = ns_write u s f offset bytes
  ns_write u s (bound real dev) offset bytes = ns_write u s real offset bytes
  ns_write u s (in_tree n) offset bytes =
      (s, failed (text "ns: cannot write to a namespace tree node (nothing bound here)"))

  unfoldable pub ns_remove : Bool → Ns N × W → File N → Done (Unit {0})
  ns_remove u s (foreign n) = outside s.0 (out.files.remove u s.1 n)
  ns_remove u s (ro_file f) = (s, failed read_only_error)
  ns_remove u s (unstamped f) = ns_remove u s f
  ns_remove u s (rooted f depth) = ns_remove u s f
  ns_remove u s (bound real dev) = ns_remove u s real
  ns_remove u s (in_tree n) =
      (s, failed (text "ns: cannot remove a namespace bind point directly (use unbind instead)"))

  unfoldable pub ns_close : Ns N × W → File N → Done (Unit {0})
  ns_close s (foreign n) = outside s.0 (out.files.close s.1 n)
  ns_close s (ro_file f) = ns_close s f
  ns_close s (unstamped f) = ns_close s f
  ns_close s (rooted f depth) = ns_close s f
  ns_close s (bound real dev) = ns_close s real
  ns_close s (in_tree n) = (s, okay tt)

  -- cloneFile, and the Clone of each type. A file from outside need not be a Cloner.
  unfoldable pub clone_file : Bool → Ns N × W → File N → Done (File N)
  clone_file u s (foreign n) = elim (out.files.clone n) [
    | none ↦ (s, okay (foreign n))
    | some c ↦ pass foreign (outside s.0 (c u s.1))
  ]
  clone_file u s (ro_file f) = pass ro_file (clone_file u s f)
  clone_file u s (unstamped f) = pass unstamped (clone_file u s f)
  clone_file u s (rooted f depth) = pass (λ g. rooted g depth) (clone_file u s f)
  clone_file u s (bound real dev) = pass (λ g. bound g dev) (clone_file u s real)
  clone_file u s (in_tree n) = (s, okay (in_tree n))

  -- The layers in turn, until the walk in the root of one succeeds; `last` is the last error.
  unfoldable pub try_layers :
      (Ns N × W → File N → Option (Done (File N)))
      → Bool
      → Ns N × W
      → List ℕ
      → List ℕ
      → Option (Done (File N))
  try_layers walk_in u s [] last = some (s, failed last)
  try_layers walk_in u s (l ∷ ls) last =
      let r = layer_root out u s l in
      elim r.1 [
        | failed e ↦ try_layers walk_in u r.0 ls e
        | okay root ↦ elim (walk_in r.0 root) [
          | none ↦ none
          | some q ↦ elim q.1 [
            | failed e ↦ try_layers walk_in u q.0 ls e
            | okay f ↦ some (q.0, okay (bound f (layer_dev (s.0.layers l))))
          ]
        ]
      ]

  unfoldable pub ns_walk : ℕ → Bool → Ns N × W → File N → List ℕ → Option (Done (File N))
  ns_walk zero u s f name = none
  ns_walk (suc k) u s (foreign n) name =
      some (pass foreign (outside s.0 (out.files.walk u s.1 n name)))
  ns_walk (suc k) u s (ro_file f) name = pass_on as_ro (ns_walk k u s f name)
  ns_walk (suc k) u s (unstamped f) name = pass_on unstamped (ns_walk k u s f name)
  ns_walk (suc k) u s (rooted f depth) name =
      let r = ns_walk k u s f name in
      if same_bytes name (text "..")
      then if depth == 0 then some (s, okay (rooted f 0)) else pass_on (λ g. rooted g (depth - 1)) r
      else pass_on (λ g. rooted g (depth + 1)) r
  ns_walk (suc k) u s (bound real dev) name = pass_on (λ g. bound g dev) (ns_walk k u s real name)
  ns_walk (suc k) u s (in_tree n) name =
      let down : Option (Done (File N)) = elim (lookup_name name (s.0.nodes n).children) [
        | some c ↦ some (s, okay (in_tree c))
        | none ↦
            try_layers (λ s' f. ns_walk k u s' f name) u s (s.0.nodes n).layers
              (text "ns: " ++ (name ++ text ": no such file"))
      ] in
      if same_bytes name (text "..") then some (s, failed dotdot_error) else down

  -- Create in a node of the tree goes to the first layer, whose root `create_in` creates in.
  unfoldable pub first_layer :
      (Ns N × W → File N → Option (Done (File N)))
      → Bool
      → Ns N × W
      → List ℕ
      → Option (Done (File N))
  first_layer create_in u s [] =
      some (
        s,
        failed (text "ns: cannot create here: this namespace directory has nothing bound to it"),
      )
  first_layer create_in u s (l ∷ ls) =
      let r = layer_root out u s l in
      elim r.1 [
        | failed e ↦ some (r.0, failed e)
        | okay root ↦ pass_on (λ g. bound g (layer_dev (s.0.layers l))) (create_in r.0 root)
      ]

  unfoldable pub ns_create : ℕ → Bool → Ns N × W → File N → List ℕ → ℕ → ℕ → Option (Done (File N))
  ns_create zero u s f name perm mode = none
  ns_create (suc k) u s (foreign n) name perm mode =
      some (pass foreign (outside s.0 (out.files.create u s.1 n name perm mode)))
  ns_create (suc k) u s (ro_file f) name perm mode = some (s, failed read_only_error)
  ns_create (suc k) u s (unstamped f) name perm mode =
      pass_on unstamped (ns_create k u s f name perm mode)
  ns_create (suc k) u s (rooted f depth) name perm mode = ns_create k u s f name perm mode
  ns_create (suc k) u s (bound real dev) name perm mode =
      pass_on (λ g. bound g dev) (ns_create k u s real name perm mode)
  ns_create (suc k) u s (in_tree n) name perm mode =
      first_layer (λ s' f. ns_create k u s' f name perm mode) u s (s.0.nodes n).layers

  -- walkAll
  unfoldable pub walk_all : ℕ → Bool → Ns N × W → File N → List (List ℕ) → Option (Done (File N))
  walk_all k u s f [] = some (s, okay f)
  walk_all k u s f (part ∷ parts) = elim (ns_walk k u s f part) [
    | none ↦ none
    | some r ↦ elim r.1 [ failed e ↦ some (r.0, failed e) | okay g ↦ walk_all k u r.0 g parts ]
  ]
