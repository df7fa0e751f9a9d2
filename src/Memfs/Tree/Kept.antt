-- ===== src/Memfs/Tree/Kept.antt =====
-- examples/memfs/memfs.go: every method keeps the tree.
use p.Common.{
  ℕ, ◌+◌, ◌<◌, ◌≡◌, refl, sym, ◌⊎◌, inl, inr, List, [], Bool, true, false, not, ◌&&◌, ◌%◌, ◌^◌,
  some, arith,
}
use mathlib.Core.Path.{subst}
use p.Common.Tests.{◌==◌, if◌then◌else◌, Bool-cases, Option-cases}
use p.Common.Lists.{length}
use p.Common.Names.{same_bytes, lookup_name}
use p.Wire.Types.{Stat}
use p.Server.Backend.{Outcome, okay, failed}
use p.Memfs.{qid_type_for, Node, blank_node, Fs, panic, write_node, new_node, new_fs, bump, resize}
use p.Memfs.Methods.{
  written, rename, set_name, set_mode, set_length, mem_wstat, mem_open, add_child, mem_read,
  mem_write, mem_remove,
}
use p.Memfs.Tree.{IsTree, SameShape, touch-IsTree, removed, removed-IsTree, added, added-IsTree}
use p.Memfs.Tree.Rename.{rename-IsTree}

panic-IsTree : (w : Fs) → IsTree w → IsTree (panic w)
panic-IsTree w t = record {
  child = λ p k c e.
      let x = t.child p k c e in record { made = x.made; parent = x.parent; name = x.name };
  older = t.older;
  in_dir = t.in_dir;
  leaf = t.leaf;
  unmade = t.unmade;
  root = t.root;
  root_dir = t.root_dir;
}

pub new_fs-IsTree : IsTree new_fs
unfolding new_fs new_node write_node lookup_name
new_fs-IsTree = record {
  child = λ p k c e. absurd (ground arith);
  older = λ p q e. absurd (ground arith);
  in_dir = λ p q e. absurd (ground arith);
  leaf = λ p e. ground arith;
  unmade = λ p e. ground arith;
  root = refl;
  root_dir = refl;
}

by_eq : (x y : Fs) → x ≡ y → IsTree y → IsTree x
by_eq x y e t = subst IsTree (sym e) t

if_either : (b : Bool) (x y : Fs) → IsTree x → IsTree y → IsTree (if b then x else y)
if_either true x y hx hy = hx
if_either false x y hx hy = hy

-- What is the result of a method on a node that was made, apart from the panic.
module _ (w : Fs) (p : ℕ) (h : p < w.made) (t : IsTree w) where
  same-IsTree : (n : Node) → SameShape (w.nodes p) n → IsTree (write_node w p n)
  same-IsTree n s = touch-IsTree w p n s h t

  -- The new name takes effect, or nothing changes.
  set_name_cases :
      (name : List ℕ)
      → ((set_name w p name).0 ≡ w)
        ⊎ ((q : ℕ) × ((w.nodes p).parent ≡ some q) × ((set_name w p name).0 ≡ rename w p q name))
  unfolding set_name
  set_name_cases name = elim (Option-cases (w.nodes p).parent) [
    | inl root ↦ inl (ground arith)
    | inr (q, up) ↦ elim (Bool-cases (length name == 0)) [
      | inl empty ↦ inl (ground arith)
      | inr given ↦ elim (Bool-cases (same_bytes name (w.nodes p).name)) [
        | inl same ↦ inl (ground arith)
        | inr other ↦ elim (Option-cases (lookup_name name (w.nodes q).children)) [
          | inl free ↦ inr (q, up, ground arith)
          | inr (c, taken) ↦ inl (ground arith)
        ]
      ]
    ]
  ]

  set_name-IsTree : (name : List ℕ) → IsTree (set_name w p name).0
  set_name-IsTree name = elim (set_name_cases name) [
    | inl e ↦ by_eq _ w e t
    | inr (q, up, e) ↦ by_eq _ (rename w p q name) e (rename-IsTree w p q name t h up)
  ]

  set_name-made : (name : List ℕ) → (set_name w p name).0.made ≡ w.made
  unfolding set_name rename write_node
  set_name-made name = ground arith

  set_mode-IsTree : (mode : ℕ) → IsTree (set_mode w p mode)
  unfolding set_mode
  set_mode-IsTree mode =
      if_either (mode == 0xFFFFFFFF) _ _ t
        (same-IsTree _ (record { name = refl; dir = refl; children = refl; parent = refl }))

  set_mode-made : (mode : ℕ) → (set_mode w p mode).made ≡ w.made
  unfolding set_mode write_node
  set_mode-made mode = ground arith

  resized : ℕ → Node
  resized len = let n = w.nodes p in record n { bytes = resize n.bytes len; qid = bump n.qid }

  set_length_cases :
      (len : ℕ)
      → (set_length w p len ≡ w)
        ⊎ (set_length w p len ≡ panic w)
        ⊎ (set_length w p len ≡ write_node w p (resized len))
  unfolding set_length resized
  set_length_cases len = ground arith

  set_length-IsTree : (len : ℕ) → IsTree (set_length w p len)
  unfolding resized
  set_length-IsTree len = elim (set_length_cases len) [
    | inl e ↦ by_eq _ w e t
    | inr (inl e) ↦ by_eq _ (panic w) e (panic-IsTree w t)
    | inr (inr e) ↦ by_eq _ (write_node w p (resized len)) e (
        same-IsTree (resized len)
          (record { name = refl; dir = refl; children = refl; parent = refl }))
  ]

  truncated : Node
  truncated = let n = w.nodes p in record n { bytes = []; qid = bump n.qid }

  mem_open_cases :
      (mode : ℕ) → ((mem_open w p mode).0 ≡ w) ⊎ ((mem_open w p mode).0 ≡ write_node w p truncated)
  unfolding mem_open truncated
  mem_open_cases mode = ground arith

  pub mem_open-IsTree : (mode : ℕ) → IsTree (mem_open w p mode).0
  unfolding truncated
  mem_open-IsTree mode = elim (mem_open_cases mode) [
    | inl e ↦ by_eq _ w e t
    | inr e ↦
        by_eq _ (write_node w p truncated) e (
          same-IsTree truncated
            (record { name = refl; dir = refl; children = refl; parent = refl }))
  ]

  child_node : List ℕ → Bool → ℕ → List ℕ → Node
  child_node name dir perm target = record blank_node {
    name = name;
    dir = dir;
    target = target;
    perm = perm;
    parent = some p;
    qid = record { type = qid_type_for dir target; version = 0; path = (w.made + 1) % 2 ^ 64 };
  }

  add_child_cases :
      (name : List ℕ) (dir : Bool) (perm : ℕ) (target : List ℕ)
      → ((add_child w p name dir perm target).0 ≡ w)
        ⊎ (((w.nodes p).dir ≡ true)
            × ((add_child w p name dir perm target).0
                ≡ added w p t name (child_node name dir perm target)))
  unfolding add_child added child_node new_node
  add_child_cases name dir perm target = elim (Bool-cases (w.nodes p).dir) [
    | inr file ↦ inl (ground arith)
    | inl folder ↦ elim (Option-cases (lookup_name name (w.nodes p).children)) [
      | inl free ↦ inr (folder, ground arith)
      | inr (c, taken) ↦ inl (ground arith)
    ]
  ]

  pub add_child-IsTree :
      (name : List ℕ) (dir : Bool) (perm : ℕ) (target : List ℕ)
      → IsTree (add_child w p name dir perm target).0
  unfolding child_node
  add_child-IsTree name dir perm target = elim (add_child_cases name dir perm target) [
    | inl e ↦ by_eq _ w e t
    | inr (folder, e) ↦
        by_eq _ _ e
          (added-IsTree w p t name (child_node name dir perm target) h folder refl refl refl)
  ]

  mem_remove_cases :
      ((mem_remove w p).0 ≡ w)
      ⊎ ((q : ℕ) × ((w.nodes p).parent ≡ some q)
          × ((mem_remove w p).0 ≡ removed w p t (w.nodes p).name q))
  unfolding mem_remove removed
  mem_remove_cases = elim (Option-cases (w.nodes p).parent) [
    | inl root ↦ inl (ground arith)
    | inr (q, up) ↦ elim (Bool-cases ((w.nodes p).dir && not (length (w.nodes p).children == 0))) [
      | inl full ↦ inl (ground arith)
      | inr empty ↦ inr (q, up, ground arith)
    ]
  ]

  pub mem_remove-IsTree : IsTree (mem_remove w p).0
  mem_remove-IsTree = elim mem_remove_cases [
    | inl e ↦ by_eq _ w e t
    | inr (q, up, e) ↦
        by_eq _ _ e (
          removed-IsTree w p t (w.nodes p).name q (omega (arith, t.older p q up)) (t.in_dir p q up))
  ]

  pub mem_read-IsTree : (u : Bool) (offset count : ℕ) → IsTree (mem_read u w p offset count).0
  mem_read-IsTree u offset count = elim read_cases [
    | inl e ↦ by_eq _ w e t
    | inr e ↦ by_eq _ (panic w) e (panic-IsTree w t)
  ]
    where
      read_cases :
          ((mem_read u w p offset count).0 ≡ w) ⊎ ((mem_read u w p offset count).0 ≡ panic w)
      read_cases = unfold mem_read in ground arith

  mem_write_cases :
      (offset : ℕ) (bytes : List ℕ)
      → ((mem_write w p offset bytes).0 ≡ w)
        ⊎ ((mem_write w p offset bytes).0 ≡ panic w)
        ⊎ ((mem_write w p offset bytes).0 ≡ write_node w p (written (w.nodes p) offset bytes))
  unfolding mem_write
  mem_write_cases offset bytes = ground arith

  pub mem_write-IsTree : (offset : ℕ) (bytes : List ℕ) → IsTree (mem_write w p offset bytes).0
  mem_write-IsTree offset bytes = elim (mem_write_cases offset bytes) [
    | inl e ↦ by_eq _ w e t
    | inr (inl e) ↦ by_eq _ (panic w) e (panic-IsTree w t)
    | inr (inr e) ↦ by_eq _ (write_node w p (written (w.nodes p) offset bytes)) e (
        same-IsTree _
          (unfold written in (record { name = refl; dir = refl; children = refl; parent = refl })))
  ]

pub mem_wstat-IsTree :
    (w : Fs) (p : ℕ) (st : Stat) → p < w.made → IsTree w → IsTree (mem_wstat w p st).0
unfolding mem_wstat
mem_wstat-IsTree w p st h t = by_outcome (set_name w p st.name).1 refl
  where
    named : Fs
    named = (set_name w p st.name).0

    named-IsTree : IsTree named
    named-IsTree = set_name-IsTree w p h t st.name

    there : p < named.made
    there = omega (arith, set_name-made w p h t st.name)

    still_there : p < (set_mode named p st.mode).made
    still_there = omega (arith, there, set_mode-made named p there named-IsTree st.mode)

    by_outcome :
        (o : Outcome (Unit {0})) → (set_name w p st.name).1 ≡ o → IsTree (mem_wstat w p st).0
    by_outcome (failed x) e = by_eq _ named (ground arith) named-IsTree
    by_outcome (okay x) e =
        by_eq _ (set_length (set_mode named p st.mode) p st.length) (ground arith) (
          set_length-IsTree (set_mode named p st.mode) p still_there
            (set_mode-IsTree named p there named-IsTree st.mode) st.length)
