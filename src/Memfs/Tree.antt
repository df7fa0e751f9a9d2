-- ===== src/Memfs/Tree.antt =====
-- examples/memfs/memfs.go: the nodes make a tree.
pub mod Rename
pub mod Kept
pub mod Reached
use p.Common.{
  ℕ, ◌+◌, ◌≤◌, ◌<◌, ◌≡◌, ◌≢◌, refl, sym, ap, ◌∙◌, ◌⊎◌, inl, inr, List, [], Bool, true, false,
  Option, none, some, arith,
}
use p.Common.Tests.{◌==◌, if◌then◌else◌, Bool-cases}
use p.Common.Names.{
  same_bytes, lookup_name, delete_name, insert_name, lookup_name-delete_name,
  lookup_name-insert_name, same_bytes_sound,
}
use p.Memfs.{Node, blank_node, Fs, write_node, new_node, new_fs}
use p.Memfs.Methods.{
  rename, set_name, set_mode, set_length, mem_wstat, mem_open, add_child, mem_create, mem_symlink,
  mem_read, mem_write, mem_remove,
}

-- The entry `k` of the node `p` leads to the node `c`.
pub record IsChild (w : Fs) (p : ℕ) (k : List ℕ) (c : ℕ) : Type 0 where
  pub made : c < w.made
  pub parent : (w.nodes c).parent ≡ some p
  pub name : (w.nodes c).name ≡ k

-- An entry leads to a node that was made, has the entry's name, and names the directory it stands in
-- as its parent. A parent is a directory that is older than its child, so that from any node the
-- parents lead up to a root, and no directory is inside of itself. Only directories have entries.
pub record IsTree (w : Fs) : Type 0 where
  pub child :
      (p : ℕ) (k : List ℕ) (c : ℕ) → lookup_name k (w.nodes p).children ≡ some c → IsChild w p k c
  pub older : (p q : ℕ) → (w.nodes p).parent ≡ some q → q < p
  pub in_dir : (p q : ℕ) → (w.nodes p).parent ≡ some q → (w.nodes q).dir ≡ true
  pub leaf : (p : ℕ) → (w.nodes p).dir ≡ false → (w.nodes p).children ≡ []
  pub unmade : (p : ℕ) → w.made ≤ p → w.nodes p ≡ blank_node
  pub root : (w.nodes 0).parent ≡ none
  pub root_dir : (w.nodes 0).dir ≡ true

-- What the invariant reads of a node.
pub record SameShape (n m : Node) : Type 0 where
  pub name : m.name ≡ n.name
  pub dir : m.dir ≡ n.dir
  pub children : m.children ≡ n.children
  pub parent : m.parent ≡ n.parent

-- A method that changes neither names nor entries of a node that was made.
pub touch-IsTree :
    (w : Fs) (p : ℕ) (n : Node)
    → SameShape (w.nodes p) n
    → p < w.made
    → IsTree w
    → IsTree (write_node w p n)
unfolding write_node
touch-IsTree w p n s h t = record {
  child = λ q k c e.
      let old : lookup_name k (w.nodes q).children ≡ some c = ground (arith, s.children) in
      let x = t.child q k c old in
      record {
        made = x.made;
        parent = ground (arith, x.parent, s.parent);
        name = ground (arith, x.name, s.name);
      };
  older = λ q r e. ground (arith, s.parent, t.older q r);
  in_dir = λ q r e. ground (arith, s.parent, s.dir, t.in_dir q r);
  leaf = λ q e. ground (arith, s.dir, s.children, t.leaf q);
  unmade = λ q e. ground (arith, t.unmade q);
  root = ground (arith, s.parent, t.root);
  root_dir = ground (arith, s.dir, t.root_dir);
}

-- The nodes after a removal, a new child and a renaming, field by field.
module _ (w : Fs) (p : ℕ) (t : IsTree w) (k : List ℕ) where
  unfoldable pub removed : ℕ → Fs
  removed q = write_node w q (record (w.nodes q) { children = delete_name k (w.nodes q).children })

  pub removed-IsTree : (q : ℕ) → q < w.made → (w.nodes q).dir ≡ true → IsTree (removed q)
  unfolding removed write_node
  removed-IsTree q h d = record {
    child = λ a j c e.
        let old : lookup_name j (w.nodes a).children ≡ some c =
          ground (arith, lookup_name-delete_name k j (w.nodes q).children) in
        let x = t.child a j c old in
        record { made = x.made; parent = ground (arith, x.parent); name = ground (arith, x.name) };
    older = λ a b e. ground (arith, t.older a b);
    in_dir = λ a b e. ground (arith, t.in_dir a b);
    leaf = λ a e. ground (arith, t.leaf a);
    unmade = λ a e. ground (arith, t.unmade a);
    root = ground (arith, t.root);
    root_dir = ground (arith, t.root_dir);
  }

  -- A new node under a name that its parent had no entry for.
  unfoldable pub added : Node → Fs
  added n =
      let w' = write_node (record w { made = w.made + 1 }) w.made n in
      let m = w'.nodes p in
      write_node w' p (record m { children = insert_name k w.made m.children })

  fresh_dir : (w.nodes w.made).dir ≡ false
  fresh_dir = ap (λ (n : Node). n.dir) (t.unmade w.made (omega arith))

  fresh_children : (w.nodes w.made).children ≡ []
  fresh_children = ap (λ (n : Node). n.children) (t.unmade w.made (omega arith))

  module _ (n : Node) (h : p < w.made) where
    added_parent :
        (a : ℕ)
        → ((added n).nodes a).parent ≡ (if a == w.made then n.parent else (w.nodes a).parent)
    unfolding added write_node
    added_parent a = ground arith

    added_name :
        (a : ℕ) → ((added n).nodes a).name ≡ (if a == w.made then n.name else (w.nodes a).name)
    unfolding added write_node
    added_name a = ground arith

    added_dir : (a : ℕ) → ((added n).nodes a).dir ≡ (if a == w.made then n.dir else (w.nodes a).dir)
    unfolding added write_node
    added_dir a = ground arith

    -- An entry is the new one, or was there.
    added_entry :
        (a : ℕ) (j : List ℕ) (c : ℕ)
        → n.children ≡ []
        → lookup_name j ((added n).nodes a).children ≡ some c
        → ((a ≡ p) × (k ≡ j) × (c ≡ w.made)) ⊎ (lookup_name j (w.nodes a).children ≡ some c)
    unfolding added write_node lookup_name
    added_entry a j c none_yet e =
        ground
          (arith, lookup_name-insert_name k j w.made (w.nodes p).children, same_bytes_sound k j)

    pub added-IsTree :
        (w.nodes p).dir ≡ true → n.name ≡ k → n.children ≡ [] → n.parent ≡ some p → IsTree (added n)
    added-IsTree d name none_yet parent = record {
      child = λ a j c e. elim (added_entry a j c none_yet e) [
        | inl (at, key, new) ↦ record {
          made = unfold added write_node in omega (arith, new);
          parent = ground (arith, added_parent c);
          name = ground (arith, added_name c);
        }
        | inr old ↦
            let x = t.child a j c old in
            record {
              made = unfold added write_node in omega (arith, x.made);
              parent = ground (arith, added_parent c, x.parent, x.made);
              name = ground (arith, added_name c, x.name, x.made);
            }
      ];
      older = λ a b e. ground (arith, added_parent a, t.older a b);
      in_dir = λ a b e. ground (arith, added_parent a, added_dir b, t.in_dir a b, fresh_dir);
      leaf = λ a e. unfold added write_node in ground (arith, t.leaf a, fresh_children);
      unmade = λ a e. unfold added write_node in ground (arith, t.unmade a);
      root = ground (arith, added_parent 0, t.root);
      root_dir = ground (arith, added_dir 0, t.root_dir);
    }
