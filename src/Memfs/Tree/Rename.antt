-- ===== src/Memfs/Tree/Rename.antt =====
-- examples/memfs/memfs.go: renaming keeps the tree.
use p.Common.{ℕ, ◌<◌, ◌≡◌, ◌≢◌, sym, ap, ◌∙◌, ◌⊎◌, inl, inr, List, false, some, arith}
use p.Common.Tests.{◌==◌, if◌then◌else◌}
use p.Common.Names.{
  same_bytes, lookup_name, delete_name, insert_name, lookup_name-delete_name,
  lookup_name-insert_name, same_bytes_sound, same_bytes_refl,
}
use p.Memfs.{Fs, write_node}
use p.Memfs.Methods.{rename}
use p.Memfs.Tree.{IsChild, IsTree}

module _ (w : Fs) (p q : ℕ) (k : List ℕ) (t : IsTree w) (h : p < w.made)
    (up : (w.nodes p).parent ≡ some q) where
  later : q < p
  later = t.older p q up

  renamed_parent : (a : ℕ) → ((rename w p q k).nodes a).parent ≡ (w.nodes a).parent
  unfolding rename write_node
  renamed_parent a = ground (arith, later)

  renamed_dir : (a : ℕ) → ((rename w p q k).nodes a).dir ≡ (w.nodes a).dir
  unfolding rename write_node
  renamed_dir a = ground (arith, later)

  renamed_name :
      (a : ℕ) → ((rename w p q k).nodes a).name ≡ (if a == p then k else (w.nodes a).name)
  unfolding rename write_node
  renamed_name a = ground (arith, later)

  renamed_children :
      (a : ℕ)
      → ((rename w p q k).nodes a).children ≡ (
          if a == q
          then insert_name k p (delete_name (w.nodes p).name (w.nodes q).children)
          else (w.nodes a).children)
  unfolding rename write_node
  renamed_children a = ground (arith, later)

  -- An entry is the new one, or was there under a name other than the old one.
  renamed_entry :
      (a : ℕ) (j : List ℕ) (c : ℕ)
      → lookup_name j ((rename w p q k).nodes a).children ≡ some c
      → ((a ≡ q) × (k ≡ j) × (c ≡ p))
        ⊎ ((lookup_name j (w.nodes a).children ≡ some c)
            × (a ≡ q → same_bytes (w.nodes p).name j ≡ false))
  renamed_entry a j c e = ground (
    arith,
    renamed_children a,
    lookup_name-insert_name k j p (delete_name (w.nodes p).name (w.nodes q).children),
    lookup_name-delete_name (w.nodes p).name j (w.nodes q).children,
    same_bytes_sound k j,
  )

  -- An entry that stays does not lead to the renamed node.
  not_itself :
      (a : ℕ) (j : List ℕ) (c : ℕ)
      → IsChild w a j c
      → (a ≡ q → same_bytes (w.nodes p).name j ≡ false)
      → c ≢ p
  not_itself a j c x other z =
      let same_dir : a ≡ q = ground (arith, x.parent, up, ap (λ b. (w.nodes b).parent) z) in
      let same_name : (w.nodes p).name ≡ j = sym (ap (λ b. (w.nodes b).name) z) ∙ x.name in
      cc (other same_dir, same_bytes_refl j, ap (λ b. same_bytes b j) same_name)

  pub rename-IsTree : IsTree (rename w p q k)
  rename-IsTree = record {
    child = λ a j c e. elim (renamed_entry a j c e) [
      | inl (at, key, new) ↦ record {
        made = unfold rename write_node in omega (arith, new, h);
        parent = ground (arith, renamed_parent c, up);
        name = ground (arith, renamed_name c);
      }
      | inr (old, other) ↦
          let x = t.child a j c old in
          record {
            made = unfold rename write_node in omega (arith, x.made);
            parent = ground (arith, renamed_parent c, x.parent);
            name = ground (arith, renamed_name c, x.name, not_itself a j c x other);
          }
    ];
    older = λ a b e. ground (arith, renamed_parent a, t.older a b);
    in_dir = λ a b e. ground (arith, renamed_parent a, renamed_dir b, t.in_dir a b);
    leaf = λ a e. ground (arith, renamed_dir a, renamed_children a, t.leaf a, t.in_dir p q up);
    unmade = λ a e. unfold rename write_node in ground (arith, t.unmade a, later);
    root = ground (arith, renamed_parent 0, t.root);
    root_dir = ground (arith, renamed_dir 0, t.root_dir);
  }
