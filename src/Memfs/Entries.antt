-- ===== src/Memfs/Entries.antt =====
-- examples/memfs/memfs.go: what Create and Remove do to the entries of a directory.
use p.Common.{
  ℕ, ◌+◌, bit_and, ◌≤◌, ◌<◌, ◌≡◌, ◌≢◌, refl, sym, List, [], true, Option, none, some, arith,
}
use p.Common.Tests.{if◌then◌else◌}
use p.Common.Names.{
  same_bytes, lookup_name, lookup_name-delete_name, lookup_name-insert_name, same_bytes_refl,
  ne→same_bytes,
}
use p.Wire.Types.{mode_is_dir, qtdir}
use p.Server.Backend.{okay}
use p.Memfs.{Node, Fs, write_node, qid_type_for, new_node}
use p.Memfs.Methods.{without_dmdir, add_child, mem_create, mem_remove}
use p.Memfs.Tree.{IsTree}

-- The node that the entry `name` of the directory `p` leads to.
abbrev pub entry : Fs → ℕ → List ℕ → Option ℕ
entry w p name = lookup_name name (w.nodes p).children

module _ (w : Fs) (p : ℕ) (name : List ℕ) (perm : ℕ) where
  -- A node just made: the name and the mode that were asked for, no bytes, no entries, no target.
  pub record IsMade (n : Node) : Type 0 where
    pub named : n.name ≡ name
    pub dir : n.dir ≡ mode_is_dir perm
    pub perm_bits : n.perm ≡ bit_and (without_dmdir perm) 0x1FF
    pub parent : n.parent ≡ some p
    pub no_bytes : n.bytes ≡ []
    pub no_children : n.children ≡ []
    pub no_target : n.target ≡ []
    pub no_times : (n.atime ≡ 0) × (n.mtime ≡ 0)
    pub qid_type : n.qid.type ≡ (if mode_is_dir perm then qtdir else 0)
    pub qid_version : n.qid.version ≡ 0

  -- What a Create that succeeds gives: a new node under the name; no other entry of the directory
  -- changes, nor what else it has, nor any other node that was made.
  pub record Created (c : ℕ) (w' : Fs) : Type 0 where
    pub is_new : w.made ≤ c
    pub one_more : w'.made ≡ w.made + 1
    pub no_panic : w'.panicked ≡ w.panicked
    pub found : entry w' p name ≡ some c
    pub others : (k : List ℕ) → k ≢ name → entry w' p k ≡ entry w p k
    pub made : IsMade (w'.nodes c)
    pub same : record (w'.nodes p) { children = (w.nodes p).children } ≡ w.nodes p
    pub kept : (a : ℕ) → a < w.made → a ≢ p → w'.nodes a ≡ w.nodes a

  entry-mem_create :
      p < w.made
      → (w.nodes p).dir ≡ true
      → entry w p name ≡ none
      → (k : List ℕ)
      → entry (mem_create w p name perm).0 p k
        ≡ (if same_bytes name k then some w.made else entry w p k)
  unfolding mem_create add_child new_node write_node
  entry-mem_create h folder free k =
      ground (arith, lookup_name-insert_name name k w.made (w.nodes p).children)

  -- Create in a directory that has no entry of that name succeeds, and there is a new node under it:
  -- its name, its parent and its permissions are those asked for, it is a directory just if the mode
  -- asks for one, and it is empty. The directory's other entries stay, and so does all else that the
  -- directory has, and every other node.
  pub mem_create-Created :
      p < w.made
      → (w.nodes p).dir ≡ true
      → entry w p name ≡ none
      → (c : ℕ) × ((mem_create w p name perm).1 ≡ okay c) × Created c (mem_create w p name perm).0
  unfolding mem_create add_child new_node write_node qid_type_for
  mem_create-Created h folder free = (
    w.made,
    ground arith,
    record {
      is_new = omega arith;
      one_more = ground arith;
      no_panic = ground arith;
      found = rw (entry-mem_create h folder free name, same_bytes_refl name) refl;
      others = λ k other.
          let apart = ne→same_bytes name k (λ e. other (sym e)) in
          rw (entry-mem_create h folder free k, apart) refl;
      made = record {
        named = ground arith;
        dir = ground arith;
        perm_bits = ground arith;
        parent = ground arith;
        no_bytes = ground arith;
        no_children = ground arith;
        no_target = ground arith;
        no_times = ground arith;
        qid_type = ground arith;
        qid_version = ground arith;
      };
      same = ground arith;
      kept = λ a made other. ground arith;
    },
  )

module _ (w : Fs) (p q : ℕ) (name : List ℕ) where
  -- What a Remove of the node `p` gives that takes the entry `name` of the directory `q` away.
  pub record Removed (w' : Fs) : Type 0 where
    pub gone : entry w' q name ≡ none
    pub others : (k : List ℕ) → k ≢ name → entry w' q k ≡ entry w q k
    pub same : record (w'.nodes q) { children = (w.nodes q).children } ≡ w.nodes q
    pub kept : (a : ℕ) → a ≢ q → w'.nodes a ≡ w.nodes a
    pub same_made : w'.made ≡ w.made
    pub no_panic : w'.panicked ≡ w.panicked

  mem_remove-entry :
      (w.nodes p).parent ≡ some q
      → (w.nodes p).name ≡ name
      → (w.nodes p).children ≡ []
      → ((mem_remove w p).1 ≡ okay tt) × Removed (mem_remove w p).0
  unfolding mem_remove write_node
  mem_remove-entry up named leaf =
      let left : (k : List ℕ)
          → entry (mem_remove w p).0 q k ≡ (if same_bytes name k then none else entry w q k) =
        λ k. ground (arith, lookup_name-delete_name name k (w.nodes q).children) in
      (
        ground arith,
        record {
          gone = rw (left name, same_bytes_refl name) refl;
          others = λ k other.
              let apart = ne→same_bytes name k (λ e. other (sym e)) in rw (left k, apart) refl;
          same = ground arith;
          kept = λ a other. ground arith;
          same_made = ground arith;
          no_panic = ground arith;
        },
      )

  -- In a tree, Remove of the node that an entry leads to, a file or an empty directory, succeeds and
  -- takes that entry away; the directory keeps its other entries and all else that it has, and every
  -- other node is as it was.
  pub mem_remove-Removed :
      IsTree w
      → entry w q name ≡ some p
      → (w.nodes p).children ≡ []
      → ((mem_remove w p).1 ≡ okay tt) × Removed (mem_remove w p).0
  mem_remove-Removed t e leaf = let x = t.child q name p e in mem_remove-entry x.parent x.name leaf
