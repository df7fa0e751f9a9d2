-- ===== src/Memfs/Tree/Reached.antt =====
-- examples/memfs/memfs.go: what calls of methods lead to is a tree.
use p.Common.{ℕ, ◌<◌, List, [], Bool, false}
use p.Wire.Types.{Stat}
use p.Memfs.{Fs, new_fs}
use p.Memfs.Methods.{mem_wstat, mem_open, mem_create, mem_symlink, mem_read, mem_write, mem_remove}
use p.Memfs.Tree.{IsTree}
use p.Memfs.Tree.Kept.{
  new_fs-IsTree, mem_wstat-IsTree, mem_open-IsTree, add_child-IsTree, mem_read-IsTree,
  mem_write-IsTree, mem_remove-IsTree,
}

-- The worlds that methods of files lead to, from New on. A file is a node that was made.
pub data Reached : Fs → Type 0 where
  at_start : Reached new_fs
  wstats : {w : Fs} (p : ℕ) (st : Stat) → p < w.made → Reached w → Reached (mem_wstat w p st).0
  opens : {w : Fs} (p mode : ℕ) → p < w.made → Reached w → Reached (mem_open w p mode).0
  creates :
      {w : Fs} (p : ℕ) (name : List ℕ) (perm : ℕ)
      → p < w.made
      → Reached w
      → Reached (mem_create w p name perm).0
  links :
      {w : Fs} (p : ℕ) (name target : List ℕ)
      → p < w.made
      → Reached w
      → Reached (mem_symlink w p name target).0
  reads :
      {w : Fs} (u : Bool) (p offset count : ℕ)
      → p < w.made
      → Reached w
      → Reached (mem_read u w p offset count).0
  writes :
      {w : Fs} (p offset : ℕ) (bytes : List ℕ)
      → p < w.made
      → Reached w
      → Reached (mem_write w p offset bytes).0
  removes : {w : Fs} (p : ℕ) → p < w.made → Reached w → Reached (mem_remove w p).0

-- Whatever methods are called on whatever files that were made, also on files that were removed or
-- renamed, the nodes make a tree: an entry of a directory leads to a node that has the entry's name
-- and has that directory for its parent, a parent is a directory older than its child, and only
-- directories have entries.
pub Reached-IsTree : (w : Fs) → Reached w → IsTree w
unfolding mem_create mem_symlink
Reached-IsTree w at_start = new_fs-IsTree
Reached-IsTree v (wstats {w} p st h r) = mem_wstat-IsTree w p st h (Reached-IsTree w r)
Reached-IsTree v (opens {w} p mode h r) = mem_open-IsTree w p h (Reached-IsTree w r) mode
Reached-IsTree v (creates {w} p name perm h r) =
    add_child-IsTree w p h (Reached-IsTree w r) name _ _ []
Reached-IsTree v (links {w} p name target h r) =
    add_child-IsTree w p h (Reached-IsTree w r) name false 0x1FF target
Reached-IsTree v (reads {w} u p offset count h r) =
    mem_read-IsTree w p h (Reached-IsTree w r) u offset count
Reached-IsTree v (writes {w} p offset bytes h r) =
    mem_write-IsTree w p h (Reached-IsTree w r) offset bytes
Reached-IsTree v (removes {w} p h r) = mem_remove-IsTree w p h (Reached-IsTree w r)
