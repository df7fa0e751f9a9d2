-- ===== src/Memfs.antt =====
-- examples/memfs/memfs.go: the file system in memory. A *node is a number, the place of the node in
-- the store, and the world is the store; every method holds the lock from start to end, so it is one
-- step. `make` is taken to succeed. A slice out of range panics, which sets the flag `panicked`.
pub mod Methods
pub mod Tree
pub mod Contents
pub mod Entries
mod Tests
use Prim.Native.Nat.{bit_or}
use p.Common.{
  ℕ, ◌+◌, ◌-◌, ◌%◌, ◌^◌, List, [], ◌∷◌, ◌++◌, map, Bool, true, false, not, ◌&&◌, bit_and, Option,
  none, some,
}
use p.Common.Tests.{ltb, leb, ◌==◌, if◌then◌else◌}
use p.Common.Lists.{length, take, drop, replicate}
use p.Common.Int.{ℤ, pos, negsuc}
use p.Common.Names.{same_bytes, lookup_name, delete_name, insert_name}
use p.Common.Sort.{sort_names}
use p.Wire.Types.{
  text, has_bits, otrunc, dmdir, dmsymlink, mode_is_dir, qtdir, qtsymlink, Qid, zero_qid, Stat,
  zero_stat,
}
use p.Server.Backend.{Outcome, okay, failed, ReadOutcome, got, at_eof, read_failed, Backend}
use p.Server.Dir.{marshal_dir_version, as_read}

pub record Node : Type 0 where
  pub name : List ℕ
  pub dir : Bool
  pub target : List ℕ
  pub qid : Qid
  pub perm : ℕ
  pub atime : ℕ
  pub mtime : ℕ
  pub bytes : List ℕ
  pub children : List (List ℕ × ℕ)
  pub parent : Option ℕ

-- What stands at a place that was not allocated.
abbrev pub blank_node : Node
blank_node = record {
  name = [];
  dir = false;
  target = [];
  qid = zero_qid;
  perm = 0;
  atime = 0;
  mtime = 0;
  bytes = [];
  children = [];
  parent = none;
}

-- FS, with the nodes that were made. The root is the first one. `panicked` says that a method
-- panicked.
pub record Fs : Type 0 where
  pub nodes : ℕ → Node
  pub made : ℕ
  pub panicked : Bool

unfoldable pub write_node : Fs → ℕ → Node → Fs
write_node w p n = record w { nodes = λ a. if a == p then n else w.nodes a }

abbrev pub panic : Fs → Fs
panic w = record w { panicked = true }

unfoldable pub qid_type_for : Bool → List ℕ → ℕ
qid_type_for dir target = if dir then qtdir else if length target == 0 then 0 else qtsymlink

-- FS.newNode, with the parent that its callers set right after it.
unfoldable pub new_node : Fs → List ℕ → Bool → ℕ → List ℕ → Option ℕ → Fs
new_node w name dir perm target parent =
    let n : Node = record blank_node {
      name = name;
      dir = dir;
      target = target;
      perm = perm;
      parent = parent;
      qid = record { type = qid_type_for dir target; version = 0; path = (w.made + 1) % 2 ^ 64 };
    } in
    write_node (record w { made = w.made + 1 }) w.made n

-- New
unfoldable pub new_fs : Fs
new_fs =
    new_node (record { nodes = λ a. blank_node; made = 0; panicked = false }) (text "/") true 0x1ED
      [] none

abbrev pub glenda : List ℕ
glenda = text "glenda"

-- The mode with the bits that are derived.
unfoldable pub mode_of : Node → ℕ
mode_of n =
    let mode = if n.dir then bit_or n.perm dmdir else n.perm in
    if length n.target == 0 then mode else bit_or mode dmsymlink

-- file.statLocked, and the entry that readDir makes.
unfoldable pub stat_of : Node → Stat
stat_of n = record {
  type = 0;
  dev = 0;
  qid = n.qid;
  mode = mode_of n;
  atime = n.atime;
  mtime = n.mtime;
  length = length n.bytes;
  name = n.name;
  uid = glenda;
  gid = glenda;
  muid = glenda;
  extension = n.target;
  nuid = 0;
  ngid = 0;
  nmuid = 0;
}

unfoldable pub bump : Qid → Qid
bump q = record q { version = (q.version + 1) % 2 ^ 32 }

-- resize to `n` bytes, not negative.
unfoldable pub resize : List ℕ → ℕ → List ℕ
resize b n = if leb n (length b) then take n b else b ++ replicate (n - length b) 0
