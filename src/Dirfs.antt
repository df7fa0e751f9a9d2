-- ===== src/Dirfs.antt =====
-- examples/dirfs/dirfs.go: the export of a directory of the host. Packages os and io/fs are parameters:
-- an os.Root, its directory, and the files that it opens, which are numbers of a type of the host.
pub mod Paths
pub mod Attributes
pub mod Reading
pub mod Methods
pub mod Inside
pub mod Walks
pub mod Sorting
pub mod Listing
mod Tests
use p.Common.{ℕ, List, Bool, Option}
use p.Server.Backend.{Outcome, ReadOutcome}

-- The parts of a fs.FileInfo that the source reads: the type, Perm, ModTime().Unix() and Size(), the
-- last two as the numbers with the bits of the int64.
pub record Info : Type 0 where
  pub symlink : Bool
  pub dir : Bool
  pub perm : ℕ
  pub mtime : ℕ
  pub size : ℕ

-- os.DirEntry, with what its Info() returns.
pub record DirEntry : Type 0 where
  pub name : List ℕ
  pub symlink : Bool
  pub info : Outcome Info

-- os.O_RDONLY, os.O_WRONLY and os.O_RDWR, and the flags that are added to them.
pub data Access : Type 0 where
  read_only write_only read_write : Access

pub record Flag : Type 0 where
  pub access : Access
  pub create : Bool
  pub excl : Bool
  pub trunc : Bool

-- The methods of os.Root and *os.File, the latter in H, on the state of the host. `hash` is the sum of
-- fnv.New64a, and `quote` is what the verb %q writes.
pub record Root (H W : Type 0) : Type 0 where
  pub lstat : W → List ℕ → Outcome Info
  pub readlink : W → List ℕ → Outcome (List ℕ)
  pub rename : W → List ℕ → List ℕ → W × Outcome (Unit {0})
  pub chmod : W → List ℕ → ℕ → W × Outcome (Unit {0})
  pub open_file : W → List ℕ → Flag → ℕ → W × Outcome H
  pub mkdir : W → List ℕ → ℕ → W × Outcome (Unit {0})
  pub symlink : W → List ℕ → List ℕ → W × Outcome (Unit {0})
  pub remove : W → List ℕ → W × Outcome (Unit {0})
  pub truncate : W → H → ℕ → W × Outcome (Unit {0})
  pub read_dir : W → H → W × Outcome (List DirEntry)
  pub read_at : W → H → ℕ → ℕ → W × ReadOutcome
  pub write_at : W → H → ℕ → List ℕ → W × Outcome ℕ
  pub close : W → H → W × Outcome (Unit {0})
  pub hash : List ℕ → ℕ
  pub quote : List ℕ → List ℕ

-- file
pub record OpenedFile (H : Type 0) : Type 0 where
  pub path : List ℕ
  pub osf : Option H

-- The files that were made, by number, and the host. FS is a root, a parameter, and its name.
pub record Dirs (H W : Type 0) : Type 0 where
  pub files : ℕ → OpenedFile H
  pub made : ℕ
  pub host : W
