-- ===== src/Server/Backend.antt =====
-- server/server.go: the interfaces FileSystem, File, SymlinkFile and Cloner, which a backend
-- implements. The backend is a parameter of the server: it keeps a state of its own, `World`, which
-- every call may change, and its files are values of `File`.
use p.Common.{ℕ, List, Bool, Option}
use p.Wire.Types.{Qid, Stat}

-- The result of a call: a value, or the text of the error.
pub data Outcome (A : Type 0) : Type 0 where
  okay : A → Outcome A
  failed : List ℕ → Outcome A

-- The result of File.Read: `buf[:n]` with no error or with io.EOF, or the text of another error.
pub data ReadOutcome : Type 0 where
  got : List ℕ → ReadOutcome
  at_eof : List ℕ → ReadOutcome
  read_failed : List ℕ → ReadOutcome

-- The `Bool` that each call takes is what UnixFromContext finds in its context. An offset is the
-- int64 with the bits of this number.
pub record Backend (File World : Type 0) : Type 0 where
  pub attach : Bool → World → List ℕ → List ℕ → World × Outcome File
  pub qid : World → File → Qid
  pub stat : Bool → World → File → World × Outcome Stat
  pub wstat : Bool → World → File → Stat → World × Outcome (Unit {0})
  pub walk : Bool → World → File → List ℕ → World × Outcome File
  pub open_file : Bool → World → File → ℕ → World × Outcome (Unit {0})
  pub create : Bool → World → File → List ℕ → ℕ → ℕ → World × Outcome File
  pub read : Bool → World → File → ℕ → ℕ → World × ReadOutcome
  pub write : Bool → World → File → ℕ → List ℕ → World × Outcome ℕ
  pub remove : Bool → World → File → World × Outcome (Unit {0})
  pub close : World → File → World × Outcome (Unit {0})
  -- Whether the file is a SymlinkFile or a Cloner, with the method.
  pub symlink : File → Option (Bool → World → List ℕ → List ℕ → World × Outcome File)
  pub clone : File → Option (Bool → World → World × Outcome File)
