-- ===== src/Server/Dir.antt =====
-- server/dir.go: the answer to a read of a directory.
pub mod Contract
use p.Common.{ℕ, ◌+◌, List, [], ◌∷◌, ◌++◌, Bool, false}
use p.Common.Tests.{ltb, ◌==◌, if◌then◌else◌}
use p.Common.Lists.{length}
use p.Common.Int.{ℤ, pos, negsuc}
use p.Wire.Types.{text, Stat}
use p.Wire.Stat.{marshal_stat_version}
use p.Server.Backend.{ReadOutcome, got, at_eof, read_failed}

-- What MarshalDir returns: `buf[:n]`, io.EOF, or one of its errors.
pub data DirRead : Type 0 where
  wrote : List ℕ → DirRead
  eof : DirRead
  negative_offset not_on_boundary out_of_range buffer_too_small : DirRead

-- What the first loop finds: the entries from `i` on, or what to return.
pub data Start : Type 0 where
  from : List Stat → Start
  return : DirRead → Start

-- The first loop, with `at` for the source's `pos`, and the test after it.
unfoldable pub skip : Bool → ℕ → List Stat → ℕ → Start
skip unix at [] offset = return (if at == offset then eof else out_of_range)
skip unix at (e ∷ es) offset =
    let next = at + length (marshal_stat_version unix e) in
    let rest = skip unix next es offset in
    if at == offset then from (e ∷ es) else if ltb offset next then return not_on_boundary else rest

-- The second loop: the bytes that it copies, with `n` bytes of `size` in use.
unfoldable pub fill : Bool → ℕ → ℕ → List Stat → List ℕ
fill unix size n [] = []
fill unix size n (e ∷ es) =
    let blob = marshal_stat_version unix e in
    let rest = fill unix size (n + length blob) es in
    if ltb size (n + length blob) then [] else blob ++ rest

unfoldable pub give : List ℕ → DirRead
give [] = buffer_too_small
give (b ∷ bs) = wrote (b ∷ bs)

-- MarshalDirVersion, with `size` for `len(buf)`.
unfoldable pub marshal_dir_version : List Stat → ℤ → ℕ → Bool → DirRead
marshal_dir_version entries (negsuc n) size unix = negative_offset
marshal_dir_version entries (pos offset) size unix = elim (skip unix 0 entries offset) [
  | return r ↦ r
  | from es ↦ give (fill unix size 0 es)
]

abbrev pub marshal_dir : List Stat → ℤ → ℕ → DirRead
marshal_dir entries offset size = marshal_dir_version entries offset size false

-- What File.Read returns when it hands its buffer to MarshalDirVersion.
abbrev pub as_read : DirRead → ReadOutcome
as_read (wrote bytes) = got bytes
as_read eof = at_eof []
as_read negative_offset = read_failed (text "server: MarshalDir: negative offset")
as_read not_on_boundary =
    read_failed (text "server: MarshalDir: offset does not land on an entry boundary")
as_read out_of_range = read_failed (text "server: MarshalDir: offset out of range")
as_read buffer_too_small = read_failed (text "server: MarshalDir: buffer too small for one entry")
