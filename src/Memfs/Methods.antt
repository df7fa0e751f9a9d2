-- ===== src/Memfs/Methods.antt =====
-- examples/memfs/memfs.go: the methods of *file, and the file system as a backend.
use p.Common.{
  ℕ, ◌+◌, ◌-◌, ◌%◌, ◌^◌, List, [], ◌∷◌, ◌++◌, map, Bool, false, not, ◌&&◌, bit_and, Option, none,
  some,
}
use p.Common.Tests.{ltb, leb, ◌==◌, if◌then◌else◌}
use p.Common.Lists.{length, take, drop}
use p.Common.Names.{same_bytes, lookup_name, delete_name, insert_name}
use p.Common.Sort.{sort_names}
use p.Wire.Types.{text, has_bits, otrunc, mode_is_dir, Stat}
use p.Server.Backend.{Outcome, okay, failed, ReadOutcome, got, at_eof, Backend}
use p.Server.Dir.{marshal_dir_version, as_read}
use p.Common.Int.{is_negative, signed}
use p.Memfs.{Node, Fs, write_node, panic, new_node, stat_of, bump, resize}

-- The renaming of the node `p`, which has the parent `q`.
unfoldable pub rename : Fs → ℕ → ℕ → List ℕ → Fs
rename w p q name =
    let parent = w.nodes q in
    let n = w.nodes p in
    let w' = write_node w q (record parent { children = delete_name n.name parent.children }) in
    let w'' = write_node w' p (record (w'.nodes p) { name = name }) in
    let parent' = w''.nodes q in
    write_node w'' q (record parent' { children = insert_name name p parent'.children })

-- The first part of WStat: the new name.
unfoldable pub set_name : Fs → ℕ → List ℕ → Fs × Outcome (Unit {0})
set_name w p name =
    if length name == 0
    then (w, okay tt)
    else if same_bytes name (w.nodes p).name
    then (w, okay tt)
    else elim (w.nodes p).parent [
      | none ↦ (w, failed (text "memfs: cannot rename root"))
      | some q ↦ elim (lookup_name name (w.nodes q).children) [
        | some c ↦ (w, failed (text "memfs: " ++ (name ++ text ": already exists")))
        | none ↦ (rename w p q name, okay tt)
      ]
    ]

-- `st.Mode &^ p9.DMDIR`
abbrev pub without_dmdir : ℕ → ℕ
without_dmdir mode = bit_and mode 0x7FFFFFFF

unfoldable pub set_mode : Fs → ℕ → ℕ → Fs
set_mode w p mode =
    if mode == 0xFFFFFFFF
    then w
    else write_node w p (record (w.nodes p) { perm = without_dmdir mode })

unfoldable pub set_length : Fs → ℕ → ℕ → Fs
set_length w p len =
    let n = w.nodes p in
    if len == 0xFFFFFFFFFFFFFFFF
    then w
    else if n.dir
    then w
    else if is_negative len
    then panic w
    else write_node w p (record n { bytes = resize n.bytes len; qid = bump n.qid })

-- file.WStat
unfoldable pub mem_wstat : Fs → ℕ → Stat → Fs × Outcome (Unit {0})
mem_wstat w p st =
    let r = set_name w p st.name in
    elim r.1 [
      | failed e ↦ (r.0, failed e)
      | okay _ ↦ (set_length (set_mode r.0 p st.mode) p st.length, okay tt)
    ]

-- file.Walk
unfoldable pub mem_walk : Fs → ℕ → List ℕ → Outcome ℕ
mem_walk w p name =
    let n = w.nodes p in
    let down : Outcome ℕ = elim (lookup_name name n.children) [
      | none ↦ failed (text "memfs: " ++ (name ++ text ": no such file"))
      | some c ↦ okay c
    ] in
    let up : Outcome ℕ = elim n.parent [ none ↦ okay p | some q ↦ okay q ] in
    if not n.dir
    then failed (text "memfs: not a directory")
    else if same_bytes name (text "..")
    then up
    else down

-- file.Open
unfoldable pub mem_open : Fs → ℕ → ℕ → Fs × Outcome (Unit {0})
mem_open w p mode =
    let n = w.nodes p in
    if not (length n.target == 0)
    then (w, failed (text "memfs: cannot open a symlink"))
    else if not (has_bits mode otrunc)
    then (w, okay tt)
    else if n.dir
    then (w, okay tt)
    else (write_node w p (record n { bytes = []; qid = bump n.qid }), okay tt)

-- What Create and Symlink share: a new child of the node `p`.
unfoldable pub add_child : Fs → ℕ → List ℕ → Bool → ℕ → List ℕ → Fs × Outcome ℕ
add_child w p name dir perm target =
    let n = w.nodes p in
    let w' = new_node w name dir perm target (some p) in
    let n' = w'.nodes p in
    let added = write_node w' p (record n' { children = insert_name name w.made n'.children }) in
    if not n.dir
    then (w, failed (text "memfs: not a directory"))
    else elim (lookup_name name n.children) [
      | some c ↦ (w, failed (text "memfs: " ++ (name ++ text ": already exists")))
      | none ↦ (added, okay w.made)
    ]

-- file.Create, with `perm&^p9.DMDIR&p9.DMPerm`, and file.Symlink.
unfoldable pub mem_create : Fs → ℕ → List ℕ → ℕ → Fs × Outcome ℕ
mem_create w p name perm =
    add_child w p name (mode_is_dir perm) (bit_and (without_dmdir perm) 0x1FF) []

unfoldable pub mem_symlink : Fs → ℕ → List ℕ → List ℕ → Fs × Outcome ℕ
mem_symlink w p name target = add_child w p name false 0x1FF target

-- The entries that readDir makes of the names; each of them is in the map.
unfoldable pub entries_of : Fs → List (List ℕ × ℕ) → List (List ℕ) → List Stat
entries_of w children [] = []
entries_of w children (name ∷ names) =
    let rest = entries_of w children names in
    elim (lookup_name name children) [ none ↦ rest | some c ↦ stat_of (w.nodes c) ∷ rest ]

unfoldable pub list_dir : Fs → ℕ → List Stat
list_dir w p =
    let children = (w.nodes p).children in
    entries_of w children (sort_names (map (λ e. e.0) children))

-- Go's `b[offset:]` for an int64 offset, which panics where that is negative or beyond the length.
unfoldable pub slice_from : List ℕ → ℕ → Option (List ℕ)
slice_from b offset =
    if is_negative offset
    then none
    else if ltb (length b) offset
    then none
    else some (drop offset b)

-- file.Read
unfoldable pub mem_read : Bool → Fs → ℕ → ℕ → ℕ → Fs × ReadOutcome
mem_read unix w p offset count =
    let n = w.nodes p in
    if n.dir
    then (w, as_read (marshal_dir_version (list_dir w p) (signed offset) count unix))
    else if not (is_negative offset) && leb (length n.bytes) offset
    then (w, at_eof [])
    else elim (slice_from n.bytes offset) [
      | none ↦ (panic w, at_eof [])
      | some rest ↦ (w, got (take count rest))
    ]

-- The bytes with `p` copied in at `offset`, which is not beyond their end.
unfoldable pub splice : List ℕ → ℕ → List ℕ → List ℕ
splice b offset p = take offset b ++ (take (length b - offset) p ++ drop (offset + length p) b)

-- The bytes that Write copies into: those that are there, or as many as it takes. The sum is an int64.
unfoldable pub grown : List ℕ → ℕ → ℕ → List ℕ
grown b offset count =
    let end = (offset + count) % 2 ^ 64 in
    if is_negative end then b else if ltb (length b) end then resize b end else b

-- The node after a write.
unfoldable pub written : Node → ℕ → List ℕ → Node
written n offset bytes = record n {
  bytes = splice (grown n.bytes offset (length bytes)) offset bytes;
  qid = bump n.qid;
}

-- file.Write
unfoldable pub mem_write : Fs → ℕ → ℕ → List ℕ → Fs × Outcome ℕ
mem_write w p offset bytes =
    let n = w.nodes p in
    if n.dir
    then (w, failed (text "memfs: cannot write to a directory"))
    else elim (slice_from (grown n.bytes offset (length bytes)) offset) [
      | none ↦ (panic w, okay 0)
      | some rest ↦ (write_node w p (written n offset bytes), okay (length bytes))
    ]

-- file.Remove
unfoldable pub mem_remove : Fs → ℕ → Fs × Outcome (Unit {0})
mem_remove w p =
    let n = w.nodes p in
    elim n.parent [
      | none ↦ (w, failed (text "memfs: cannot remove root"))
      | some q ↦
          let parent = w.nodes q in
          if n.dir && not (length n.children == 0)
          then (w, failed (text "memfs: directory not empty"))
          else (
            write_node w q (record parent { children = delete_name n.name parent.children }),
            okay tt,
          )
    ]

-- FS as a server.FileSystem, and file as a server.File and SymlinkFile.
unfoldable pub memfs : Backend ℕ Fs
memfs = record {
  attach = λ u w uname aname. (w, okay 0);
  qid = λ w p. (w.nodes p).qid;
  stat = λ u w p. (w, okay (stat_of (w.nodes p)));
  wstat = λ u w p st. mem_wstat w p st;
  walk = λ u w p name. (w, mem_walk w p name);
  open_file = λ u w p mode. mem_open w p mode;
  create = λ u w p name perm mode. mem_create w p name perm;
  read = mem_read;
  write = λ u w p offset bytes. mem_write w p offset bytes;
  remove = λ u w p. mem_remove w p;
  close = λ w p. (w, okay tt);
  symlink = λ p. some (λ u w name target. mem_symlink w p name target);
  clone = λ p. none;
}
