-- ===== src/Namespace/Read.antt =====
-- ns/file.go and ns/dev.go: reading a file of the namespace. A directory of the tree lists its children
-- and the entries of its layers. Reading takes fuel like a walk, and as many reads of a layer's
-- directory at most.
pub mod Stamps
use p.Common.{
  ℕ, zero, suc, ◌+◌, ◌%◌, ◌^◌, ◌<◌, List, [], ◌∷◌, ◌++◌, map, Bool, true, false, ◌&&◌, ◌||◌, Option,
  none, some,
}
use p.Common.Tests.{ltb, ◌==◌, if◌then◌else◌}
use p.Common.Lists.{length, take, drop}
use p.Common.Int.{signed}
use p.Common.Bytes.{le_bytes, le_value}
use p.Common.Names.{same_bytes, lookup_name}
use p.Common.Sort.{sort_names}
use p.Wire.Errors.{error_text}
use p.Wire.Types.{
  text, Error, truncated, trailing_bytes, msg_too_large, unknown_type, too_many_welem, eof,
  unexpected_eof, decoding, ok, err, qid_is_dir, Stat,
}
use p.Wire.Fcall.Types.{fcall_type_string}
use p.Wire.Stat.{unmarshal_stat_version}
use p.Server.Backend.{Outcome, okay, failed, ReadOutcome, got, at_eof, read_failed}
use p.Server.Dir.{marshal_dir_version, as_read}
use p.Namespace.{
  Outside, File, foreign, ro_file, unstamped, rooted, in_tree, bound, Layer, Ns, layer_dev,
  layer_root,
}
use p.Namespace.Paths.{join}
use p.Namespace.Files.{stamp, tree_stat, ns_qid}

-- setDirDev. A round takes eight bytes at least, so that a round for each byte is enough.
unfoldable pub set_dir_dev : ℕ → ℕ → List ℕ → List ℕ
set_dir_dev zero dev b = b
set_dir_dev (suc fuel) dev b =
    let total = 2 + le_value (take 2 b) in
    let rest = set_dir_dev fuel dev (drop total b) in
    if ltb (length b) 2
    then b
    else if ltb (length b) total || ltb total 8
    then b
    else take 4 b ++ (le_bytes 4 dev ++ (drop 8 (take total b) ++ rest))

-- The patch of the bytes that were read, in a directory.
unfoldable pub restamp : Bool → ℕ → ReadOutcome → ReadOutcome
restamp is_dir dev (got b) = got (if is_dir then set_dir_dev (length b) dev b else b)
restamp is_dir dev (at_eof b) = at_eof (if is_dir then set_dir_dev (length b) dev b else b)
restamp is_dir dev (read_failed e) = read_failed e

-- The second loop of ReadDirEntries, a round for each byte.
unfoldable pub decode_entries : ℕ → Bool → List ℕ → Outcome (List Stat)
decode_entries fuel unix [] = okay []
decode_entries zero unix (b ∷ bs) = okay []
decode_entries (suc fuel) unix (b ∷ bs) =
    let bytes = b ∷ bs in
    let total = 2 + le_value (take 2 bytes) in
    let cut : Outcome (List Stat) = failed (text "ns: truncated directory entry") in
    let rest = decode_entries fuel unix (drop total bytes) in
    let entry : Outcome (List Stat) = elim (unmarshal_stat_version (take total bytes) unix) [
      | err e ↦ failed (error_text e)
      | ok st ↦ elim rest [ failed e ↦ failed e | okay sts ↦ okay (st ∷ sts) ]
    ] in
    if ltb (length bytes) 2 then cut else if ltb (length bytes) total then cut else entry

abbrev has_name : List ℕ → List (List ℕ) → Bool
has_name name [] = false
has_name name (x ∷ xs) = same_bytes x name || has_name name xs

-- The entries of a layer whose names were not seen, each name once.
unfoldable pub unseen : List (List ℕ) → List Stat → List Stat
unseen seen [] = []
unseen seen (st ∷ sts) =
    let skipped = unseen seen sts in
    let taken = unseen (seen ++ (st.name ∷ [])) sts in
    if has_name st.name seen then skipped else st ∷ taken

module _ {N W : Type 0} (out : Outside N W) where
  abbrev Reader : Type 0
  Reader = Ns N × W → ℕ → Option ((Ns N × W) × ReadOutcome)

  -- The first loop of ReadDirEntries, from an offset on: the bytes of all reads.
  unfoldable pub read_all : Reader → ℕ → Ns N × W → ℕ → Option ((Ns N × W) × Outcome (List ℕ))
  read_all read_at zero s offset = none
  read_all read_at (suc rounds) s offset = elim (read_at s offset) [
    | none ↦ none
    | some r ↦ elim r.1 [
      | read_failed e ↦ some (r.0, failed e)
      | at_eof b ↦ some (r.0, okay b)
      | got b ↦
          let rest = read_all read_at rounds r.0 ((offset + length b) % 2 ^ 64) in
          if length b == 0 then some (r.0, okay []) else elim rest [
            | none ↦ none
            | some q ↦ elim q.1 [
              | failed e ↦ some (q.0, failed e)
              | okay bs ↦ some (q.0, okay (b ++ bs))
            ]
          ]
    ]
  ]

  -- ReadDirEntries
  unfoldable pub read_dir_entries :
      Reader → ℕ → Bool → Ns N × W → Option ((Ns N × W) × Outcome (List Stat))
  read_dir_entries read_at rounds u s = elim (read_all read_at rounds s 0) [
    | none ↦ none
    | some r ↦ elim r.1 [
      | failed e ↦ some (r.0, failed e)
      | okay bytes ↦ some (r.0, decode_entries (length bytes) u bytes)
    ]
  ]

  -- layer.list, for the layer `l`; `read_in` reads a file.
  unfoldable pub layer_list :
      (File N → Reader) → ℕ → Bool → Ns N × W → ℕ → Option ((Ns N × W) × Outcome (List Stat))
  layer_list read_in rounds u s l =
      let lay = s.0.layers l in
      let label = if length lay.spec == 0 then text "unnamed bind" else lay.spec in
      let root = layer_root out u s l in
      elim root.1 [
        | failed e ↦ some (root.0, failed (label ++ (text ": " ++ e)))
        | okay f ↦ elim (read_dir_entries (read_in f) rounds u root.0) [
          | none ↦ none
          | some r ↦ elim r.1 [
            | failed e ↦ some (r.0, failed (label ++ (text ": " ++ e)))
            | okay sts ↦ some (r.0, okay (map (stamp (layer_dev lay)) sts))
          ]
        ]
      ]

  -- The loop over the layers: the entries, less those whose names were seen, and the errors.
  unfoldable pub list_layers :
      (File N → Reader)
      → ℕ
      → Bool
      → Ns N × W
      → List ℕ
      → List (List ℕ)
      → Option ((Ns N × W) × (List Stat × List (List ℕ)))
  list_layers read_in rounds u s [] seen = some (s, ([], []))
  list_layers read_in rounds u s (l ∷ ls) seen = elim (layer_list read_in rounds u s l) [
    | none ↦ none
    | some r ↦ elim r.1 [
      | failed e ↦ elim (list_layers read_in rounds u r.0 ls seen) [
        | none ↦ none
        | some q ↦ some (q.0, (q.1.0, e ∷ q.1.1))
      ]
      | okay sts ↦
          let fresh = unseen seen sts in
          elim (list_layers read_in rounds u r.0 ls (seen ++ map (λ st. st.name) fresh)) [
            | none ↦ none
            | some q ↦ some (q.0, (fresh ++ q.1.0, q.1.1))
          ]
    ]
  ]

  -- The entries of the children in the tree, by their sorted names; each of them is in the map.
  unfoldable pub child_entries : Ns N → List (List ℕ × ℕ) → List (List ℕ) → List Stat
  child_entries ns children [] = []
  child_entries ns children (name ∷ names) =
      let rest = child_entries ns children names in
      elim (lookup_name name children) [
        | none ↦ rest
        | some c ↦ tree_stat ns.user (ns.nodes c).path_hash name ∷ rest
      ]

  -- nsFile.listLocalDir, of the node `n`
  unfoldable pub list_local_dir :
      (File N → Reader) → ℕ → Bool → Ns N × W → ℕ → Option ((Ns N × W) × Outcome (List Stat))
  list_local_dir read_in rounds u s n =
      let node = s.0.nodes n in
      let names = sort_names (map (λ e. e.0) node.children) in
      let own = child_entries s.0 node.children names in
      elim (list_layers read_in rounds u s node.layers names) [
        | none ↦ none
        | some r ↦
            let errs = r.1.1 in
            if ltb 0 (length errs)
              && (length errs == length node.layers)
              && (length node.children == 0)
            then some (r.0, failed (join (10 ∷ []) errs))
            else some (r.0, okay (own ++ r.1.0))
      ]

  -- The Read of each type of file, for a buffer of `count` bytes.
  unfoldable pub ns_read : ℕ → Bool → Ns N × W → File N → ℕ → ℕ → Option ((Ns N × W) × ReadOutcome)
  ns_read zero u s f offset count = none
  ns_read (suc k) u s (foreign n) offset count =
      let r = out.files.read u s.1 n offset count in some ((s.0, r.0), r.1)
  ns_read (suc k) u s (ro_file f) offset count = ns_read k u s f offset count
  ns_read (suc k) u s (rooted f depth) offset count = ns_read k u s f offset count
  ns_read (suc k) u s (unstamped f) offset count = elim (ns_read k u s f offset count) [
    | none ↦ none
    | some r ↦ some (r.0, restamp (qid_is_dir (ns_qid out r.0 f)) 0 r.1)
  ]
  ns_read (suc k) u s (bound real dev) offset count = elim (ns_read k u s real offset count) [
    | none ↦ none
    | some r ↦
        let stamped = restamp (qid_is_dir (ns_qid out r.0 real)) dev r.1 in
        some (r.0, if dev == 0 then r.1 else stamped)
  ]
  ns_read (suc k) u s (in_tree n) offset count =
      elim (list_local_dir (λ f s' at. ns_read k u s' f at 8192) k u s n) [
        | none ↦ none
        | some r ↦ elim r.1 [
          | failed e ↦ some (r.0, read_failed e)
          | okay sts ↦ some (r.0, as_read (marshal_dir_version sts (signed offset) count u))
        ]
      ]
