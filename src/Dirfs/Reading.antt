-- ===== src/Dirfs/Reading.antt =====
-- examples/dirfs/dirfs.go: Read, of a file and of a directory.
use p.Common.{ℕ, List, [], ◌∷◌, Bool, false, none, some}
use p.Common.Tests.{if◌then◌else◌}
use p.Common.Int.{signed}
use p.Common.Sort.{bytes_le}
use p.Wire.Types.{text, Stat}
use p.Server.Backend.{Outcome, okay, failed, ReadOutcome, read_failed}
use p.Server.Dir.{marshal_dir_version, as_read}
use p.Dirfs.{Info, DirEntry, read_only, Flag, Root, Dirs}
use p.Dirfs.Attributes.{set_host, stat_from_info, target_of}
use p.Dirfs.Paths.{join_path}

unfoldable pub insert_entry : DirEntry → List DirEntry → List DirEntry
insert_entry a [] = a ∷ []
insert_entry a (b ∷ bs) =
    let rest = insert_entry a bs in if bytes_le a.name b.name then a ∷ b ∷ bs else b ∷ rest

-- The sort of a directory by name, where each name is once.
unfoldable pub sort_entries : List DirEntry → List DirEntry
sort_entries [] = []
sort_entries (a ∷ rest) = insert_entry a (sort_entries rest)

module _ {H W : Type 0} (root : Root H W) where
  -- What an entry adds to the entries after it, in the loop of readDir.
  abbrev pub entry_or : W → List ℕ → Bool → Outcome Info → List Stat → List Stat
  entry_or host child symlink (failed x) rest = rest
  entry_or host child symlink (okay info) rest =
      stat_from_info root child info (target_of root host symlink child) ∷ rest

  -- The loop of readDir
  unfoldable pub entry_stats : W → List ℕ → List DirEntry → List Stat
  entry_stats host path [] = []
  entry_stats host path (e ∷ es) =
      let rest = entry_stats host path es in
      entry_or host (join_path path e.name) e.symlink e.info rest

  -- file.readDir
  unfoldable pub dir_read_dir : Bool → Dirs H W → List ℕ → ℕ → ℕ → Dirs H W × ReadOutcome
  dir_read_dir u w path offset count =
      let flag : Flag = record {
        access = read_only;
        create = false;
        excl = false;
        trunc = false;
      } in
      let o = root.open_file w.host path flag 0 in
      elim o.1 [
        | failed e ↦ (set_host w o.0, read_failed e)
        | okay h ↦
            let d = root.read_dir o.0 h in
            let closed = set_host w (root.close d.0 h).0 in
            elim d.1 [
              | failed e ↦ (closed, read_failed e)
              | okay es ↦ (
                closed,
                as_read (
                    marshal_dir_version (entry_stats d.0 path (sort_entries es)) (signed offset)
                      count u),
              )
            ]
      ]

  -- file.Read
  unfoldable pub dir_read : Bool → Dirs H W → ℕ → ℕ → ℕ → Dirs H W × ReadOutcome
  dir_read u w f offset count =
      let file = w.files f in
      elim (root.lstat w.host file.path) [
        | failed e ↦ (w, read_failed e)
        | okay info ↦
            let bytes : Dirs H W × ReadOutcome = elim file.osf [
              | none ↦ (w, read_failed (text "dirfs: read of unopened file"))
              | some h ↦ let r = root.read_at w.host h offset count in (set_host w r.0, r.1)
            ] in
            let entries = dir_read_dir u w file.path offset count in
            if info.dir then entries else bytes
      ]
