-- ===== src/Dirfs/Methods.antt =====
-- examples/dirfs/dirfs.go: the methods of *file, and the file system as a backend.
use p.Common.{ℕ, List, ◌++◌, Bool, true, false, ◌||◌, bit_and, none, some}
use p.Common.Tests.{◌==◌, if◌then◌else◌}
use p.Common.Lists.{length}
use p.Common.Names.{same_bytes}
use p.Common.Strings.{has_slash}
use p.Wire.Types.{text, owrite, ordwr, otrunc, has_bits, mode_is_dir}
use p.Server.Backend.{Outcome, okay, failed, Backend}
use p.Dirfs.{Access, read_only, write_only, read_write, Flag, Root, Dirs}
use p.Dirfs.Attributes.{set_file, new_file, set_host, dir_qid, dir_stat, dir_wstat, dir_clone}
use p.Dirfs.Reading.{dir_read}
use p.Dirfs.Paths.{join_path, dir_of}

-- The access that a mode asks for.
unfoldable pub access_of : ℕ → Access
access_of mode =
    if bit_and mode 3 == owrite
    then write_only
    else if bit_and mode 3 == ordwr
    then read_write
    else read_only

abbrev pub is_name_error : List ℕ → Bool
is_name_error name = (length name == 0) || same_bytes name (text "..") || has_slash name

-- The path that Walk goes to.
unfoldable pub walk_path : List ℕ → List ℕ → List ℕ
walk_path path name =
    if same_bytes name (text "..")
    then if same_bytes path (text ".") then text "." else dir_of path
    else join_path path name

module _ {H W : Type 0} (root : Root H W) where
  -- file.Walk
  unfoldable pub dir_walk : Dirs H W → ℕ → List ℕ → Dirs H W × Outcome ℕ
  dir_walk w f name =
      let new_path = walk_path (w.files f).path name in
      let there : Dirs H W × Outcome ℕ = elim (root.lstat w.host new_path) [
        | failed e ↦ (w, failed (text "dirfs: " ++ (name ++ (text ": " ++ e))))
        | okay info ↦ new_file w new_path none
      ] in
      if (length name == 0) || has_slash name
      then (w, failed (text "dirfs: invalid path element " ++ root.quote name))
      else there

  -- file.Open
  unfoldable pub dir_open : Dirs H W → ℕ → ℕ → Dirs H W × Outcome (Unit {0})
  dir_open w f mode =
      let file = w.files f in
      elim (root.lstat w.host file.path) [
        | failed e ↦ (w, failed e)
        | okay info ↦
            let flag : Flag = record {
              access = access_of mode;
              create = false;
              excl = false;
              trunc = has_bits mode otrunc;
            } in
            let o = root.open_file w.host file.path flag 0 in
            let opened : Dirs H W × Outcome (Unit {0}) = elim o.1 [
              | failed e ↦ (set_host w o.0, failed e)
              | okay h ↦ (set_file (set_host w o.0) f (record file { osf = some h }), okay tt)
            ] in
            if info.symlink
            then (w, failed (text "dirfs: " ++ (file.path ++ text ": is a symlink")))
            else if info.dir
            then (w, okay tt)
            else opened
      ]

  -- file.Create
  unfoldable pub dir_create : Dirs H W → ℕ → List ℕ → ℕ → ℕ → Dirs H W × Outcome ℕ
  dir_create w f name perm mode =
      let new_path = join_path (w.files f).path name in
      let d = root.mkdir w.host new_path (bit_and perm 0x1FF) in
      let made_dir : Dirs H W × Outcome ℕ = elim d.1 [
        | failed e ↦ (set_host w d.0, failed e)
        | okay _ ↦ new_file (set_host w d.0) new_path none
      ] in
      let flag : Flag = record {
        access = access_of mode;
        create = true;
        excl = true;
        trunc = false;
      } in
      let o = root.open_file w.host new_path flag (bit_and perm 0x1FF) in
      let made_file : Dirs H W × Outcome ℕ = elim o.1 [
        | failed e ↦ (set_host w o.0, failed e)
        | okay h ↦ new_file (set_host w o.0) new_path (some h)
      ] in
      if is_name_error name
      then (w, failed (text "dirfs: invalid name " ++ root.quote name))
      else if mode_is_dir perm
      then made_dir
      else made_file

  -- file.Symlink
  unfoldable pub dir_symlink : Dirs H W → ℕ → List ℕ → List ℕ → Dirs H W × Outcome ℕ
  dir_symlink w f name target =
      let new_path = join_path (w.files f).path name in
      let r = root.symlink w.host target new_path in
      let made : Dirs H W × Outcome ℕ = elim r.1 [
        | failed e ↦ (set_host w r.0, failed e)
        | okay _ ↦ new_file (set_host w r.0) new_path none
      ] in
      if is_name_error name
      then (w, failed (text "dirfs: invalid name " ++ root.quote name))
      else made

  -- file.Write
  unfoldable pub dir_write : Dirs H W → ℕ → ℕ → List ℕ → Dirs H W × Outcome ℕ
  dir_write w f offset bytes = elim (w.files f).osf [
    | none ↦ (w, failed (text "dirfs: write of unopened file"))
    | some h ↦ let r = root.write_at w.host h offset bytes in (set_host w r.0, r.1)
  ]

  -- file.Close
  unfoldable pub dir_close : Dirs H W → ℕ → Dirs H W × Outcome (Unit {0})
  dir_close w f =
      let file = w.files f in
      let w' = set_file w f (record file { osf = none }) in
      elim file.osf [
        | none ↦ (w', okay tt)
        | some h ↦ let r = root.close w.host h in (set_host w' r.0, r.1)
      ]

  -- file.Remove
  unfoldable pub dir_remove : Dirs H W → ℕ → Dirs H W × Outcome (Unit {0})
  dir_remove w f =
      let w' = (dir_close w f).0 in
      let r = root.remove w'.host (w'.files f).path in (set_host w' r.0, r.1)

  -- FS, with its name
  unfoldable pub dirfs : List ℕ → Backend ℕ (Dirs H W)
  dirfs name = record {
    attach = λ u w uname aname. new_file w (text ".") none;
    qid = dir_qid root;
    stat = λ u w f. (w, dir_stat root name w f);
    wstat = λ u w f st. dir_wstat root w f st;
    walk = λ u w f part. dir_walk w f part;
    open_file = λ u w f mode. dir_open w f mode;
    create = λ u w f part perm mode. dir_create w f part perm mode;
    read = dir_read root;
    write = λ u w f offset bytes. dir_write w f offset bytes;
    remove = λ u w f. dir_remove w f;
    close = dir_close;
    symlink = λ f. some (λ u w part target. dir_symlink w f part target);
    clone = λ f. some (λ u w. dir_clone root w f);
  }
