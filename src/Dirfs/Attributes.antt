-- ===== src/Dirfs/Attributes.antt =====
-- examples/dirfs/dirfs.go: the Stat of a file and WStat.
use Prim.Native.Nat.{bit_or}
use p.Common.{ℕ, ◌+◌, ◌%◌, ◌^◌, List, [], ◌++◌, Bool, false, bit_and, Option, none}
use p.Common.Tests.{◌==◌, if◌then◌else◌}
use p.Common.Lists.{length}
use p.Common.Names.{same_bytes}
use p.Common.Strings.{has_slash}
use p.Wire.Types.{text, dmdir, dmsymlink, qtdir, qtfile, qtsymlink, Qid, zero_qid, Stat, zero_stat}
use p.Server.Backend.{Outcome, okay, failed}
use p.Dirfs.{Info, write_only, Flag, Root, OpenedFile, Dirs}
use p.Dirfs.Paths.{join_path, dir_of, base_of}

module _ {H W : Type 0} where
  abbrev pub set_file : Dirs H W → ℕ → OpenedFile H → Dirs H W
  set_file w f x = record w { files = λ a. if a == f then x else w.files a }

  -- A new file with a path, and with what it has open.
  unfoldable pub new_file : Dirs H W → List ℕ → Option H → Dirs H W × Outcome ℕ
  new_file w path osf = (
    record (set_file w w.made (record { path = path; osf = osf })) { made = w.made + 1 },
    okay w.made,
  )

  abbrev pub set_host : Dirs H W → W → Dirs H W
  set_host w host = record w { host = host }

module _ {H W : Type 0} (root : Root H W) where
  -- qidFor
  unfoldable pub qid_for : List ℕ → Info → Qid
  qid_for path info = record {
    type = if info.symlink then qtsymlink else if info.dir then qtdir else qtfile;
    version = info.mtime % 2 ^ 32;
    path = root.hash path;
  }

  -- statFromInfo
  unfoldable pub stat_from_info : List ℕ → Info → List ℕ → Stat
  stat_from_info path info target =
      let mode = if info.dir then bit_or info.perm dmdir else info.perm in
      record zero_stat {
        qid = qid_for path info;
        mode = if length target == 0 then mode else bit_or mode dmsymlink;
        mtime = info.mtime % 2 ^ 32;
        length = info.size;
        name = base_of path;
        uid = text "glenda";
        gid = text "glenda";
        muid = text "glenda";
        extension = target;
      }

  -- `target, _ = root.Readlink(path)` where the file is a symbolic link
  unfoldable pub target_of : W → Bool → List ℕ → List ℕ
  target_of host symlink path =
      let linked : List ℕ = elim (root.readlink host path) [ okay t ↦ t | failed e ↦ [] ] in
      if symlink then linked else []

  unfoldable pub dir_qid : Dirs H W → ℕ → Qid
  dir_qid w f =
      let path = (w.files f).path in
      elim (root.lstat w.host path) [ failed e ↦ zero_qid | okay info ↦ qid_for path info ]

  -- file.Stat, with the name of the FS
  unfoldable pub dir_stat : List ℕ → Dirs H W → ℕ → Outcome Stat
  dir_stat name w f =
      let path = (w.files f).path in
      elim (root.lstat w.host path) [
        | failed e ↦ failed e
        | okay info ↦
            let st = stat_from_info path info (target_of w.host info.symlink path) in
            okay (if same_bytes path (text ".") then record st { name = name } else st)
      ]

  -- The first part of WStat
  unfoldable pub wstat_name : Dirs H W → ℕ → List ℕ → Dirs H W × Outcome (Unit {0})
  wstat_name w f name =
      let file = w.files f in
      let new_path = join_path (dir_of file.path) name in
      let r = root.rename w.host file.path new_path in
      if length name == 0
      then (w, okay tt)
      else if has_slash name
      then (w, failed (text "dirfs: invalid name " ++ root.quote name))
      else elim r.1 [
        | failed e ↦ (set_host w r.0, failed e)
        | okay _ ↦ (set_file (set_host w r.0) f (record file { path = new_path }), okay tt)
      ]

  unfoldable pub wstat_mode : Dirs H W → ℕ → ℕ → Dirs H W × Outcome (Unit {0})
  wstat_mode w f mode =
      let r = root.chmod w.host (w.files f).path (bit_and mode 0x1FF) in
      if mode == 0xFFFFFFFF then (w, okay tt) else (set_host w r.0, r.1)

  -- Truncate and Close of the open file `h`, with the first error of the two.
  unfoldable pub truncate_close : W → H → ℕ → W × Outcome (Unit {0})
  truncate_close host h len =
      let r = root.truncate host h len in
      let c = root.close r.0 h in elim r.1 [ failed e ↦ (c.0, failed e) | okay _ ↦ c ]

  unfoldable pub wstat_length : Dirs H W → ℕ → ℕ → Dirs H W × Outcome (Unit {0})
  wstat_length w f len =
      let flag : Flag = record {
        access = write_only;
        create = false;
        excl = false;
        trunc = false;
      } in
      let o = root.open_file w.host (w.files f).path flag 0 in
      let cut : Dirs H W × Outcome (Unit {0}) = elim o.1 [
        | failed e ↦ (set_host w o.0, failed e)
        | okay h ↦ let r = truncate_close o.0 h len in (set_host w r.0, r.1)
      ] in
      if len == 0xFFFFFFFFFFFFFFFF then (w, okay tt) else cut

  -- file.WStat
  unfoldable pub dir_wstat : Dirs H W → ℕ → Stat → Dirs H W × Outcome (Unit {0})
  dir_wstat w f st =
      let a = wstat_name w f st.name in
      elim a.1 [
        | failed e ↦ (a.0, failed e)
        | okay _ ↦
            let b = wstat_mode a.0 f st.mode in
            elim b.1 [ failed e ↦ (b.0, failed e) | okay _ ↦ wstat_length b.0 f st.length ]
      ]

  -- file.Clone
  unfoldable pub dir_clone : Dirs H W → ℕ → Dirs H W × Outcome ℕ
  dir_clone w f = new_file w (w.files f).path none
