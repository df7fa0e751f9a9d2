-- ===== src/Dirfs/Tests.antt =====
-- Runs of dirfs, over a host with a file and a link in the exported directory.
use mathlib.Core.List.{Perm}
use p.Common.{ℕ, List, ◌≡◌, refl, sym, ap, [], ◌∷◌, Bool, true, false, ◌||◌, none, arith}
use p.Common.Tests.{◌==◌, if◌then◌else◌}
use p.Common.Lists.{All}
use p.Common.Int.{signed}
use p.Common.Names.{same_bytes}
use p.Common.Strings.{has_slash, split_slash, join}
use p.Wire.Types.{text}
use p.Server.Backend.{Outcome, okay, failed, at_eof}
use p.Server.Dir.{marshal_dir_version, as_read}
use p.Dirfs.{Info, DirEntry, Root, OpenedFile, Dirs}
use p.Dirfs.Paths.{path_of, join_path, clean, clean_from, clean_step}
use p.Dirfs.Paths.Names.{IsName}
use p.Dirfs.Paths.Positions.{target}
use p.Dirfs.Attributes.{new_file}
use p.Dirfs.Reading.{dir_read}
use p.Dirfs.Sorting.{IsOrdered}
use p.Dirfs.Methods.{dir_walk}
use p.Dirfs.Inside.{AllInside}
use p.Dirfs.Inside.Reached.{Reached, at_start, attaches, walks, Reached-AllInside}
use p.Dirfs.Walks.{WalksTo, dir_walk-WalksTo, walked_stats, IsEntry}
use p.Dirfs.Listing.{dir_read-walked_stats}

abbrev info : Bool → Info
info dir = record { symlink = false; dir = dir; perm = 0x1A4; mtime = 7; size = 3 }

abbrev entry_of : List ℕ → DirEntry
entry_of name = record { name = name; symlink = false; info = okay (info false) }

-- What the host lists, which is not in order.
abbrev listed_entries : List DirEntry
listed_entries = entry_of (text "b") ∷ entry_of (text "a") ∷ []

-- The directory has the files `a` and `b`; everything else is refused.
abbrev root : Root (Unit {0}) (Unit {0})
root = record {
  lstat = λ w path.
      if same_bytes path (text ".")
      then okay (info true)
      else if same_bytes path (text "a")
      then okay (info false)
      else if same_bytes path (text "b")
      then okay (info false)
      else failed (text "no such file");
  readlink = λ w path. failed (text "not a link");
  rename = λ w old new. (w, failed (text "refused"));
  chmod = λ w path perm. (w, failed (text "refused"));
  open_file = λ w path flag perm. (w, okay tt);
  mkdir = λ w path perm. (w, failed (text "refused"));
  symlink = λ w target path. (w, failed (text "refused"));
  remove = λ w path. (w, failed (text "refused"));
  truncate = λ w h len. (w, failed (text "refused"));
  read_dir = λ w h. (w, okay listed_entries);
  read_at = λ w h offset count. (w, at_eof []);
  write_at = λ w h offset bytes. (w, failed (text "refused"));
  close = λ w h. (w, okay tt);
  hash = λ path. 5;
  quote = λ name. name;
}

abbrev no_files : ℕ → OpenedFile (Unit {0})
no_files f = record { path = []; osf = none }

abbrev start : Dirs (Unit {0}) (Unit {0})
start = record { files = no_files; made = 0; host = tt }

abbrev attached : Dirs (Unit {0}) (Unit {0})
attached = record {
  files = λ a. if a == 0 then record { path = text "."; osf = none } else no_files a;
  made = 1;
  host = tt;
}

attached-Reached : Reached root attached
unfolding new_file
attached-Reached = attaches (at_start no_files tt)

Reached-AllInside_example : AllInside (dir_walk root attached 0 (text "..")).0
Reached-AllInside_example =
    Reached-AllInside root (λ host old e. cc e) (dir_walk root attached 0 (text "..")).0
      (walks 0 (text "..") (omega arith) attached-Reached)

root_path : (attached.files 0).path ≡ path_of []
unfolding path_of
root_path = refl

is_part_a : ((2 == 0) || has_slash (text "..")) ≡ false
unfolding has_slash
is_part_a = refl

dir_walk-WalksTo_example :
    WalksTo root attached (target [] (text "..")) (text "..") (dir_walk root attached 0 (text ".."))
dir_walk-WalksTo_example = dir_walk-WalksTo root attached 0 [] (text "..") root_path tt is_part_a

path_is_dir : root.lstat tt (path_of []) ≡ okay (info true)
unfolding path_of same_bytes
path_is_dir = refl

a-IsName : IsName (text "a")
unfolding has_slash same_bytes
a-IsName = record { some_bytes = refl; one = refl; not_dot = refl; not_dotdot = refl }

abbrev symlink_of : Outcome Info → Bool
symlink_of (okay i) = i.symlink
symlink_of (failed e) = false

b-IsName : IsName (text "b")
unfolding has_slash same_bytes
b-IsName = record { some_bytes = refl; one = refl; not_dot = refl; not_dotdot = refl }

listed-IsEntry : All (IsEntry root tt (path_of [])) listed_entries
unfolding path_of join_path clean clean_from clean_step same_bytes split_slash join
listed-IsEntry = (
  record { named = b-IsName; stated = refl; typed = λ i e. ap symlink_of (sym e) },
  (record { named = a-IsName; stated = refl; typed = λ i e. ap symlink_of (sym e) }, tt),
)

dir_read-walked_stats_example :
    (sorted : List DirEntry) × Perm listed_entries sorted
    × IsOrdered sorted
    × ((dir_read root false attached 0 0 100).1
        ≡ as_read (
            marshal_dir_version
              (walked_stats root (text "x") attached 0 sorted)
              (signed 0)
              100
              false))
dir_read-walked_stats_example =
    dir_read-walked_stats root (text "x") false attached 0 0 100 [] (info true) tt tt tt
      listed_entries root_path tt path_is_dir refl refl refl listed-IsEntry
