-- ===== src/Dirfs/Listing.antt =====
-- examples/dirfs/dirfs.go: a read of a directory through MarshalDirVersion.
use mathlib.Core.List.{Perm}
use p.Common.{ℕ, ◌≡◌, ap, List, Bool, true, false}
use p.Common.Lists.{All}
use p.Common.Int.{signed}
use p.Server.Backend.{okay}
use p.Server.Dir.{marshal_dir_version, as_read}
use p.Dirfs.{Info, DirEntry, read_only, Flag, Root, Dirs}
use p.Dirfs.Paths.{path_of}
use p.Dirfs.Paths.Names.{IsName}
use p.Dirfs.Attributes.{set_host}
use p.Dirfs.Reading.{sort_entries, dir_read_dir, dir_read}
use p.Dirfs.Sorting.{IsOrdered, sort_entries-All, sort_entries-IsOrdered, sort_entries-Perm}
use p.Dirfs.Walks.{walked_stats, IsEntry, entry_stats-walked_stats}

-- The flag of os.Root.Open.
abbrev pub open_flag : Flag
open_flag = record { access = read_only; create = false; excl = false; trunc = false }

module _ {H W : Type 0} (root : Root H W) where
  -- A read of a directory, below the one exported, gives what MarshalDirVersion makes of the Stats that
  -- walks from it to the names of its entries lead to: of each entry once, and in the order of their
  -- names. This is so where package os lists the directory, with entries that Lstat describes in the
  -- same way.
  pub dir_read-walked_stats :
      (name : List ℕ) (u : Bool) (w : Dirs H W) (f offset count : ℕ) (names : List (List ℕ))
      (info : Info) (h : H) (host host' : W) (es : List DirEntry)
      → (w.files f).path ≡ path_of names
      → All IsName names
      → root.lstat w.host (path_of names) ≡ okay info
      → info.dir ≡ true
      → root.open_file w.host (path_of names) open_flag 0 ≡ (host, okay h)
      → root.read_dir host h ≡ (host', okay es)
      → All (IsEntry root host' (path_of names)) es
      → (sorted : List DirEntry) × Perm es sorted
        × IsOrdered sorted
        × ((dir_read root u w f offset count).1
            ≡ as_read (
                marshal_dir_version
                  (walked_stats root name (set_host w host') f sorted)
                  (signed offset)
                  count
                  u))
  unfolding dir_read dir_read_dir
  dir_read-walked_stats name u w f offset count names info h host host' es p good l d o r all = (
    sort_entries es,
    sort_entries-Perm es,
    sort_entries-IsOrdered es,
    rw (dir_read, p, l, d, dir_read_dir, p, o, p, o, r, p, o, r)
        (ap (λ sts. as_read (marshal_dir_version sts (signed offset) count u))
          (entry_stats-walked_stats root name (set_host w host') f names (sort_entries es) p good
            (sort_entries-All (IsEntry root host' (path_of names)) es all))),
  )
