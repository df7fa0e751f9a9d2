-- ===== src/Dirfs/Inside/Reached.antt =====
-- examples/dirfs/dirfs.go: what calls of methods lead to.
use p.Common.{ℕ, ◌<◌, ◌≡◌, refl, List, [], arith, Bool, none}
use p.Wire.Types.{text, Stat}
use p.Server.Backend.{Outcome, okay, failed}
use p.Dirfs.{Root, OpenedFile, Dirs}
use p.Dirfs.Paths.{path_of}
use p.Dirfs.Attributes.{new_file, set_host, wstat_name, wstat_mode, dir_wstat, dir_clone}
use p.Dirfs.Reading.{dir_read}
use p.Dirfs.Methods.{dir_walk, dir_open, dir_create, dir_symlink, dir_write, dir_close, dir_remove}
use p.Dirfs.Inside.{
  AllInside, RefusesEscape, Same-AllInside, new_file-AllInside, dir_open-Same, dir_read-Same,
  dir_write-Same, dir_remove-Same, dir_close-Same, dir_walk-AllInside, dir_symlink-AllInside,
  dir_create-AllInside, wstat_name-AllInside, wstat_mode-AllInside, wstat_length-AllInside,
}

module _ {H W : Type 0} (root : Root H W) where
  -- The states that calls lead to, from one without files on. A call is on a file that was made; between
  -- the calls the host may change in any way.
  pub data Reached : Dirs H W → Type 0 where
    at_start :
        (files : ℕ → OpenedFile H) (host : W)
        → Reached (record { files = files; made = 0; host = host })
    host_moves : {w : Dirs H W} (host : W) → Reached w → Reached (set_host w host)
    attaches : {w : Dirs H W} → Reached w → Reached (new_file w (text ".") none).0
    clones : {w : Dirs H W} (f : ℕ) → f < w.made → Reached w → Reached (dir_clone root w f).0
    walks :
        {w : Dirs H W} (f : ℕ) (name : List ℕ)
        → f < w.made
        → Reached w
        → Reached (dir_walk root w f name).0
    wstats :
        {w : Dirs H W} (f : ℕ) (st : Stat)
        → f < w.made
        → Reached w
        → Reached (dir_wstat root w f st).0
    opens :
        {w : Dirs H W} (f mode : ℕ) → f < w.made → Reached w → Reached (dir_open root w f mode).0
    creates :
        {w : Dirs H W} (f : ℕ) (name : List ℕ) (perm mode : ℕ)
        → f < w.made
        → Reached w
        → Reached (dir_create root w f name perm mode).0
    links :
        {w : Dirs H W} (f : ℕ) (name target : List ℕ)
        → f < w.made
        → Reached w
        → Reached (dir_symlink root w f name target).0
    reads :
        {w : Dirs H W} (u : Bool) (f offset count : ℕ)
        → f < w.made
        → Reached w
        → Reached (dir_read root u w f offset count).0
    writes :
        {w : Dirs H W} (f offset : ℕ) (bytes : List ℕ)
        → f < w.made
        → Reached w
        → Reached (dir_write root w f offset bytes).0
    removes : {w : Dirs H W} (f : ℕ) → f < w.made → Reached w → Reached (dir_remove root w f).0
    closes : {w : Dirs H W} (f : ℕ) → f < w.made → Reached w → Reached (dir_close root w f).0

  dir_wstat-AllInside :
      RefusesEscape root
      → (w : Dirs H W) (f : ℕ) (st : Stat) → f < w.made
      → AllInside w
      → AllInside (dir_wstat root w f st).0
  unfolding dir_wstat
  dir_wstat-AllInside refuses w f st made all =
      by_name (wstat_name root w f st.name).1 refl
        (wstat_name-AllInside root w f all made refuses st.name)
    where
      a : Dirs H W × Outcome (Unit {0})
      a = wstat_name root w f st.name

      b : Dirs H W × Outcome (Unit {0})
      b = wstat_mode root a.0 f st.mode

      Goal : Type 0
      Goal = AllInside (dir_wstat root w f st).0

      by_mode : (x : Outcome (Unit {0})) → a.1 ≡ okay tt → b.1 ≡ x → AllInside b.0 → Goal
      by_mode (failed e) g h inside = rw (dir_wstat, g, h) inside
      by_mode (okay _) g h inside =
          rw (dir_wstat, g, h) (wstat_length-AllInside root b.0 f inside st.length)

      by_name : (x : Outcome (Unit {0})) → a.1 ≡ x → AllInside a.0 → Goal
      by_name (failed e) g inside = rw (dir_wstat, g) inside
      by_name (okay tt) g inside =
          by_mode b.1 g refl (wstat_mode-AllInside root a.0 f inside st.mode)

  -- Whatever methods are called on whatever files, and whatever else happens to the host meanwhile, the
  -- path of every file is "." or a list of names joined by "/", none of which is empty, has a slash in
  -- it, or is "." or "..": no path leads out of the directory. This is so where os.Root refuses to rename
  -- a file to "..".
  pub Reached-AllInside : RefusesEscape root → (w : Dirs H W) → Reached w → AllInside w
  unfolding dir_clone
  Reached-AllInside refuses w (at_start files host) = λ f h. absurd (omega (arith, h))
  Reached-AllInside refuses v (host_moves {w} host r) = Reached-AllInside refuses w r
  Reached-AllInside refuses v (attaches {w} r) =
      new_file-AllInside w (text ".") none ([], tt, unfold path_of in refl)
        (Reached-AllInside refuses w r)
  Reached-AllInside refuses v (clones {w} f h r) =
      let all = Reached-AllInside refuses w r in
      new_file-AllInside w (w.files f).path none (all f h) all
  Reached-AllInside refuses v (walks {w} f name h r) =
      dir_walk-AllInside root w f (Reached-AllInside refuses w r) h name
  Reached-AllInside refuses v (wstats {w} f st h r) =
      dir_wstat-AllInside refuses w f st h (Reached-AllInside refuses w r)
  Reached-AllInside refuses v (opens {w} f mode h r) =
      let all = Reached-AllInside refuses w r in
      Same-AllInside w (dir_open root w f mode).0 (dir_open-Same root w f all mode) all
  Reached-AllInside refuses v (creates {w} f name perm mode h r) =
      dir_create-AllInside root w f (Reached-AllInside refuses w r) h name perm mode
  Reached-AllInside refuses v (links {w} f name target h r) =
      dir_symlink-AllInside root w f (Reached-AllInside refuses w r) h name target
  Reached-AllInside refuses v (reads {w} u f offset count h r) =
      let all = Reached-AllInside refuses w r in
      Same-AllInside w (dir_read root u w f offset count).0
        (dir_read-Same root w f all u offset count) all
  Reached-AllInside refuses v (writes {w} f offset bytes h r) =
      let all = Reached-AllInside refuses w r in
      Same-AllInside w (dir_write root w f offset bytes).0
        (dir_write-Same root w f all offset bytes) all
  Reached-AllInside refuses v (removes {w} f h r) =
      let all = Reached-AllInside refuses w r in
      Same-AllInside w (dir_remove root w f).0 (dir_remove-Same root w f all) all
  Reached-AllInside refuses v (closes {w} f h r) =
      let all = Reached-AllInside refuses w r in
      Same-AllInside w (dir_close root w f).0 (dir_close-Same root w f all) all
