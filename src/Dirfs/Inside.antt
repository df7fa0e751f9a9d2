-- ===== src/Dirfs/Inside.antt =====
-- examples/dirfs/dirfs.go: the paths of all files lie below the directory that is exported.
pub mod Reached
use p.Common.{
  ℕ, ◌<◌, ◌≡◌, ◌≢◌, ◌⊎◌, refl, sym, ap, ◌∙◌, inl, inr, List, [], ◌∷◌, ◌++◌, Bool, true, false, ◌||◌,
  bit_and, Option, none, some, arith,
}
use mathlib.Core.Path.{subst}
use p.Common.Tests.{◌==◌, if◌then◌else◌, Bool-cases}
use p.Common.Names.{same_bytes}
use p.Common.Lists.{length, All}
use p.Common.Strings.{has_slash}
use p.Wire.Types.{text, mode_is_dir, Stat}
use p.Server.Backend.{Outcome, okay, failed}
use p.Dirfs.{Info, Flag, Root, OpenedFile, Dirs}
use p.Dirfs.Paths.{path_of, join_path, dir_of}
use p.Dirfs.Paths.Names.{IsName, dir_of-path_of}
use p.Dirfs.Paths.Positions.{
  IsInside, IsPart, target, target-All, join_path-not_up, join_path-IsInside, dir_of-IsInside,
  join_path-dir_of,
}
use p.Dirfs.Attributes.{
  set_file, new_file, set_host, wstat_name, wstat_mode, wstat_length, dir_wstat, dir_clone,
}
use p.Dirfs.Reading.{dir_read_dir, dir_read}
use p.Dirfs.Methods.{
  access_of, is_name_error, walk_path, dir_walk, dir_open, dir_create, dir_symlink, dir_write,
  dir_close, dir_remove,
}

-- The paths of the files that were made lie below the directory.
abbrev pub AllInside : {H W : Type 0} → Dirs H W → Type 0
AllInside w = (f : ℕ) → f < w.made → IsInside (w.files f).path

-- What os.Root documents: a method fails where a name refers to a place outside the directory, such
-- as a renaming to "..".
abbrev pub RefusesEscape : {H W : Type 0} → Root H W → Type 0
RefusesEscape {W = W} root =
    (host : W) (old : List ℕ) → (root.rename host old (text "..")).1 ≢ okay tt

pub is_part : (name : List ℕ) → ((length name == 0) || has_slash name) ≡ false → IsPart name
is_part name h = record { some_bytes = ground (arith, h); one = ground (arith, h) }

module _ {H W : Type 0} where
  -- The same files with the same paths.
  pub record Same (w w' : Dirs H W) : Type 0 where
    made : w'.made ≡ w.made
    paths : (f : ℕ) → (w'.files f).path ≡ (w.files f).path

  pub Same-AllInside : (w w' : Dirs H W) → Same w w' → AllInside w → AllInside w'
  Same-AllInside w w' same all f h =
      subst IsInside (sym (same.paths f)) (all f (omega (arith, h, same.made)))

  pub new_file-AllInside :
      (w : Dirs H W) (path : List ℕ) (osf : Option H)
      → IsInside path
      → AllInside w
      → AllInside (new_file w path osf).0
  unfolding new_file
  new_file-AllInside w path osf inside all f h = elim (Bool-cases (f == w.made)) [
    | inl new ↦ rw new inside
    | inr old ↦ rw old (all f (ground (arith, old, h)))
  ]

  -- A file gets another path.
  set_path-AllInside :
      (w : Dirs H W) (f : ℕ) (x : OpenedFile H)
      → IsInside x.path
      → AllInside w
      → AllInside (set_file w f x)
  set_path-AllInside w f x inside all g h = elim (Bool-cases (g == f)) [
    | inl here ↦ rw here inside
    | inr other ↦ rw other (all g h)
  ]

module _ {H W : Type 0} (root : Root H W) (w : Dirs H W) (f : ℕ) (all : AllInside w) where
  wstat_mode-Same : (mode : ℕ) → Same w (wstat_mode root w f mode).0
  unfolding wstat_mode
  wstat_mode-Same mode = elim (Bool-cases (mode == 0xFFFFFFFF)) [
    | inl e ↦ rw e (record { made = refl; paths = λ g. refl })
    | inr e ↦ rw e (record { made = refl; paths = λ g. refl })
  ]

  wstat_length-Same : (len : ℕ) → Same w (wstat_length root w f len).0
  unfolding wstat_length
  wstat_length-Same len = record { made = ground arith; paths = λ g. ground arith }

  pub dir_open-Same : (mode : ℕ) → Same w (dir_open root w f mode).0
  unfolding dir_open
  dir_open-Same mode = record { made = ground arith; paths = λ g. ground arith }

  pub dir_read-Same : (u : Bool) (offset count : ℕ) → Same w (dir_read root u w f offset count).0
  unfolding dir_read dir_read_dir
  dir_read-Same u offset count = record { made = ground arith; paths = λ g. ground arith }

  pub dir_write-Same : (offset : ℕ) (bytes : List ℕ) → Same w (dir_write root w f offset bytes).0
  unfolding dir_write
  dir_write-Same offset bytes = record { made = ground arith; paths = λ g. ground arith }

  pub dir_remove-Same : Same w (dir_remove root w f).0
  unfolding dir_remove dir_close
  dir_remove-Same = record { made = ground arith; paths = λ g. ground arith }

  pub dir_close-Same : Same w (dir_close root w f).0
  unfolding dir_close
  dir_close-Same = record { made = ground arith; paths = λ g. ground arith }

module _ {H W : Type 0} (root : Root H W) (w : Dirs H W) (f : ℕ) (all : AllInside w)
    (made : f < w.made) where
  walk_path-IsInside : (name : List ℕ) → IsPart name → IsInside (walk_path (w.files f).path name)
  unfolding walk_path
  walk_path-IsInside name part = elim (Bool-cases (same_bytes name (text ".."))) [
    | inr not_up ↦
        rw (walk_path, not_up) (join_path-IsInside (w.files f).path name (all f made) part not_up)
    | inl up ↦ elim (Bool-cases (same_bytes (w.files f).path (text "."))) [
      | inl top ↦ rw (walk_path, up, top) ([], tt, unfold path_of in refl)
      | inr below ↦ rw (walk_path, up, below) (dir_of-IsInside (w.files f).path (all f made))
    ]
  ]

  pub dir_walk-AllInside : (name : List ℕ) → AllInside (dir_walk root w f name).0
  unfolding dir_walk
  dir_walk-AllInside name = by_name (Bool-cases ((length name == 0) || has_slash name))
    where
      by_stat :
          ((length name == 0) || has_slash name) ≡ false
          → (o : Outcome Info) → root.lstat w.host (walk_path (w.files f).path name) ≡ o
          → AllInside (dir_walk root w f name).0
      by_stat h (failed e) g = rw (dir_walk, h, g) all
      by_stat h (okay info) g =
          rw (dir_walk, h, g)
            (new_file-AllInside w (walk_path (w.files f).path name) none
              (walk_path-IsInside name (is_part name h)) all)

      by_name :
          (((length name == 0) || has_slash name) ≡ true)
            ⊎ (((length name == 0) || has_slash name) ≡ false)
          → AllInside (dir_walk root w f name).0
      by_name (inl bad) = rw (dir_walk, bad) all
      by_name (inr h) = by_stat h (root.lstat w.host (walk_path (w.files f).path name)) refl

  set_host-AllInside : (host : W) → AllInside (set_host w host)
  set_host-AllInside host = all

  -- The path of a new entry.
  entry-IsInside :
      (name : List ℕ) → is_name_error name ≡ false → IsInside (join_path (w.files f).path name)
  entry-IsInside name h =
      join_path-IsInside (w.files f).path name (all f made)
        (record { some_bytes = ground (arith, h); one = ground (arith, h) }) (ground (arith, h))

  pub dir_symlink-AllInside :
      (name target : List ℕ) → AllInside (dir_symlink root w f name target).0
  unfolding dir_symlink
  dir_symlink-AllInside name target = by_name (Bool-cases (is_name_error name))
    where
      r : W × Outcome (Unit {0})
      r = root.symlink w.host target (join_path (w.files f).path name)

      by_made :
          is_name_error name ≡ false
          → (o : Outcome (Unit {0})) → r.1 ≡ o
          → AllInside (dir_symlink root w f name target).0
      by_made h (failed e) g = rw (dir_symlink, h, g) all
      by_made h (okay _) g =
          rw (dir_symlink, h, g)
            (new_file-AllInside (set_host w r.0) (join_path (w.files f).path name) none
              (entry-IsInside name h) all)

      by_name :
          (is_name_error name ≡ true) ⊎ (is_name_error name ≡ false)
          → AllInside (dir_symlink root w f name target).0
      by_name (inl bad) = rw (dir_symlink, bad) all
      by_name (inr h) = by_made h r.1 refl

  pub dir_create-AllInside :
      (name : List ℕ) (perm mode : ℕ) → AllInside (dir_create root w f name perm mode).0
  unfolding dir_create
  dir_create-AllInside name perm mode =
      by_name (Bool-cases (is_name_error name)) (Bool-cases (mode_is_dir perm))
    where
      path : List ℕ
      path = join_path (w.files f).path name

      d : W × Outcome (Unit {0})
      d = root.mkdir w.host path (bit_and perm 0x1FF)

      o : W × Outcome H
      o =
          root.open_file w.host path
            (record { access = access_of mode; create = true; excl = true; trunc = false })
            (bit_and perm 0x1FF)

      Goal : Type 0
      Goal = AllInside (dir_create root w f name perm mode).0

      by_dir :
          is_name_error name ≡ false
          → mode_is_dir perm ≡ true
          → (x : Outcome (Unit {0})) → d.1 ≡ x
          → Goal
      by_dir h k (failed e) g = rw (dir_create, h, k, g) all
      by_dir h k (okay _) g =
          rw (dir_create, h, k, g)
            (new_file-AllInside (set_host w d.0) path none (entry-IsInside name h) all)

      by_file :
          is_name_error name ≡ false → mode_is_dir perm ≡ false → (x : Outcome H) → o.1 ≡ x → Goal
      by_file h k (failed e) g = rw (dir_create, h, k, g) all
      by_file h k (okay x) g =
          rw (dir_create, h, k, g)
            (new_file-AllInside (set_host w o.0) path (some x) (entry-IsInside name h) all)

      by_name :
          (is_name_error name ≡ true) ⊎ (is_name_error name ≡ false)
          → (mode_is_dir perm ≡ true) ⊎ (mode_is_dir perm ≡ false)
          → Goal
      by_name (inl bad) k = rw (dir_create, bad) all
      by_name (inr h) (inl k) = by_dir h k d.1 refl
      by_name (inr h) (inr k) = by_file h k o.1 refl

  pub wstat_name-AllInside :
      RefusesEscape root → (name : List ℕ) → AllInside (wstat_name root w f name).0
  unfolding wstat_name
  wstat_name-AllInside refuses name =
      by_name (Bool-cases (length name == 0)) (Bool-cases (has_slash name))
    where
      path : List ℕ
      path = join_path (dir_of (w.files f).path) name

      r : W × Outcome (Unit {0})
      r = root.rename w.host (w.files f).path path

      Goal : Type 0
      Goal = AllInside (wstat_name root w f name).0

      by_path : r.1 ≡ okay tt → IsInside path ⊎ (path ≡ text "..") → IsInside path
      by_path g (inl inside) = inside
      by_path g (inr up) = absurd (
          refuses w.host (w.files f).path
            (subst (λ p. (root.rename w.host (w.files f).path p).1 ≡ okay tt) up g))

      by_renamed :
          (length name == 0) ≡ false
          → has_slash name ≡ false
          → (o : Outcome (Unit {0})) → r.1 ≡ o
          → Goal
      by_renamed h k (failed e) g = rw (wstat_name, h, k, g) all
      by_renamed h k (okay tt) g =
          rw (wstat_name, h, k, g)
            (set_path-AllInside (set_host w r.0) f (record (w.files f) { path = path })
              (by_path g (
                join_path-dir_of (w.files f).path name (all f made)
                  (record { some_bytes = h; one = k })))
              all)

      by_name :
          ((length name == 0) ≡ true) ⊎ ((length name == 0) ≡ false)
          → (has_slash name ≡ true) ⊎ (has_slash name ≡ false)
          → Goal
      by_name (inl e) k = rw (wstat_name, e) all
      by_name (inr e) (inl k) = rw (wstat_name, e, k) all
      by_name (inr e) (inr k) = by_renamed e k r.1 refl

module _ {H W : Type 0} (root : Root H W) (w : Dirs H W) (f : ℕ) (all : AllInside w) where
  pub wstat_length-AllInside : (len : ℕ) → AllInside (wstat_length root w f len).0
  wstat_length-AllInside len =
      Same-AllInside w (wstat_length root w f len).0 (wstat_length-Same root w f all len) all

  pub wstat_mode-AllInside : (mode : ℕ) → AllInside (wstat_mode root w f mode).0
  wstat_mode-AllInside mode =
      Same-AllInside w (wstat_mode root w f mode).0 (wstat_mode-Same root w f all mode) all
