-- ===== src/Dirfs/Walks.antt =====
-- examples/dirfs/dirfs.go: where Walk goes, and that a directory lists what Walk and Stat give.
use p.Common.{
  ℕ, ◌≡◌, ◌⊎◌, refl, sym, ap, ◌∙◌, inl, inr, List, [], ◌∷◌, ◌++◌, true, false, ◌||◌, none, arith,
}
use p.Common.Tests.{◌==◌, Bool-cases}
use p.Common.Names.{same_bytes}
use p.Common.Lists.{length, All, All-append}
use p.Common.Strings.{has_slash}
use p.Wire.Types.{text, Stat}
use p.Server.Backend.{Outcome, okay, failed}
use p.Dirfs.{Info, DirEntry, Root, Dirs}
use p.Dirfs.Paths.{drop_last, path_of, join_path}
use p.Dirfs.Paths.Names.{IsName, dir_of-path_of}
use p.Dirfs.Paths.Positions.{IsPart, target, join_path-not_up, path_of-dot}
use p.Dirfs.Attributes.{new_file, stat_from_info, target_of, dir_stat}
use p.Dirfs.Reading.{entry_or, entry_stats}
use p.Dirfs.Methods.{walk_path, dir_walk}
use p.Dirfs.Inside.{is_part}

target_up :
    (names : List (List ℕ)) (name : List ℕ)
    → same_bytes name (text "..") ≡ true
    → target names name ≡ drop_last names
unfolding target
target_up names name up = rw up refl

top_up : path_of (drop_last []) ≡ text "."
unfolding path_of drop_last
top_up = refl

-- The path that Walk goes to is that of the position that the part leads to.
walk_path-target :
    (names : List (List ℕ)) (name : List ℕ)
    → All IsName names
    → IsPart name
    → walk_path (path_of names) name ≡ path_of (target names name)
unfolding walk_path same_bytes path_of
walk_path-target names name h part = by_up names h (Bool-cases (same_bytes name (text "..")))
  where
    by_up :
        (names : List (List ℕ))
        → All IsName names
        → (same_bytes name (text "..") ≡ true) ⊎ (same_bytes name (text "..") ≡ false)
        → walk_path (path_of names) name ≡ path_of (target names name)
    by_up names h (inr not_up) = rw (walk_path, not_up) (join_path-not_up names name h part not_up)
    by_up [] h (inl up) = rw (walk_path, up, target_up [] name up) (sym top_up)
    by_up (n ∷ names) h (inl up) =
        rw (walk_path, up, path_of-dot n names h, target_up (n ∷ names) name up)
          (dir_of-path_of (n ∷ names) h)

IsName-part : (name : List ℕ) → IsName name → ((length name == 0) || has_slash name) ≡ false
IsName-part name k = ground (arith, k.some_bytes, k.one)

module _ {H W : Type 0} (root : Root H W) where
  -- What a walk to the position gives: a new file there, if something is.
  abbrev pub WalksTo : Dirs H W → List (List ℕ) → List ℕ → Dirs H W × Outcome ℕ → Type 0
  WalksTo w to name r =
      ((info : Info) × (root.lstat w.host (path_of to) ≡ okay info)
        × (r ≡ new_file w (path_of to) none))
      ⊎ ((e : List ℕ) × (root.lstat w.host (path_of to) ≡ failed e)
          × (r ≡ (w, failed (text "dirfs: " ++ (name ++ (text ": " ++ e))))))

  -- A walk from a file below the directory, by a part that is not empty and has no slash, goes up for
  -- "..", at the directory itself not at all; it stays for ".", and goes down for every other part. It
  -- gives a new file there, or fails if there is none, and changes nothing else.
  pub dir_walk-WalksTo :
      (w : Dirs H W) (f : ℕ) (names : List (List ℕ)) (name : List ℕ)
      → (w.files f).path ≡ path_of names
      → All IsName names
      → ((length name == 0) || has_slash name) ≡ false
      → WalksTo w (target names name) name (dir_walk root w f name)
  unfolding dir_walk
  dir_walk-WalksTo w f names name e h good =
      by_stat (root.lstat w.host (path_of (target names name))) refl
    where
      there : walk_path (w.files f).path name ≡ path_of (target names name)
      there = ap (λ p. walk_path p name) e ∙ walk_path-target names name h (is_part name good)

      by_stat :
          (o : Outcome Info)
          → root.lstat w.host (path_of (target names name)) ≡ o
          → WalksTo w (target names name) name (dir_walk root w f name)
      by_stat (okay info) g = inl (info, g, rw (dir_walk, good, there, g, there) refl)
      by_stat (failed x) g = inr (x, g, rw (dir_walk, good, there, g) refl)

  -- What an entry adds to the entries after it by a walk and a Stat.
  abbrev stat_or : Outcome Stat → List Stat → List Stat
  stat_or (failed x) rest = rest
  stat_or (okay st) rest = st ∷ rest

  abbrev walked_or : List ℕ → Dirs H W × Outcome ℕ → List Stat → List Stat
  walked_or name (w, failed x) rest = rest
  walked_or name (w, okay g) rest = stat_or (dir_stat root name w g) rest

  -- The entries of a directory by walks to their names, from the file `f`, and Stats of the files found.
  unfoldable pub walked_stats : List ℕ → Dirs H W → ℕ → List DirEntry → List Stat
  walked_stats name w f [] = []
  walked_stats name w f (e ∷ es) =
      let rest = walked_stats name w f es in walked_or name (dir_walk root w f e.name) rest

  -- What package os says of an entry: it has a name, and Info() is what Lstat gives, of the same type.
  pub record IsEntry (host : W) (path : List ℕ) (e : DirEntry) : Type 0 where
    pub named : IsName e.name
    pub stated : e.info ≡ root.lstat host (join_path path e.name)
    pub typed : (info : Info) → e.info ≡ okay info → info.symlink ≡ e.symlink

  dir_stat-new_file :
      (name : List ℕ) (w : Dirs H W) (path : List ℕ) (info : Info)
      → root.lstat w.host path ≡ okay info
      → same_bytes path (text ".") ≡ false
      → dir_stat root name (new_file w path none).0 w.made
        ≡ okay (stat_from_info root path info (target_of root w.host info.symlink path))
  unfolding dir_stat new_file
  dir_stat-new_file name w path info g below = ground (arith, g, below)

  walked-new_file :
      (name : List ℕ) (w : Dirs H W) (path : List ℕ) (info : Info) (rest : List Stat)
      → root.lstat w.host path ≡ okay info
      → same_bytes path (text ".") ≡ false
      → walked_or name (new_file w path none) rest
        ≡ stat_from_info root path info (target_of root w.host info.symlink path) ∷ rest
  unfolding new_file
  walked-new_file name w path info rest g below =
      ap (λ o. stat_or o rest) (dir_stat-new_file name w path info g below)

  below_dot :
      (names : List (List ℕ)) (n : List ℕ)
      → All IsName names
      → IsName n
      → same_bytes (path_of (target names n)) (text ".") ≡ false
  unfolding target
  below_dot [] n h k = rw (target, k.not_dot, k.not_dotdot) (path_of-dot n [] (k, tt))
  below_dot (m ∷ names) n h k =
      rw (target, k.not_dot, k.not_dotdot)
        (path_of-dot m (names ++ (n ∷ [])) (h.0, All-append IsName names (n ∷ []) h.1 (k, tt)))

  -- One entry.
  entry-Walked :
      (name : List ℕ) (w : Dirs H W) (f : ℕ) (names : List (List ℕ)) (e : DirEntry)
      (rest : List Stat)
      → (w.files f).path ≡ path_of names
      → All IsName names
      → IsEntry w.host (path_of names) e
      → entry_or root w.host (join_path (path_of names) e.name) e.symlink e.info rest
        ≡ walked_or name (dir_walk root w f e.name) rest
  entry-Walked name w f names e rest p h k =
      by_walk (dir_walk-WalksTo w f names e.name p h (IsName-part e.name k.named))
    where
      to : List ℕ
      to = path_of (target names e.name)

      joined : join_path (path_of names) e.name ≡ to
      joined =
          join_path-not_up names e.name h (is_part e.name (IsName-part e.name k.named))
            k.named.not_dotdot

      told : (o : Outcome Info) → root.lstat w.host to ≡ o → e.info ≡ o
      told o g = k.stated ∙ (ap (root.lstat w.host) joined ∙ g)

      child : List ℕ
      child = join_path (path_of names) e.name

      said :
          (o : Outcome Info)
          → root.lstat w.host to ≡ o
          → entry_or root w.host child e.symlink e.info rest
            ≡ entry_or root w.host child e.symlink o rest
      said o g = ap (λ i. entry_or root w.host child e.symlink i rest) (told o g)

      by_walk :
          WalksTo w (target names e.name) e.name (dir_walk root w f e.name)
          → entry_or root w.host child e.symlink e.info rest
            ≡ walked_or name (dir_walk root w f e.name) rest
      by_walk (inr (x, g, r)) = said (failed x) g ∙ sym (ap (λ q. walked_or name q rest) r)
      by_walk (inl (info, g, r)) =
          said (okay info) g
          ∙ (rw (joined, ← k.typed info (told (okay info) g))
                (sym (walked-new_file name w to info rest g (below_dot names e.name h k.named)))
              ∙ sym (ap (λ q. walked_or name q rest) r))

  -- The entries that a directory read gives are what Walk to each name and Stat of the file there give.
  pub entry_stats-walked_stats :
      (name : List ℕ) (w : Dirs H W) (f : ℕ) (names : List (List ℕ)) (es : List DirEntry)
      → (w.files f).path ≡ path_of names
      → All IsName names
      → All (IsEntry w.host (path_of names)) es
      → entry_stats root w.host (path_of names) es ≡ walked_stats name w f es
  unfolding entry_stats walked_stats
  entry_stats-walked_stats name w f names [] p h all = refl
  entry_stats-walked_stats name w f names (e ∷ es) p h all =
      entry-Walked name w f names e _ p h all.0
      ∙ ap (walked_or name (dir_walk root w f e.name))
          (entry_stats-walked_stats name w f names es p h all.1)
