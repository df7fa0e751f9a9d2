-- ===== src/Dirfs/Paths.antt =====
-- The functions of Go's package path/filepath that examples/dirfs/dirfs.go calls, on a Unix system.
pub mod Names
pub mod Positions
use p.Common.{ℕ, List, [], ◌∷◌, ◌++◌, Bool, true, false}
use p.Common.Tests.{◌==◌, if◌then◌else◌}
use p.Common.Names.{same_bytes}
use p.Common.Lists.{length}
unfoldable pub use p.Common.Lists.{drop_last}
use p.Common.Strings.{trim_right, split_slash, join}
use p.Wire.Types.{text}

unfoldable pub last_part : List (List ℕ) → List ℕ
last_part [] = []
last_part (x ∷ []) = x
last_part (x ∷ (y ∷ ys)) = last_part (y ∷ ys)

-- A step of filepath.Clean: the parts so far, and the next.
unfoldable pub clean_step : Bool → List (List ℕ) → List ℕ → List (List ℕ)
clean_step rooted acc name =
    let up = if rooted then acc else acc ++ (name ∷ []) in
    let back =
      if length acc == 0
      then up
      else if same_bytes (last_part acc) (text "..")
      then up
      else drop_last acc in
    if length name == 0
    then acc
    else if same_bytes name (text ".")
    then acc
    else if same_bytes name (text "..")
    then back
    else acc ++ (name ∷ [])

unfoldable pub clean_from : Bool → List (List ℕ) → List (List ℕ) → List (List ℕ)
clean_from rooted acc [] = acc
clean_from rooted acc (name ∷ names) = clean_from rooted (clean_step rooted acc name) names

abbrev pub is_rooted : List ℕ → Bool
is_rooted [] = false
is_rooted (c ∷ cs) = c == 47

-- The path of the parts below a directory.
unfoldable pub path_of : List (List ℕ) → List ℕ
path_of [] = text "."
path_of (part ∷ parts) = join (text "/") (part ∷ parts)

-- filepath.Clean
unfoldable pub clean : List ℕ → List ℕ
clean p =
    let parts = clean_from (is_rooted p) [] (split_slash p) in
    if is_rooted p then text "/" ++ join (text "/") parts else path_of parts

-- filepath.Join of two paths
unfoldable pub join_path : List ℕ → List ℕ → List ℕ
join_path [] [] = []
join_path [] (c ∷ cs) = clean (c ∷ cs)
join_path (c ∷ cs) b = clean ((c ∷ cs) ++ (text "/" ++ b))

abbrev pub cons_unless_nil : ℕ → List ℕ → List ℕ
cons_unless_nil c [] = []
cons_unless_nil c (d ∷ ds) = c ∷ d ∷ ds

-- A path up to its last slash.
unfoldable pub upto_slash : List ℕ → List ℕ
upto_slash [] = []
upto_slash (c ∷ cs) =
    let rest = upto_slash cs in if c == 47 then c ∷ rest else cons_unless_nil c rest

-- filepath.Dir
unfoldable pub dir_of : List ℕ → List ℕ
dir_of p = clean (upto_slash p)

-- filepath.Base
unfoldable pub base_of : List ℕ → List ℕ
base_of p =
    let q = trim_right p in
    if length p == 0
    then text "."
    else if length q == 0
    then text "/"
    else last_part (split_slash q)
