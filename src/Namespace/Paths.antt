-- ===== src/Namespace/Paths.antt =====
-- ns/ns.go: splitPath, and the functions of package strings that it calls.
use p.Common.{ℕ, List, []}
unfoldable pub use p.Common.Strings.{
  trim_left, cons_unless_slash, trim_right, cons_first, split_slash, join,
}
use p.Common.Tests.{◌==◌, if◌then◌else◌}
use p.Common.Lists.{length}

-- splitPath
unfoldable pub split_path : List ℕ → List (List ℕ)
split_path p = let q = trim_right (trim_left p) in if length q == 0 then [] else split_slash q
