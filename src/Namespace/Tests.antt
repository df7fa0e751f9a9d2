-- ===== src/Namespace/Tests.antt =====
-- Runs of the namespace, over the sample backend.
use p.Common.{ℕ, ◌≤◌, ◌≡◌, refl, List, [], ◌∷◌, false, none, some, arith}
use p.Common.Names.{same_bytes, lookup_name, delete_name, insert_name}
use p.Wire.Types.{text}
use p.Server.Backend.{okay}
use p.Common.{map, true, ◌<◌, ◌^◌}
use p.Common.Lists.{length}
use p.Common.Bytes.{le_bytes}
use p.Wire.Types.{zero_qid, qtdir, qid_is_dir}
use p.Wire.Encode.{put_string, put_qid, cut_string, cut_to}
use p.Wire.Stat.{marshal_stat_body, marshal_unix}
use p.Server.Backend.{got}
use p.Server.Dir.Contract.{encode_dir}
use p.Namespace.{bound}
use p.Namespace.Bind.{find_node, find_from}
use p.Namespace.Read.{ns_read}
use p.Namespace.Read.Stamps.{ns_read-stamped}
use p.Namespace.Files.{stamp}
use p.Server.Sample.{sample, sample_entries, entry_a, entry_bc}
use p.Namespace.{Outside, foreign, ro_file, rooted, in_tree, mounted, Layer, Ns}
use p.Namespace.Files.{pass_on, as_ro, ns_walk, walk_all}
use p.Namespace.Bind.{
  replace, blank_tree_node, new_ns, ensure_from, ensure_node, add_layers, new_layer, add_and_log,
  bind_fs, bind_path,
}
use p.Namespace.Paths.{split_path, split_slash, trim_left, trim_right}
use p.Namespace.Subtree.{inside, depth_after, StaysInside, walk_all-inside}
use p.Namespace.ReadOnly.{here, walks, Refuses, Reaches-Refuses}
use p.Namespace.Resolve.{resolve}
use p.Namespace.Resolve.Walks.{Answers, resolve-Answers}
use p.Namespace.Loops.{height, IsRanked, Ends}
use p.Namespace.Loops.Finite.{ns_walk-Ends}
use p.Namespace.Loops.Endless.{bind_path_endless}
use p.Namespace.Loops.Binds.{new_ns-IsRanked, bind_fs-IsRanked}

abbrev out : Outside ℕ (Unit {0})
out = record { files = sample; attach = λ fs u w uname aname. sample.attach u w uname aname }

abbrev no_layer : Layer ℕ
no_layer = record { origin = mounted 0 [] none; spec = []; seq = 0; ro = false; user = [] }

abbrev hash : List ℕ → ℕ
hash path = 5

abbrev empty : Ns ℕ
empty = new_ns hash no_layer (text "ns")

-- The sample file system at /x.
abbrev mounted_x : Ns ℕ
mounted_x = (bind_fs hash [] empty 0 [] (text "/x") replace [] false).0

mounted_x-IsRanked : IsRanked (λ n. 2) mounted_x
mounted_x-IsRanked =
    bind_fs-IsRanked (λ n. 2) (λ n. omega arith) hash [] empty 0 [] (text "/x") replace [] false
      (new_ns-IsRanked (λ n. 2) (λ n. omega arith) hash no_layer (text "ns"))

two_up : height {N = ℕ} (λ n. 2) (in_tree 1) ≤ 3
unfolding height
two_up = omega arith

ns_walk-Ends_example :
    Ends (λ n. 2) mounted_x (ns_walk out 3 false (mounted_x, tt) (in_tree 1) (text "a"))
ns_walk-Ends_example =
    ns_walk-Ends out (λ n. 2) 3 false (mounted_x, tt) (in_tree 1) (text "a") mounted_x-IsRanked
      two_up

mounted_x-find_node : find_node mounted_x (text "/x") ≡ some 1
unfolding bind_fs new_ns ensure_node ensure_from find_from new_layer add_and_log add_layers
    split_path split_slash trim_left trim_right same_bytes lookup_name insert_name delete_name
    blank_tree_node
mounted_x-find_node = refl

mounted_x-walk_all :
    walk_all out 1 false (mounted_x, tt) (in_tree 0) (split_path (text "/x"))
    ≡ some ((mounted_x, tt), okay (in_tree 1))
unfolding bind_fs new_ns ensure_node ensure_from new_layer add_and_log add_layers split_path
    split_slash trim_left trim_right walk_all ns_walk same_bytes lookup_name insert_name delete_name
    blank_tree_node
mounted_x-walk_all = refl

bind_path_endless_example :
    (s : Ns ℕ × Unit {0}) × (bind_path out hash [] 1 false
        (mounted_x, tt)
        (text "/x" ∷ [])
        (text "/x")
        replace
        false
      ≡ some (s, okay tt))
    × ((fuel : ℕ) (name : List ℕ)
        → lookup_name name (mounted_x.nodes 1).children ≡ none
        → same_bytes name (text "..") ≡ false
        → ns_walk out fuel false s (in_tree 1) name ≡ none)
bind_path_endless_example =
    bind_path_endless out hash [] (text "/x") 1 false mounted_x tt 1 mounted_x-find_node
      mounted_x-walk_all

walk_a :
    ns_walk out 2 false (empty, tt) (ro_file (foreign 0)) (text "a")
    ≡ some ((empty, tt), okay (ro_file (foreign 1)))
unfolding ns_walk as_ro
walk_a = refl

Reaches-Refuses_example : Refuses out (ro_file (foreign 1))
Reaches-Refuses_example =
    Reaches-Refuses out (foreign 0) (ro_file (foreign 1))
      (walks 2 false (empty, tt) (text "a") (empty, tt) here walk_a)

walk_all-inside_example :
    StaysInside 0 (inside 0 (text ".." ∷ text "a" ∷ []))
    × (walk_all out 3 false (empty, tt) (rooted (foreign 0) 0) (text ".." ∷ text "a" ∷ [])
        ≡ pass_on
            (λ g. rooted g (depth_after 0 (text ".." ∷ text "a" ∷ [])))
            (walk_all out 2 false (empty, tt) (foreign 0) (inside 0 (text ".." ∷ text "a" ∷ []))))
walk_all-inside_example =
    walk_all-inside out 2 false (empty, tt) (foreign 0) (text ".." ∷ text "a" ∷ [])

-- A file system whose directory gives two entries.
abbrev listing : Outside ℕ (Unit {0})
listing = record out {
  files = record sample {
    qid = λ w f. record zero_qid { type = qtdir };
    read = λ u w f offset count. (w, got (encode_dir u sample_entries));
  };
}

sample_entries-fit :
    (length (marshal_stat_body false entry_a) < 2 ^ 16)
    × (length (marshal_stat_body false entry_bc) < 2 ^ 16)
unfolding marshal_stat_body marshal_unix put_string put_qid cut_string cut_to le_bytes
sample_entries-fit = (omega arith, omega arith)

is_dir : qid_is_dir (listing.files.qid tt 0) ≡ true
unfolding qid_is_dir
is_dir = refl

ns_read-stamped_example :
    ns_read listing 2 false (empty, tt) (bound (foreign 0) 7) 0 8192
    ≡ some ((empty, tt), got (encode_dir false (map (stamp 7) sample_entries)))
ns_read-stamped_example =
    ns_read-stamped listing 0 false empty tt tt 0 7 0 8192 sample_entries refl is_dir
      (sample_entries-fit.0, (sample_entries-fit.1, tt))

resolve-Answers_example :
    Answers out false
      (resolve out 3 false (mounted_x, tt) (text "/x/a"))
      (walk_all out 4 false (mounted_x, tt) (in_tree 0) (split_path (text "/x/a")))
resolve-Answers_example = resolve-Answers out false 3 (mounted_x, tt) (text "/x/a")
