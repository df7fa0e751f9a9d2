-- ===== src/Memfs/Tests.antt =====
-- Runs of the file system in memory.
use p.Common.{ℕ, ◌<◌, ◌≡◌, refl, List, [], ◌∷◌, true, false, none, some, arith}
use p.Common.Names.{same_bytes, lookup_name, delete_name, insert_name}
use p.Wire.Types.{text, mode_is_dir}
use p.Server.Backend.{okay}
use p.Memfs.{Fs, write_node, new_node, new_fs}
use p.Memfs.Methods.{add_child, mem_create, mem_write, mem_remove}
use p.Memfs.Tree.{IsTree}
use p.Memfs.Tree.Reached.{Reached, at_start, creates, Reached-IsTree}
use p.Memfs.Contents.{mem_write-bytes}
use p.Memfs.Entries.{entry, Created, Removed, mem_create-Created, mem_remove-Removed}

abbrev a : List ℕ
a = text "a"

-- The file `a`, node 1, is made, and then removed.
abbrev one : Fs
one = (mem_create new_fs 0 a 0x1A4).0

abbrev none_left : Fs
none_left = (mem_remove one 1).0

made_one : 1 < one.made
unfolding mem_create add_child new_node write_node new_fs lookup_name
made_one = omega arith

one-Reached : Reached one
unfolding new_fs new_node write_node
one-Reached = creates 0 a 0x1A4 (omega arith) at_start

Reached-IsTree_example : IsTree one
Reached-IsTree_example = Reached-IsTree one one-Reached

one_file : (one.nodes 1).dir ≡ false
unfolding mem_create add_child new_node write_node new_fs lookup_name mode_is_dir
one_file = refl

mem_write-bytes_example : (mem_write one 1 2 (7 ∷ 8 ∷ [])).1 ≡ okay 2
mem_write-bytes_example = (mem_write-bytes one 1 2 (7 ∷ 8 ∷ []) one_file (omega arith)).0

new_fs_free : entry new_fs 0 a ≡ none
unfolding new_fs new_node write_node lookup_name
new_fs_free = refl

new_fs_dir : (new_fs.nodes 0).dir ≡ true
unfolding new_fs new_node write_node
new_fs_dir = refl

new_fs_made : 0 < new_fs.made
unfolding new_fs new_node write_node
new_fs_made = omega arith

mem_create-Created_example :
    (c : ℕ) × ((mem_create new_fs 0 a 0x1A4).1 ≡ okay c) × Created new_fs 0 a 0x1A4 c one
mem_create-Created_example = mem_create-Created new_fs 0 a 0x1A4 new_fs_made new_fs_dir new_fs_free

one-entry : entry one 0 a ≡ some 1
unfolding mem_create add_child new_fs new_node write_node lookup_name insert_name delete_name
    same_bytes
one-entry = refl

one_leaf : (one.nodes 1).children ≡ []
unfolding mem_create add_child new_fs new_node write_node lookup_name
one_leaf = refl

mem_remove-Removed_example : ((mem_remove one 1).1 ≡ okay tt) × Removed one 1 0 a none_left
mem_remove-Removed_example =
    mem_remove-Removed one 1 0 a (Reached-IsTree one one-Reached) one-entry one_leaf
