-- ===== src/Client/ReadDir.antt =====
-- client/file.go: the size of a request, and File.ReadDirContext.
pub mod Decode
use p.Common.{ℕ, zero, suc, ◌+◌, ◌-◌, ◌%◌, ◌^◌, List, [], ◌∷◌, ◌++◌, Bool, ◌&&◌}
use p.Common.Tests.{ltb, ◌==◌, if◌then◌else◌}
use p.Common.Lists.{length, take, drop}
use p.Common.Bytes.{le_value}
use p.Wire.Types.{Error, ok, err, Stat, Message, tread, rread}
use p.Wire.Fcall.Types.{msg_type}
use p.Wire.Stat.{unmarshal_stat_version}
use p.Client.Rpc.{Reply, replied, rpc_failed, Rpc}

abbrev pub io_header_size : ℕ
io_header_size = 24

-- File.maxIO. Where Go's `max` would be negative it is 0 here, and both become 1.
unfoldable pub max_io : ℕ → ℕ → ℕ
max_io msize iounit =
    let room = msize - io_header_size in
    let size = if ltb 0 iounit && ltb iounit room then iounit else room in
    if size == 0 then 1 else size

pub data DirError : Type 0 where
  truncated_entry : DirError
  bad_entry : Error → DirError
  rpc_error : List ℕ → DirError
  mismatch : ℕ → DirError

-- How a loop ends: with all entries, or with those so far and an error. `stuck` is no Go value: the
-- model's fuel ran out.
pub data Listing : Type 0 where
  listed : List Stat → Listing
  broken : List Stat → DirError → Listing
  stuck : Listing

-- The inner loop, over the bytes of one reply.
unfoldable pub decode_chunk : ℕ → Bool → List ℕ → List Stat → Listing
decode_chunk fuel unix [] stats = listed stats
decode_chunk zero unix (b ∷ bs) stats = stuck
decode_chunk (suc fuel) unix (b ∷ bs) stats =
    let chunk = b ∷ bs in
    let total = 2 + le_value (take 2 chunk) in
    let more : Listing = elim (unmarshal_stat_version (take total chunk) unix) [
      | err e ↦ broken stats (bad_entry e)
      | ok st ↦ decode_chunk fuel unix (drop total chunk) (stats ++ (st ∷ []))
    ] in
    if ltb (length chunk) 2
    then broken stats truncated_entry
    else if ltb (length chunk) total
    then broken stats truncated_entry
    else more

-- What the outer loop does with a reply; `next` is its next round.
unfoldable pub on_reply :
    {S : Type 0} → Bool → S → Reply → List Stat → (ℕ → List Stat → S × Listing) → S × Listing
on_reply unix s (rpc_failed e) stats next = (s, broken stats (rpc_error e))
on_reply unix s (replied (rread [])) stats next = (s, listed stats)
on_reply unix s (replied (rread (b ∷ bs))) stats next =
    elim (decode_chunk (length (b ∷ bs)) unix (b ∷ bs) stats) [
      | listed stats' ↦ next (length (b ∷ bs)) stats'
      | broken stats' e ↦ (s, broken stats' e)
      | stuck ↦ (s, stuck)
    ]
on_reply unix s (replied m) stats next = (s, broken stats (mismatch (msg_type m)))

-- The outer loop: requests of `count` bytes from the offset `off` on.
unfoldable pub read_dir_loop :
    {S : Type 0} → Rpc S → ℕ → Bool → ℕ → ℕ → S → ℕ → List Stat → S × Listing
read_dir_loop rpc fid unix count zero s off stats = (s, stuck)
read_dir_loop rpc fid unix count (suc fuel) s off stats =
    let r = rpc s (tread fid (off % 2 ^ 64) (count % 2 ^ 32)) in
    on_reply unix r.0 r.1 stats
      (λ n stats'. read_dir_loop rpc fid unix count fuel r.0 (off + n) stats')

-- File.ReadDirContext, with fuel for the outer loop.
unfoldable pub read_dir : {S : Type 0} → Rpc S → ℕ → Bool → ℕ → ℕ → ℕ → S → S × Listing
read_dir rpc fid unix msize iounit fuel s =
    read_dir_loop rpc fid unix (max_io msize iounit) fuel s 0 []
