-- ===== src/Client/Walk.antt =====
-- client/fid.go: Fid.WalkContext, which walks in batches of MaxWElem names.
pub mod Batches
use p.Common.{ℕ, zero, suc, List, [], ◌∷◌, Bool, true, false}
use p.Common.Tests.{ltb, if◌then◌else◌}
use p.Common.Lists.{length, take, drop}
use p.Wire.Types.{max_welem, Qid, twalk, rwalk, tclunk}
use p.Wire.Fcall.Types.{msg_type}
use p.Client.Rpc.{Reply, replied, rpc_failed, Rpc}

-- What a walk gives: the new fid, or an error. `name_not_found` has the name at which the server
-- stopped; `no_such_name` stands for the panic of indexing the batch beyond its end, which the tests
-- before it exclude; `out_of_names` is no Go value.
pub data WalkEnd : Type 0 where
  walked_to : ℕ → WalkEnd
  walk_failed : List ℕ → WalkEnd
  wrong_walk_reply : ℕ → WalkEnd
  name_not_found : List ℕ → WalkEnd
  no_such_name out_of_names : WalkEnd

-- Client.clunkQuiet
unfoldable pub clunk_quiet : {S : Type 0} → Rpc S → S → ℕ → S
clunk_quiet rpc s fid = (rpc s (tclunk fid)).0

-- The results of Fid.walkBatch: its qids, or the error.
pub data Batch : Type 0 where
  got_qids : List Qid → Batch
  batch_failed : WalkEnd → Batch

unfoldable pub as_batch : Reply → Batch
as_batch (rpc_failed e) = batch_failed (walk_failed e)
as_batch (replied (rwalk qids)) = got_qids qids
as_batch (replied m) = batch_failed (wrong_walk_reply (msg_type m))

unfoldable pub walk_batch : {S : Type 0} → Rpc S → S → ℕ → ℕ → List (List ℕ) → S × Batch
walk_batch rpc s from to names = let r = rpc s (twalk from to names) in (r.0, as_batch r.1)

-- `batch[len(rw.Wqid)]`, as an error.
unfoldable pub missing : List (List ℕ) → WalkEnd
missing [] = no_such_name
missing (name ∷ rest) = name_not_found name

-- What the loop does with the results of a batch; `first` says that nothing was walked before it,
-- and `next` is the next round.
unfoldable pub on_batch :
    {S : Type 0} → Rpc S → S → Batch → Bool → ℕ → List (List ℕ) → (S → S × WalkEnd) → S × WalkEnd
on_batch rpc s (batch_failed e) first newfid batch next =
    (if first then s else clunk_quiet rpc s newfid, e)
on_batch rpc s (got_qids qids) first newfid batch next =
    let more = next s in
    if ltb (length qids) (length batch)
    then (clunk_quiet rpc s newfid, missing (drop (length qids) batch))
    else more

-- The loop over the names that are still to be walked, from the fid `cur`.
unfoldable pub walk_batches :
    {S : Type 0} → Rpc S → ℕ → S → Bool → ℕ → ℕ → List (List ℕ) → S × WalkEnd
walk_batches rpc fuel s first cur newfid [] = (s, walked_to newfid)
walk_batches rpc zero s first cur newfid (n ∷ ns) = (s, out_of_names)
walk_batches rpc (suc fuel) s first cur newfid (n ∷ ns) =
    let batch = take max_welem (n ∷ ns) in
    let r = walk_batch rpc s cur newfid batch in
    on_batch rpc r.0 r.1 first newfid batch
      (λ s'. walk_batches rpc fuel s' false newfid newfid (drop max_welem (n ∷ ns)))

unfoldable pub after_clone : {S : Type 0} → S → Batch → ℕ → S × WalkEnd
after_clone s (batch_failed e) newfid = (s, e)
after_clone s (got_qids qids) newfid = (s, walked_to newfid)

-- Fid.WalkContext of the fid `cur`, with the fid that allocFid gave for the new one.
unfoldable pub fid_walk : {S : Type 0} → Rpc S → S → ℕ → ℕ → List (List ℕ) → S × WalkEnd
fid_walk rpc s cur newfid [] = let r = walk_batch rpc s cur newfid [] in after_clone r.0 r.1 newfid
fid_walk rpc s cur newfid (n ∷ ns) = walk_batches rpc (length (n ∷ ns)) s true cur newfid (n ∷ ns)
