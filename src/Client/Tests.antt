-- ===== src/Client/Tests.antt =====
-- Runs of the mux, and its theorems at concrete states.
use p.Common.{
  inl, inr, ℕ, zero, suc, ◌^◌, ◌<◌, ◌≡◌, ◌≢◌, refl, ◌∙◌, sym, List, [], ◌∷◌, false, some, arith,
}
use p.Common.Tests.{ltb, le→ltb, if◌then◌else◌, ne→==}
use p.Common.Maps.{lookup, delete, insert, lookup-delete}
use p.Wire.Types.{twalk, rwalk, zero_qid, text, tread, rread, rclunk}
use p.Common.Lists.{length, replicate, take, drop}
use p.Common.Names.{same_bytes}
use p.Wire.Types.{version, version_u, version_unknown, tversion, rversion}
use p.Client.Session.{new_client, new_client_with, handshake, on_version_reply, on_version}
use p.Client.Rpc.{replied, rpc_failed, Rpc}
use p.Client.Walk.{walked_to, as_batch, walk_batch, on_batch, walk_batches, fid_walk}
use p.Client.Walk.Batches.{Agree, fid_walk-Agree}
use p.Client.Io.{split_path, split_loop, read_at}
use p.Client.Io.ReadAt.{Reads, read_at-Reads}
use p.Client.Mux.{
  CallMux, refused, new_call_mux, register, register_in, register_loop, passes_over, grant, forget,
}
use p.Client.Mux.Stranded.{forget-uses}
use p.Client.Mux.Invariant.{
  IsSound, registers, delivers, closes, step, run, uses, run-new_call_mux-IsSound,
}
use p.Client.Mux.Tags.{IsFree, Finds, register-Finds}

run-new_call_mux-IsSound_example :
    IsSound
      (run new_call_mux (registers ∷ delivers 0 rclunk ∷ registers ∷ closes (text "gone") ∷ []))
run-new_call_mux-IsSound_example =
    run-new_call_mux-IsSound (registers ∷ delivers 0 rclunk ∷ registers ∷ closes (text "gone") ∷ [])

-- A call waits on each of the first tags, with the tag's number for its channel.
all_busy : ℕ → List (ℕ × ℕ)
all_busy zero = []
all_busy (suc n) = (n, n) ∷ all_busy n

lookup-all_busy : (n k : ℕ) → k < n → lookup k (all_busy n) ≡ some k
unfolding lookup all_busy
lookup-all_busy zero k h = absurd (omega arith)
lookup-all_busy (suc n) k h = ground (arith, lookup-all_busy n k)

-- All tags are busy but tag 5, and 6 is next.
abbrev full_mux : CallMux
full_mux = record {
  pending = delete 5 (all_busy 0xFFFF);
  next = 6;
  closed = false;
  close_err = [];
  made = 0xFFFF;
  sent = [];
  shut = [];
}

full_mux-lookup : (k : ℕ) → k < 0xFFFF → k ≢ 5 → lookup k full_mux.pending ≡ some k
full_mux-lookup k h other =
    lookup-delete 5 k (all_busy 0xFFFF)
    ∙ rw (ne→== 5 k (λ e. other (sym e))) (lookup-all_busy 0xFFFF k h)

full_mux-busy : (k : ℕ) → k < 2 ^ 16 → k ≢ 5 → ¬ IsFree full_mux k
full_mux-busy k h other free = cc (full_mux-lookup k (omega (arith, free.0)) other, free.1)

register-Finds_example : Finds full_mux (register full_mux)
register-Finds_example = register-Finds full_mux refl (omega arith)

-- Tag 5 is free, but is not found.
full_mux_misses : (register full_mux).1 ≡ refused (text "client: no free tags")
full_mux_misses = elim (register-Finds full_mux refl (omega arith)) [
  | inl g ↦ absurd (full_mux-busy g.0 g.4.bound g.3 g.4.free)
  | inr r ↦ r.0
]

-- A server that holds the bytes.
abbrev file_rpc : List ℕ → Rpc (Unit {0})
file_rpc bytes s (tread fid off count) = (s, replied (rread (take count (drop off bytes))))
file_rpc bytes s m = (s, rpc_failed [])

-- Five bytes at 1 of a file of four, in requests of two bytes.
read_at-Reads_example : Reads (text "abcd") 5 1 [] (read_at (file_rpc (text "abcd")) 7 2 tt 5 1)
read_at-Reads_example =
    read_at-Reads (file_rpc (text "abcd")) 7 2 (text "abcd") tt 5 1 (λ s off count. (s, refl))
      (omega arith) (omega arith) (omega arith)

split_path_runs : split_path (text "/a//bc/") ≡ text "a" ∷ text "bc" ∷ []
unfolding split_path split_loop
split_path_runs = refl

-- Two servers on which each name is found, one of which refuses a Twalk of too many names.
abbrev lax_rpc : Rpc (Unit {0})
lax_rpc s (twalk fid newfid wname) = (s, replied (rwalk (replicate (length wname) zero_qid)))
lax_rpc s m = (s, replied rclunk)

abbrev strict_rpc : Rpc (Unit {0})
strict_rpc s (twalk fid newfid wname) = (
  s,
  if ltb 16 (length wname)
      then rpc_failed []
      else replied (rwalk (replicate (length wname) zero_qid)),
)
strict_rpc s m = (s, replied rclunk)

lax-Agree : Agree lax_rpc strict_rpc
lax-Agree s (twalk fid newfid wname) h = rw (le→ltb 16 (length wname) h)
lax-Agree s m h = refl

fid_walk-Agree_example :
    fid_walk lax_rpc tt 0 1 (replicate 20 (text "a"))
    ≡ fid_walk strict_rpc tt 0 1 (replicate 20 (text "a"))
fid_walk-Agree_example =
    fid_walk-Agree lax_rpc strict_rpc lax-Agree tt 0 1 (replicate 20 (text "a"))

-- A walk of twenty names takes two batches.
fid_walk_runs : fid_walk strict_rpc tt 0 1 (replicate 20 (text "a")) ≡ (tt, walked_to 1)
unfolding fid_walk walk_batches walk_batch as_batch on_batch
fid_walk_runs = refl

-- A server that speaks 9P2000 only: the client asks a second time and takes that.
abbrev plain : Rpc (Unit {0})
plain s (tversion msize v) =
    (s, replied (rversion msize (if same_bytes v version then version else version_unknown)))
plain s m = (s, rpc_failed [])

second_try : (new_client plain (λ s. s) tt 4096 version_u).1 ≡ new_client_with 4096 false
unfolding new_client handshake on_version_reply on_version same_bytes
second_try = refl

-- A call waits under tag 0, which another call forgets.
one_call-waits : lookup 0 (register new_call_mux).0.pending ≡ some 0
unfolding register register_in register_loop passes_over grant new_call_mux lookup insert delete
one_call-waits = refl

one_call-made : 0 < (register new_call_mux).0.made
unfolding register register_in register_loop passes_over grant new_call_mux lookup
one_call-made = omega arith

one_call-IsSound : IsSound (register new_call_mux).0
unfolding run step
one_call-IsSound = run-new_call_mux-IsSound (registers ∷ [])

forget-uses_example : uses (run (forget (register new_call_mux).0 0) (delivers 0 rclunk ∷ [])) 0 ≡ 0
forget-uses_example =
    forget-uses (register new_call_mux).0 0 0 (delivers 0 rclunk ∷ []) one_call-IsSound
      one_call-made one_call-waits
