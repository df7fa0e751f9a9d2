-- ===== src/Server/Tests.antt =====
-- Runs of the server, and its theorems on the sample backend.
use Prim.Native.Nat.{min}
use p.Common.{inl, inr, true, ℕ, ◌≡◌, refl, List, [], ◌∷◌, ◌++◌, false, none, some, arith}
use p.Common.Maps.{lookup, insert}
use p.Common.Lists.{length}
use p.Common.Int.{pos}
use p.Common.Bytes.{le_bytes}
use p.Wire.Types.{text, version, twalk, tclunk, rversion, ok}
use p.Wire.Encode.{put_string, put_qid, cut_string, cut_to}
use p.Wire.Stat.{marshal_unix, marshal_stat_body, put_stat, marshal_stat_version}
use p.Wire.Fcall.Types.{msg_type}
use p.Wire.Fcall.Encode.{marshal_body}
use p.Wire.Framing.{marshal_rest, marshal_version, read_message}
use p.Wire.Framing.RoundTrip.{FitsSize}
use p.Server.Conn.{max_msize, get_fid, put_fid, t_version}
use p.Server.Conn.Version.{Chosen, t_version-Chosen, t_version-unlimited}
use p.Server.Dispatch.{walk_loop, t_walk, t_walk_names, dispatch}
use p.Server.Dispatch.Replies.{Answers}
use p.Server.Dispatch.Fids.{released, Forgotten, dispatch_frame, dispatch_rerror, dispatch-Settles}
use p.Server.Dispatch.Walk.{WalkResult, t_walk-WalkResult}
use p.Server.Dir.{marshal_dir_version}
use p.Server.Dir.Contract.Offsets.{Contract, marshal_dir-Contract}
use p.Server.Schedule.{
  IsExempt, waiting, running, handled, Request, Schedule, new_schedule, in_phase, move, accept,
  start, reply, accepts, takes_slot, dispatches, replies, Reached, at_start, then_step,
}
use p.Server.Schedule.Counts.{IsCounted}
use p.Server.Schedule.Slots.{Reached-IsCounted}
use p.Server.Sample.{entry_a, sample_entries, sample, sample_conn}

sample_fid : get_fid sample_conn 7 ≡ some 0
unfolding get_fid put_fid lookup insert
sample_fid = refl

-- A walk to `a`, and one to a name that does not exist.
t_walk-WalkResult_example :
    WalkResult sample sample_conn tt 0 8
      (text "a" ∷ text "x" ∷ [])
      (t_walk sample (sample_conn, tt) 7 8 (text "a" ∷ text "x" ∷ []))
t_walk-WalkResult_example =
    t_walk-WalkResult sample sample_conn tt 7 8 0 (text "a") (text "x" ∷ []) sample_fid

dispatch-Settles_example :
    Answers (tclunk 7) (dispatch sample (sample_conn, tt) (tclunk 7)).1
    × Forgotten (released sample (tclunk 7)) (dispatch sample (sample_conn, tt) (tclunk 7)).0.0
dispatch-Settles_example = dispatch-Settles sample (sample_conn, tt) (tclunk 7)

dispatch_frame_example :
    get_fid (dispatch sample (sample_conn, tt) (twalk 7 8 (text "a" ∷ []))).0.0 7
    ≡ get_fid sample_conn 7
dispatch_frame_example =
    dispatch_frame sample (sample_conn, tt) (twalk 7 8 (text "a" ∷ [])) 7 (λ v. v) (λ e. cc e)

lost_walk : msg_type (dispatch sample (sample_conn, tt) (twalk 7 8 (text "x" ∷ []))).1 ≡ 107
unfolding dispatch t_walk t_walk_names walk_loop get_fid put_fid lookup insert msg_type
lost_walk = refl

dispatch_rerror_example :
    (dispatch sample (sample_conn, tt) (twalk 7 8 (text "x" ∷ []))).0.0 ≡ sample_conn
dispatch_rerror_example =
    dispatch_rerror sample (sample_conn, tt) (twalk 7 8 (text "x" ∷ [])) refl lost_walk

t_version-Chosen_example :
    ((fid : ℕ) → get_fid (t_version sample_conn 4096 version).0 fid ≡ none)
    × ((t_version sample_conn 4096 version).0.msize ≡ min 4096 (max_msize sample_conn.srv_msize))
    × ((answer : List ℕ) × ((t_version sample_conn 4096 version).1
          ≡ rversion (t_version sample_conn 4096 version).0.msize answer)
        × Chosen version (t_version sample_conn 4096 version).0.unix answer)
t_version-Chosen_example = t_version-Chosen sample_conn 4096 version

small_FitsSize : FitsSize 1 (tclunk 7) false
unfolding marshal_version marshal_rest marshal_body msg_type le_bytes
small_FitsSize = omega arith

t_version-unlimited_example :
    read_message
      (marshal_version 1 (tclunk 7) false ++ [])
      (t_version sample_conn 0 version).0.msize
    ≡ ok (marshal_version 1 (tclunk 7) false, [])
t_version-unlimited_example =
    t_version-unlimited sample_conn version 1 (tclunk 7) false [] small_FitsSize

length-entry_a : length (marshal_stat_version false entry_a) ≡ 50
unfolding put_stat marshal_stat_body marshal_unix put_string put_qid cut_string cut_to le_bytes
length-entry_a = refl

marshal_dir-Contract_example :
    Contract false sample_entries (pos 0) 60 (marshal_dir_version sample_entries (pos 0) 60 false)
marshal_dir-Contract_example = marshal_dir-Contract false sample_entries (pos 0) 60

-- The only request of a connection with one slot.
abbrev first_request : Request
first_request = record { id = 0; tag = 1; flushes = none; phase = waiting }

abbrev one_read : Schedule
one_read = accept (new_schedule 1) 1 none

one_read-live : one_read.live ≡ first_request ∷ []
unfolding accept
one_read-live = refl

not-IsExempt : ¬ IsExempt one_read first_request
unfolding accept
not-IsExempt (inl e) = omega (arith, e)
not-IsExempt (inr e) = e refl

abbrev one_running : Schedule
one_running = start one_read [] first_request [] true

abbrev one_answered : Schedule
one_answered =
    reply (move one_running [] (in_phase first_request (running true)) [] (handled true)) []
      (in_phase first_request (handled true)) [] true

-- The reply is written, and the slot is still held.
one_answered-Reached : Reached 1 one_answered
unfolding accept start reply
one_answered-Reached =
    then_step
      (then_step
        (then_step (then_step at_start (accepts 1 none))
          (takes_slot [] [] first_request (refl, refl) not-IsExempt (omega arith)))
        (dispatches [] [] (in_phase first_request (running true)) true (refl, refl) refl))
      (replies [] [] (in_phase first_request (handled true)) true (refl, refl))

Reached-IsCounted_example : IsCounted 1 one_answered
Reached-IsCounted_example = Reached-IsCounted 1 one_answered one_answered-Reached
