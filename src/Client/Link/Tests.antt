-- ===== src/Client/Link/Tests.antt =====
-- A call of a client that gets its reply.
use p.Common.{ℕ, ◌<◌, refl, inl, [], ◌∷◌, ◌++◌, true, arith}
use p.Common.Maps.{lookup, insert, delete}
use p.Wire.Types.{tclunk, rclunk}
use p.Client.Rpc.{replied}
use p.Client.Mux.{new_call_mux, register, register_in, register_loop, passes_over, grant, deliver}
use p.Client.Link.{
  writing, waiting, returned, Caller, Link, set_phase, begin_call, take_in, begins, writes,
  delivers, receives, Reached, at_start, then_step,
}
use p.Client.Link.Owners.{Arrived}
use p.Client.Link.Routes.{Reached-Arrived}

abbrev no_caller : ℕ → Caller
no_caller i = record { req = rclunk; tag = 0; ch = 0; since = 0; phase = writing }

abbrev fresh : Link
fresh = record {
  mux = new_call_mux;
  callers = no_caller;
  made = 0;
  inbox = [];
  outbox = [];
  reading = true;
}

abbrev begun : Link
begun = begin_call fresh (tclunk 1)

abbrev written : Link
written =
    set_phase
      (record begun {
        outbox = begun.outbox ++ (((begun.callers 0).tag, (begun.callers 0).req) ∷ []);
      })
      0 waiting

abbrev taken : Link
taken = take_in written 0 rclunk

abbrev done : Link
done = set_phase taken 0 (returned (replied rclunk))

done-Reached : Reached done
unfolding begin_call register register_in register_loop passes_over grant new_call_mux deliver
    take_in lookup insert delete
done-Reached =
    then_step
      (then_step
        (then_step (then_step (at_start no_caller) (begins (tclunk 1)))
          (writes 0 (omega arith) refl))
        (delivers 0 rclunk refl))
      (receives 0 rclunk (omega arith) refl (inl (refl, refl)) (λ e h. cc h))

done_made : 0 < done.made
unfolding begin_call take_in
done_made = omega arith

Reached-Arrived_example : Arrived done.inbox (done.callers 0).since (done.callers 0).tag rclunk
Reached-Arrived_example = Reached-Arrived done 0 rclunk done-Reached done_made refl
