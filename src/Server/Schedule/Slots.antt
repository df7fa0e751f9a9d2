-- ===== src/Server/Schedule/Slots.antt =====
-- server/conn.go: the slots are counted, and each request is replied to once or dropped.
use p.Common.{
  ℕ, ◌+◌, ◌≤◌, ◌≡◌, refl, sym, ap, List, [], ◌∷◌, ◌++◌, Bool, true, false, Option, none, some, inl,
  inr, arith,
}
use mathlib.Core.Path.{subst}
use p.Common.Maps.{lookup, delete}
use p.Server.Schedule.{
  waiting, quitting, running, flushing, handled, answered, forgotten, Request, Schedule,
  new_schedule, in_phase, move, slot, start, give_up, quit, find_cancel, cancel, reply,
  forget_request, release, Among, Step, accepts, starts, takes_slot, gives_up, quits, dispatches,
  finds, cancels, replies, forgets, releases, Reached, at_start, then_step,
}
use p.Server.Schedule.Counts.{
  slot_of, IsCounted, accept-IsCounted, Counts-IsCounted, stays-IsCounted, slot_held,
}

module _ (limit : ℕ) (c : Schedule) (s : IsCounted limit c) where
  module _ (front back : List Request) (r : Request) (at : c.live ≡ front ++ (r ∷ back)) where
    start-IsCounted :
        (took : Bool)
        → r.phase ≡ waiting
        → c.held + slot took ≤ c.limit
        → IsCounted limit (start c front r back took)
    unfolding start
    start-IsCounted took e h =
        Counts-IsCounted limit c s front back r at (start c front r back took) waiting
          (in_phase r (running took) ∷ []) refl
          (record {
            here = e;
            same_limit = refl;
            same_made = refl;
            slots_moved = omega arith;
            within = h;
            no_more = λ x. omega arith;
            settled = λ x. omega arith;
            asked = s.flushed;
          })

    give_up-IsCounted :
        r.phase ≡ waiting → Among r.id c.cancelled → IsCounted limit (give_up c front r back)
    unfolding give_up
    give_up-IsCounted e asked =
        Counts-IsCounted limit c s front back r at (give_up c front r back) waiting
          (in_phase r quitting ∷ []) refl
          (record {
            here = e;
            same_limit = refl;
            same_made = refl;
            slots_moved = omega arith;
            within = s.bound;
            no_more = λ x. omega arith;
            settled = λ x. omega arith;
            asked = λ x h. elim h [
              | inl here ↦ subst (λ y. Among y c.cancelled) (sym here) asked
              | inr there ↦ s.flushed x there
            ];
          })

    quit-IsCounted : r.phase ≡ quitting → IsCounted limit (quit c front r back)
    unfolding quit
    quit-IsCounted e =
        Counts-IsCounted limit c s front back r at (quit c front r back) quitting [] refl (record {
          here = e;
          same_limit = refl;
          same_made = refl;
          slots_moved = omega arith;
          within = s.bound;
          no_more = λ x. omega arith;
          settled = λ x. omega arith;
          asked = s.flushed;
        })

    find_cancel-IsCounted :
        (took : Bool) (oldtag : ℕ)
        → r.phase ≡ running took
        → IsCounted limit (find_cancel c front r back took oldtag)
    unfolding find_cancel
    find_cancel-IsCounted took oldtag e = by_cases (lookup oldtag c.inflight)
      where
        by_cases :
            (o : Option ℕ)
            → IsCounted limit
                (move c front r back (elim o [ none ↦ handled took | some id ↦ flushing took id ]))
        by_cases none =
            stays-IsCounted limit c s front back r at (running took) (handled took) c.inflight
              c.cancelled e refl (λ x. refl) (λ x h. h)
        by_cases (some id) =
            stays-IsCounted limit c s front back r at (running took) (flushing took id) c.inflight
              c.cancelled e refl (λ x. refl) (λ x h. h)

    reply-IsCounted :
        (took : Bool) → r.phase ≡ handled took → IsCounted limit (reply c front r back took)
    unfolding reply
    reply-IsCounted took e =
        Counts-IsCounted limit c s front back r at (reply c front r back took) (handled took)
          (in_phase r (answered took) ∷ []) refl
          (record {
            here = e;
            same_limit = refl;
            same_made = refl;
            slots_moved = omega arith;
            within = s.bound;
            no_more = λ x. omega arith;
            settled = λ x. omega arith;
            asked = s.flushed;
          })

    release-IsCounted :
        (took : Bool) → r.phase ≡ forgotten took → IsCounted limit (release c front r back took)
    unfolding release
    release-IsCounted took e =
        Counts-IsCounted limit c s front back r at (release c front r back took) (forgotten took) []
          refl
          (record {
            here = e;
            same_limit = refl;
            same_made = refl;
            slots_moved = omega (arith, slot_held limit c s front back r at, ap slot_of e);
            within = omega (arith, s.bound);
            no_more = λ x. omega arith;
            settled = λ x. omega arith;
            asked = s.flushed;
          })

start_limit : (limit : ℕ) → IsCounted limit (new_schedule limit)
start_limit limit = record {
  kept = refl;
  held = refl;
  bound = omega arith;
  single = λ x. omega arith;
  read = λ x h. absurd (omega arith);
  unread = λ x h. (refl, refl);
  flushed = λ x h. h;
}

Step-IsCounted : (limit : ℕ) (c d : Schedule) → IsCounted limit c → Step c d → IsCounted limit d
Step-IsCounted limit c d s (accepts tag flushes) = accept-IsCounted limit c s tag flushes
Step-IsCounted limit c d s (starts front back r at x) =
    start-IsCounted limit c s front back r at.0 false at.1 (omega (arith, s.bound))
Step-IsCounted limit c d s (takes_slot front back r at x h) =
    start-IsCounted limit c s front back r at.0 true at.1 (omega arith)
Step-IsCounted limit c d s (gives_up front back r at x h) =
    give_up-IsCounted limit c s front back r at.0 at.1 h
Step-IsCounted limit c d s (quits front back r at) = quit-IsCounted limit c s front back r at.0 at.1
Step-IsCounted limit c d s (dispatches front back r took at f) =
    stays-IsCounted limit c s front back r at.0 (running took) (handled took) c.inflight c.cancelled
      at.1 refl (λ x. refl) (λ x h. h)
Step-IsCounted limit c d s (finds front back r took oldtag at f) =
    find_cancel-IsCounted limit c s front back r at.0 took oldtag at.1
Step-IsCounted limit c d s (cancels front back r took id at) =
    unfold cancel in
    stays-IsCounted limit c s front back r at.0 (flushing took id) (handled took) c.inflight
      (id ∷ c.cancelled) at.1 refl (λ x. refl) (λ x h. inr h)
Step-IsCounted limit c d s (replies front back r took at) =
    reply-IsCounted limit c s front back r at.0 took at.1
Step-IsCounted limit c d s (forgets front back r took at) =
    unfold forget_request in
    stays-IsCounted limit c s front back r at.0 (answered took) (forgotten took)
      (delete r.tag c.inflight) c.cancelled at.1 refl (λ x. refl) (λ x h. h)
Step-IsCounted limit c d s (releases front back r took at) =
    release-IsCounted limit c s front back r at.0 took at.1

-- In every state that a connection can get to, in any order of its goroutines' steps: the slots taken
-- are those of the goroutines that took one and have not given it back yet, and they are within the
-- limit of concurrent requests; a request has one goroutine at most; each request that was read has
-- still to be answered, or its reply was written once, or it quit without a reply; and a request that
-- quit was cancelled by a Tflush.
pub Reached-IsCounted : (limit : ℕ) (c : Schedule) → Reached limit c → IsCounted limit c
Reached-IsCounted limit c at_start = start_limit limit
Reached-IsCounted limit d (then_step {c} r e) =
    Step-IsCounted limit c d (Reached-IsCounted limit c r) e
