-- ===== src/Server/Schedule.antt =====
-- server/conn.go: the goroutines of a connection after the handshake: serve, dispatchOne and handle,
-- with the tFlush of server/dispatch.go. Each rule of Step is what one goroutine does between two
-- points where others may run. What the other handlers do is in Dispatch. The connection's base context
-- is not cancelled. The deferred call of a request's own cancel has no rule: its goroutine is past its
-- select by then, and no other waits for that context.
pub mod Counts
pub mod Slots
use p.Common.{
  ℕ, ◌+◌, ◌-◌, ◌<◌, ◌≡◌, ◌≢◌, ◌⊎◌, List, [], ◌∷◌, ◌++◌, Bool, true, false, Option, none, some,
}
use p.Common.Tests.{◌==◌, if◌then◌else◌}
use p.Common.Maps.{lookup, delete, insert}

-- Where a request's goroutine is. In dispatchOne: in the select, or past its case ctx.Done(). In
-- handle, with its `tookSlot`: about to dispatch, in a tFlush that has found the cancel function of a
-- request, about to write the reply, past that, or past the delete of the deferred function.
pub data Phase : Type 0 where
  waiting quitting : Phase
  running : Bool → Phase
  flushing : Bool → ℕ → Phase
  handled : Bool → Phase
  answered : Bool → Phase
  forgotten : Bool → Phase

-- A request with a number of its own, which stands for its context and cancel function; `flushes` is
-- the Oldtag of a Tflush.
pub record Request : Type 0 where
  pub id : ℕ
  pub tag : ℕ
  pub flushes : Option ℕ
  pub phase : Phase

-- The connection: the capacity of `sem` (0 if it is nil) and the slots taken, the requests whose
-- goroutines live, `inflight`, and the requests that were cancelled by a Tflush, whose reply
-- went through writeReply, and that quit without a reply; `made` requests were read.
pub record Schedule : Type 0 where
  pub limit : ℕ
  pub held : ℕ
  pub made : ℕ
  pub live : List Request
  pub inflight : List (ℕ × ℕ)
  pub cancelled : List ℕ
  pub replied : List ℕ
  pub dropped : List ℕ

abbrev pub new_schedule : ℕ → Schedule
new_schedule limit = record {
  limit = limit;
  held = 0;
  made = 0;
  live = [];
  inflight = [];
  cancelled = [];
  replied = [];
  dropped = [];
}

-- A request that the limit does not hold up: there is none, or the request is a Tflush.
abbrev pub IsExempt : Schedule → Request → Type 0
IsExempt c r = (c.limit ≡ 0) ⊎ (r.flushes ≢ none)

abbrev pub in_phase : Request → Phase → Request
in_phase r phase = record r { phase = phase }

-- A request's goroutine goes on to another phase.
abbrev pub move : Schedule → List Request → Request → List Request → Phase → Schedule
move c front r back phase = record c { live = front ++ (in_phase r phase ∷ back) }

abbrev pub slot : Bool → ℕ
slot took = if took then 1 else 0

-- A round of serve: a request is read and its goroutine started.
unfoldable pub accept : Schedule → ℕ → Option ℕ → Schedule
accept c tag flushes =
    let r : Request = record { id = c.made; tag = tag; flushes = flushes; phase = waiting } in
    record c { made = c.made + 1; live = r ∷ c.live; inflight = insert tag c.made c.inflight }

-- A request goes from the select to its handler, with a slot or without.
unfoldable pub start : Schedule → List Request → Request → List Request → Bool → Schedule
start c front r back took = record (move c front r back (running took)) {
  held = c.held + slot took;
}

-- The select's other case,
unfoldable pub give_up : Schedule → List Request → Request → List Request → Schedule
give_up c front r back = record (move c front r back quitting) { dropped = r.id ∷ c.dropped }

-- and the delete that follows it.
unfoldable pub quit : Schedule → List Request → Request → List Request → Schedule
quit c front r back = record c { live = front ++ back; inflight = delete r.tag c.inflight }

-- tFlush: what it finds in the table, under the lock,
unfoldable pub find_cancel : Schedule → List Request → Request → List Request → Bool → ℕ → Schedule
find_cancel c front r back took oldtag =
    move c front r back
      (elim (lookup oldtag c.inflight) [ none ↦ handled took | some id ↦ flushing took id ])

-- and the call of the cancel function that it found.
unfoldable pub cancel : Schedule → List Request → Request → List Request → Bool → ℕ → Schedule
cancel c front r back took id = record (move c front r back (handled took)) {
  cancelled = id ∷ c.cancelled;
}

-- writeReply in handle.
unfoldable pub reply : Schedule → List Request → Request → List Request → Bool → Schedule
reply c front r back took = record (move c front r back (answered took)) {
  replied = r.id ∷ c.replied;
}

-- The deferred function of handle: the delete from the table,
unfoldable pub forget_request : Schedule → List Request → Request → List Request → Bool → Schedule
forget_request c front r back took = record (move c front r back (forgotten took)) {
  inflight = delete r.tag c.inflight;
}

-- and the slot that is given back.
unfoldable pub release : Schedule → List Request → Request → List Request → Bool → Schedule
release c front r back took = record c { held = c.held - slot took; live = front ++ back }

abbrev pub Among : ℕ → List ℕ → Type 0
Among x [] = ⊥
Among x (y ∷ ys) = (x ≡ y) ⊎ Among x ys

-- The goroutine of the request `r` lives, and is at `phase`.
abbrev pub IsAt : Schedule → List Request → Request → List Request → Phase → Type 0
IsAt c front r back phase = (c.live ≡ front ++ (r ∷ back)) × (r.phase ≡ phase)

pub data Step : Schedule → Schedule → Type 0 where
  accepts : {c : Schedule} (tag : ℕ) (flushes : Option ℕ) → Step c (accept c tag flushes)
  starts :
      {c : Schedule} (front back : List Request) (r : Request)
      → IsAt c front r back waiting
      → IsExempt c r
      → Step c (start c front r back false)
  takes_slot :
      {c : Schedule} (front back : List Request) (r : Request)
      → IsAt c front r back waiting
      → ¬ IsExempt c r
      → c.held < c.limit
      → Step c (start c front r back true)
  gives_up :
      {c : Schedule} (front back : List Request) (r : Request)
      → IsAt c front r back waiting
      → ¬ IsExempt c r
      → Among r.id c.cancelled
      → Step c (give_up c front r back)
  quits :
      {c : Schedule} (front back : List Request) (r : Request)
      → IsAt c front r back quitting
      → Step c (quit c front r back)
  dispatches :
      {c : Schedule} (front back : List Request) (r : Request) (took : Bool)
      → IsAt c front r back (running took)
      → r.flushes ≡ none
      → Step c (move c front r back (handled took))
  finds :
      {c : Schedule} (front back : List Request) (r : Request) (took : Bool) (oldtag : ℕ)
      → IsAt c front r back (running took)
      → r.flushes ≡ some oldtag
      → Step c (find_cancel c front r back took oldtag)
  cancels :
      {c : Schedule} (front back : List Request) (r : Request) (took : Bool) (id : ℕ)
      → IsAt c front r back (flushing took id)
      → Step c (cancel c front r back took id)
  replies :
      {c : Schedule} (front back : List Request) (r : Request) (took : Bool)
      → IsAt c front r back (handled took)
      → Step c (reply c front r back took)
  forgets :
      {c : Schedule} (front back : List Request) (r : Request) (took : Bool)
      → IsAt c front r back (answered took)
      → Step c (forget_request c front r back took)
  releases :
      {c : Schedule} (front back : List Request) (r : Request) (took : Bool)
      → IsAt c front r back (forgotten took)
      → Step c (release c front r back took)

-- The states that a connection with this limit can get to.
pub data Reached (limit : ℕ) : Schedule → Type 0 where
  at_start : Reached limit (new_schedule limit)
  then_step : {c d : Schedule} → Reached limit c → Step c d → Reached limit d
