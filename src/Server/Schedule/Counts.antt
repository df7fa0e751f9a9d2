-- ===== src/Server/Schedule/Counts.antt =====
-- server/conn.go: counts of slots and of requests, and what the step of one goroutine does to them.
use p.Common.{ℕ, ◌+◌, ◌≤◌, ◌<◌, ◌≡◌, refl, ap, ◌∙◌, List, [], ◌∷◌, ◌++◌, Option, arith}
use p.Common.Tests.{◌==◌, if◌then◌else◌}
use p.Server.Schedule.{
  Phase, waiting, quitting, running, flushing, handled, answered, forgotten, Request, Schedule,
  in_phase, move, slot, accept, Among,
}

abbrev pub slot_of : Phase → ℕ
slot_of waiting = 0
slot_of quitting = 0
slot_of (running took) = slot took
slot_of (flushing took id) = slot took
slot_of (handled took) = slot took
slot_of (answered took) = slot took
slot_of (forgotten took) = slot took

-- The sum of a number for each request.
abbrev pub total : (Request → ℕ) → List Request → ℕ
total f [] = 0
total f (r ∷ rs) = f r + total f rs

total-append :
    (f : Request → ℕ) (xs ys : List Request) → total f (xs ++ ys) ≡ total f xs + total f ys
total-append f [] ys = omega arith
total-append f (r ∷ xs) ys = omega (arith, total-append f xs ys)

-- The slots that the goroutines have taken and not given back.
abbrev pub slots : List Request → ℕ
slots = total (λ r. slot_of r.phase)

abbrev one_if : ℕ → ℕ → ℕ
one_if x y = if x == y then 1 else 0

-- How many live goroutines a request has,
abbrev pub lives : ℕ → List Request → ℕ
lives x = total (λ r. one_if x r.id)

-- and how many of them have still to write its reply or to quit.
abbrev owing : ℕ → Phase → ℕ → ℕ
owing x quitting y = 0
owing x (answered took) y = 0
owing x (forgotten took) y = 0
owing x phase y = one_if x y

abbrev pub owed : ℕ → List Request → ℕ
owed x = total (λ r. owing x r.phase r.id)

abbrev pub times : ℕ → List ℕ → ℕ
times x [] = 0
times x (y ∷ ys) = one_if x y + times x ys

abbrev pub fates : Schedule → ℕ → ℕ
fates c x = owed x c.live + times x c.replied + times x c.dropped

-- The slots taken are those that handlers will give back, and within the limit; and a request that
-- was read has one goroutine at most, and either has still to be answered, or was replied to once, or
-- quit, after it was cancelled.
pub record IsCounted (limit : ℕ) (c : Schedule) : Type 0 where
  pub kept : c.limit ≡ limit
  pub held : c.held ≡ slots c.live
  pub bound : c.held ≤ c.limit
  pub single : (x : ℕ) → lives x c.live ≤ 1
  pub read : (x : ℕ) → x < c.made → fates c x ≡ 1
  pub unread : (x : ℕ) → c.made ≤ x → (fates c x ≡ 0) × (lives x c.live ≡ 0)
  pub flushed : (x : ℕ) → Among x c.dropped → Among x c.cancelled

-- What the step of a request's goroutine does to the counts: of the live requests it changes only its
-- own, which it takes away or moves to another phase.
pub record Counts (c d : Schedule) (r : Request) (from : Phase) (now : List Request) : Type 0 where
  pub here : r.phase ≡ from
  pub same_limit : d.limit ≡ c.limit
  pub same_made : d.made ≡ c.made
  pub slots_moved : d.held + slot_of from ≡ c.held + slots now
  pub within : d.held ≤ d.limit
  pub no_more : (x : ℕ) → lives x now ≤ one_if x r.id
  pub settled :
      (x : ℕ)
      → owed x now + times x d.replied + times x d.dropped
        ≡ owing x from r.id + times x c.replied + times x c.dropped
  pub asked : (x : ℕ) → Among x d.dropped → Among x d.cancelled

module _ (limit : ℕ) (c : Schedule) (s : IsCounted limit c) where
  pub accept-IsCounted : (tag : ℕ) (flushes : Option ℕ) → IsCounted limit (accept c tag flushes)
  unfolding accept
  accept-IsCounted tag flushes = record {
    kept = s.kept;
    held = omega (arith, s.held);
    bound = s.bound;
    single = λ x. ground (arith, s.single x, s.unread x);
    read = λ x h. ground (arith, s.read x, s.unread x);
    unread = λ x h. ground (arith, s.unread x);
    flushed = s.flushed;
  }

  module _ (front back : List Request) (r : Request) (at : c.live ≡ front ++ (r ∷ back)) where
    total_before : (f : Request → ℕ) → total f c.live ≡ total f front + (f r + total f back)
    total_before f = ap (total f) at ∙ total-append f front (r ∷ back)

    -- The slot of a live request is among those taken.
    pub slot_held : slot_of r.phase ≤ c.held
    slot_held = omega (arith, s.held, total_before (λ r. slot_of r.phase))

    pub Counts-IsCounted :
        (d : Schedule) (from : Phase) (now : List Request)
        → d.live ≡ front ++ (now ++ back)
        → Counts c d r from now
        → IsCounted limit d
    Counts-IsCounted d from now live k = record {
      kept = k.same_limit ∙ s.kept;
      held =
          let f = λ (r : Request). slot_of r.phase in
          omega (arith, s.held, k.slots_moved, ap slot_of k.here, total_before f, total_after f);
      bound = k.within;
      single = λ x.
          let f = λ (r : Request). one_if x r.id in
          omega (arith, s.single x, k.no_more x, total_before f, total_after f);
      read = λ x h.
          let f = λ (r : Request). owing x r.phase r.id in
          let old = s.read x (omega (arith, h, k.same_made)) in
          omega (
            arith,
            old,
            k.settled x,
            ap (λ p. owing x p r.id) k.here,
            total_before f,
            total_after f,
          );
      unread = λ x h.
          let f = λ (r : Request). owing x r.phase r.id in
          let g = λ (r : Request). one_if x r.id in
          let old = s.unread x (omega (arith, h, k.same_made)) in
          (
            omega (
              arith,
              old.0,
              k.settled x,
              ap (λ p. owing x p r.id) k.here,
              total_before f,
              total_after f,
            ),
            omega (arith, old.1, k.no_more x, total_before g, total_after g),
          );
      flushed = k.asked;
    }
      where
        total_after :
            (f : Request → ℕ) → total f d.live ≡ total f front + (total f now + total f back)
        total_after f =
            ap (total f) live
            ∙ total-append f front (now ++ back)
            ∙ ap (λ n. total f front + n) (total-append f now back)

    -- A step to a phase that holds the same slot and owes the same reply changes no count.
    pub stays-IsCounted :
        (from phase : Phase) (inflight : List (ℕ × ℕ)) (cancelled : List ℕ)
        → r.phase ≡ from
        → slot_of phase ≡ slot_of from
        → ((x : ℕ) → owing x phase r.id ≡ owing x from r.id)
        → ((x : ℕ) → Among x c.cancelled → Among x cancelled)
        → IsCounted limit
            (record (move c front r back phase) { inflight = inflight; cancelled = cancelled })
    stays-IsCounted from phase inflight cancelled at' e o kept =
        Counts-IsCounted
          (record (move c front r back phase) { inflight = inflight; cancelled = cancelled }) from
          (in_phase r phase ∷ []) refl
          (record {
            here = at';
            same_limit = refl;
            same_made = refl;
            slots_moved = omega (arith, e);
            within = s.bound;
            no_more = λ x. omega arith;
            settled = λ x. omega (arith, o x);
            asked = λ x h. kept x (s.flushed x h);
          })
