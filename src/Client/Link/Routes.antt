-- ===== src/Client/Link/Routes.antt =====
-- client/client.go: the reply that a call returns is one for its own tag.
use p.Common.{
  ℕ, ◌+◌, ◌<◌, ◌≡◌, ◌≢◌, refl, sym, ◌∙◌, inl, inr, List, [], ◌∷◌, ◌++◌, Bool, false, arith,
}
use mathlib.Core.Path.{subst}
use p.Common.Tests.{◌==◌, if◌then◌else◌, Bool-cases}
use p.Common.Maps.{lookup}
use p.Wire.Types.{text, Message, tflush}
use p.Client.Rpc.{Reply, replied, rpc_failed}
use p.Client.Mux.{CallMux, new_call_mux, Registered, granted, refused, register, forget, close_all}
use p.Client.Link.{
  Phase, writing, waiting, flush_writing, flush_waiting, flushed, returned, Caller, Link, Holds,
  set_phase, set_mux, begin_call, begin_flush, forget_fail, Step, begins, writes, write_fails,
  receives, receives_error, finds_shut, cancels, flush_writes, flush_write_fails, flush_ends,
  gives_up, delivers, read_fails, closes, Reached, at_start, then_step,
}
use p.Client.Link.Channels.{forget-Narrows, close_all-Narrows, Registers, register-Registers}
use p.Client.Link.Owners.{
  Arrived, Owns, IsRouted, AllRouted, Below-Narrows, IsRouted-Narrows, set_mux-AllRouted,
  set_phase-AllRouted, owned, moved, failed_call,
}
use p.Client.Link.Delivery.{take_in-AllRouted}

begin_call-AllRouted : (l : Link) (req : Message) → AllRouted l → AllRouted (begin_call l req)
unfolding begin_call
begin_call-AllRouted l req a = by_result (register l.mux).1 refl (register-Registers l.mux)
  where
    m' : CallMux
    m' = (register l.mux).0

    old :
        (c : Caller) (x : Registers l.mux (register l.mux))
        → IsRouted m' l.inbox c
        → AllRouted (record l {
          mux = m';
          callers = λ b. if b == l.made then c else l.callers b;
          made = l.made + 1;
        })
    old c x r = record {
      below = Below-Narrows l.mux m' x.0 a.below;
      callers = λ j h. elim (Bool-cases (j == l.made)) [
        | inl new ↦ rw new r
        | inr other ↦ rw other (
            IsRouted-Narrows l.mux m' l.inbox (l.callers j) x.0
              (a.callers j (ground (arith, other, h))))
      ];
    }

    by_result :
        (r : Registered)
        → (register l.mux).1 ≡ r
        → Registers l.mux (register l.mux)
        → AllRouted (begin_call l req)
    by_result (refused e) h x =
        rw (begin_call, h) (old _ x (record { owns = inr (e, refl); arrived = λ msg g. cc g }))
    by_result (granted t ch) h x =
        let (new, below, pending) = x.1 t ch h in
        rw (begin_call, h)
          (old _ x (record {
            owns = inl (record {
              below = below;
              since = omega arith;
              pending = λ k g. elim (pending k g) [
                | inl same ↦ same
                | inr before ↦ absurd (omega (arith, new, a.below.pending k ch before))
              ];
              sent = λ msg g. absurd (
                  omega (arith, new, a.below.sent ch msg (subst (λ s. Holds s ch msg) x.0.sent g)));
            });
            arrived = λ msg g. cc g;
          }))

begin_flush-AllRouted :
    (l : Link) (i : ℕ) → (l.callers i).phase ≡ waiting → AllRouted l → AllRouted (begin_flush l i)
unfolding begin_flush
begin_flush-AllRouted l i w a = by_result (register l.mux).1 refl
  where
    m' : CallMux
    m' = (register l.mux).0

    after : AllRouted (set_mux l m')
    after = set_mux-AllRouted l m' (register-Registers l.mux).0 a

    mine : i < l.made → Owns m' l.inbox (l.callers i)
    mine h = owned m' l.inbox (l.callers i) (λ e g. cc (w, g)) (after.callers i h)

    by_result : (r : Registered) → (register l.mux).1 ≡ r → AllRouted (begin_flush l i)
    by_result (refused e) h =
        rw (begin_flush, h)
          (set_phase-AllRouted (set_mux l m') i flushed
            (λ k. moved m' l.inbox (l.callers i) flushed (mine k) (λ msg g. cc g)) after)
    by_result (granted t ch) h =
        rw (begin_flush, h)
          (set_phase-AllRouted (set_mux l m') i (flush_writing t ch)
            (λ k. moved m' l.inbox (l.callers i) (flush_writing t ch) (mine k) (λ msg g. cc g))
            after)

forget_fail-AllRouted :
    (l : Link) (i : ℕ) (e : List ℕ) → AllRouted l → AllRouted (forget_fail l i e)
unfolding forget_fail
forget_fail-AllRouted l i e a =
    let m' : CallMux = forget l.mux (l.callers i).tag in
    set_phase-AllRouted (set_mux l m') i (returned (rpc_failed e))
      (λ h. failed_call m' l.inbox (l.callers i) e)
      (set_mux-AllRouted l m' (forget-Narrows l.mux (l.callers i).tag) a)

-- A step of the call `i` from a phase in which it has not returned, to another such phase.
moves_on :
    (l : Link) (i : ℕ) (from to : Phase)
    → (l.callers i).phase ≡ from
    → ((r : Reply) → from ≢ returned r)
    → ((r : Reply) → to ≢ returned r)
    → AllRouted l
    → AllRouted (set_phase l i to)
moves_on l i from to e on on' a =
    set_phase-AllRouted l i to
      (λ h.
        moved l.mux l.inbox (l.callers i) to
          (owned l.mux l.inbox (l.callers i) (λ x g. on (rpc_failed x) (sym e ∙ g)) (a.callers i h))
          (λ msg. on' (replied msg)))
      a

-- What was written makes no difference, nor whether readLoop goes on.
outbox-AllRouted :
    (l : Link) (outbox : List (ℕ × Message)) (reading : Bool)
    → AllRouted l
    → AllRouted (record l { outbox = outbox; reading = reading })
outbox-AllRouted l outbox reading a = record { below = a.below; callers = a.callers }

Step-AllRouted : (l l' : Link) → Step l l' → AllRouted l → AllRouted l'
Step-AllRouted l l' (begins req) a = begin_call-AllRouted l req a
Step-AllRouted l l' (writes i h e) a =
    let outbox : List (ℕ × Message) = l.outbox ++ (((l.callers i).tag, (l.callers i).req) ∷ []) in
    moves_on (record l { outbox = outbox }) i writing waiting e (λ r g. cc g) (λ r g. cc g)
      (outbox-AllRouted l outbox l.reading a)
Step-AllRouted l l' (write_fails i x h e) a = forget_fail-AllRouted l i x a
Step-AllRouted l l' (receives i msg h e got other) a =
    let o = owned l.mux l.inbox (l.callers i) (λ x g. cc (e, g)) (a.callers i h) in
    set_phase-AllRouted l i (returned (replied msg))
      (λ k. record {
        owns =
            inl (record { below = o.below; since = o.since; pending = o.pending; sent = o.sent });
        arrived = λ x g. o.sent x (subst (Holds l.mux.sent (l.callers i).ch) (cc g) got);
      })
      a
Step-AllRouted l l' (receives_error i x h e got) a =
    set_phase-AllRouted l i (returned (rpc_failed x))
      (λ k. failed_call l.mux l.inbox (l.callers i) x) a
Step-AllRouted l l' (finds_shut i h e shut) a =
    set_phase-AllRouted l i (returned (rpc_failed l.mux.close_err))
      (λ k. failed_call l.mux l.inbox (l.callers i) l.mux.close_err) a
Step-AllRouted l l' (cancels i h e) a = begin_flush-AllRouted l i e a
Step-AllRouted l l' (flush_writes i t ch h e) a =
    let outbox : List (ℕ × Message) = l.outbox ++ ((t, tflush (l.callers i).tag) ∷ []) in
    moves_on (record l { outbox = outbox }) i (flush_writing t ch) (flush_waiting ch) e
      (λ r g. cc g) (λ r g. cc g) (outbox-AllRouted l outbox l.reading a)
Step-AllRouted l l' (flush_write_fails i t ch h e) a =
    moves_on (set_mux l (forget l.mux t)) i (flush_writing t ch) flushed e (λ r g. cc g)
      (λ r g. cc g) (set_mux-AllRouted l (forget l.mux t) (forget-Narrows l.mux t) a)
Step-AllRouted l l' (flush_ends i ch msg h e got) a =
    moves_on l i (flush_waiting ch) flushed e (λ r g. cc g) (λ r g. cc g) a
Step-AllRouted l l' (gives_up i x h e) a = forget_fail-AllRouted l i x a
Step-AllRouted l l' (delivers tag msg on) a = take_in-AllRouted l tag msg a
Step-AllRouted l l' (read_fails x on) a =
    outbox-AllRouted (set_mux l (close_all l.mux x)) l.outbox false
      (set_mux-AllRouted l (close_all l.mux x) (close_all-Narrows l.mux x) a)
Step-AllRouted l l' closes a =
    set_mux-AllRouted l (close_all l.mux (text "io: read/write on closed pipe"))
      (close_all-Narrows l.mux (text "io: read/write on closed pipe")) a

Reached-AllRouted : (l : Link) → Reached l → AllRouted l
unfolding new_call_mux lookup
Reached-AllRouted l (at_start callers) = record {
  below = record { pending = λ t ch h. cc h; sent = λ ch msg h. absurd h };
  callers = λ i h. absurd (omega (arith, h));
}
Reached-AllRouted l' (then_step {l} r s) = Step-AllRouted l l' s (Reached-AllRouted l r)

-- In every state of a client that steps of its goroutines lead to, in any order: a call that returned a
-- message returned one that readLoop had read under the call's own tag, after the call got that tag.
pub Reached-Arrived :
    (l : Link) (i : ℕ) (msg : Message)
    → Reached l
    → i < l.made
    → (l.callers i).phase ≡ returned (replied msg)
    → Arrived l.inbox (l.callers i).since (l.callers i).tag msg
Reached-Arrived l i msg r h e = ((Reached-AllRouted l r).callers i h).arrived msg e
