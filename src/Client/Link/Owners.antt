-- ===== src/Client/Link/Owners.antt =====
-- client/client.go: the channel of a call, and what it holds.
use p.Common.{
  ℕ, ◌<◌, ◌≤◌, ◌≡◌, ◌≢◌, ◌⊎◌, refl, ap, ◌∙◌, inl, inr, List, [], ◌∷◌, ◌++◌, some, append_assoc,
  arith,
}
use mathlib.Core.Path.{subst}
use p.Common.Tests.{◌==◌, Bool-cases}
use p.Common.Lists.{length}
use p.Common.Maps.{lookup}
use p.Wire.Types.{Message}
use p.Client.Rpc.{replied, rpc_failed}
use p.Client.Mux.{CallMux}
use p.Client.Link.{Phase, returned, Caller, Link, Holds, set_phase, set_mux}
use p.Client.Link.Channels.{Below, Narrows}

-- A message that was read under a tag, after the first `since` messages.
abbrev pub Arrived : List (ℕ × Message) → ℕ → ℕ → Message → Type 0
Arrived inbox since tag msg =
    (front back : List (ℕ × Message)) × (inbox ≡ front ++ ((tag, msg) ∷ back))
    × (since ≤ length front)

-- The channel of a call: it waits under the call's tag only, and what it holds arrived for that tag.
pub record Owns (m : CallMux) (inbox : List (ℕ × Message)) (c : Caller) : Type 0 where
  pub below : c.ch < m.made
  pub since : c.since ≤ length inbox
  pub pending : (t : ℕ) → lookup t m.pending ≡ some c.ch → t ≡ c.tag
  pub sent : (msg : Message) → Holds m.sent c.ch msg → Arrived inbox c.since c.tag msg

pub record IsRouted (m : CallMux) (inbox : List (ℕ × Message)) (c : Caller) : Type 0 where
  pub owns : Owns m inbox c ⊎ ((e : List ℕ) × (c.phase ≡ returned (rpc_failed e)))
  pub arrived : (msg : Message) → c.phase ≡ returned (replied msg) → Arrived inbox c.since c.tag msg

pub record AllRouted (l : Link) : Type 0 where
  pub below : Below l.mux
  pub callers : (i : ℕ) → i < l.made → IsRouted l.mux l.inbox (l.callers i)

pub Below-Narrows : (m m' : CallMux) → Narrows m m' → Below m → Below m'
Below-Narrows m m' x b = record {
  pending = λ t ch h. elim (x.pending t ch h) [
    | inl old ↦ omega (arith, b.pending t ch old, x.made)
    | inr new ↦ new.1
  ];
  sent = λ ch msg h. omega (arith, b.sent ch msg (subst (λ s. Holds s ch msg) x.sent h), x.made);
}

pub Owns-Narrows :
    (m m' : CallMux) (inbox : List (ℕ × Message)) (c : Caller)
    → Narrows m m'
    → Owns m inbox c
    → Owns m' inbox c
Owns-Narrows m m' inbox c x o = record {
  below = omega (arith, o.below, x.made);
  since = o.since;
  pending = λ t h. elim (x.pending t c.ch h) [
    | inl old ↦ o.pending t old
    | inr new ↦ absurd (omega (arith, new.0, o.below))
  ];
  sent = λ msg h. o.sent msg (subst (λ s. Holds s c.ch msg) x.sent h);
}

pub IsRouted-Narrows :
    (m m' : CallMux) (inbox : List (ℕ × Message)) (c : Caller)
    → Narrows m m'
    → IsRouted m inbox c
    → IsRouted m' inbox c
IsRouted-Narrows m m' inbox c x r = record {
  owns = elim r.owns [ inl o ↦ inl (Owns-Narrows m m' inbox c x o) | inr e ↦ inr e ];
  arrived = r.arrived;
}

-- A step of the mux alone.
pub set_mux-AllRouted :
    (l : Link) (m : CallMux) → Narrows l.mux m → AllRouted l → AllRouted (set_mux l m)
set_mux-AllRouted l m x a = record {
  below = Below-Narrows l.mux m x a.below;
  callers = λ i h. IsRouted-Narrows l.mux m l.inbox (l.callers i) x (a.callers i h);
}

-- A call moves on to another phase.
pub set_phase-AllRouted :
    (l : Link) (i : ℕ) (p : Phase)
    → (i < l.made → IsRouted l.mux l.inbox (record (l.callers i) { phase = p }))
    → AllRouted l
    → AllRouted (set_phase l i p)
set_phase-AllRouted l i p r a = record {
  below = a.below;
  callers = λ j h. elim (Bool-cases (j == i)) [
    | inl here ↦ rw here (r (ground (arith, here, h)))
    | inr other ↦ rw other (a.callers j h)
  ];
}

-- A call that has not returned owns its channel.
pub owned :
    (m : CallMux) (inbox : List (ℕ × Message)) (c : Caller)
    → ((e : List ℕ) → c.phase ≢ returned (rpc_failed e))
    → IsRouted m inbox c
    → Owns m inbox c
owned m inbox c on r = elim r.owns [ inl o ↦ o | inr e ↦ absurd (on e.0 e.1) ]

-- It moves on to a phase that is no return with a message.
pub moved :
    (m : CallMux) (inbox : List (ℕ × Message)) (c : Caller) (p : Phase)
    → Owns m inbox c
    → ((msg : Message) → p ≢ returned (replied msg))
    → IsRouted m inbox (record c { phase = p })
moved m inbox c p o on = record {
  owns = inl (record { below = o.below; since = o.since; pending = o.pending; sent = o.sent });
  arrived = λ msg h. absurd (on msg h);
}

pub failed_call :
    (m : CallMux) (inbox : List (ℕ × Message)) (c : Caller) (e : List ℕ)
    → IsRouted m inbox (record c { phase = returned (rpc_failed e) })
failed_call m inbox c e = record { owns = inr (e, refl); arrived = λ msg h. cc h }

pub Arrived-later :
    (inbox : List (ℕ × Message)) (x : ℕ × Message) (since tag : ℕ) (msg : Message)
    → Arrived inbox since tag msg
    → Arrived (inbox ++ (x ∷ [])) since tag msg
Arrived-later inbox x since tag msg (front, back, e, h) = (
  front,
  back ++ (x ∷ []),
  ap (λ l. l ++ (x ∷ [])) e ∙ append_assoc front ((tag, msg) ∷ back) (x ∷ []),
  h,
)
