-- ===== src/Client/Link/Delivery.antt =====
-- client/client.go and client/mux.go: what readLoop does with a message.
use p.Common.{ℕ, ◌+◌, ◌≡◌, ap, ◌∙◌, inl, inr, List, [], ◌∷◌, ◌++◌, some, arith}
use p.Common.Tests.{Option-cases}
use p.Common.Lists.{length, length-append}
use p.Common.Maps.{lookup, delete, lookup-delete}
use p.Wire.Types.{Message}
use p.Client.Mux.{CallMux, deliver}
use p.Client.Link.{Caller, Link, take_in}
use p.Client.Link.Channels.{Below}
use p.Client.Link.Owners.{Owns, IsRouted, AllRouted, Arrived-later}

module _ (m : CallMux) (inbox : List (ℕ × Message)) (tag : ℕ) (msg : Message) where
  abbrev longer : List (ℕ × Message)
  longer = inbox ++ ((tag, msg) ∷ [])

  length-longer : length longer ≡ length inbox + 1
  length-longer = length-append inbox ((tag, msg) ∷ [])

  -- The mux after the message goes into the channel `ch`.
  abbrev into : ℕ → CallMux
  into ch = record m { pending = delete tag m.pending; sent = (ch, msg) ∷ m.sent }

  still_pending :
      (t ch : ℕ) → lookup t (delete tag m.pending) ≡ some ch → lookup t m.pending ≡ some ch
  still_pending t ch h = ground (arith, lookup-delete {V = ℕ} tag t m.pending, h)

  Owns-dropped : (c : Caller) → Owns m inbox c → Owns m longer c
  Owns-dropped c o = record {
    below = o.below;
    since = omega (arith, o.since, length-longer);
    pending = o.pending;
    sent = λ x h. Arrived-later inbox (tag, msg) c.since c.tag x (o.sent x h);
  }

  Owns-into :
      (ch : ℕ)
      → lookup tag m.pending ≡ some ch
      → (c : Caller) → Owns m inbox c
      → Owns (into ch) longer c
  Owns-into ch e c o = record {
    below = o.below;
    since = omega (arith, o.since, length-longer);
    pending = λ t h. o.pending t (still_pending t c.ch h);
    sent = λ x h. elim h [
      | inl new ↦
          let same : tag ≡ c.tag = o.pending tag (e ∙ ap some new.0) in
          (inbox, [], ap (λ y. inbox ++ (y ∷ [])) (cc (same, new.1)), o.since)
      | inr old ↦ Arrived-later inbox (tag, msg) c.since c.tag x (o.sent x old)
    ];
  }

  Below-into : (ch : ℕ) → lookup tag m.pending ≡ some ch → Below m → Below (into ch)
  Below-into ch e b = record {
    pending = λ t d h. b.pending t d (still_pending t d h);
    sent = λ d x h. elim h [
      | inl new ↦ omega (arith, b.pending tag ch e, new.0)
      | inr old ↦ b.sent d x old
    ];
  }

  IsRouted-longer :
      (m' : CallMux) (c : Caller)
      → (Owns m inbox c → Owns m' longer c)
      → IsRouted m inbox c
      → IsRouted m' longer c
  IsRouted-longer m' c f r = record {
    owns = elim r.owns [ inl o ↦ inl (f o) | inr e ↦ inr e ];
    arrived = λ x h. Arrived-later inbox (tag, msg) c.since c.tag x (r.arrived x h);
  }

pub take_in-AllRouted :
    (l : Link) (tag : ℕ) (msg : Message) → AllRouted l → AllRouted (take_in l tag msg)
unfolding take_in deliver
take_in-AllRouted l tag msg a = elim (Option-cases (lookup tag l.mux.pending)) [
  | inl e ↦
      rw (take_in, deliver, e)
        (record {
          below = a.below;
          callers = λ i h.
              IsRouted-longer l.mux l.inbox tag msg l.mux (l.callers i)
                (Owns-dropped l.mux l.inbox tag msg (l.callers i)) (a.callers i h);
        })
  | inr (ch, e) ↦
      rw (take_in, deliver, e)
        (record {
          below = Below-into l.mux l.inbox tag msg ch e a.below;
          callers = λ i h.
              IsRouted-longer l.mux l.inbox tag msg (into l.mux l.inbox tag msg ch) (l.callers i)
                (Owns-into l.mux l.inbox tag msg ch e (l.callers i)) (a.callers i h);
        })
]
