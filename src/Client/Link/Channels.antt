-- ===== src/Client/Link/Channels.antt =====
-- client/mux.go: what its methods do to channels that are in use.
use p.Common.{
  ℕ, zero, suc, ◌+◌, ◌%◌, ◌^◌, ◌<◌, ◌≤◌, ◌≡◌, ◌⊎◌, refl, sym, ap, ◌∙◌, inl, inr, List, some, arith,
}
use p.Common.Tests.{Bool-cases}
use p.Common.Maps.{lookup, lookup-delete, lookup-insert}
use p.Wire.Types.{Message}
use p.Client.Mux.{
  CallMux, Registered, granted, grant, passes_over, register_rounds, register_loop, register_in,
  register, forget, close_all,
}
use p.Client.Link.{Holds}

-- The channels in use were made.
pub record Below (m : CallMux) : Type 0 where
  pub pending : (t ch : ℕ) → lookup t m.pending ≡ some ch → ch < m.made
  pub sent : (ch : ℕ) (msg : Message) → Holds m.sent ch msg → ch < m.made

-- A change of the mux that puts no message into a channel, and lets only new channels wait.
pub record Narrows (m m' : CallMux) : Type 0 where
  pub made : m.made ≤ m'.made
  pub pending :
      (t ch : ℕ)
      → lookup t m'.pending ≡ some ch
      → (lookup t m.pending ≡ some ch) ⊎ ((m.made ≤ ch) × (ch < m'.made))
  pub sent : m'.sent ≡ m.sent

pub Narrows-same :
    (m m' : CallMux) → m'.made ≡ m.made → m'.pending ≡ m.pending → m'.sent ≡ m.sent → Narrows m m'
Narrows-same m m' a b c = record {
  made = omega (arith, a);
  pending = λ t ch h. inl (ap (lookup t) (sym b) ∙ h);
  sent = c;
}

pub forget-Narrows : (m : CallMux) (t : ℕ) → Narrows m (forget m t)
unfolding forget
forget-Narrows m t = record {
  made = omega arith;
  pending = λ k ch h. inl (ground (arith, lookup-delete {V = ℕ} t k m.pending, h));
  sent = refl;
}

pub close_all-Narrows : (m : CallMux) (e : List ℕ) → Narrows m (close_all m e)
unfolding close_all lookup
close_all-Narrows m e = record {
  made = ground arith;
  pending = λ k ch h. ground (arith, h);
  sent = ground arith;
}

pub grant-Narrows : (m : CallMux) (t : ℕ) → Narrows m (grant m t).0
unfolding grant
grant-Narrows m t = record {
  made = omega arith;
  pending = λ k ch h. ground (arith, lookup-insert {V = ℕ} t k m.made m.pending, h);
  sent = refl;
}

-- What register does, and which channel it makes.
abbrev pub Registers : CallMux → CallMux × Registered → Type 0
Registers m r =
    Narrows m r.0
    × ((t ch : ℕ)
        → r.1 ≡ granted t ch
        → (ch ≡ m.made)
          × (ch < r.0.made)
          × ((k : ℕ) → lookup k r.0.pending ≡ some ch → (k ≡ t) ⊎ (lookup k m.pending ≡ some ch)))

pub Registers-advance :
    (m : CallMux) (n : ℕ) (r : CallMux × Registered)
    → Registers (record m { next = n }) r
    → Registers m r
Registers-advance m n r (x, g) = (record { made = x.made; pending = x.pending; sent = x.sent }, g)

pub grant-Registers : (m : CallMux) (t : ℕ) → Registers m (grant m t)
grant-Registers m t = (grant-Narrows m t, made)
  where
    made :
        (s ch : ℕ)
        → (grant m t).1 ≡ granted s ch
        → (ch ≡ m.made)
          × (ch < (grant m t).0.made)
          × ((k : ℕ)
              → lookup k (grant m t).0.pending ≡ some ch
              → (k ≡ s) ⊎ (lookup k m.pending ≡ some ch))
    made s ch h =
        unfold grant in
        let same : s ≡ t = cc h in
        let here : ch ≡ m.made = cc h in
        (
          here,
          omega (arith, here),
          λ k g. ground (arith, lookup-insert {V = ℕ} t k m.made m.pending, g, same),
        )

pub register_loop-Registers : (rounds : ℕ) (m : CallMux) → Registers m (register_loop rounds m)
unfolding register_loop
register_loop-Registers zero m = (Narrows-same m m refl refl refl, λ t ch h. cc h)
register_loop-Registers (suc rounds) m =
    let m' : CallMux = record m { next = (m.next + 1) % 2 ^ 16 } in
    elim (Bool-cases (passes_over m m.next)) [
      | inl busy ↦ rw busy (Registers-advance m _ _ (register_loop-Registers rounds m'))
      | inr free ↦ rw free (Registers-advance m _ _ (grant-Registers m' m.next))
    ]

pub register-Registers : (m : CallMux) → Registers m (register m)
unfolding register register_in
register-Registers m = elim (Bool-cases m.closed) [
  | inl shut ↦ simp shut (Narrows-same m m refl refl refl, λ t ch h. cc h)
  | inr on ↦ simp on (register_loop-Registers register_rounds m)
]
