-- ===== src/Client/Mux/Invariant.antt =====
-- client/mux.go: a channel is waited on under one tag, and is used once.
use p.Common.{
  ℕ, zero, suc, ◌+◌, ◌%◌, ◌^◌, ◌≤◌, ◌≡◌, refl, inl, inr, List, [], ◌∷◌, false, some, arith,
}
use p.Common.Tests.{◌==◌, if◌then◌else◌, Bool-cases, Option-cases}
use p.Common.Maps.{lookup, delete, insert}
use p.Wire.Types.{Message}
use p.Client.Mux.{
  CallMux, new_call_mux, grant, is_busy, passes_over, register_loop, register_in, register,
  register_tag, forget, deliver, channels, close_all,
}

abbrev pub tick : ℕ → ℕ → ℕ
tick c x = if c == x then 1 else 0

-- How often a channel is waited on, was sent a message, or was closed.
abbrev pub waiting : ℕ → List (ℕ × ℕ) → ℕ
waiting x [] = 0
waiting x ((t, c) ∷ m) = tick c x + waiting x m

abbrev pub receipts : ℕ → List (ℕ × Message) → ℕ
receipts x [] = 0
receipts x ((c, msg) ∷ m) = tick c x + receipts x m

abbrev pub closings : ℕ → List ℕ → ℕ
closings x [] = 0
closings x (c ∷ cs) = tick c x + closings x cs

abbrev pub uses : CallMux → ℕ → ℕ
uses m x = waiting x m.pending + receipts x m.sent + closings x m.shut

-- Every channel is waited on under one tag at most, or else was sent one message, or else was closed
-- once; and a channel that has not been made is not used.
pub record IsSound (m : CallMux) : Type 0 where
  pub once : (x : ℕ) → uses m x ≤ 1
  pub unmade : (x : ℕ) → m.made ≤ x → uses m x ≡ 0
  pub open_shut : m.closed ≡ false → m.shut ≡ []

pub waiting-delete : (x k : ℕ) (m : List (ℕ × ℕ)) → waiting x (delete k m) ≤ waiting x m
unfolding delete
waiting-delete x k [] = omega arith
waiting-delete x k ((t, c) ∷ m) = ground (arith, waiting-delete x k m)

pub waiting-delete_found :
    (x k c : ℕ) (m : List (ℕ × ℕ))
    → lookup k m ≡ some c
    → waiting x (delete k m) + tick c x ≤ waiting x m
unfolding delete lookup
waiting-delete_found x k c [] h = cc
waiting-delete_found x k c ((t, d) ∷ m) h =
    ground (arith, waiting-delete x k m, waiting-delete_found x k c m)

pub waiting-insert :
    (x k c : ℕ) (m : List (ℕ × ℕ)) → waiting x (insert k c m) ≤ tick c x + waiting x m
unfolding insert
waiting-insert x k c m = omega (arith, waiting-delete x k m)

pub closings-channels : (x : ℕ) (m : List (ℕ × ℕ)) → closings x (channels m) ≡ waiting x m
closings-channels x [] = refl
closings-channels x ((t, c) ∷ m) = omega (arith, closings-channels x m)

grant-IsSound : (m : CallMux) (t : ℕ) → IsSound m → IsSound (grant m t).0
unfolding grant
grant-IsSound m t s = record {
  once = λ x. ground (arith, waiting-insert x t m.made m.pending, s.once x, s.unmade x);
  unmade = λ x h. ground (arith, waiting-insert x t m.made m.pending, s.unmade x);
  open_shut = s.open_shut;
}

-- Only `next` differs.
advance-IsSound : (m : CallMux) (n : ℕ) → IsSound m → IsSound (record m { next = n })
advance-IsSound m n s = record { once = s.once; unmade = s.unmade; open_shut = s.open_shut }

register_loop-IsSound : (rounds : ℕ) (m : CallMux) → IsSound m → IsSound (register_loop rounds m).0
unfolding register_loop
register_loop-IsSound zero m s = s
register_loop-IsSound (suc rounds) m s =
    let m' : CallMux = record m { next = (m.next + 1) % 2 ^ 16 } in
    elim (Bool-cases (passes_over m m.next)) [
      | inl busy ↦ rw busy (register_loop-IsSound rounds m' (advance-IsSound m _ s))
      | inr free ↦ rw free (grant-IsSound m' m.next (advance-IsSound m _ s))
    ]

register_in-IsSound : (rounds : ℕ) (m : CallMux) → IsSound m → IsSound (register_in rounds m).0
unfolding register_in
register_in-IsSound rounds m s = elim (Bool-cases m.closed) [
  | inl shut ↦ simp shut s
  | inr on ↦ simp on (register_loop-IsSound rounds m s)
]

register_tag-IsSound : (m : CallMux) (t : ℕ) → IsSound m → IsSound (register_tag m t).0
unfolding register_tag
register_tag-IsSound m t s = elim (Bool-cases m.closed) [
  | inl shut ↦ simp shut s
  | inr on ↦ elim (Bool-cases (is_busy (lookup t m.pending))) [
    | inl busy ↦ simp (on, busy) s
    | inr free ↦ simp (on, free) (grant-IsSound m t s)
  ]
]

forget-IsSound : (m : CallMux) (t : ℕ) → IsSound m → IsSound (forget m t)
unfolding forget
forget-IsSound m t s = record {
  once = λ x. omega (arith, waiting-delete x t m.pending, s.once x);
  unmade = λ x h. omega (arith, waiting-delete x t m.pending, s.unmade x h);
  open_shut = s.open_shut;
}

deliver-IsSound : (m : CallMux) (t : ℕ) (msg : Message) → IsSound m → IsSound (deliver m t msg)
unfolding deliver
deliver-IsSound m t msg s = elim (Option-cases (lookup t m.pending)) [
  | inl e ↦ rw (e, deliver) s
  | inr (ch, e) ↦
      rw (e, deliver)
        (record {
          once = λ x. omega (arith, waiting-delete_found x t ch m.pending e, s.once x);
          unmade = λ x h. omega (arith, waiting-delete_found x t ch m.pending e, s.unmade x h);
          open_shut = s.open_shut;
        })
]

close_all-IsSound : (m : CallMux) (err : List ℕ) → IsSound m → IsSound (close_all m err)
unfolding close_all
close_all-IsSound m err s = elim (Bool-cases m.closed) [
  | inl shut ↦ simp shut s
  | inr on ↦ simp on (record {
    once = λ x. ground (arith, closings-channels x m.pending, s.once x);
    unmade = λ x h. ground (arith, closings-channels x m.pending, s.unmade x h);
    open_shut = λ e. cc;
  })
]

-- The calls that the client makes on its mux.
pub data Call : Type 0 where
  registers : Call
  registers_tag forgets : ℕ → Call
  delivers : ℕ → Message → Call
  closes : List ℕ → Call

unfoldable pub step : CallMux → Call → CallMux
step m registers = (register m).0
step m (registers_tag t) = (register_tag m t).0
step m (forgets t) = forget m t
step m (delivers t msg) = deliver m t msg
step m (closes err) = close_all m err

unfoldable pub run : CallMux → List Call → CallMux
run m [] = m
run m (c ∷ cs) = run (step m c) cs

new_call_mux-IsSound : IsSound new_call_mux
unfolding new_call_mux
new_call_mux-IsSound = record {
  once = λ x. omega arith;
  unmade = λ x h. omega arith;
  open_shut = λ e. refl;
}

step-IsSound : (m : CallMux) (c : Call) → IsSound m → IsSound (step m c)
unfolding step register
step-IsSound m registers s = register_in-IsSound _ m s
step-IsSound m (registers_tag t) s = register_tag-IsSound m t s
step-IsSound m (forgets t) s = forget-IsSound m t s
step-IsSound m (delivers t msg) s = deliver-IsSound m t msg s
step-IsSound m (closes err) s = close_all-IsSound m err s

run-IsSound : (cs : List Call) (m : CallMux) → IsSound m → IsSound (run m cs)
unfolding run
run-IsSound [] m s = s
run-IsSound (c ∷ cs) m s = run-IsSound cs (step m c) (step-IsSound m c s)

-- After any calls on a new mux, in any order: the tags under which a channel is waited on, the
-- messages that were sent into it and the times it was closed are one in all, at most; a channel
-- that has not been made has none of these; and none was closed while the mux is open.
pub run-new_call_mux-IsSound : (cs : List Call) → IsSound (run new_call_mux cs)
run-new_call_mux-IsSound cs = run-IsSound cs new_call_mux new_call_mux-IsSound
