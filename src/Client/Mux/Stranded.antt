-- ===== src/Client/Mux/Stranded.antt =====
-- client/mux.go: a forgotten channel is never used again.
use p.Common.{ℕ, zero, suc, ◌+◌, ◌%◌, ◌^◌, ◌<◌, ◌≡◌, inl, inr, List, [], ◌∷◌, some, arith}
use p.Common.Tests.{Bool-cases, Option-cases}
use p.Common.Maps.{lookup}
use p.Wire.Types.{Message}
use p.Client.Mux.{
  CallMux, grant, is_busy, passes_over, register_loop, register_in, register, register_tag, forget,
  deliver, close_all,
}
use p.Client.Mux.Invariant.{
  uses, IsSound, Call, registers, registers_tag, forgets, delivers, closes, step, run,
  waiting-delete, waiting-delete_found, waiting-insert, closings-channels,
}

-- The channel was made; it is not waited on, was sent nothing, and was not closed.
record Unused (m : CallMux) (x : ℕ) : Type 0 where
  made : x < m.made
  none : uses m x ≡ 0

grant-Unused : (m : CallMux) (t x : ℕ) → Unused m x → Unused (grant m t).0 x
unfolding grant
grant-Unused m t x u = record {
  made = omega (arith, u.made);
  none = ground (arith, waiting-insert x t m.made m.pending, u.none, u.made);
}

register_loop-Unused :
    (rounds : ℕ) (m : CallMux) (x : ℕ) → Unused m x → Unused (register_loop rounds m).0 x
unfolding register_loop
register_loop-Unused zero m x u = u
register_loop-Unused (suc rounds) m x u =
    let m' : CallMux = record m { next = (m.next + 1) % 2 ^ 16 } in
    let u' : Unused m' x = record { made = u.made; none = u.none } in
    elim (Bool-cases (passes_over m m.next)) [
      | inl busy ↦ rw busy (register_loop-Unused rounds m' x u')
      | inr free ↦ rw free (grant-Unused m' m.next x u')
    ]

register_in-Unused :
    (rounds : ℕ) (m : CallMux) (x : ℕ) → Unused m x → Unused (register_in rounds m).0 x
unfolding register_in
register_in-Unused rounds m x u = elim (Bool-cases m.closed) [
  | inl shut ↦ simp shut u
  | inr on ↦ simp on (register_loop-Unused rounds m x u)
]

register_tag-Unused : (m : CallMux) (t x : ℕ) → Unused m x → Unused (register_tag m t).0 x
unfolding register_tag
register_tag-Unused m t x u = elim (Bool-cases m.closed) [
  | inl shut ↦ simp shut u
  | inr on ↦ elim (Bool-cases (is_busy (lookup t m.pending))) [
    | inl busy ↦ simp (on, busy) u
    | inr free ↦ simp (on, free) (grant-Unused m t x u)
  ]
]

forget-Unused : (m : CallMux) (t x : ℕ) → Unused m x → Unused (forget m t) x
unfolding forget
forget-Unused m t x u = record {
  made = u.made;
  none = omega (arith, waiting-delete x t m.pending, u.none);
}

deliver-Unused :
    (m : CallMux) (t : ℕ) (msg : Message) (x : ℕ) → Unused m x → Unused (deliver m t msg) x
unfolding deliver
deliver-Unused m t msg x u = elim (Option-cases (lookup t m.pending)) [
  | inl e ↦ rw (e, deliver) u
  | inr (ch, e) ↦
      rw (e, deliver)
        (record {
          made = u.made;
          none = omega (arith, waiting-delete_found x t ch m.pending e, u.none);
        })
]

close_all-Unused : (m : CallMux) (err : List ℕ) (x : ℕ) → Unused m x → Unused (close_all m err) x
unfolding close_all
close_all-Unused m err x u = elim (Bool-cases m.closed) [
  | inl shut ↦ simp shut u
  | inr on ↦
      simp on
        (record { made = u.made; none = ground (arith, closings-channels x m.pending, u.none) })
]

step-Unused : (m : CallMux) (c : Call) (x : ℕ) → Unused m x → Unused (step m c) x
unfolding step register
step-Unused m registers x u = register_in-Unused _ m x u
step-Unused m (registers_tag t) x u = register_tag-Unused m t x u
step-Unused m (forgets t) x u = forget-Unused m t x u
step-Unused m (delivers t msg) x u = deliver-Unused m t msg x u
step-Unused m (closes err) x u = close_all-Unused m err x u

run-Unused : (cs : List Call) (m : CallMux) (x : ℕ) → Unused m x → Unused (run m cs) x
unfolding run
run-Unused [] m x u = u
run-Unused (c ∷ cs) m x u = run-Unused cs (step m c) x (step-Unused m c x u)

-- forget(tag) takes away the entry of whatever call waits under the tag, be it another than the caller's:
-- on a sound mux the channel of that entry is then sent no message and is not closed, whatever calls
-- follow, so that who waits on it waits for ever.
pub forget-uses :
    (m : CallMux) (t ch : ℕ) (cs : List Call)
    → IsSound m
    → ch < m.made
    → lookup t m.pending ≡ some ch
    → uses (run (forget m t) cs) ch ≡ 0
unfolding forget
forget-uses m t ch cs sound made e =
    (run-Unused cs (forget m t) ch (record {
      made = made;
      none = grind (arith, waiting-delete_found ch t ch m.pending e, sound.once ch);
    })).none
