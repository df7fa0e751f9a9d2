-- ===== src/Client/Mux/Tags.antt =====
-- client/mux.go: which tags register hands out.
use p.Common.{
  ℕ, zero, suc, ◌+◌, ◌-◌, ◌%◌, ◌^◌, ◌<◌, ◌≡◌, ◌≢◌, ◌⊎◌, refl, sym, ap, ◌∙◌, inl, inr, true, false,
  none, some, arith,
}
use p.Common.Tests.{Bool-cases}
use p.Common.Maps.{lookup, lookup-insert}
use p.Wire.Types.{text, no_tag}
use p.Client.Mux.{
  CallMux, Registered, granted, refused, grant, passes_over, register_rounds, register_loop,
  register_in, register,
}

-- A tag that may be handed out: no call waits on it, and it is not NoTag.
abbrev pub IsFree : CallMux → ℕ → Type 0
IsFree m t = (t ≢ no_tag) × (lookup t m.pending ≡ none)

-- What a call that hands out the tag `t` with the channel `ch` does: the channel is the next one to be
-- made, and the table gets an entry for it.
pub record Grants (m m' : CallMux) (t ch : ℕ) : Type 0 where
  pub free : IsFree m t
  pub bound : t < 2 ^ 16
  pub is_new : ch ≡ m.made
  pub made : m'.made ≡ m.made + 1
  pub waits : lookup t m'.pending ≡ some ch
  pub others : (k : ℕ) → k ≢ t → lookup k m'.pending ≡ lookup k m.pending

passes_over-IsFree : (m : CallMux) (t : ℕ) → passes_over m t ≡ false → IsFree m t
unfolding passes_over
passes_over-IsFree m t h = ground arith

IsFree-passes_over : (m : CallMux) (t : ℕ) → IsFree m t → passes_over m t ≡ false
unfolding passes_over
IsFree-passes_over m t h = ground arith

grant-Grants :
    (m m' : CallMux) (t s ch : ℕ)
    → IsFree m s
    → s < 2 ^ 16
    → grant m s ≡ (m', granted t ch)
    → Grants m m' t ch
unfolding grant
grant-Grants m m' t s ch f b e = record {
  free = ground arith;
  bound = ground arith;
  is_new = ground arith;
  made = ground arith;
  waits = ground (arith, lookup-insert {V = ℕ} s t m.made m.pending);
  others = λ k h. ground (arith, lookup-insert {V = ℕ} s k m.made m.pending);
}

-- The mux with `next` one further.
abbrev advance : CallMux → CallMux
advance m = record m { next = (m.next + 1) % 2 ^ 16 }

register_loop_busy :
    (rounds : ℕ) (m : CallMux)
    → passes_over m m.next ≡ true
    → register_loop (suc rounds) m ≡ register_loop rounds (advance m)
unfolding register_loop
register_loop_busy rounds m h = rw h

register_loop_free :
    (rounds : ℕ) (m : CallMux)
    → passes_over m m.next ≡ false
    → register_loop (suc rounds) m ≡ grant (advance m) m.next
unfolding register_loop
register_loop_free rounds m h = rw h

-- The rest of the table is not changed by a step of `next`.
advance-Grants : (m m' : CallMux) (t ch : ℕ) → Grants (advance m) m' t ch → Grants m m' t ch
advance-Grants m m' t ch g = record {
  free = g.free;
  bound = g.bound;
  is_new = g.is_new;
  made = g.made;
  waits = g.waits;
  others = g.others;
}

register_loop-Grants :
    (rounds : ℕ) (m m' : CallMux) (t ch : ℕ)
    → m.next < 2 ^ 16
    → register_loop rounds m ≡ (m', granted t ch)
    → Grants m m' t ch
register_loop-Grants zero m m' t ch b e = unfold register_loop in absurd (ground arith)
register_loop-Grants (suc rounds) m m' t ch b e =
    advance-Grants m m' t ch (elim (Bool-cases (passes_over m m.next)) [
      | inl busy ↦
          register_loop-Grants rounds (advance m) m' t ch (omega arith)
            (sym (register_loop_busy rounds m busy) ∙ e)
      | inr free ↦
          grant-Grants (advance m) m' t m.next ch (passes_over-IsFree m m.next free) b
            (sym (register_loop_free rounds m free) ∙ e)
    ])

register_in-open :
    (rounds : ℕ) (m : CallMux) → m.closed ≡ false → register_in rounds m ≡ register_loop rounds m
unfolding register_in
register_in-open rounds m on = simp on

register_in-shut :
    (rounds : ℕ) (m : CallMux) → m.closed ≡ true → register_in rounds m ≡ (m, refused m.close_err)
unfolding register_in
register_in-shut rounds m shut = simp shut

register-Grants :
    (m m' : CallMux) (t ch : ℕ)
    → m.next < 2 ^ 16
    → register m ≡ (m', granted t ch)
    → Grants m m' t ch
unfolding register
register-Grants m m' t ch b e = elim (Bool-cases m.closed) [
  | inl shut ↦ absurd (cc (register_in-shut register_rounds m shut))
  | inr on ↦
      register_loop-Grants register_rounds m m' t ch b
        (sym (register_in-open register_rounds m on) ∙ e)
]

-- A free tag at the distance `i` is reached, or an earlier one is.
register_loop_succeeds :
    (rounds : ℕ) (m : CallMux) (i t : ℕ)
    → m.next < 2 ^ 16
    → i < rounds
    → t ≡ (m.next + i) % 2 ^ 16
    → IsFree m t
    → (s ch : ℕ) × ((register_loop rounds m).1 ≡ granted s ch)
register_loop_succeeds zero m i t b h e f = absurd (omega arith)
register_loop_succeeds (suc rounds) m i t b h e f = elim (Bool-cases (passes_over m m.next)) [
  | inr free ↦ (m.next, m.made, rw (register_loop_free rounds m free) (unfold grant in refl))
  | inl busy ↦ rw (register_loop_busy rounds m busy) (
      register_loop_succeeds rounds (advance m) (i - 1) t (omega arith) (later busy)
        (omega (arith, moved busy)) f)
]
  where
    moved : passes_over m m.next ≡ true → i ≢ 0
    moved busy z =
        let same : t ≡ m.next = omega arith in
        cc (busy, IsFree-passes_over m t f, ap (passes_over m) same)

    later : passes_over m m.next ≡ true → i - 1 < rounds
    later busy = omega (arith, moved busy)

-- A tag is handed out if any tag but the one just before `next` is free.
register_succeeds :
    (m : CallMux) (i : ℕ)
    → m.closed ≡ false
    → m.next < 2 ^ 16
    → i < register_rounds
    → IsFree m ((m.next + i) % 2 ^ 16)
    → (t ch : ℕ) × ((register m).1 ≡ granted t ch)
unfolding register
register_succeeds m i on b h f =
    rw (register_in-open register_rounds m on)
      (register_loop_succeeds register_rounds m i _ b h refl f)

register_loop_misses :
    (rounds : ℕ) (m : CallMux)
    → m.next < 2 ^ 16
    → ((i : ℕ) → i < rounds → ¬ IsFree m ((m.next + i) % 2 ^ 16))
    → (register_loop rounds m).1 ≡ refused (text "client: no free tags")
register_loop_misses zero m b h = unfold register_loop in refl
register_loop_misses (suc rounds) m b h = elim (Bool-cases (passes_over m m.next)) [
  | inl busy ↦
      rw (register_loop_busy rounds m busy)
        (register_loop_misses rounds (advance m) (omega arith) further)
  | inr free ↦ absurd (h 0 (omega arith) (rw here (passes_over-IsFree m m.next free)))
]
  where
    here : (m.next + 0) % 2 ^ 16 ≡ m.next
    here = omega arith

    further : (i : ℕ) → i < rounds → ¬ IsFree m (((m.next + 1) % 2 ^ 16 + i) % 2 ^ 16)
    further i hi f =
        let same : ((m.next + 1) % 2 ^ 16 + i) % 2 ^ 16 ≡ (m.next + suc i) % 2 ^ 16 = omega arith in
        h (suc i) (omega arith) (rw (← same) f)

-- The tag just before `next` is never tried.
register_misses :
    (m : CallMux) (t : ℕ)
    → m.closed ≡ false
    → m.next < 2 ^ 16
    → t ≡ (m.next + register_rounds) % 2 ^ 16
    → ((k : ℕ) → k < 2 ^ 16 → k ≢ t → ¬ IsFree m k)
    → (register m).1 ≡ refused (text "client: no free tags")
unfolding register
register_misses m t on b h busy = rw (register_in-open register_rounds m on) (
    register_loop_misses register_rounds m b
      (λ i hi. busy _ (omega arith) (λ e. absurd (omega arith))))

-- A tag that is granted lies that many steps from `next` at most.
register_loop_near :
    (rounds : ℕ) (m : CallMux) (t ch : ℕ)
    → m.next < 2 ^ 16
    → (register_loop rounds m).1 ≡ granted t ch
    → (i : ℕ) × (i < rounds) × (t ≡ (m.next + i) % 2 ^ 16)
unfolding register_loop
register_loop_near zero m t ch b h = cc h
register_loop_near (suc rounds) m t ch b h = elim (Bool-cases (passes_over m m.next)) [
  | inr free ↦ (0, omega arith, unfold grant in ground (arith, free))
  | inl busy ↦
      let (i, near, at) =
        register_loop_near rounds (advance m) t ch (omega arith) (ground (arith, busy)) in
      (i + 1, omega (arith, near), omega (arith, at))
]

-- What register does on an open mux: it grants a free tag, or it answers that there is none, where no
-- tag but possibly the one just before `next` is free.
abbrev pub Finds : CallMux → CallMux × Registered → Type 0
Finds m (m', r) =
    ((t ch : ℕ) × (r ≡ granted t ch) × (t ≢ (m.next + register_rounds) % 2 ^ 16) × Grants m m' t ch)
    ⊎ ((r ≡ refused (text "client: no free tags"))
        × ((i : ℕ) → i < register_rounds → ¬ IsFree m ((m.next + i) % 2 ^ 16)))

-- register on a mux that is open, with `next` a uint16, hands out a tag that was free and is a uint16
-- other than NoTag, with a channel that is new, being the next one that the mux makes; that tag now
-- waits on this channel, and nothing else changes in the table. Or
-- else it answers that there is no free tag, and none is but possibly the tag just before `next`: that
-- one it never hands out.
pub register-Finds : (m : CallMux) → m.closed ≡ false → m.next < 2 ^ 16 → Finds m (register m)
unfolding register
register-Finds m on b = by_result (register m).1 refl
  where
    not_last : (t ch : ℕ) → (register m).1 ≡ granted t ch → t ≢ (m.next + register_rounds) % 2 ^ 16
    not_last t ch h last =
        let (i, near, at) =
          register_loop_near register_rounds m t ch b
            (rw (← register_in-open register_rounds m on) h) in
        omega (arith, near, at, last, b)

    by_result : (r : Registered) → (register m).1 ≡ r → Finds m (register m)
    by_result (granted t ch) h = inl (
      t,
      ch,
      h,
      not_last t ch h,
      register-Grants m (register m).0 t ch b (ap (λ r. ((register m).0, r)) h),
    )
    by_result (refused e) h = inr (
      rw (register_in-open register_rounds m on)
          (register_loop_misses register_rounds m b none_free),
      none_free,
    )
      where
        none_free : (i : ℕ) → i < register_rounds → ¬ IsFree m ((m.next + i) % 2 ^ 16)
        none_free i hi free = let (t, ch, g) = register_succeeds m i on b hi free in cc (h, g)
