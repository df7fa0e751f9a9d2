-- ===== src/Wire/Framing/Limits.antt =====
-- framing.go: what ReadMessage hands on.
use p.Common.{
  ℕ, ◌-◌, ◌≤◌, ◌≡◌, sym, ap, ◌∙◌, ◌⊎◌, inl, inr, List, [], ◌∷◌, ◌++◌, append_assoc, arith,
}
use p.Common.Lists.{length, length-append, take, take-append, take-append-drop, length-take}
use p.Common.Bytes.{le_value}
use p.Wire.Types.{ok, Result-cases}
use p.Wire.Framing.{read_full, read_body, read_message}

read_full_success :
    (n : ℕ) (r bs rest : List ℕ)
    → read_full n r ≡ ok (bs, rest)
    → (r ≡ bs ++ rest) × (length bs ≡ n)
unfolding read_full
read_full_success n [] bs rest e = cc
read_full_success n (b ∷ r) bs rest e =
    ground (arith, take-append-drop n (b ∷ r), length-take n (b ∷ r))

-- The size that the prefix says lies between the smallest message and the limit.
abbrev pub InLimits : ℕ → ℕ → Type 0
InLimits msize size = (7 ≤ size) × ((msize ≡ 0) ⊎ (size ≤ msize))

read_body_success :
    (szb r raw rest : List ℕ) (msize : ℕ)
    → read_body szb r msize ≡ ok (raw, rest)
    → InLimits msize (le_value szb)
      × ((bs : List ℕ) × (raw ≡ szb ++ bs) × (read_full (le_value szb - 4) r ≡ ok (bs, rest)))
unfolding read_body
read_body_success szb r raw rest msize e = elim (Result-cases (read_full (le_value szb - 4) r)) [
  | inl ((bs, r'), e') ↦ ((ground arith, ground arith), (bs, ground arith, ground arith))
  | inr (x, e') ↦ absurd (ground arith)
]

read_message_success :
    (r raw rest : List ℕ) (msize : ℕ)
    → read_message r msize ≡ ok (raw, rest)
    → (szb r' : List ℕ) × (read_full 4 r ≡ ok (szb, r')) × (read_body szb r' msize ≡ ok (raw, rest))
unfolding read_message
read_message_success r raw rest msize e = elim (Result-cases (read_full 4 r)) [
  | inl ((szb, r'), e') ↦ (szb, r', e', ground arith)
  | inr (x, e') ↦ absurd (ground arith)
]

-- ReadMessage hands on a front of the input, which is as long as its first four bytes say, not
-- shorter than the smallest message and, if there is a limit, not longer than that; the rest of the
-- input is left to the next call.
pub read_message_limits :
    (r raw rest : List ℕ) (msize : ℕ)
    → read_message r msize ≡ ok (raw, rest)
    → (r ≡ raw ++ rest) × (length raw ≡ le_value (take 4 raw)) × InLimits msize (length raw)
read_message_limits r raw rest msize e =
    let (szb, r', e4, eb) = read_message_success r raw rest msize e in
    let (front, four) = read_full_success 4 r szb r' e4 in
    let (limits, (bs, eq, en)) = read_body_success szb r' raw rest msize eb in
    let (back, len) = read_full_success (le_value szb - 4) r' bs rest en in
    let size : length raw ≡ le_value szb =
      omega (arith, ap length eq, length-append szb bs, limits.0) in
    (
      front ∙ ap (◌++◌ szb) back ∙ sym (append_assoc szb bs rest) ∙ ap (λ x. x ++ rest) (sym eq),
      size ∙ ap le_value (sym (ap (take 4) eq ∙ take-append szb bs 4 four)),
      rw size limits,
    )
