-- ===== src/Wire/Framing/Canonical.antt =====
-- framing.go: what UnmarshalVersion accepts is what MarshalVersion writes.
use p.Common.{ℕ, ◌+◌, ◌≤◌, ◌<◌, ◌^◌, ◌%◌, ◌≡◌, refl, sym, ap, ◌∙◌, List, ◌++◌, Bool, none, arith}
use mathlib.Core.Path.{subst, ap₂}
use p.Common.Lists.{
  length, length-append, length-drop, take, drop, drop_split, length-take, All-take, All-drop,
}
use p.Common.Bytes.{
  IsByte, IsBytes, le_bytes, length-le_bytes, le_value, le_bytes-le_value, le_value-lt,
}
use p.Wire.Types.{Message, ok}
use p.Wire.Decode.{done}
use p.Wire.Forward.{good}
use p.Wire.Backward.{Consumes-done}
use p.Wire.Fcall.Types.{new_message, msg_type}
use p.Wire.Fcall.Encode.{marshal_body}
use p.Wire.Fcall.Decode.{unmarshal_body}
use p.Wire.Fcall.RoundTrip.{Fits, blank}
use p.Wire.Fcall.Canonical.{Body, unmarshal_body-Consumes}
use p.Wire.Framing.{marshal_rest, marshal_version, decode_body, unmarshal_version}

new_message_success :
    (t : ℕ) (z : Message) → new_message t ≡ ok z → (z ≡ blank z) × (msg_type z ≡ t)
unfolding new_message msg_type
new_message_success t z e = ground arith

decode_body_success :
    (t : ℕ) (z m : Message) (b : List ℕ) (u : Bool)
    → decode_body t z b u ≡ ok m
    → ((unmarshal_body z (good u b)).0 ≡ m) × (done (unmarshal_body z (good u b)).1 ≡ none)
unfolding decode_body
decode_body_success t z m b u e = ground arith

unmarshal_success :
    (raw : List ℕ) (tag : ℕ) (m : Message) (u : Bool)
    → unmarshal_version raw u ≡ (tag, ok m)
    → (7 ≤ length raw)
      × (le_value (take 4 raw) ≡ length raw)
      × (le_value (take 2 (drop 5 raw)) ≡ tag)
      × ((z : Message) × (new_message (le_value (take 1 (drop 4 raw))) ≡ ok z)
          × (decode_body (le_value (take 1 (drop 4 raw))) z (drop 7 raw) u ≡ ok m))
unfolding unmarshal_version
unmarshal_success raw tag m u e = (ground arith, ground arith, ground arith, ground arith)

-- The fields of a message, cut off its front.
raw_parts :
    (raw : List ℕ)
    → raw ≡ take 4 raw ++ (take 1 (drop 4 raw) ++ (take 2 (drop 5 raw) ++ drop 7 raw))
raw_parts raw =
    drop_split 0 4 raw
    ∙ ap (◌++◌ (take 4 raw))
        (drop_split 4 1 raw ∙ ap (◌++◌ (take 1 (drop 4 raw))) (drop_split 5 2 raw))

-- `n` bytes are the encoding of their value.
field_bytes :
    (n : ℕ) (bs : List ℕ)
    → IsBytes bs
    → length bs ≡ n
    → (bs ≡ le_bytes n (le_value bs)) × (le_value bs < 256 ^ n)
field_bytes n bs h e = rw (← e) (sym (le_bytes-le_value bs h), le_value-lt bs h)

decoded-Body :
    (z m : Message) (b : List ℕ) (u : Bool) (t : ℕ)
    → z ≡ blank z
    → IsBytes b
    → decode_body t z b u ≡ ok m
    → Body u z m b
decoded-Body z m b u t e hb h =
    let (eq, fine) = decode_body_success t (blank z) m b u (rw e at h) in
    subst (λ x. Body u z x b) eq
      (Consumes-done (good u b) (unmarshal_body-Consumes u z) refl hb fine)

rest_bytes :
    (raw : List ℕ) (tag : ℕ) (m : Message) (u : Bool)
    → take 1 (drop 4 raw) ≡ le_bytes 1 (msg_type m)
    → take 2 (drop 5 raw) ≡ le_bytes 2 tag
    → drop 7 raw ≡ marshal_body u m
    → take 1 (drop 4 raw) ++ (take 2 (drop 5 raw) ++ drop 7 raw) ≡ marshal_rest tag m u
unfolding marshal_rest
rest_bytes raw tag m u e1 e2 e3 = ap₂ ◌++◌ e1 (ap₂ ◌++◌ e2 e3)

assemble :
    (raw : List ℕ) (tag : ℕ) (m : Message) (u : Bool)
    → take 4 raw ≡ le_bytes 4 (length raw)
    → length raw < 2 ^ 32
    → take 1 (drop 4 raw) ++ (take 2 (drop 5 raw) ++ drop 7 raw) ≡ marshal_rest tag m u
    → marshal_version tag m u ≡ raw
unfolding marshal_version
assemble raw tag m u e4 small er =
    let whole : raw ≡ le_bytes 4 (length raw) ++ marshal_rest tag m u =
      raw_parts raw ∙ ap₂ ◌++◌ e4 er in
    let len : length raw ≡ 4 + length (marshal_rest tag m u) =
      ap length whole
      ∙ length-append (le_bytes 4 (length raw)) (marshal_rest tag m u)
      ∙ ap (λ (n : ℕ). n + length (marshal_rest tag m u)) (length-le_bytes 4 (length raw)) in
    let prefix : (4 + length (marshal_rest tag m u)) % 2 ^ 32 ≡ length raw = omega arith in
    ap (λ (n : ℕ). le_bytes 4 n ++ marshal_rest tag m u) prefix ∙ sym whole

-- Whatever bytes UnmarshalVersion accepts are those that MarshalVersion writes for its result, and
-- that result fits the wire.
pub unmarshal-canonical :
    (raw : List ℕ) (tag : ℕ) (m : Message) (u : Bool)
    → IsBytes raw
    → unmarshal_version raw u ≡ (tag, ok m)
    → (marshal_version tag m u ≡ raw) × (tag < 2 ^ 16) × Fits u m
unmarshal-canonical raw tag m u hb e =
    let (long, size, htag, (z, hz, hd)) = unmarshal_success raw tag m u e in
    let (zb, ty) = new_message_success _ z hz in
    let (body, same, fits) = decoded-Body z m (drop 7 raw) u _ zb (All-drop IsByte 7 raw hb) hd in
    let (f4, lt4) = piece 0 4 (omega arith) in
    let (f1, lt1) = piece 4 1 (omega arith) in
    let (f2, lt2) = piece 5 2 (omega arith) in
    (
      assemble raw tag m u (f4 ∙ ap (le_bytes 4) size) (rw (← size) lt4) (
          rest_bytes raw tag m u (f1 ∙ ap (le_bytes 1) (sym (same ∙ ty)))
            (f2 ∙ ap (le_bytes 2) htag) body),
      rw (← htag) lt2,
      fits,
    )
  where
    piece :
        (i n : ℕ)
        → i + n ≤ length raw
        → (take n (drop i raw) ≡ le_bytes n (le_value (take n (drop i raw))))
          × (le_value (take n (drop i raw)) < 256 ^ n)
    piece i n h =
        field_bytes n (take n (drop i raw)) (All-take IsByte n _ (All-drop IsByte i raw hb))
          (length-take n (drop i raw) (omega (arith, length-drop i raw)))
