-- ===== src/Wire/Framing/Reject.antt =====
-- framing.go: messages that UnmarshalVersion refuses.
use p.Common.{ℕ, ◌+◌, ◌≤◌, ◌<◌, ◌≡◌, ◌≢◌, sym, ap, ◌∙◌, List, ◌∷◌, ◌++◌, Bool, arith}
use p.Common.Lists.{length, length-append, take, take-append, take-append_front}
use p.Common.Bytes.{le_bytes, le_value, length-le_bytes, le_value-le_bytes}
use p.Wire.Types.{Message, truncated, msg_too_large, ok, err}
use p.Wire.Framing.{
  read_full, read_body, read_message, marshal_rest, marshal_version, unmarshal_version,
}
use p.Wire.Framing.RoundTrip.{
  FitsSize, length-marshal_version, length-marshal_rest, read_full-append, marshal_version_lem,
}

-- The prefix says the length of the whole message.
prefix_of :
    (tag : ℕ) (m : Message) (u : Bool) (front back : List ℕ)
    → FitsSize tag m u
    → marshal_version tag m u ≡ front ++ back
    → 4 ≤ length front
    → le_value (take 4 front) ≡ length front + length back
prefix_of tag m u front back hs e h =
    let n : ℕ = length (marshal_version tag m u) in
    let whole : front ++ back ≡ le_bytes 4 n ++ marshal_rest tag m u =
      sym e ∙ marshal_version_lem tag m u hs in
    let four : take 4 front ≡ le_bytes 4 n =
      sym (take-append_front 4 front back h)
      ∙ ap (take 4) whole
      ∙ take-append (le_bytes 4 n) (marshal_rest tag m u) 4 (length-le_bytes 4 n) in
    rw (four, le_value-le_bytes 4 n hs) (ap length e ∙ length-append front back)

-- UnmarshalVersion answers ErrTruncated, with tag 0, on every proper front of what MarshalVersion
-- wrote for a message that fits its size prefix.
pub unmarshal_truncated :
    (tag : ℕ) (m : Message) (u : Bool) (front back : List ℕ) (x : ℕ)
    → FitsSize tag m u
    → marshal_version tag m u ≡ front ++ (x ∷ back)
    → unmarshal_version front u ≡ (0, err truncated)
unfolding unmarshal_version
unmarshal_truncated tag m u front back x hs e =
    ground (arith, prefix_of tag m u front (x ∷ back) hs e)

-- ReadMessage refuses a message that is longer than its limit.
pub read_message-too_large :
    (tag : ℕ) (m : Message) (u : Bool) (msize : ℕ)
    → FitsSize tag m u
    → msize ≢ 0
    → msize < length (marshal_version tag m u)
    → read_message (marshal_version tag m u) msize ≡ err msg_too_large
unfolding read_message read_body
read_message-too_large tag m u msize hs h k =
    let n : ℕ = length (marshal_version tag m u) in
    let four : read_full 4 (le_bytes 4 n ++ marshal_rest tag m u)
        ≡ ok (le_bytes 4 n, marshal_rest tag m u) =
      read_full-append 4 (le_bytes 4 n) (marshal_rest tag m u) (omega arith)
        (length-le_bytes 4 n) in
    ground (
      arith,
      marshal_version_lem tag m u hs,
      four,
      le_value-le_bytes 4 n hs,
      length-marshal_version tag m u,
      length-marshal_rest tag m u,
    )
