-- ===== src/Wire/Framing/RoundTrip.antt =====
-- framing.go: reading and decoding what MarshalVersion wrote.
use p.Common.{
  ℕ, ◌+◌, ◌-◌, ◌≤◌, ◌<◌, ◌^◌, ◌%◌, ◌≡◌, ap, ◌⊎◌, List, [], ◌∷◌, ◌++◌, Bool, append_assoc,
  append-nil, arith,
}
use p.Common.Lists.{length, length-append, take-append, drop-append}
use p.Common.Bytes.{le_bytes, length-le_bytes, le_value-le_bytes}
use p.Wire.Types.{Message, ok}
use p.Wire.Decode.{done}
use p.Wire.Fcall.Types.{msg_type}
use p.Wire.Fcall.Encode.{marshal_body}
use p.Wire.Fcall.RoundTrip.{Fits, blank, new_message-msg_type, unmarshal_body-marshal_body}
use p.Wire.Framing.{
  read_full, read_body, read_message, marshal_rest, marshal_version, decode_body, unmarshal_version,
}

msg_type_bounds : (m : Message) → msg_type m < 2 ^ 8
unfolding msg_type
msg_type_bounds m = ground arith

pub length-marshal_rest :
    (tag : ℕ) (m : Message) (u : Bool)
    → length (marshal_rest tag m u) ≡ 3 + length (marshal_body u m)
unfolding marshal_rest le_bytes
length-marshal_rest tag m u = omega arith

-- The message fits the size prefix: its length is below 2 ^ 32.
abbrev pub FitsSize : ℕ → Message → Bool → Type 0
FitsSize tag m u = length (marshal_version tag m u) < 2 ^ 32

pub length-marshal_version :
    (tag : ℕ) (m : Message) (u : Bool)
    → length (marshal_version tag m u) ≡ 4 + length (marshal_rest tag m u)
unfolding marshal_version le_bytes
length-marshal_version tag m u = omega arith

decode_body-marshal_body :
    (t : ℕ) (u : Bool) (m : Message)
    → Fits u m
    → decode_body t (blank m) (marshal_body u m) u ≡ ok m
unfolding decode_body done
decode_body-marshal_body t u m h =
    ground (arith, rw append-nil at (unmarshal_body-marshal_body u m [] h))

-- Decoding the fields of a message whose prefix says its length.
unmarshal_parts :
    (n tag : ℕ) (m : Message) (u : Bool)
    → n ≡ length (le_bytes 4 n ++ marshal_rest tag m u)
    → n < 2 ^ 32
    → tag < 2 ^ 16
    → Fits u m
    → unmarshal_version (le_bytes 4 n ++ marshal_rest tag m u) u ≡ (tag, ok m)
unfolding unmarshal_version marshal_rest
unmarshal_parts n tag m u e hn ht h =
    unfold le_bytes in
    ground (
      arith,
      le_value-le_bytes 4 n hn,
      le_value-le_bytes 1 (msg_type m) (msg_type_bounds m),
      le_value-le_bytes 2 tag ht,
      new_message-msg_type m,
      decode_body-marshal_body (msg_type m) u m h,
    )

-- The prefix of a message that fits.
pub marshal_version_lem :
    (tag : ℕ) (m : Message) (u : Bool)
    → FitsSize tag m u
    → marshal_version tag m u
      ≡ le_bytes 4 (length (marshal_version tag m u)) ++ marshal_rest tag m u
unfolding marshal_version
marshal_version_lem tag m u hs =
    let e : (4 + length (marshal_rest tag m u)) % 2 ^ 32 ≡ length (marshal_version tag m u) =
      omega (arith, length-marshal_version tag m u) in
    ap (λ (n : ℕ). le_bytes 4 n ++ marshal_rest tag m u) e

-- A message whose fields and length fit the wire is decoded, by UnmarshalVersion of the bytes that
-- MarshalVersion wrote, to its tag and to the message itself.
pub unmarshal-marshal :
    (tag : ℕ) (m : Message) (u : Bool)
    → tag < 2 ^ 16
    → Fits u m
    → FitsSize tag m u
    → unmarshal_version (marshal_version tag m u) u ≡ (tag, ok m)
unmarshal-marshal tag m u ht h hs =
    let e = marshal_version_lem tag m u hs in rw e (unmarshal_parts _ tag m u (ap length e) hs ht h)

pub read_full-append :
    (n : ℕ) (bs rest : List ℕ) → 0 < n → length bs ≡ n → read_full n (bs ++ rest) ≡ ok (bs, rest)
unfolding read_full
read_full-append n [] rest hn h = absurd (omega arith)
read_full-append n (b ∷ bs) rest hn h = ground (
  arith,
  length-append (b ∷ bs) rest,
  take-append (b ∷ bs) rest n h,
  drop-append (b ∷ bs) rest n h,
)

-- ReadMessage with the limit `msize` (0 for none) takes exactly one message off the front of what
-- the reader gives, if the message fits its size prefix and the limit.
pub read_message-marshal :
    (tag : ℕ) (m : Message) (u : Bool) (msize : ℕ) (rest : List ℕ)
    → FitsSize tag m u
    → (msize ≡ 0) ⊎ (length (marshal_version tag m u) ≤ msize)
    → read_message (marshal_version tag m u ++ rest) msize ≡ ok (marshal_version tag m u, rest)
unfolding read_message read_body
read_message-marshal tag m u msize rest hs h = ground (
  arith,
  marshal_version_lem tag m u hs,
  length-marshal_version tag m u,
  length-marshal_rest tag m u,
  read_full-append 4 (le_bytes 4 n) (marshal_rest tag m u ++ rest) (omega arith)
      (length-le_bytes 4 n),
  read_full-append (n - 4) (marshal_rest tag m u) rest,
  le_value-le_bytes 4 n hs,
  append_assoc (le_bytes 4 n) (marshal_rest tag m u) rest,
)
  where
    n : ℕ
    n = length (marshal_version tag m u)
