-- ===== src/Wire/Framing.antt =====
-- framing.go: whole messages with their size prefix, type and tag.
pub mod RoundTrip
pub mod Canonical
pub mod Reject
pub mod Limits
use p.Common.{ℕ, ◌+◌, ◌-◌, ◌%◌, ◌^◌, List, [], ◌∷◌, ◌++◌, Bool, false, not, ◌&&◌, none, some}
use p.Common.Tests.{ltb, ◌==◌, if◌then◌else◌}
use p.Common.Lists.{length, take, drop}
use p.Common.Bytes.{le_value}
use p.Wire.Types.{
  Error, truncated, msg_too_large, eof, unexpected_eof, decoding, Result, ok, err, Message,
}
use p.Wire.Encode.{put_uint8, put_uint16, put_uint32}
use p.Wire.Decode.{Decoder, done}
use p.Wire.Fcall.Types.{new_message, msg_type}
use p.Wire.Fcall.Encode.{marshal_body}
use p.Wire.Fcall.Decode.{unmarshal_body}

abbrev pub min_msg_size : ℕ
min_msg_size = 7

-- io.ReadFull of `n` bytes, at least one, from the bytes that a reader still has to give: these
-- bytes and those left over. The reader's only failure is the end of its input.
unfoldable pub read_full : ℕ → List ℕ → Result (List ℕ × List ℕ)
read_full n [] = err eof
read_full n (b ∷ bs) =
    if ltb (length (b ∷ bs)) n then err unexpected_eof else ok (take n (b ∷ bs), drop n (b ∷ bs))

-- The body of ReadMessage after the size prefix `szb`, with `r` still to be read.
unfoldable pub read_body : List ℕ → List ℕ → ℕ → Result (List ℕ × List ℕ)
read_body szb r msize =
    let size = le_value szb in
    if ltb size min_msg_size
    then err truncated
    else if not (msize == 0) && ltb msize size
    then err msg_too_large
    else elim (read_full (size - 4) r) [ err e ↦ err e | ok (rest, r') ↦ ok (szb ++ rest, r') ]

-- ReadMessage: the message with its prefix, and what the reader still has to give.
unfoldable pub read_message : List ℕ → ℕ → Result (List ℕ × List ℕ)
read_message r msize = elim (read_full 4 r) [
  | err e ↦ err e
  | ok (szb, r') ↦ read_body szb r' msize
]

-- What follows the size prefix: the type, the tag and the body.
unfoldable pub marshal_rest : ℕ → Message → Bool → List ℕ
marshal_rest tag m unix = put_uint8 (msg_type m) ++ (put_uint16 tag ++ marshal_body unix m)

-- MarshalVersion. The four zero bytes at the front are overwritten with `uint32(len(out))`.
unfoldable pub marshal_version : ℕ → Message → Bool → List ℕ
marshal_version tag m unix =
    let rest = marshal_rest tag m unix in put_uint32 ((4 + length rest) % 2 ^ 32) ++ rest

abbrev pub marshal : ℕ → Message → List ℕ
marshal tag m = marshal_version tag m false

-- The reply of UnmarshalVersion is Go's (Tag, Message, error).
abbrev pub Unmarshaled : Type 0
Unmarshaled = ℕ × Result Message

-- The decoding of the body `b` of a message of type `t` into the empty message `m`.
unfoldable pub decode_body : ℕ → Message → List ℕ → Bool → Result Message
decode_body t m b unix =
    let r = unmarshal_body m (record { buf = b; err = none; unix = unix }) in
    elim (done r.1) [ none ↦ ok r.0 | some e ↦ err (decoding t e) ]

unfoldable pub unmarshal_version : List ℕ → Bool → Unmarshaled
unmarshal_version raw unix =
    if ltb (length raw) min_msg_size
    then (0, err truncated)
    else if not (le_value (take 4 raw) == length raw)
    then (0, err truncated)
    else let t = le_value (take 1 (drop 4 raw)) in
      let tag = le_value (take 2 (drop 5 raw)) in
      elim (new_message t) [
        | err e ↦ (tag, err e)
        | ok m ↦ (tag, decode_body t m (drop 7 raw) unix)
      ]

abbrev pub unmarshal : List ℕ → Unmarshaled
unmarshal raw = unmarshal_version raw false
