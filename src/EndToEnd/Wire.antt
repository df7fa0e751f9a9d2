-- ===== src/EndToEnd/Wire.antt =====
-- client/client.go and server/conn.go with the bytes between them: a call of Client.rpc that is alone,
-- from the encoding of its request to the decoding of its reply.
use p.Common.{
  ℕ, ◌^◌, ◌≤◌, ◌<◌, ◌≡◌, ◌≢◌, ◌⊎◌, refl, sym, ap, ◌∙◌, List, [], Bool, Option, none, some,
  append-nil, arith,
}
use p.Common.Tests.{◌==◌, if◌then◌else◌}
use p.Common.Lists.{length}
use mathlib.Core.Path.{subst}
use p.Wire.Types.{Error, msg_too_large, eof, ok, err, Message}
use p.Wire.Errors.{error_text}
use p.Wire.Fcall.RoundTrip.{Fits}
use p.Wire.Framing.{Unmarshaled, read_message, marshal_version, unmarshal_version}
use p.Wire.Framing.RoundTrip.{FitsSize, unmarshal-marshal, read_message-marshal}
use p.Server.Backend.{Backend}
use p.Server.Conn.{Conn}
use p.Server.Dispatch.{State, dispatch}
use p.Client.Rpc.{Reply, rpc_failed, Rpc}
use p.EndToEnd.Listing.{as_reply}

-- Both ends of a connection, as a call finds them; `ended` is what closeAll was called with.
pub record Wired (S : Type 0) : Type 0 where
  pub server : S
  pub ended : Option Error

abbrev pub open_at : {S : Type 0} → S → Wired S
open_at s = record { server = s; ended = none }

-- The call finds out that the connection has ended.
abbrev pub ended_with : {S : Type 0} → S → Error → Wired S × Reply
ended_with s e = (record { server = s; ended = some e }, rpc_failed (error_text e))

-- A round of readLoop, with the msize and the dialect of the client, and the end of the call with this
-- tag. A reply under another tag is dropped; the call then waits until the connection ends.
unfoldable pub take_message : {S : Type 0} → ℕ → S → Unmarshaled → Wired S × Reply
take_message tag s (t, err e) = ended_with s e
take_message tag s (t, ok m) = if t == tag then (open_at s, as_reply m) else ended_with s eof

unfoldable pub take_reply : {S : Type 0} → (tag msize : ℕ) → Bool → S → List ℕ → Wired S × Reply
take_reply tag msize unix s raw = elim (read_message raw msize) [
  | err e ↦ ended_with s e
  | ok (one, _) ↦ take_message tag s (unmarshal_version one unix)
]

module _ {File World : Type 0} (B : Backend File World) where
  -- What the handler does with a request and its tag, and the bytes of writeReply.
  unfoldable pub handle_message : State B → Unmarshaled → Option (State B × List ℕ)
  handle_message s (t, err e) = none
  handle_message s (t, ok m) =
      let r = dispatch B s m in some (r.0, marshal_version t r.1 r.0.0.unix)

  -- A round of serve, with its handler; `none` if serve returns, which closes the connection.
  unfoldable pub serve_one : State B → List ℕ → Option (State B × List ℕ)
  serve_one (c, w) raw = elim (read_message raw c.msize) [
    | err e ↦ none
    | ok (one, _) ↦ handle_message (c, w) (unmarshal_version one c.unix)
  ]

  -- Client.rpc, with the tag that the call gets.
  unfoldable pub wire_rpc : (tag msize : ℕ) → Bool → Rpc (Wired (State B))
  wire_rpc tag msize unix s m = elim s.ended [
    | some e ↦ (s, rpc_failed (error_text e))
    | none ↦ elim (serve_one s.server (marshal_version tag m unix)) [
      | none ↦ ended_with s.server eof
      | some (server, raw) ↦ take_reply tag msize unix server raw
    ]
  ]

-- A message that the dialects of the writer and of the reader encode alike, and that fits the wire.
pub record Travels (tag : ℕ) (m : Message) (from to : Bool) : Type 0 where
  pub alike : marshal_version tag m from ≡ marshal_version tag m to
  pub fields : Fits to m
  pub size : FitsSize tag m to

-- The reader's limit is kept, or not.
abbrev pub IsWithin : (msize tag : ℕ) → Message → Bool → Type 0
IsWithin msize tag m u = (msize ≡ 0) ⊎ (length (marshal_version tag m u) ≤ msize)

abbrev pub IsOver : (msize tag : ℕ) → Message → Bool → Type 0
IsOver msize tag m u = (msize ≢ 0) × (msize < length (marshal_version tag m u))

module _ (tag msize : ℕ) (m : Message) (from to : Bool) (t : Travels tag m from to) where
  read_whole :
      IsWithin msize tag m to
      → read_message (marshal_version tag m from) msize ≡ ok (marshal_version tag m to, [])
  read_whole h =
      ap (λ raw. read_message raw msize) (t.alike ∙ sym (append-nil (marshal_version tag m to)))
      ∙ read_message-marshal tag m to msize [] t.size h

  take_reply-within :
      {S : Type 0} (s : S)
      → tag < 2 ^ 16
      → IsWithin msize tag m to
      → take_reply tag msize to s (marshal_version tag m from) ≡ (open_at s, as_reply m)
  unfolding take_reply take_message
  take_reply-within s b h =
      rw (take_reply, read_whole h, unmarshal-marshal tag m to b t.fields t.size) (ground arith)

module _ {File World : Type 0} (B : Backend File World) where
  -- What a call over the bytes comes to, with what dispatch makes of its request.
  pub data Exchange (tag msize : ℕ) (unix : Bool) (c : Conn File) (w : World) (m : Message)
      : Wired (State B) × Reply → Type 0 where
    request_refused :
        IsOver c.msize tag m c.unix → Exchange tag msize unix c w m (ended_with (c, w) eof)
    reply_refused :
        IsWithin c.msize tag m c.unix
        → IsOver msize tag (dispatch B (c, w) m).1 unix
        → Exchange tag msize unix c w m (ended_with (dispatch B (c, w) m).0 msg_too_large)
    exchanged :
        IsWithin c.msize tag m c.unix
        → IsWithin msize tag (dispatch B (c, w) m).1 unix
        → Exchange tag msize unix c w m
            (open_at (dispatch B (c, w) m).0, as_reply (dispatch B (c, w) m).1)

  module _ (tag msize : ℕ) (unix : Bool) (c : Conn File) (w : World) (m : Message) where
    serve_one-within :
        tag < 2 ^ 16
        → Travels tag m unix c.unix
        → IsWithin c.msize tag m c.unix
        → serve_one B (c, w) (marshal_version tag m unix)
          ≡ some (
            (dispatch B (c, w) m).0,
            marshal_version tag (dispatch B (c, w) m).1 (dispatch B (c, w) m).0.0.unix,
          )
    unfolding serve_one handle_message
    serve_one-within b t h =
        rw
          (
            serve_one,
            read_whole tag c.msize m unix c.unix t h,
            unmarshal-marshal tag m c.unix b t.fields t.size,
          )
          refl

    wire_rpc-within :
        tag < 2 ^ 16
        → Travels tag m unix c.unix
        → Travels tag (dispatch B (c, w) m).1 (dispatch B (c, w) m).0.0.unix unix
        → IsWithin c.msize tag m c.unix
        → IsWithin msize tag (dispatch B (c, w) m).1 unix
        → wire_rpc B tag msize unix (open_at (c, w)) m
          ≡ (open_at (dispatch B (c, w) m).0, as_reply (dispatch B (c, w) m).1)
    unfolding wire_rpc
    wire_rpc-within b t r h k =
        rw (wire_rpc, serve_one-within b t h)
          (take_reply-within tag msize (dispatch B (c, w) m).1 _ unix r (dispatch B (c, w) m).0 b k)

    -- The same, with what dispatch gives.
    pub wire_rpc_gives :
        (r : State B × Message)
        → dispatch B (c, w) m ≡ r
        → tag < 2 ^ 16
        → Travels tag m unix c.unix
        → Travels tag r.1 r.0.0.unix unix
        → IsWithin c.msize tag m c.unix
        → IsWithin msize tag r.1 unix
        → wire_rpc B tag msize unix (open_at (c, w)) m ≡ (open_at r.0, as_reply r.1)
    wire_rpc_gives r e b t t' h k =
        subst
          (λ r.
            Travels tag r.1 r.0.0.unix unix
            → IsWithin msize tag r.1 unix
            → wire_rpc B tag msize unix (open_at (c, w)) m ≡ (open_at r.0, as_reply r.1))
          e (λ t' k. wire_rpc-within b t t' h k) t' k
