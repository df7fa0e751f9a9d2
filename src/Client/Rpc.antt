-- ===== src/Client/Rpc.antt =====
-- client/client.go: Client.rpc as its callers see it. What happens between the request and its
-- reply is a parameter, a function on the state `S` of all that the client talks to.
use p.Common.{ℕ, List}
use p.Wire.Types.{Message}

-- The reply, or the text of an error; an Rerror is an error.
pub data Reply : Type 0 where
  replied : Message → Reply
  rpc_failed : List ℕ → Reply

abbrev pub Rpc : Type 0 → Type 0
Rpc S = S → Message → S × Reply
