-- ===== src/Client/Link.antt =====
-- client/client.go: the goroutines of a Client after its handshake, as a step relation: the callers in
-- rpc, call and flush, and readLoop. A step is what a goroutine does between two points where it may
-- wait or another may come between. The bytes of the connection are messages with tags: those that
-- readLoop read, and those that were written.
pub mod Channels
pub mod Owners
pub mod Delivery
pub mod Routes
mod Tests
use p.Common.{ℕ, ◌+◌, ◌<◌, ◌≡◌, ◌≢◌, ◌⊎◌, List, [], ◌∷◌, ◌++◌, Bool, true, false}
use p.Common.Tests.{◌==◌, if◌then◌else◌}
use p.Common.Lists.{length}
use p.Wire.Types.{text, Message, tflush, rerror}
use p.Client.Rpc.{Reply, replied, rpc_failed}
use p.Client.Mux.{CallMux, new_call_mux, granted, refused, register, forget, deliver, close_all}

-- Where a call stands: before it writes its request, waiting for the reply, in flush before it writes
-- Tflush and while it waits for the answer, before it forgets its tag, and after its return.
pub data Phase : Type 0 where
  writing waiting : Phase
  flush_writing : (tag ch : ℕ) → Phase
  flush_waiting : (ch : ℕ) → Phase
  flushed : Phase
  returned : Reply → Phase

-- A call of rpc, with the number of messages that readLoop had read when it got its tag.
pub record Caller : Type 0 where
  pub req : Message
  pub tag : ℕ
  pub ch : ℕ
  pub since : ℕ
  pub phase : Phase

pub record Link : Type 0 where
  pub mux : CallMux
  pub callers : ℕ → Caller
  pub made : ℕ
  pub inbox : List (ℕ × Message)
  pub outbox : List (ℕ × Message)
  pub reading : Bool

-- A message was put into a channel, which may hold one.
abbrev pub Holds : List (ℕ × Message) → ℕ → Message → Type 0
Holds [] ch msg = ⊥
Holds ((c, m) ∷ sent) ch msg = ((c ≡ ch) × (m ≡ msg)) ⊎ Holds sent ch msg

abbrev pub IsShut : List ℕ → ℕ → Type 0
IsShut [] ch = ⊥
IsShut (c ∷ shut) ch = (c ≡ ch) ⊎ IsShut shut ch

abbrev pub set_phase : Link → ℕ → Phase → Link
set_phase l i p = record l {
  callers = λ a. if a == i then record (l.callers i) { phase = p } else l.callers a;
}

abbrev pub set_mux : Link → CallMux → Link
set_mux l m = record l { mux = m }

-- The beginning of rpc: a new call gets a tag, if there is one.
unfoldable pub begin_call : Link → Message → Link
begin_call l req =
    let r = register l.mux in
    let caller : Caller = elim r.1 [
      | granted t ch ↦ record {
        req = req;
        tag = t;
        ch = ch;
        since = length l.inbox;
        phase = writing;
      }
      | refused e ↦ record {
        req = req;
        tag = 0;
        ch = 0;
        since = length l.inbox;
        phase = returned (rpc_failed e);
      }
    ] in
    record l {
      mux = r.0;
      callers = λ a. if a == l.made then caller else l.callers a;
      made = l.made + 1;
    }

-- The beginning of flush, in call: a tag for Tflush, if there is one.
unfoldable pub begin_flush : Link → ℕ → Link
begin_flush l i =
    let r = register l.mux in
    let p : Phase = elim r.1 [ granted t ch ↦ flush_writing t ch | refused e ↦ flushed ] in
    set_phase (set_mux l r.0) i p

-- The return of a call with an error, after it forgets its tag.
unfoldable pub forget_fail : Link → ℕ → List ℕ → Link
forget_fail l i e =
    set_phase (set_mux l (forget l.mux (l.callers i).tag)) i (returned (rpc_failed e))

-- A message that readLoop read.
unfoldable pub take_in : Link → ℕ → Message → Link
take_in l tag msg = record l { mux = deliver l.mux tag msg; inbox = l.inbox ++ ((tag, msg) ∷ []) }

-- A step of one goroutine, of the call `i` for most.
pub data Step : Link → Link → Type 0 where
  begins : {l : Link} (req : Message) → Step l (begin_call l req)
  writes :
      {l : Link} (i : ℕ)
      → i < l.made
      → (l.callers i).phase ≡ writing
      → Step l (
          set_phase
            (record l { outbox = l.outbox ++ (((l.callers i).tag, (l.callers i).req) ∷ []) })
            i
            waiting)
  write_fails :
      {l : Link} (i : ℕ) (e : List ℕ)
      → i < l.made
      → (l.callers i).phase ≡ writing
      → Step l (forget_fail l i e)
  receives :
      {l : Link} (i : ℕ) (msg : Message)
      → i < l.made
      → (l.callers i).phase ≡ waiting
      → Holds l.mux.sent (l.callers i).ch msg
      → ((e : List ℕ) → msg ≢ rerror e)
      → Step l (set_phase l i (returned (replied msg)))
  receives_error :
      {l : Link} (i : ℕ) (e : List ℕ)
      → i < l.made
      → (l.callers i).phase ≡ waiting
      → Holds l.mux.sent (l.callers i).ch (rerror e)
      → Step l (set_phase l i (returned (rpc_failed e)))
  finds_shut :
      {l : Link} (i : ℕ)
      → i < l.made
      → (l.callers i).phase ≡ waiting
      → IsShut l.mux.shut (l.callers i).ch
      → Step l (set_phase l i (returned (rpc_failed l.mux.close_err)))
  cancels :
      {l : Link} (i : ℕ) → i < l.made → (l.callers i).phase ≡ waiting → Step l (begin_flush l i)
  flush_writes :
      {l : Link} (i t ch : ℕ)
      → i < l.made
      → (l.callers i).phase ≡ flush_writing t ch
      → Step l (
          set_phase
            (record l { outbox = l.outbox ++ ((t, tflush (l.callers i).tag) ∷ []) })
            i
            (flush_waiting ch))
  flush_write_fails :
      {l : Link} (i t ch : ℕ)
      → i < l.made
      → (l.callers i).phase ≡ flush_writing t ch
      → Step l (set_phase (set_mux l (forget l.mux t)) i flushed)
  flush_ends :
      {l : Link} (i ch : ℕ) (msg : Message)
      → i < l.made
      → (l.callers i).phase ≡ flush_waiting ch
      → Holds l.mux.sent ch msg ⊎ IsShut l.mux.shut ch
      → Step l (set_phase l i flushed)
  gives_up :
      {l : Link} (i : ℕ) (e : List ℕ)
      → i < l.made
      → (l.callers i).phase ≡ flushed
      → Step l (forget_fail l i e)
  delivers : {l : Link} (tag : ℕ) (msg : Message) → l.reading ≡ true → Step l (take_in l tag msg)
  read_fails :
      {l : Link} (e : List ℕ)
      → l.reading ≡ true
      → Step l (record l { mux = close_all l.mux e; reading = false })
  closes : {l : Link} → Step l (set_mux l (close_all l.mux (text "io: read/write on closed pipe")))

-- The states that steps lead to from a new client.
pub data Reached : Link → Type 0 where
  at_start :
      (callers : ℕ → Caller)
      → Reached (record {
        mux = new_call_mux;
        callers = callers;
        made = 0;
        inbox = [];
        outbox = [];
        reading = true;
      })
  then_step : {l l' : Link} → Reached l → Step l l' → Reached l'
