-- ===== src/Client/Mux.antt =====
-- client/mux.go: the requests in flight, by tag. Each method is one step, since it holds the lock while
-- it uses the table: the send of deliver and the closing in closeAll come after that, on channels that
-- are then in the table no more, and the send does not wait. A channel is a number; `made` of them have been made.
pub mod Invariant
pub mod Stranded
pub mod Tags
use p.Common.{
  ℕ, zero, suc, ◌+◌, ◌%◌, ◌^◌, List, [], ◌∷◌, map, Bool, true, false, Option, none, some,
}
use p.Common.Tests.{◌==◌, if◌then◌else◌}
use p.Common.Maps.{lookup, delete, insert}
use p.Wire.Types.{text, no_tag, Message}

-- callMux, with the messages that were put into channels and the channels that were closed.
-- `pending` is empty where Go's map is nil.
pub record CallMux : Type 0 where
  pub pending : List (ℕ × ℕ)
  pub next : ℕ
  pub closed : Bool
  pub close_err : List ℕ
  pub made : ℕ
  pub sent : List (ℕ × Message)
  pub shut : List ℕ

-- newCallMux
unfoldable pub new_call_mux : CallMux
new_call_mux = record {
  pending = [];
  next = 0;
  closed = false;
  close_err = [];
  made = 0;
  sent = [];
  shut = [];
}

-- What register and registerTag return: a tag with its channel, or the text of an error.
pub data Registered : Type 0 where
  granted : (tag ch : ℕ) → Registered
  refused : List ℕ → Registered

-- `ch := make(chan p9.Message, 1); m.pending[t] = ch`
unfoldable pub grant : CallMux → ℕ → CallMux × Registered
grant m t = (record m { pending = insert t m.made m.pending; made = m.made + 1 }, granted t m.made)

abbrev pub is_busy : Option ℕ → Bool
is_busy none = false
is_busy (some _) = true

-- Whether the loop of register passes over a tag.
unfoldable pub passes_over : CallMux → ℕ → Bool
passes_over m t = if t == no_tag then true else is_busy (lookup t m.pending)

-- The loop of register, with this many rounds to go.
unfoldable pub register_loop : ℕ → CallMux → CallMux × Registered
register_loop zero m = (m, refused (text "client: no free tags"))
register_loop (suc rounds) m =
    let m' = record m { next = (m.next + 1) % 2 ^ 16 } in
    let rest = register_loop rounds m' in if passes_over m m.next then rest else grant m' m.next

abbrev pub register_rounds : ℕ
register_rounds = 0xFFFF

-- callMux.register, with the number of rounds of its loop.
unfoldable pub register_in : ℕ → CallMux → CallMux × Registered
register_in rounds m =
    let found = register_loop rounds m in if m.closed then (m, refused m.close_err) else found

unfoldable pub register : CallMux → CallMux × Registered
register m = register_in register_rounds m

-- callMux.registerTag
unfoldable pub register_tag : CallMux → ℕ → CallMux × Registered
register_tag m t =
    if m.closed
    then (m, refused m.close_err)
    else if is_busy (lookup t m.pending)
    then (m, refused (text "client: tag already in use"))
    else grant m t

-- callMux.forget
unfoldable pub forget : CallMux → ℕ → CallMux
forget m t = record m { pending = delete t m.pending }

-- callMux.deliver
unfoldable pub deliver : CallMux → ℕ → Message → CallMux
deliver m t msg = elim (lookup t m.pending) [
  | none ↦ m
  | some ch ↦ record m { pending = delete t m.pending; sent = (ch, msg) ∷ m.sent }
]

abbrev pub channels : List (ℕ × ℕ) → List ℕ
channels = map (λ e. e.1)

-- callMux.closeAll
unfoldable pub close_all : CallMux → List ℕ → CallMux
close_all m err =
    if m.closed
    then m
    else record m { closed = true; close_err = err; pending = []; shut = channels m.pending }
