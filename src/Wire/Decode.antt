-- ===== src/Wire/Decode.antt =====
-- decode.go. A method of decoder takes the state and returns the value read and the new state.
-- `int` is taken to have 64 bits, so that `int(n)` of a uint32 is never negative.
use p.Common.{ℕ, List, [], ◌∷◌, Bool, Option, none, some}
use p.Common.Tests.{ltb, if◌then◌else◌}
use p.Common.Lists.{length, take, drop}
use p.Common.Bytes.{le_value}
use p.Wire.Types.{Error, truncated, trailing_bytes, Qid}

pub record Decoder : Type 0 where
  pub buf : List ℕ
  pub err : Option Error
  pub unix : Bool

abbrev pub Read : Type 0 → Type 0
Read A = Decoder → A × Decoder

abbrev pub pure : {A : Type 0} → A → Read A
pure a d = (a, d)

infixl 5 ◌>>=◌
abbrev pub ◌>>=◌ : {A B : Type 0} → Read A → (A → Read B) → Read B
◌>>=◌ m f d = let r = m d in f r.0 r.1

-- decoder.take: `none` is Go's nil, after an error or past the end of the buffer.
unfoldable pub take_bytes : ℕ → Read (Option (List ℕ))
take_bytes n d = elim d.err [
  | some e ↦ (none, d)
  | none ↦
      if ltb (length d.buf) n
      then (none, record d { err = some truncated })
      else (some (take n d.buf), record d { buf = drop n d.buf })
]

-- The value of the bytes, or zero for nil.
abbrev pub value_or_zero : Option (List ℕ) → ℕ
value_or_zero none = 0
value_or_zero (some p) = le_value p

abbrev pub bytes_or_nil : Option (List ℕ) → List ℕ
bytes_or_nil none = []
bytes_or_nil (some p) = p

-- decoder.uint8, uint16, uint32 and uint64, by their number of bytes.
unfoldable pub get_uint : ℕ → Read ℕ
get_uint k = do p ← take_bytes k; pure (value_or_zero p)

abbrev pub get_uint8 : Read ℕ
get_uint8 = get_uint 1

abbrev pub get_uint16 : Read ℕ
get_uint16 = get_uint 2

abbrev pub get_uint32 : Read ℕ
get_uint32 = get_uint 4

abbrev pub get_uint64 : Read ℕ
get_uint64 = get_uint 8

-- decoder.bytes. The copy that Go makes has the same bytes.
unfoldable pub get_bytes : ℕ → Read (List ℕ)
get_bytes n = do p ← take_bytes n; pure (bytes_or_nil p)

unfoldable pub get_string : Read (List ℕ)
get_string = do n ← get_uint16; get_bytes n

unfoldable pub get_qid : Read Qid
get_qid = do
  t ← get_uint8
  v ← get_uint32
  q ← get_uint64
  pure (record { type = t; version = v; path = q })

-- `if d.unix { field = r() }`: without 9P2000.u the field keeps the value `old`.
unfoldable pub on_unix : {A : Type 0} → Read A → A → Read A
on_unix r old d = if d.unix then r d else (old, d)

-- decoder.done: the error of the whole decoding, none if all went well.
unfoldable pub done : Decoder → Option Error
done d = elim d.err [ some e ↦ some e | none ↦ rest d.buf ]
  where
    rest : List ℕ → Option Error
    rest [] = none
    rest (b ∷ bs) = some trailing_bytes
