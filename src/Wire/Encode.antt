-- ===== src/Wire/Encode.antt =====
-- encode.go. Each method of encoder is the bytes that it appends to the buffer.
use p.Common.{ℕ, List, ◌++◌}
use p.Common.Tests.{ltb, if◌then◌else◌}
use p.Common.Lists.{length, take}
use p.Common.Bytes.{le_bytes}
use p.Wire.Types.{Qid}

abbrev pub put_uint8 : ℕ → List ℕ
put_uint8 v = le_bytes 1 v

abbrev pub put_uint16 : ℕ → List ℕ
put_uint16 v = le_bytes 2 v

abbrev pub put_uint32 : ℕ → List ℕ
put_uint32 v = le_bytes 4 v

abbrev pub put_uint64 : ℕ → List ℕ
put_uint64 v = le_bytes 8 v

-- `if len(s) > max { s = s[:max] }`
unfoldable pub cut_to : ℕ → List ℕ → List ℕ
cut_to max s = if ltb max (length s) then take max s else s

-- The string that encoder.string writes.
unfoldable pub cut_string : List ℕ → List ℕ
cut_string s = cut_to 0xFFFF s

unfoldable pub put_string : List ℕ → List ℕ
put_string s = put_uint16 (length (cut_string s)) ++ cut_string s

unfoldable pub put_qid : Qid → List ℕ
put_qid q = put_uint8 q.type ++ (put_uint32 q.version ++ put_uint64 q.path)
