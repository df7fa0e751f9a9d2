-- ===== src/Wire/Forward.antt =====
-- Decoding what was encoded: each read of decode.go on the bytes that its write of encode.go puts.
use p.Common.{ℕ, ◌≤◌, ◌<◌, ◌^◌, ◌≡◌, refl, List, ◌++◌, Bool, none, append_assoc, arith}
use p.Common.Tests.{le→ltb}
use p.Common.Lists.{length, length-append, take-append, drop-append, length-take}
use p.Common.Bytes.{le_bytes, length-le_bytes, le_value-le_bytes}
use p.Wire.Types.{Qid}
use p.Wire.Encode.{cut_to, cut_string, put_string, put_qid}
use p.Wire.Decode.{Decoder, take_bytes, get_uint, get_bytes, get_string, get_qid}

-- A decoder with no error so far.
abbrev pub good : Bool → List ℕ → Decoder
good u bs = record { buf = bs; err = none; unix = u }

pub get_bytes-append :
    (u : Bool) (n : ℕ) (bs rest : List ℕ)
    → length bs ≡ n
    → get_bytes n (good u (bs ++ rest)) ≡ (bs, good u rest)
unfolding get_bytes take_bytes
get_bytes-append u n bs rest h =
    ground (arith, length-append bs rest, take-append bs rest n h, drop-append bs rest n h)

pub get_uint-le_bytes :
    (u : Bool) (k v : ℕ) (rest : List ℕ)
    → v < 256 ^ k
    → get_uint k (good u (le_bytes k v ++ rest)) ≡ (v, good u rest)
unfolding get_uint take_bytes
get_uint-le_bytes u k v rest h = ground (
  arith,
  length-le_bytes k v,
  length-append (le_bytes k v) rest,
  take-append (le_bytes k v) rest k (length-le_bytes k v),
  drop-append (le_bytes k v) rest k (length-le_bytes k v),
  le_value-le_bytes k v h,
)

length-cut_to : (n : ℕ) (s : List ℕ) → length (cut_to n s) ≤ n
unfolding cut_to
length-cut_to n s = ground (arith, length-take n s)

cut_to_short : (n : ℕ) (s : List ℕ) → length s ≤ n → cut_to n s ≡ s
unfolding cut_to
cut_to_short n s h = rw (le→ltb n (length s) h)

pub length-cut_string : (s : List ℕ) → length (cut_string s) ≤ 0xFFFF
unfolding cut_string
length-cut_string s = length-cut_to 0xFFFF s

pub cut_string_short : (s : List ℕ) → length s ≤ 0xFFFF → cut_string s ≡ s
unfolding cut_string
cut_string_short s h = cut_to_short 0xFFFF s h

pub get_string-put_string :
    (u : Bool) (s rest : List ℕ)
    → get_string (good u (put_string s ++ rest)) ≡ (cut_string s, good u rest)
unfolding get_string put_string
get_string-put_string u s rest =
    rw
      (
        append_assoc (le_bytes 2 (length (cut_string s))) (cut_string s) rest,
        get_uint-le_bytes u 2 (length (cut_string s)) (cut_string s ++ rest)
            (omega (arith, length-cut_string s)),
      )
      (get_bytes-append u _ (cut_string s) rest refl)

-- The fields of a Qid fit their machine types.
pub record IsQid (q : Qid) : Type 0 where
  pub type : q.type < 2 ^ 8
  pub version : q.version < 2 ^ 32
  pub path : q.path < 2 ^ 64

pub get_qid-put_qid :
    (u : Bool) (q : Qid) (rest : List ℕ)
    → IsQid q
    → get_qid (good u (put_qid q ++ rest)) ≡ (q, good u rest)
unfolding get_qid put_qid
get_qid-put_qid u q rest h = simp (
  append_assoc,
  get_uint-le_bytes u 1 q.type _ (omega arith),
  get_uint-le_bytes u 4 q.version _ (omega arith),
  get_uint-le_bytes u 8 q.path _ (omega arith),
)
