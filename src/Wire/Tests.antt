-- ===== src/Wire/Tests.antt =====
-- Runs of the codec, and its theorems at concrete messages and bytes.
use mathlib.Core.Path.{subst}
use p.Common.{
  ℕ, zero, suc, ap, ◌∙◌, ◌+◌, ◌^◌, ◌≤◌, ◌<◌, ◌≡◌, ◌≢◌, refl, inl, inr, List, [], ◌∷◌, ◌++◌, true,
  false, arith,
}
use p.Common.Tests.{ltb, Bool-cases}
use p.Common.Lists.{
  length, take, drop, replicate, length-append, length-replicate, All-append, All-take,
}
use p.Common.Bytes.{IsByte, IsBytes, le_bytes, length-le_bytes, le_bytes-IsBytes, le_value}
use p.Wire.Types.{text, zero_stat, Qid, Stat, Message, tversion, truncated, ok, err}
use p.Wire.Encode.{put_string, put_qid, cut_string, cut_to}
use p.Wire.Stat.{
  marshal_unix, marshal_stat_body, put_stat, marshal_stat_version, unmarshal_stat_version,
}
use p.Wire.Stat.RoundTrip.{IsString, FitsStat, FitsFields, unmarshal_stat-marshal_stat}
use p.Wire.Stat.Canonical.{unmarshal_stat-canonical}
use p.Wire.Stat.Oversize.{unmarshal_stat-oversize}
use p.Wire.Forward.{IsQid, cut_string_short}
use p.Wire.Fcall.Types.{msg_type}
use p.Wire.Fcall.Encode.{marshal_body}
use p.Wire.Fcall.RoundTrip.{Fits}
use p.Wire.Framing.{marshal_rest, marshal_version, unmarshal_version, read_message}
use p.Wire.Framing.RoundTrip.{FitsSize, unmarshal-marshal, read_message-marshal}
use p.Wire.Framing.Canonical.{unmarshal-canonical}
use p.Wire.Framing.Limits.{InLimits, read_message_limits}
use p.Wire.Framing.Reject.{unmarshal_truncated}

abbrev link_qid : Qid
link_qid = record { type = 2; version = 7; path = 300 }

abbrev link_stat : Stat
link_stat = record zero_stat {
  qid = link_qid;
  mode = 0x020001FF;
  name = text "ln";
  uid = text "me";
  extension = text "to";
  nuid = 1000;
}

link_qid-IsQid : IsQid link_qid
link_qid-IsQid = record { type = omega arith; version = omega arith; path = omega arith }

link_stat-FitsFields : FitsFields true link_stat
link_stat-FitsFields = record {
  type = omega arith;
  dev = omega arith;
  qid = link_qid-IsQid;
  mode = omega arith;
  atime = omega arith;
  mtime = omega arith;
  length = omega arith;
  name = omega arith;
  uid = omega arith;
  gid = omega arith;
  muid = omega arith;
  unix = (omega arith, omega arith, omega arith, omega arith);
}

link_stat-FitsStat : FitsStat true link_stat
unfolding marshal_stat_body marshal_unix put_string put_qid cut_string cut_to le_bytes
link_stat-FitsStat = record { fields = link_stat-FitsFields; size = omega arith }

abbrev link_bytes : List ℕ
link_bytes =
    67
    ∷ 0
    ∷ (replicate 6 0
        ++ (2 ∷ 7 ∷ 0 ∷ 0 ∷ 0 ∷ 44 ∷ 1 ∷ replicate 6 0)
        ++ (255 ∷ 1 ∷ 0 ∷ 2 ∷ replicate 16 0)
        ++ (2 ∷ 0 ∷ text "ln" ++ (2 ∷ 0 ∷ text "me" ++ (0 ∷ 0 ∷ 0 ∷ 0 ∷ 2 ∷ 0 ∷ text "to")))
        ++ (232 ∷ 3 ∷ replicate 10 0))

link_stat-marshal : marshal_stat_version true link_stat ≡ link_bytes
unfolding put_stat marshal_stat_body marshal_unix put_string put_qid cut_string cut_to le_bytes
link_stat-marshal = refl

unmarshal_stat-marshal_stat_example :
    unmarshal_stat_version (marshal_stat_version true link_stat) true ≡ ok link_stat
unmarshal_stat-marshal_stat_example = unmarshal_stat-marshal_stat true link_stat link_stat-FitsStat

-- The encoding of a Tversion.
abbrev hello : Message
hello = tversion 8192 (text "9P2000")

abbrev hello_bytes : List ℕ
hello_bytes = 19 ∷ 0 ∷ 0 ∷ 0 ∷ 100 ∷ 255 ∷ 255 ∷ 0 ∷ 32 ∷ 0 ∷ 0 ∷ 6 ∷ 0 ∷ text "9P2000"

hello-marshal_version : marshal_version 0xFFFF hello false ≡ hello_bytes
unfolding marshal_version marshal_rest marshal_body msg_type put_string cut_string cut_to le_bytes
hello-marshal_version = refl

hello-FitsSize : FitsSize 0xFFFF hello false
hello-FitsSize = rw hello-marshal_version (omega arith)

unmarshal-marshal_example :
    unmarshal_version (marshal_version 0xFFFF hello false) false ≡ (0xFFFF, ok hello)
unmarshal-marshal_example =
    unmarshal-marshal 0xFFFF hello false (omega arith) (omega arith, omega arith) hello-FitsSize

read_message-marshal_example :
    read_message (marshal_version 0xFFFF hello false ++ (1 ∷ 2 ∷ [])) 8192
    ≡ ok (marshal_version 0xFFFF hello false, 1 ∷ 2 ∷ [])
read_message-marshal_example =
    read_message-marshal 0xFFFF hello false 8192 (1 ∷ 2 ∷ []) hello-FitsSize
      (inr (rw hello-marshal_version (omega arith)))

unmarshal_stat-canonical_example :
    (marshal_stat_version true link_stat ≡ link_bytes) × FitsStat true link_stat
unmarshal_stat-canonical_example =
    unmarshal_stat-canonical true link_bytes link_stat (ground arith) (
      subst (λ bs. unmarshal_stat_version bs true ≡ ok link_stat) link_stat-marshal
        (unmarshal_stat-marshal_stat true link_stat link_stat-FitsStat))

hello_bytes-IsBytes : IsBytes hello_bytes
hello_bytes-IsBytes = ground arith

unmarshal-canonical_example :
    (marshal_version 0xFFFF hello false ≡ hello_bytes) × (0xFFFF < 2 ^ 16) × Fits false hello
unmarshal-canonical_example =
    unmarshal-canonical hello_bytes 0xFFFF hello false hello_bytes-IsBytes (
      subst (λ bs. unmarshal_version bs false ≡ (0xFFFF, ok hello)) hello-marshal_version
        (unmarshal-marshal 0xFFFF hello false (omega arith) (omega arith, omega arith)
          hello-FitsSize))

read_message_limits_example :
    (hello_bytes ++ (1 ∷ []) ≡ hello_bytes ++ (1 ∷ []))
    × (length hello_bytes ≡ le_value (take 4 hello_bytes))
    × InLimits 8192 (length hello_bytes)
read_message_limits_example =
    read_message_limits (hello_bytes ++ (1 ∷ [])) hello_bytes (1 ∷ []) 8192 (
      subst (λ bs. read_message (bs ++ (1 ∷ [])) 8192 ≡ ok (bs, 1 ∷ [])) hello-marshal_version
        (read_message-marshal 0xFFFF hello false 8192 (1 ∷ []) hello-FitsSize
          (inr (rw hello-marshal_version (omega arith)))))

unmarshal_truncated_example : unmarshal_version (take 12 hello_bytes) false ≡ (0, err truncated)
unmarshal_truncated_example =
    unmarshal_truncated 0xFFFF hello false (take 12 hello_bytes) (drop 13 hello_bytes) 0
      hello-FitsSize hello-marshal_version

-- The strings of a Stat are bytes.
record HasBytes (s : Stat) : Type 0 where
  name : IsBytes s.name
  uid : IsBytes s.uid
  gid : IsBytes s.gid
  muid : IsBytes s.muid

cut_to-IsBytes : (n : ℕ) (s : List ℕ) → IsBytes s → IsBytes (cut_to n s)
unfolding cut_to
cut_to-IsBytes n s h = elim (Bool-cases (ltb n (length s))) [
  | inl long ↦ rw long (All-take IsByte n s h)
  | inr short ↦ rw short h
]

cut_string-IsBytes : (s : List ℕ) → IsBytes s → IsBytes (cut_string s)
unfolding cut_string
cut_string-IsBytes s h = cut_to-IsBytes 0xFFFF s h

put_string-IsBytes : (s : List ℕ) → IsBytes s → IsBytes (put_string s)
unfolding put_string
put_string-IsBytes s h =
    All-append IsByte (le_bytes 2 (length (cut_string s))) (cut_string s) (le_bytes-IsBytes 2 _)
      (cut_string-IsBytes s h)

put_qid-IsBytes : (q : Qid) → IsBytes (put_qid q)
unfolding put_qid
put_qid-IsBytes q =
    All-append IsByte (le_bytes 1 q.type) (le_bytes 4 q.version ++ le_bytes 8 q.path)
      (le_bytes-IsBytes 1 q.type)
      (All-append IsByte (le_bytes 4 q.version) (le_bytes 8 q.path) (le_bytes-IsBytes 4 q.version)
        (le_bytes-IsBytes 8 q.path))

number-IsBytes : (k v : ℕ) (ys : List ℕ) → IsBytes ys → IsBytes (le_bytes k v ++ ys)
number-IsBytes k v ys h = All-append IsByte (le_bytes k v) ys (le_bytes-IsBytes k v) h

string-IsBytes : (s ys : List ℕ) → IsBytes s → IsBytes ys → IsBytes (put_string s ++ ys)
string-IsBytes s ys hs h = All-append IsByte (put_string s) ys (put_string-IsBytes s hs) h

put_stat-IsBytes : (s : Stat) → HasBytes s → IsBytes (marshal_stat_version false s)
unfolding put_stat marshal_stat_body marshal_unix
put_stat-IsBytes s h = number-IsBytes 2 _ _ (
    number-IsBytes 2 s.type _ (
      number-IsBytes 4 s.dev _ (
        All-append IsByte (put_qid s.qid) _ (put_qid-IsBytes s.qid) (
          number-IsBytes 4 s.mode _ (
            number-IsBytes 4 s.atime _ (
              number-IsBytes 4 s.mtime _ (
                number-IsBytes 8 s.length _ (
                  string-IsBytes s.name _ h.name (
                    string-IsBytes s.uid _ h.uid
                      (string-IsBytes s.gid _ h.gid (string-IsBytes s.muid [] h.muid tt)))))))))))

many : ℕ → List ℕ
many n = replicate n 120

many-IsBytes : (n : ℕ) → IsBytes (many n)
unfolding many
many-IsBytes zero = tt
many-IsBytes (suc n) = (omega arith, many-IsBytes n)

length-many : (n : ℕ) → length (many n) ≡ n
unfolding many
length-many n = length-replicate n 120

-- A Stat with two long strings, each of which fits the wire.
abbrev long_stat : Stat
long_stat = record zero_stat { name = many 40000; uid = many 40000 }

long_stat-HasBytes : HasBytes long_stat
long_stat-HasBytes = record {
  name = many-IsBytes 40000;
  uid = many-IsBytes 40000;
  gid = tt;
  muid = tt;
}

length-put_string : (s : List ℕ) → IsString s → length (put_string s) ≡ 2 + length s
unfolding put_string
length-put_string s h =
    length-append (le_bytes 2 (length (cut_string s))) (cut_string s)
    ∙ omega (arith, length-le_bytes 2 (length (cut_string s)), ap length (cut_string_short s h))

-- The names alone are as long as that.
strings_le :
    (s : Stat)
    → length (put_string s.name) + length (put_string s.uid) ≤ length (marshal_stat_body false s)
unfolding marshal_stat_body marshal_unix
strings_le s = simp length-append (omega arith)

long_stat-IsLong : 2 ^ 16 ≤ length (marshal_stat_body false long_stat)
long_stat-IsLong =
    let size : length (put_string (many 40000)) ≡ 2 + 40000 =
      length-put_string (many 40000) (omega (arith, length-many 40000))
      ∙ ap (λ n. 2 + n) (length-many 40000) in
    omega (arith, size, strings_le long_stat)

unmarshal_stat-oversize_example :
    unmarshal_stat_version (marshal_stat_version false long_stat) false ≢ ok long_stat
unmarshal_stat-oversize_example =
    unmarshal_stat-oversize false long_stat long_stat
      (put_stat-IsBytes long_stat long_stat-HasBytes) long_stat-IsLong
