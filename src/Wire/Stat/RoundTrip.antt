-- ===== src/Wire/Stat/RoundTrip.antt =====
-- stat.go: decoding an encoded Stat.
use p.Common.{
  ℕ, ◌≤◌, ◌<◌, ◌^◌, ◌%◌, ◌≡◌, refl, List, [], ◌++◌, Bool, true, false, some, append_assoc,
  append-nil, arith,
}
use p.Common.Lists.{length, length-append, take-append, drop-append}
use p.Wire.Types.{Stat, ok}
use p.Wire.Encode.{put_string}
use p.Wire.Decode.{on_unix, take_bytes, get_string, done}
use p.Wire.Forward.{
  good, IsQid, cut_string_short, get_uint-le_bytes, get_string-put_string, get_qid-put_qid,
}
use p.Wire.Stat.{
  marshal_unix, marshal_stat_body, put_stat, UnixFields, get_unix_fields, get_unix, get_stat_body,
  get_stat_from, get_stat, note_error, unmarshal_stat_version, marshal_stat_version,
}

abbrev pub IsString : List ℕ → Type 0
IsString s = length s ≤ 0xFFFF

-- What the 9P2000.u fields can be: anything that fits, or zero where they are not sent.
abbrev pub FitsUnixFields : Bool → List ℕ → ℕ → ℕ → ℕ → Type 0
FitsUnixFields true extension nuid ngid nmuid =
    IsString extension × (nuid < 2 ^ 32) × (ngid < 2 ^ 32) × (nmuid < 2 ^ 32)
FitsUnixFields false extension nuid ngid nmuid =
    (extension ≡ []) × (nuid ≡ 0) × (ngid ≡ 0) × (nmuid ≡ 0)

abbrev pub FitsUnix : Bool → Stat → Type 0
FitsUnix u s = FitsUnixFields u s.extension s.nuid s.ngid s.nmuid

-- Each field fits its place on the wire, without regard to the size of the whole.
pub record FitsFields (u : Bool) (s : Stat) : Type 0 where
  pub type : s.type < 2 ^ 16
  pub dev : s.dev < 2 ^ 32
  pub qid : IsQid s.qid
  pub mode : s.mode < 2 ^ 32
  pub atime : s.atime < 2 ^ 32
  pub mtime : s.mtime < 2 ^ 32
  pub length : s.length < 2 ^ 64
  pub name : IsString s.name
  pub uid : IsString s.uid
  pub gid : IsString s.gid
  pub muid : IsString s.muid
  pub unix : FitsUnix u s

-- The body fits the two-byte size prefix too.
pub record FitsStat (u : Bool) (s : Stat) : Type 0 where
  pub fields : FitsFields u s
  pub size : length (marshal_stat_body u s) < 2 ^ 16

pub get_string_fits :
    (u : Bool) (s rest : List ℕ)
    → IsString s
    → get_string (good u (put_string s ++ rest)) ≡ (s, good u rest)
get_string_fits u s rest h = rw (get_string-put_string u s rest, cut_string_short s h)

abbrev unix_fields : Stat → UnixFields
unix_fields s = record { extension = s.extension; nuid = s.nuid; ngid = s.ngid; nmuid = s.nmuid }

get_unix-marshal_unix :
    (u : Bool) (s : Stat) (rest : List ℕ)
    → FitsUnix u s
    → get_unix (good u (marshal_unix u s ++ rest)) ≡ (unix_fields s, good u rest)
unfolding get_unix on_unix get_unix_fields marshal_unix
get_unix-marshal_unix true s rest h = simp (
  append_assoc,
  get_string_fits true s.extension _ h.0,
  get_uint-le_bytes true 4 s.nuid _ (omega arith),
  get_uint-le_bytes true 4 s.ngid _ (omega arith),
  get_uint-le_bytes true 4 s.nmuid _ (omega arith),
)
get_unix-marshal_unix false s rest h = ground arith

get_stat_body-marshal_stat_body :
    (u : Bool) (s : Stat) (rest : List ℕ)
    → FitsFields u s
    → get_stat_body (good u (marshal_stat_body u s ++ rest)) ≡ (s, good u rest)
unfolding get_stat_body marshal_stat_body
get_stat_body-marshal_stat_body u s rest h = simp (
  append_assoc,
  get_uint-le_bytes u 2 s.type _ (omega arith),
  get_uint-le_bytes u 4 s.dev _ (omega arith),
  get_qid-put_qid u s.qid _ h.qid,
  get_uint-le_bytes u 4 s.mode _ (omega arith),
  get_uint-le_bytes u 4 s.atime _ (omega arith),
  get_uint-le_bytes u 4 s.mtime _ (omega arith),
  get_uint-le_bytes u 8 s.length _ (omega arith),
  get_string_fits u s.name _ h.name,
  get_string_fits u s.uid _ h.uid,
  get_string_fits u s.gid _ h.gid,
  get_string_fits u s.muid _ h.muid,
  get_unix-marshal_unix u s _ h.unix,
)

pub mod_small : (n : ℕ) → n < 2 ^ 16 → n % 2 ^ 16 ≡ n
mod_small n h = omega arith

take_bytes-append :
    (u : Bool) (bs rest : List ℕ)
    → take_bytes (length bs) (good u (bs ++ rest)) ≡ (some bs, good u rest)
unfolding take_bytes
take_bytes-append u bs rest =
    ground (arith, length-append bs rest, take-append bs rest _ refl, drop-append bs rest _ refl)

get_stat_body_alone :
    (u : Bool) (s : Stat)
    → FitsFields u s
    → get_stat_body (good u (marshal_stat_body u s)) ≡ (s, good u [])
get_stat_body_alone u s h = rw append-nil at (get_stat_body-marshal_stat_body u s [] h)

-- decoder.stat gives back the Stat that encoder.stat wrote, and leaves what follows it.
pub get_stat-put_stat :
    (u : Bool) (s : Stat) (rest : List ℕ)
    → FitsStat u s
    → get_stat (good u (put_stat u s ++ rest)) ≡ (s, good u rest)
unfolding get_stat get_stat_from put_stat note_error done
get_stat-put_stat u s rest h = simp (
  mod_small (length (marshal_stat_body u s)) h.size,
  append_assoc,
  get_uint-le_bytes u 2 (length (marshal_stat_body u s)) _ h.size,
  take_bytes-append u (marshal_stat_body u s) rest,
  get_stat_body_alone u s h.fields,
)

-- UnmarshalStatVersion gives back the Stat that MarshalVersion wrote, if its fields fit the wire and
-- its body fits the two-byte size prefix.
pub unmarshal_stat-marshal_stat :
    (u : Bool) (s : Stat)
    → FitsStat u s
    → unmarshal_stat_version (marshal_stat_version u s) u ≡ ok s
unfolding unmarshal_stat_version done
unmarshal_stat-marshal_stat u s h = rw (rw append-nil at (get_stat-put_stat u s [] h))
