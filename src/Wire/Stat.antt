-- ===== src/Wire/Stat.antt =====
-- stat.go: the encoding of a Stat, with its size prefix.
pub mod RoundTrip
pub mod Canonical
pub mod Oversize
use p.Common.{ℕ, ◌%◌, ◌^◌, List, [], ◌++◌, Bool, true, false, Option, none, some}
use p.Common.Tests.{if◌then◌else◌}
use p.Common.Lists.{length}
use p.Wire.Types.{Error, Result, ok, err, Qid, Stat}
use p.Wire.Encode.{put_uint16, put_uint32, put_uint64, put_string, put_qid}
use p.Wire.Decode.{
  Decoder, Read, pure, ◌>>=◌, on_unix, take_bytes, bytes_or_nil, get_uint16, get_uint32, get_uint64,
  get_string, get_qid, done,
}

-- The 9P2000.u fields, which are written only if `unix`.
unfoldable pub marshal_unix : Bool → Stat → List ℕ
marshal_unix unix s =
    if unix
    then put_string s.extension ++ (put_uint32 s.nuid ++ (put_uint32 s.ngid ++ put_uint32 s.nmuid))
    else []

-- Stat.marshalBody
unfoldable pub marshal_stat_body : Bool → Stat → List ℕ
marshal_stat_body unix s =
    put_uint16 s.type
    ++ (put_uint32 s.dev
        ++ (put_qid s.qid
            ++ (put_uint32 s.mode
                ++ (put_uint32 s.atime
                    ++ (put_uint32 s.mtime
                        ++ (put_uint64 s.length
                            ++ (put_string s.name
                                ++ (put_string s.uid
                                    ++ (put_string s.gid
                                        ++ (put_string s.muid ++ marshal_unix unix s))))))))))

-- encoder.stat. The prefix is `uint16(len(body))`, which wraps.
unfoldable pub put_stat : Bool → Stat → List ℕ
put_stat unix s = let body = marshal_stat_body unix s in put_uint16 (length body % 2 ^ 16) ++ body

-- Stat.MarshalVersion and Stat.Marshal.
abbrev pub marshal_stat_version : Bool → Stat → List ℕ
marshal_stat_version unix s = put_stat unix s

abbrev pub marshal_stat : Stat → List ℕ
marshal_stat s = marshal_stat_version false s

pub record UnixFields : Type 0 where
  pub extension : List ℕ
  pub nuid : ℕ
  pub ngid : ℕ
  pub nmuid : ℕ

abbrev pub no_unix : UnixFields
no_unix = record { extension = []; nuid = 0; ngid = 0; nmuid = 0 }

unfoldable pub get_unix_fields : Read UnixFields
get_unix_fields = do
  e ← get_string
  n ← get_uint32
  g ← get_uint32
  m ← get_uint32
  pure (record { extension = e; nuid = n; ngid = g; nmuid = m })

-- `if sd.unix { ... }`; without it the fields keep the zero values of `var s Stat`.
unfoldable pub get_unix : Read UnixFields
get_unix = on_unix get_unix_fields no_unix

-- The fields that decoder.stat reads from its own decoder `sd`.
unfoldable pub get_stat_body : Read Stat
get_stat_body = do
  t ← get_uint16
  dev ← get_uint32
  q ← get_qid
  mode ← get_uint32
  atime ← get_uint32
  mtime ← get_uint32
  len ← get_uint64
  name ← get_string
  uid ← get_string
  gid ← get_string
  muid ← get_string
  u ← get_unix
  pure (record {
    type = t;
    dev = dev;
    qid = q;
    mode = mode;
    atime = atime;
    mtime = mtime;
    length = len;
    name = name;
    uid = uid;
    gid = gid;
    muid = muid;
    extension = u.extension;
    nuid = u.nuid;
    ngid = u.ngid;
    nmuid = u.nmuid;
  })

-- `if err := sd.done(); err != nil && d.err == nil { d.err = err }`
note_error : Option Error → Decoder → Decoder
note_error none d = d
note_error (some e) d = elim d.err [ some _ ↦ d | none ↦ record d { err = some e } ]

-- The rest of decoder.stat, with its own decoder over the bytes `body`.
unfoldable pub get_stat_from : List ℕ → Read Stat
unfolding note_error
get_stat_from body d =
    let s = get_stat_body (record { buf = body; err = none; unix = d.unix }) in
    (s.0, note_error (done s.1) d)

-- decoder.stat
unfoldable pub get_stat : Read Stat
get_stat = do n ← get_uint16; body ← take_bytes n; get_stat_from (bytes_or_nil body)

abbrev finish {ℓ} : {A : Type ℓ} → A → Option Error → Result A
finish a none = ok a
finish a (some e) = err e

-- UnmarshalStatVersion and UnmarshalStat.
unfoldable pub unmarshal_stat_version : List ℕ → Bool → Result Stat
unmarshal_stat_version b unix =
    let r = get_stat (record { buf = b; err = none; unix = unix }) in finish r.0 (done r.1)

abbrev pub unmarshal_stat : List ℕ → Result Stat
unmarshal_stat b = unmarshal_stat_version b false
