-- ===== src/Wire/Stat/Canonical.antt =====
-- stat.go: a Stat that was decoded is encoded to the bytes it came from.
use p.Common.{
  ℕ, ◌<◌, ◌^◌, ◌%◌, ◌≡◌, refl, sym, ap, ◌∙◌, List, [], ◌++◌, Bool, true, Option, some, none,
  append-nil, arith,
}
use p.Common.Lists.{length}
use p.Common.Bytes.{le_bytes, IsBytes}
use p.Wire.Types.{Stat, zero_stat, ok}
use p.Wire.Encode.{put_string, put_qid}
use p.Wire.Decode.{Decoder, bytes_or_nil, done}
use p.Wire.Forward.{good}
use p.Wire.Backward.{
  Consumes-done, Consumes, Consumes-pure, Consumes->>=, Consumes-then, Consumes-weaken,
  on_unix-Consumes, take_bytes-Consumes, get_uint-Consumes, get_string-Consumes, get_qid-Consumes,
}
use p.Wire.Stat.{
  marshal_unix, marshal_stat_body, put_stat, UnixFields, no_unix, get_unix_fields, get_unix,
  get_stat_body, get_stat_from, get_stat, note_error, unmarshal_stat_version, marshal_stat_version,
}
use p.Wire.Stat.RoundTrip.{FitsUnix, FitsFields, FitsStat}

-- A Stat with these 9P2000.u fields.
abbrev with_unix : UnixFields → Stat
with_unix f = record zero_stat {
  extension = f.extension;
  nuid = f.nuid;
  ngid = f.ngid;
  nmuid = f.nmuid;
}

get_unix-Consumes :
    (u : Bool)
    → Consumes u get_unix (λ f bs. (bs ≡ marshal_unix u (with_unix f)) × FitsUnix u (with_unix f))
unfolding get_unix get_unix_fields marshal_unix
get_unix-Consumes u =
    on_unix-Consumes (λ v f bs. (bs ≡ marshal_unix v (with_unix f)) × FitsUnix v (with_unix f)) u
      get_unix_fields no_unix
      (Consumes-then (get_string-Consumes true) λ e. Consumes-then (get_uint-Consumes true 4) λ n.
        Consumes-then (get_uint-Consumes true 4) λ g. Consumes-then (get_uint-Consumes true 4) λ m.
          Consumes-pure (record { extension = e; nuid = n; ngid = g; nmuid = m })
            λ hm hg hn he. (rw append-nil, (he, hn, hg, hm)))
      (refl, (refl, refl, refl, refl))

get_stat_body-Consumes :
    (u : Bool) → Consumes u get_stat_body (λ s bs. (bs ≡ marshal_stat_body u s) × FitsFields u s)
unfolding get_stat_body marshal_stat_body marshal_unix
get_stat_body-Consumes u = Consumes-then (get_uint-Consumes u 2) λ t.
    Consumes-then (get_uint-Consumes u 4) λ dev. Consumes-then (get_qid-Consumes u) λ q.
      Consumes-then (get_uint-Consumes u 4) λ mode. Consumes-then (get_uint-Consumes u 4) λ atime.
        Consumes-then (get_uint-Consumes u 4) λ mtime. Consumes-then (get_uint-Consumes u 8) λ len.
          Consumes-then (get_string-Consumes u) λ name. Consumes-then (get_string-Consumes u) λ uid.
            Consumes-then (get_string-Consumes u) λ gid.
              Consumes-then (get_string-Consumes u) λ muid. Consumes-then (get_unix-Consumes u) λ f.
                Consumes-pure
                  (record {
                    type = t;
                    dev = dev;
                    qid = q;
                    mode = mode;
                    atime = atime;
                    mtime = mtime;
                    length = len;
                    name = name;
                    uid = uid;
                    gid = gid;
                    muid = muid;
                    extension = f.extension;
                    nuid = f.nuid;
                    ngid = f.ngid;
                    nmuid = f.nmuid;
                  })
                  λ h12 h11 h10 h9 h8 h7 h6 h5 h4 h3 h2 h1. (
                    ap
                        (λ x.
                          le_bytes 2 t
                          ++ (le_bytes 4 dev
                              ++ (put_qid q
                                  ++ (le_bytes 4 mode
                                      ++ (le_bytes 4 atime
                                          ++ (le_bytes 4 mtime
                                              ++ (le_bytes 8 len
                                                  ++ (put_string name
                                                      ++ (put_string uid
                                                          ++ (put_string gid
                                                            ++ (put_string muid ++ x)))))))))))
                        (append-nil (marshal_unix u (with_unix f))),
                    record {
                      type = h1;
                      dev = h2;
                      qid = h3;
                      mode = h4;
                      atime = h5;
                      mtime = h6;
                      length = h7;
                      name = h8;
                      uid = h9;
                      gid = h10;
                      muid = h11;
                      unix = h12;
                    },
                  )

-- The decoder over the bytes of a Stat's body.
abbrev stat_decoder : List ℕ → Decoder → Decoder
stat_decoder body d = record { buf = body; err = none; unix = d.unix }

get_stat_from_success :
    (body : List ℕ) (d : Decoder)
    → (get_stat_from body d).1.err ≡ none
    → (d.err ≡ none)
      × (get_stat_from body d ≡ ((get_stat_body (stat_decoder body d)).0, d))
      × (done (get_stat_body (stat_decoder body d)).1 ≡ none)
unfolding get_stat_from note_error
get_stat_from_success body d e = ground arith

-- The bytes of a Stat's body are all consumed, and nothing else.
get_stat_from-Consumes :
    (u : Bool) (body : List ℕ)
    → Consumes u
        (get_stat_from body)
        (λ s cs. IsBytes body → (cs ≡ []) × (body ≡ marshal_stat_body u s) × FitsFields u s)
get_stat_from-Consumes u body = record {
  sticky = λ d e. (get_stat_from_success body d e).0;
  run = λ d hu hb e.
      let (_, eq, fine) = get_stat_from_success body d e in
      rw eq (
        [],
        record { front = refl; unix = hu; rest = hb },
        λ hbody.
            let (eq', fits) =
              Consumes-done (stat_decoder body d) (get_stat_body-Consumes u) hu hbody fine in
            (refl, eq', fits),
      );
}

-- A body `bs` of the length `n` that the prefix says.
stat_bytes :
    (u : Bool) (n : ℕ) (s : Stat) (p : Option (List ℕ)) (bs cs : List ℕ)
    → (p ≡ some bs) × (length bs ≡ n) × IsBytes bs
    → n < 256 ^ 2
    → (IsBytes (bytes_or_nil p)
        → (cs ≡ []) × (bytes_or_nil p ≡ marshal_stat_body u s) × FitsFields u s)
    → (le_bytes 2 n ++ (bs ++ cs) ≡ put_stat u s) × FitsStat u s
unfolding put_stat
stat_bytes u n s p bs cs (hp, hl, hb) hn h =
    let same : bytes_or_nil p ≡ bs = ap bytes_or_nil hp in
    let (empty, eq, fits) = h (rw same hb) in
    let eq' : bs ≡ marshal_stat_body u s = sym same ∙ eq in
    let len : length (marshal_stat_body u s) ≡ n = ap length (sym eq') ∙ hl in
    let small : length (marshal_stat_body u s) % 2 ^ 16 ≡ n = omega arith in
    (rw (empty, append-nil, eq', small), record { fields = fits; size = omega arith })

-- decoder.stat reads a Stat from the bytes that encoder.stat writes for it.
pub get_stat-Consumes :
    (u : Bool) → Consumes u get_stat (λ s bs. (bs ≡ put_stat u s) × FitsStat u s)
unfolding get_stat put_stat
get_stat-Consumes u = Consumes-then (get_uint-Consumes u 2) λ n.
    Consumes->>= (take_bytes-Consumes u n) λ p.
      Consumes-weaken (get_stat_from-Consumes u (bytes_or_nil p))
        λ s cs h bs hp hn. stat_bytes u n s p bs cs hp hn h

unmarshal_stat_success :
    (u : Bool) (b : List ℕ) (s : Stat)
    → unmarshal_stat_version b u ≡ ok s
    → ((get_stat (good u b)).0 ≡ s) × (done (get_stat (good u b)).1 ≡ none)
unfolding unmarshal_stat_version
unmarshal_stat_success u b s e = ground arith

-- Whatever bytes UnmarshalStatVersion accepts are those that MarshalVersion writes for its result,
-- and that result fits the wire.
pub unmarshal_stat-canonical :
    (u : Bool) (b : List ℕ) (s : Stat)
    → IsBytes b
    → unmarshal_stat_version b u ≡ ok s
    → (marshal_stat_version u s ≡ b) × FitsStat u s
unmarshal_stat-canonical u b s hb e =
    let (eq, fine) = unmarshal_stat_success u b s e in
    let (same, fits) = Consumes-done (good u b) (get_stat-Consumes u) refl hb fine in
    rw (← eq) (sym same, fits)
