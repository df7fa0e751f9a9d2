-- ===== src/Wire/Fcall/RoundTrip.antt =====
-- fcall.go: decoding the encoded body of a message.
use p.Common.{
  ℕ, ◌≤◌, ◌<◌, ◌^◌, ◌%◌, ◌≡◌, refl, List, [], ◌∷◌, ◌++◌, Bool, true, false, append_assoc, arith,
}
use p.Common.Tests.{le→ltb}
use p.Common.Lists.{length, All}
use p.Wire.Types.{
  zero_qid, zero_stat, Qid, Message, ok, tversion, rversion, tauth, rauth, tattach, rattach, rerror,
  tflush, rflush, twalk, rwalk, topen, ropen, tcreate, rcreate, tread, rread, twrite, rwrite,
  tclunk, rclunk, tremove, rremove, tstat, rstat, twstat, rwstat,
}
use p.Wire.Decode.{on_unix}
use p.Wire.Forward.{good, IsQid, get_uint-le_bytes, get_bytes-append, get_qid-put_qid}
use p.Wire.Stat.RoundTrip.{IsString, get_string_fits, FitsStat, get_stat-put_stat}
use p.Wire.Fcall.Types.{new_message, msg_type}
use p.Wire.Fcall.Encode.{
  put_each_string, put_each_qid, put_strings, put_qids, put_counted, put_extension, marshal_body,
}
use p.Wire.Fcall.Decode.{
  get_each_string, get_each_qid, get_strings, get_qids, get_counted, get_extension, unmarshal_body,
}

-- An extension is sent on a 9P2000.u connection only.
abbrev pub FitsExtension : Bool → List ℕ → Type 0
FitsExtension true e = IsString e
FitsExtension false e = e ≡ []

-- Every field fits its place on the wire.
abbrev pub Fits : Bool → Message → Type 0
Fits u (tversion msize version) = (msize < 2 ^ 32) × IsString version
Fits u (rversion msize version) = (msize < 2 ^ 32) × IsString version
Fits u (tauth afid uname aname) = (afid < 2 ^ 32) × IsString uname × IsString aname
Fits u (rauth aqid) = IsQid aqid
Fits u (tattach fid afid uname aname) =
    (fid < 2 ^ 32) × (afid < 2 ^ 32) × IsString uname × IsString aname
Fits u (rattach qid) = IsQid qid
Fits u (rerror ename) = IsString ename
Fits u (tflush oldtag) = oldtag < 2 ^ 16
Fits u (twalk fid newfid wname) =
    (fid < 2 ^ 32) × (newfid < 2 ^ 32) × (length wname ≤ 16) × All IsString wname
Fits u (rwalk wqid) = (length wqid ≤ 16) × All IsQid wqid
Fits u (topen fid mode) = (fid < 2 ^ 32) × (mode < 2 ^ 8)
Fits u (ropen qid iounit) = IsQid qid × (iounit < 2 ^ 32)
Fits u (tcreate fid name perm mode extension) =
    (fid < 2 ^ 32) × IsString name × (perm < 2 ^ 32) × (mode < 2 ^ 8) × FitsExtension u extension
Fits u (rcreate qid iounit) = IsQid qid × (iounit < 2 ^ 32)
Fits u (tread fid offset count) = (fid < 2 ^ 32) × (offset < 2 ^ 64) × (count < 2 ^ 32)
Fits u (rread bytes) = length bytes < 2 ^ 32
Fits u (twrite fid offset bytes) = (fid < 2 ^ 32) × (offset < 2 ^ 64) × (length bytes < 2 ^ 32)
Fits u (rwrite count) = count < 2 ^ 32
Fits u (tclunk fid) = fid < 2 ^ 32
Fits u (tremove fid) = fid < 2 ^ 32
Fits u (tstat fid) = fid < 2 ^ 32
Fits u (rstat stat) = FitsStat u stat
Fits u (twstat fid stat) = (fid < 2 ^ 32) × FitsStat u stat
Fits u rflush = Unit {0}
Fits u rclunk = Unit {0}
Fits u rremove = Unit {0}
Fits u rwstat = Unit {0}

pub mod_small : (n m : ℕ) → n < m → n % m ≡ n
mod_small n m h = grind arith

get_each_string-put_each_string :
    (u : Bool) (ss : List (List ℕ)) (rest : List ℕ)
    → All IsString ss
    → get_each_string (length ss) (good u (put_each_string ss ++ rest)) ≡ (ss, good u rest)
unfolding get_each_string put_each_string
get_each_string-put_each_string u [] rest h = refl
get_each_string-put_each_string u (s ∷ ss) rest h =
    simp (append_assoc, get_string_fits u s _ h.0, get_each_string-put_each_string u ss rest h.1)

get_each_qid-put_each_qid :
    (u : Bool) (qs : List Qid) (rest : List ℕ)
    → All IsQid qs
    → get_each_qid (length qs) (good u (put_each_qid qs ++ rest)) ≡ (qs, good u rest)
unfolding get_each_qid put_each_qid
get_each_qid-put_each_qid u [] rest h = refl
get_each_qid-put_each_qid u (q ∷ qs) rest h =
    simp (append_assoc, get_qid-put_qid u q _ h.0, get_each_qid-put_each_qid u qs rest h.1)

get_strings-put_strings :
    (u : Bool) (old ss : List (List ℕ)) (rest : List ℕ)
    → length ss ≤ 16
    → All IsString ss
    → get_strings old (good u (put_strings ss ++ rest)) ≡ (ss, good u rest)
unfolding get_strings put_strings
get_strings-put_strings u old ss rest n h = simp (
  mod_small (length ss) (2 ^ 16) (omega arith),
  append_assoc,
  get_uint-le_bytes u 2 (length ss) _ (omega arith),
  le→ltb 16 (length ss) n,
  get_each_string-put_each_string u ss rest h,
)

get_qids-put_qids :
    (u : Bool) (old qs : List Qid) (rest : List ℕ)
    → length qs ≤ 16
    → All IsQid qs
    → get_qids old (good u (put_qids qs ++ rest)) ≡ (qs, good u rest)
unfolding get_qids put_qids
get_qids-put_qids u old qs rest n h = simp (
  mod_small (length qs) (2 ^ 16) (omega arith),
  append_assoc,
  get_uint-le_bytes u 2 (length qs) _ (omega arith),
  le→ltb 16 (length qs) n,
  get_each_qid-put_each_qid u qs rest h,
)

get_counted-put_counted :
    (u : Bool) (bytes rest : List ℕ)
    → length bytes < 2 ^ 32
    → get_counted (good u (put_counted bytes ++ rest)) ≡ (bytes, good u rest)
unfolding get_counted put_counted
get_counted-put_counted u bytes rest h = simp (
  mod_small (length bytes) (2 ^ 32) h,
  append_assoc,
  get_uint-le_bytes u 4 (length bytes) _ h,
  get_bytes-append u _ bytes rest refl,
)

get_extension-put_extension :
    (u : Bool) (e rest : List ℕ)
    → FitsExtension u e
    → get_extension [] (good u (put_extension u e ++ rest)) ≡ (e, good u rest)
unfolding get_extension on_unix put_extension
get_extension-put_extension true e rest h = get_string_fits true e rest h
get_extension-put_extension false e rest h = ground arith

-- The empty message of the same type, which unmarshalBody fills.
abbrev pub blank : Message → Message
blank (tversion _ _) = tversion 0 []
blank (rversion _ _) = rversion 0 []
blank (tauth _ _ _) = tauth 0 [] []
blank (rauth _) = rauth zero_qid
blank (tattach _ _ _ _) = tattach 0 0 [] []
blank (rattach _) = rattach zero_qid
blank (rerror _) = rerror []
blank (tflush _) = tflush 0
blank rflush = rflush
blank (twalk _ _ _) = twalk 0 0 []
blank (rwalk _) = rwalk []
blank (topen _ _) = topen 0 0
blank (ropen _ _) = ropen zero_qid 0
blank (tcreate _ _ _ _ _) = tcreate 0 [] 0 0 []
blank (rcreate _ _) = rcreate zero_qid 0
blank (tread _ _ _) = tread 0 0 0
blank (rread _) = rread []
blank (twrite _ _ _) = twrite 0 0 []
blank (rwrite _) = rwrite 0
blank (tclunk _) = tclunk 0
blank rclunk = rclunk
blank (tremove _) = tremove 0
blank rremove = rremove
blank (tstat _) = tstat 0
blank (rstat _) = rstat zero_stat
blank (twstat _ _) = twstat 0 zero_stat
blank rwstat = rwstat

-- newMessage knows every type that MsgType returns.
pub new_message-msg_type : (m : Message) → new_message (msg_type m) ≡ ok (blank m)
unfolding new_message msg_type
new_message-msg_type (tversion _ _) = refl
new_message-msg_type (rversion _ _) = refl
new_message-msg_type (tauth _ _ _) = refl
new_message-msg_type (rauth _) = refl
new_message-msg_type (tattach _ _ _ _) = refl
new_message-msg_type (rattach _) = refl
new_message-msg_type (rerror _) = refl
new_message-msg_type (tflush _) = refl
new_message-msg_type rflush = refl
new_message-msg_type (twalk _ _ _) = refl
new_message-msg_type (rwalk _) = refl
new_message-msg_type (topen _ _) = refl
new_message-msg_type (ropen _ _) = refl
new_message-msg_type (tcreate _ _ _ _ _) = refl
new_message-msg_type (rcreate _ _) = refl
new_message-msg_type (tread _ _ _) = refl
new_message-msg_type (rread _) = refl
new_message-msg_type (twrite _ _ _) = refl
new_message-msg_type (rwrite _) = refl
new_message-msg_type (tclunk _) = refl
new_message-msg_type rclunk = refl
new_message-msg_type (tremove _) = refl
new_message-msg_type rremove = refl
new_message-msg_type (tstat _) = refl
new_message-msg_type (rstat _) = refl
new_message-msg_type (twstat _ _) = refl
new_message-msg_type rwstat = refl

-- unmarshalBody gives back the message that marshalBody wrote, and leaves what follows it.
pub unmarshal_body-marshal_body :
    (u : Bool) (m : Message) (rest : List ℕ)
    → Fits u m
    → unmarshal_body (blank m) (good u (marshal_body u m ++ rest)) ≡ (m, good u rest)
unfolding unmarshal_body marshal_body
unmarshal_body-marshal_body u (tversion msize version) rest h =
    simp (append_assoc, get_uint-le_bytes u 4 msize _ h.0, get_string_fits u version _ h.1)
unmarshal_body-marshal_body u (rversion msize version) rest h =
    simp (append_assoc, get_uint-le_bytes u 4 msize _ h.0, get_string_fits u version _ h.1)
unmarshal_body-marshal_body u (tauth afid uname aname) rest h = simp (
  append_assoc,
  get_uint-le_bytes u 4 afid _ h.0,
  get_string_fits u uname _ h.1,
  get_string_fits u aname _ h.2,
)
unmarshal_body-marshal_body u (rauth aqid) rest h = simp (get_qid-put_qid u aqid _ h)
unmarshal_body-marshal_body u (tattach fid afid uname aname) rest h = simp (
  append_assoc,
  get_uint-le_bytes u 4 fid _ h.0,
  get_uint-le_bytes u 4 afid _ h.1,
  get_string_fits u uname _ h.2,
  get_string_fits u aname _ h.3,
)
unmarshal_body-marshal_body u (rattach qid) rest h = simp (get_qid-put_qid u qid _ h)
unmarshal_body-marshal_body u (rerror ename) rest h = simp (get_string_fits u ename _ h)
unmarshal_body-marshal_body u (tflush oldtag) rest h = simp (get_uint-le_bytes u 2 oldtag _ h)
unmarshal_body-marshal_body u rflush rest h = refl
unmarshal_body-marshal_body u (twalk fid newfid wname) rest h = simp (
  append_assoc,
  get_uint-le_bytes u 4 fid _ h.0,
  get_uint-le_bytes u 4 newfid _ h.1,
  get_strings-put_strings u [] wname _ h.2 h.3,
)
unmarshal_body-marshal_body u (rwalk wqid) rest h = simp (get_qids-put_qids u [] wqid _ h.0 h.1)
unmarshal_body-marshal_body u (topen fid mode) rest h = simp (
  append_assoc,
  get_uint-le_bytes u 4 fid _ h.0,
  mod_small mode (2 ^ 8) h.1,
  get_uint-le_bytes u 1 mode _ h.1,
)
unmarshal_body-marshal_body u (ropen qid iounit) rest h =
    simp (append_assoc, get_qid-put_qid u qid _ h.0, get_uint-le_bytes u 4 iounit _ h.1)
unmarshal_body-marshal_body u (tcreate fid name perm mode extension) rest h = simp (
  append_assoc,
  get_uint-le_bytes u 4 fid _ h.0,
  get_string_fits u name _ h.1,
  get_uint-le_bytes u 4 perm _ h.2,
  mod_small mode (2 ^ 8) h.3,
  get_uint-le_bytes u 1 mode _ h.3,
  get_extension-put_extension u extension _ h.4,
)
unmarshal_body-marshal_body u (rcreate qid iounit) rest h =
    simp (append_assoc, get_qid-put_qid u qid _ h.0, get_uint-le_bytes u 4 iounit _ h.1)
unmarshal_body-marshal_body u (tread fid offset count) rest h = simp (
  append_assoc,
  get_uint-le_bytes u 4 fid _ h.0,
  get_uint-le_bytes u 8 offset _ h.1,
  get_uint-le_bytes u 4 count _ h.2,
)
unmarshal_body-marshal_body u (rread bytes) rest h = simp (get_counted-put_counted u bytes _ h)
unmarshal_body-marshal_body u (twrite fid offset bytes) rest h = simp (
  append_assoc,
  get_uint-le_bytes u 4 fid _ h.0,
  get_uint-le_bytes u 8 offset _ h.1,
  get_counted-put_counted u bytes _ h.2,
)
unmarshal_body-marshal_body u (rwrite count) rest h = simp (get_uint-le_bytes u 4 count _ h)
unmarshal_body-marshal_body u (tclunk fid) rest h = simp (get_uint-le_bytes u 4 fid _ h)
unmarshal_body-marshal_body u rclunk rest h = refl
unmarshal_body-marshal_body u (tremove fid) rest h = simp (get_uint-le_bytes u 4 fid _ h)
unmarshal_body-marshal_body u rremove rest h = refl
unmarshal_body-marshal_body u (tstat fid) rest h = simp (get_uint-le_bytes u 4 fid _ h)
unmarshal_body-marshal_body u (rstat stat) rest h = simp (get_stat-put_stat u stat _ h)
unmarshal_body-marshal_body u (twstat fid stat) rest h =
    simp (append_assoc, get_uint-le_bytes u 4 fid _ h.0, get_stat-put_stat u stat _ h.1)
unmarshal_body-marshal_body u rwstat rest h = refl
