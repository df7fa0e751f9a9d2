-- ===== src/Wire/Fcall/Encode.antt =====
-- fcall.go, and RerrorFcall of errors.go: the methods marshalBody.
use p.Common.{ℕ, ◌%◌, ◌^◌, List, [], ◌∷◌, ◌++◌, Bool}
use p.Common.Tests.{if◌then◌else◌}
use p.Common.Lists.{length}
use p.Wire.Types.{
  Qid, Message, tversion, rversion, tauth, rauth, tattach, rattach, rerror, tflush, rflush, twalk,
  rwalk, topen, ropen, tcreate, rcreate, tread, rread, twrite, rwrite, tclunk, rclunk, tremove,
  rremove, tstat, rstat, twstat, rwstat,
}
use p.Wire.Encode.{put_uint8, put_uint16, put_uint32, put_uint64, put_string, put_qid}
use p.Wire.Stat.{put_stat}

-- `for _, n := range m.Wname { e.string(n) }`
unfoldable pub put_each_string : List (List ℕ) → List ℕ
put_each_string [] = []
put_each_string (s ∷ ss) = put_string s ++ put_each_string ss

-- `for _, q := range m.Wqid { e.qid(q) }`
unfoldable pub put_each_qid : List Qid → List ℕ
put_each_qid [] = []
put_each_qid (q ∷ qs) = put_qid q ++ put_each_qid qs

-- A uint16 count, and the elements.
unfoldable pub put_strings : List (List ℕ) → List ℕ
put_strings ss = put_uint16 (length ss % 2 ^ 16) ++ put_each_string ss

unfoldable pub put_qids : List Qid → List ℕ
put_qids qs = put_uint16 (length qs % 2 ^ 16) ++ put_each_qid qs

-- A uint32 count, and the bytes.
unfoldable pub put_counted : List ℕ → List ℕ
put_counted bytes = put_uint32 (length bytes % 2 ^ 32) ++ bytes

-- `if e.unix { e.string(m.Extension) }`
unfoldable pub put_extension : Bool → List ℕ → List ℕ
put_extension unix extension = if unix then put_string extension else []

-- The methods marshalBody.
unfoldable pub marshal_body : Bool → Message → List ℕ
marshal_body unix (tversion msize version) = put_uint32 msize ++ put_string version
marshal_body unix (rversion msize version) = put_uint32 msize ++ put_string version
marshal_body unix (tauth afid uname aname) =
    put_uint32 afid ++ (put_string uname ++ put_string aname)
marshal_body unix (rauth aqid) = put_qid aqid
marshal_body unix (tattach fid afid uname aname) =
    put_uint32 fid ++ (put_uint32 afid ++ (put_string uname ++ put_string aname))
marshal_body unix (rattach qid) = put_qid qid
marshal_body unix (rerror ename) = put_string ename
marshal_body unix (tflush oldtag) = put_uint16 oldtag
marshal_body unix rflush = []
marshal_body unix (twalk fid newfid wname) =
    put_uint32 fid ++ (put_uint32 newfid ++ put_strings wname)
marshal_body unix (rwalk wqid) = put_qids wqid
marshal_body unix (topen fid mode) = put_uint32 fid ++ put_uint8 (mode % 2 ^ 8)
marshal_body unix (ropen qid iounit) = put_qid qid ++ put_uint32 iounit
marshal_body unix (tcreate fid name perm mode extension) =
    put_uint32 fid
    ++ (put_string name
        ++ (put_uint32 perm ++ (put_uint8 (mode % 2 ^ 8) ++ put_extension unix extension)))
marshal_body unix (rcreate qid iounit) = put_qid qid ++ put_uint32 iounit
marshal_body unix (tread fid offset count) =
    put_uint32 fid ++ (put_uint64 offset ++ put_uint32 count)
marshal_body unix (rread bytes) = put_counted bytes
marshal_body unix (twrite fid offset bytes) =
    put_uint32 fid ++ (put_uint64 offset ++ put_counted bytes)
marshal_body unix (rwrite count) = put_uint32 count
marshal_body unix (tclunk fid) = put_uint32 fid
marshal_body unix rclunk = []
marshal_body unix (tremove fid) = put_uint32 fid
marshal_body unix rremove = []
marshal_body unix (tstat fid) = put_uint32 fid
marshal_body unix (rstat stat) = put_stat unix stat
marshal_body unix (twstat fid stat) = put_uint32 fid ++ put_stat unix stat
marshal_body unix rwstat = []
