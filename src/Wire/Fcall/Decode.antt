-- ===== src/Wire/Fcall/Decode.antt =====
-- fcall.go, and RerrorFcall of errors.go: the methods unmarshalBody.
use p.Common.{ℕ, zero, suc, List, [], ◌∷◌, none, some}
use p.Common.Tests.{ltb, if◌then◌else◌}
use p.Wire.Types.{
  too_many_welem, max_welem, Qid, Message, tversion, rversion, tauth, rauth, tattach, rattach,
  rerror, tflush, rflush, twalk, rwalk, topen, ropen, tcreate, rcreate, tread, rread, twrite,
  rwrite, tclunk, rclunk, tremove, rremove, tstat, rstat, twstat, rwstat,
}
use p.Wire.Decode.{
  Read, on_unix, pure, ◌>>=◌, get_uint8, get_uint16, get_uint32, get_uint64, get_bytes, get_string,
  get_qid,
}
use p.Wire.Stat.{get_stat}

-- `for i := range m.Wname { m.Wname[i] = d.string() }`, with `n` elements to go.
unfoldable pub get_each_string : ℕ → Read (List (List ℕ))
get_each_string zero = pure []
get_each_string (suc n) = do s ← get_string; ss ← get_each_string n; pure (s ∷ ss)

unfoldable pub get_each_qid : ℕ → Read (List Qid)
get_each_qid zero = pure []
get_each_qid (suc n) = do q ← get_qid; qs ← get_each_qid n; pure (q ∷ qs)

-- `if d.err == nil { d.err = ErrTooManyWElem }`, and the receiver's list stays as it was.
unfoldable pub too_many : {A : Type 0} → List A → Read (List A)
too_many old d = (old, elim d.err [ some _ ↦ d | none ↦ record d { err = some too_many_welem } ])

-- At most MaxWElem elements are read; `old` is what the receiver holds.
unfoldable pub get_strings : List (List ℕ) → Read (List (List ℕ))
get_strings old = do n ← get_uint16; if ltb max_welem n then too_many old else get_each_string n

unfoldable pub get_qids : List Qid → Read (List Qid)
get_qids old = do n ← get_uint16; if ltb max_welem n then too_many old else get_each_qid n

unfoldable pub get_counted : Read (List ℕ)
get_counted = do n ← get_uint32; get_bytes n

-- `if d.unix { m.Extension = d.string() }`
unfoldable pub get_extension : List ℕ → Read (List ℕ)
get_extension old = on_unix get_string old

-- The methods unmarshalBody: the receiver with the fields that were read.
unfoldable pub unmarshal_body : Message → Read Message
unmarshal_body (tversion _ _) = do
  msize ← get_uint32
  version ← get_string
  pure (tversion msize version)
unmarshal_body (rversion _ _) = do
  msize ← get_uint32
  version ← get_string
  pure (rversion msize version)
unmarshal_body (tauth _ _ _) = do
  afid ← get_uint32
  uname ← get_string
  aname ← get_string
  pure (tauth afid uname aname)
unmarshal_body (rauth _) = do aqid ← get_qid; pure (rauth aqid)
unmarshal_body (tattach _ _ _ _) = do
  fid ← get_uint32
  afid ← get_uint32
  uname ← get_string
  aname ← get_string
  pure (tattach fid afid uname aname)
unmarshal_body (rattach _) = do qid ← get_qid; pure (rattach qid)
unmarshal_body (rerror _) = do ename ← get_string; pure (rerror ename)
unmarshal_body (tflush _) = do oldtag ← get_uint16; pure (tflush oldtag)
unmarshal_body rflush = pure rflush
unmarshal_body (twalk _ _ wname) = do
  fid ← get_uint32
  newfid ← get_uint32
  names ← get_strings wname
  pure (twalk fid newfid names)
unmarshal_body (rwalk wqid) = do qids ← get_qids wqid; pure (rwalk qids)
unmarshal_body (topen _ _) = do fid ← get_uint32; mode ← get_uint8; pure (topen fid mode)
unmarshal_body (ropen _ _) = do qid ← get_qid; iounit ← get_uint32; pure (ropen qid iounit)
unmarshal_body (tcreate _ _ _ _ extension) = do
  fid ← get_uint32
  name ← get_string
  perm ← get_uint32
  mode ← get_uint8
  ext ← get_extension extension
  pure (tcreate fid name perm mode ext)
unmarshal_body (rcreate _ _) = do qid ← get_qid; iounit ← get_uint32; pure (rcreate qid iounit)
unmarshal_body (tread _ _ _) = do
  fid ← get_uint32
  offset ← get_uint64
  count ← get_uint32
  pure (tread fid offset count)
unmarshal_body (rread _) = do bytes ← get_counted; pure (rread bytes)
unmarshal_body (twrite _ _ _) = do
  fid ← get_uint32
  offset ← get_uint64
  bytes ← get_counted
  pure (twrite fid offset bytes)
unmarshal_body (rwrite _) = do count ← get_uint32; pure (rwrite count)
unmarshal_body (tclunk _) = do fid ← get_uint32; pure (tclunk fid)
unmarshal_body rclunk = pure rclunk
unmarshal_body (tremove _) = do fid ← get_uint32; pure (tremove fid)
unmarshal_body rremove = pure rremove
unmarshal_body (tstat _) = do fid ← get_uint32; pure (tstat fid)
unmarshal_body (rstat _) = do stat ← get_stat; pure (rstat stat)
unmarshal_body (twstat _ _) = do fid ← get_uint32; stat ← get_stat; pure (twstat fid stat)
unmarshal_body rwstat = pure rwstat
