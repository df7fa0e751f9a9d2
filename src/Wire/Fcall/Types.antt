-- ===== src/Wire/Fcall/Types.antt =====
-- fcall.go: the message types, their names, and the empty message of each.
-- A method on a struct is a clause on the constructor that stands for it.
use Prim.Native.String.{String}
use p.Common.{ℕ, []}
use p.Common.Tests.{◌==◌, if◌then◌else◌}
use p.Wire.Types.{
  unknown_type, Result, ok, err, zero_qid, zero_stat, Message, tversion, rversion, tauth, rauth,
  tattach, rattach, rerror, tflush, rflush, twalk, rwalk, topen, ropen, tcreate, rcreate, tread,
  rread, twrite, rwrite, tclunk, rclunk, tremove, rremove, tstat, rstat, twstat, rwstat,
}

-- FcallType.String
unfoldable pub fcall_type_string : ℕ → String
fcall_type_string t =
    if t == 100
    then "Tversion"
    else if t == 101
    then "Rversion"
    else if t == 102
    then "Tauth"
    else if t == 103
    then "Rauth"
    else if t == 104
    then "Tattach"
    else if t == 105
    then "Rattach"
    else if t == 107
    then "Rerror"
    else if t == 108
    then "Tflush"
    else if t == 109
    then "Rflush"
    else if t == 110
    then "Twalk"
    else if t == 111
    then "Rwalk"
    else if t == 112
    then "Topen"
    else if t == 113
    then "Ropen"
    else if t == 114
    then "Tcreate"
    else if t == 115
    then "Rcreate"
    else if t == 116
    then "Tread"
    else if t == 117
    then "Rread"
    else if t == 118
    then "Twrite"
    else if t == 119
    then "Rwrite"
    else if t == 120
    then "Tclunk"
    else if t == 121
    then "Rclunk"
    else if t == 122
    then "Tremove"
    else if t == 123
    then "Rremove"
    else if t == 124
    then "Tstat"
    else if t == 125
    then "Rstat"
    else if t == 126
    then "Twstat"
    else if t == 127
    then "Rwstat"
    else "Tunknown"

-- newMessage: the zero value of the struct for a type, or ErrUnknownType.
unfoldable pub new_message : ℕ → Result Message
new_message t =
    if t == 100
    then ok (tversion 0 [])
    else if t == 101
    then ok (rversion 0 [])
    else if t == 102
    then ok (tauth 0 [] [])
    else if t == 103
    then ok (rauth zero_qid)
    else if t == 104
    then ok (tattach 0 0 [] [])
    else if t == 105
    then ok (rattach zero_qid)
    else if t == 107
    then ok (rerror [])
    else if t == 108
    then ok (tflush 0)
    else if t == 109
    then ok rflush
    else if t == 110
    then ok (twalk 0 0 [])
    else if t == 111
    then ok (rwalk [])
    else if t == 112
    then ok (topen 0 0)
    else if t == 113
    then ok (ropen zero_qid 0)
    else if t == 114
    then ok (tcreate 0 [] 0 0 [])
    else if t == 115
    then ok (rcreate zero_qid 0)
    else if t == 116
    then ok (tread 0 0 0)
    else if t == 117
    then ok (rread [])
    else if t == 118
    then ok (twrite 0 0 [])
    else if t == 119
    then ok (rwrite 0)
    else if t == 120
    then ok (tclunk 0)
    else if t == 121
    then ok rclunk
    else if t == 122
    then ok (tremove 0)
    else if t == 123
    then ok rremove
    else if t == 124
    then ok (tstat 0)
    else if t == 125
    then ok (rstat zero_stat)
    else if t == 126
    then ok (twstat 0 zero_stat)
    else if t == 127
    then ok rwstat
    else err unknown_type

-- The methods MsgType, with the constants of the FcallType block.
unfoldable pub msg_type : Message → ℕ
msg_type (tversion msize version) = 100
msg_type (rversion msize version) = 101
msg_type (tauth afid uname aname) = 102
msg_type (rauth aqid) = 103
msg_type (tattach fid afid uname aname) = 104
msg_type (rattach qid) = 105
msg_type (rerror ename) = 107
msg_type (tflush oldtag) = 108
msg_type rflush = 109
msg_type (twalk fid newfid wname) = 110
msg_type (rwalk wqid) = 111
msg_type (topen fid mode) = 112
msg_type (ropen qid iounit) = 113
msg_type (tcreate fid name perm mode extension) = 114
msg_type (rcreate qid iounit) = 115
msg_type (tread fid offset count) = 116
msg_type (rread bytes) = 117
msg_type (twrite fid offset bytes) = 118
msg_type (rwrite count) = 119
msg_type (tclunk fid) = 120
msg_type rclunk = 121
msg_type (tremove fid) = 122
msg_type rremove = 123
msg_type (tstat fid) = 124
msg_type (rstat stat) = 125
msg_type (twstat fid stat) = 126
msg_type rwstat = 127
