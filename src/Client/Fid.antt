-- ===== src/Client/Fid.antt =====
-- client/fid.go: the calls on a fid. Each is one request; what its reply is taken for is the result.
use p.Common.{ℕ, ◌+◌, ◌%◌, ◌^◌, List, [], Bool, true, false}
use p.Common.Tests.{leb, if◌then◌else◌}
use p.Wire.Types.{
  text, oread, Qid, Stat, topen, ropen, tcreate, rcreate, tstat, rstat, twstat, tremove, tclunk,
}
use p.Wire.Fcall.Types.{msg_type}
use p.Client.Rpc.{Reply, replied, rpc_failed, Rpc}

-- The result of a call: a value, the text of an error, or the type of a reply that was not expected.
pub data Called (A : Type 0) : Type 0 where
  called : A → Called A
  call_error : List ℕ → Called A
  mismatched : ℕ → Called A

unfoldable pub as_opened : Reply → Called (Qid × ℕ)
as_opened (rpc_failed e) = call_error e
as_opened (replied (ropen qid iounit)) = called (qid, iounit)
as_opened (replied m) = mismatched (msg_type m)

unfoldable pub as_created : Reply → Called (Qid × ℕ)
as_created (rpc_failed e) = call_error e
as_created (replied (rcreate qid iounit)) = called (qid, iounit)
as_created (replied m) = mismatched (msg_type m)

unfoldable pub as_link : Called (Qid × ℕ) → Called Qid
as_link (called (qid, iounit)) = called qid
as_link (call_error e) = call_error e
as_link (mismatched t) = mismatched t

unfoldable pub as_stat : Reply → Called Stat
as_stat (rpc_failed e) = call_error e
as_stat (replied (rstat stat)) = called stat
as_stat (replied m) = mismatched (msg_type m)

-- Twstat, Tremove and Tclunk: any reply that is no error will do.
unfoldable pub as_done : Reply → Called (Unit {0})
as_done (rpc_failed e) = call_error e
as_done (replied m) = called tt

-- What Seek makes of the new offset; an int64 is the number with its bits.
unfoldable pub set_offset : ℕ → ℕ → ℕ × Called ℕ
set_offset old new =
    if leb (2 ^ 63) new
    then (old, call_error (text "client: Seek: negative offset"))
    else (new, called new)

unfoldable pub seek_end : ℕ → ℕ → Called Stat → ℕ × Called ℕ
seek_end old offset (called st) = set_offset old ((st.length + offset) % 2 ^ 64)
seek_end old offset (call_error e) = (old, call_error e)
seek_end old offset (mismatched t) = (old, mismatched t)

-- io.SeekStart, io.SeekCurrent and io.SeekEnd, and any other number.
pub data Whence : Type 0 where
  from_start from_current from_end : Whence
  from_elsewhere : ℕ → Whence

module _ {S : Type 0} (rpc : Rpc S) (s : S) (fid : ℕ) where
  unfoldable pub fid_open : ℕ → S × Called (Qid × ℕ)
  fid_open mode = let r = rpc s (topen fid mode) in (r.0, as_opened r.1)

  unfoldable pub fid_create : List ℕ → ℕ → ℕ → S × Called (Qid × ℕ)
  fid_create name perm mode = let r = rpc s (tcreate fid name perm mode []) in (r.0, as_created r.1)

  -- `p9.DMSYMLINK | 0777`
  abbrev link_perm : ℕ
  link_perm = 0x020001FF

  unfoldable pub fid_symlink : Bool → List ℕ → List ℕ → S × Called Qid
  fid_symlink false name target = (s, call_error (text "client: Symlink requires 9P2000.u"))
  fid_symlink true name target =
      let r = rpc s (tcreate fid name link_perm oread target) in (r.0, as_link (as_created r.1))

  unfoldable pub fid_stat : S × Called Stat
  fid_stat = let r = rpc s (tstat fid) in (r.0, as_stat r.1)

  unfoldable pub fid_wstat : Stat → S × Called (Unit {0})
  fid_wstat st = let r = rpc s (twstat fid st) in (r.0, as_done r.1)

  unfoldable pub fid_remove : S × Called (Unit {0})
  fid_remove = let r = rpc s (tremove fid) in (r.0, as_done r.1)

  unfoldable pub fid_clunk : S × Called (Unit {0})
  fid_clunk = let r = rpc s (tclunk fid) in (r.0, as_done r.1)

  -- File.Seek of a file at the offset `old`: the state, the offset afterwards, and the results.
  unfoldable pub file_seek : ℕ → ℕ → Whence → S × (ℕ × Called ℕ)
  file_seek old offset from_start = (s, set_offset old offset)
  file_seek old offset from_current = (s, set_offset old ((old + offset) % 2 ^ 64))
  file_seek old offset from_end = let r = fid_stat in (r.0, seek_end old offset r.1)
  file_seek old offset (from_elsewhere n) =
      (s, (old, call_error (text "client: Seek: invalid whence")))
