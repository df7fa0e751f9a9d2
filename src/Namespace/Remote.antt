-- ===== src/Namespace/Remote.antt =====
-- ns/fid.go: a remote file tree as a file system. A *clientFile is a number, a place in a store. The
-- client's calls take its rpc as a parameter, and `root` is the fid of clientFS.
pub mod Calls
pub mod Anchor
mod Tests
use Prim.Native.Nat.{bit_and}
use p.Common.{ℕ, ◌+◌, ◌-◌, List, [], ◌∷◌, ◌++◌, ◌^◌, Bool, true, false, ◌&&◌, Option, none, some}
use p.Common.Tests.{ltb, leb, ◌==◌, if◌then◌else◌}
use p.Common.Lists.{length, drop_last}
use p.Common.Names.{same_bytes}
use p.Wire.Types.{text, oread, qid_is_dir, Qid, Qid, Stat, zero_stat}
use p.Client.Rpc.{Rpc}
use p.Client.Session.{Client, alloc_fid, allocated}
use p.Client.Walk.{WalkEnd, walked_to, fid_walk}
use p.Client.Fid.{
  Called, called, call_error, mismatched, fid_open, fid_create, fid_stat, fid_wstat, fid_remove,
  fid_clunk,
}
use p.Client.Io.{IoEnd, file_read, write_at}
use p.Client.ReadDir.{max_io}

-- The open *client.File of a clientFile: its iounit, and its offset.
pub record OpenFile : Type 0 where
  pub iounit : ℕ
  pub offset : ℕ

-- clientFile, without its root
pub record ClientFile : Type 0 where
  pub fid : ℕ
  pub path : List (List ℕ)
  pub st : Stat
  pub opened : Option OpenFile

-- The files that were made, the client and the connection.
pub record Remote (S : Type 0) : Type 0 where
  pub files : ℕ → ClientFile
  pub made : ℕ
  pub client : Client
  pub conn : S

-- The error that a method returns: that of a walk, of another call, of reading or writing, or that the
-- file is not open.
pub data RemoteError : Type 0 where
  walk_error : WalkEnd → RemoteError
  rpc_error : List ℕ → RemoteError
  reply_mismatch : ℕ → RemoteError
  io_error : IoEnd → RemoteError
  not_open : RemoteError

pub data RemoteResult (A : Type 0) : Type 0 where
  gave : A → RemoteResult A
  lost : RemoteError → RemoteResult A

abbrev pub as_result : {A B : Type 0} → (A → B) → Called A → RemoteResult B
as_result f (called x) = gave (f x)
as_result f (call_error e) = lost (rpc_error e)
as_result f (mismatched t) = lost (reply_mismatch t)

abbrev pub Act : Type 0 → Type 0 → Type 0
Act S A = Remote S × RemoteResult A

abbrev pub is_open : Option OpenFile → Bool
is_open none = false
is_open (some o) = true

module _ {S : Type 0} where
  abbrev pub set_conn : Remote S → S → Remote S
  set_conn w s = record w { conn = s }

  abbrev pub set_remote : Remote S → ℕ → ClientFile → Remote S
  set_remote w f x = record w { files = λ a. if a == f then x else w.files a }

  -- A new clientFile.
  unfoldable pub new_remote : Remote S → ClientFile → Act S ℕ
  new_remote w x = (record (set_remote w w.made x) { made = w.made + 1 }, gave w.made)

  -- clientFile.Qid
  abbrev pub remote_qid : Remote S → ℕ → Qid
  remote_qid w f = (w.files f).st.qid

  -- What follows a call that may fail.
  abbrev pub then_act : {A B : Type 0} → Act S A → (Remote S → A → Act S B) → Act S B
  then_act (w, lost e) k = (w, lost e)
  then_act (w, gave x) k = k w x

  abbrev pub replied_to : {A B : Type 0} → Remote S → (A → B) → S × Called A → Act S B
  replied_to w f r = (set_conn w r.0, as_result f r.1)

  -- The new fid of a walk, which allocFid gave.
  abbrev pub walked : Remote S → S × WalkEnd → Act S ℕ
  walked w (s, walked_to fid) =
      (record w { conn = s; client = allocated w.client }, gave (alloc_fid w.client))
  walked w (s, end) = (record w { conn = s; client = allocated w.client }, lost (walk_error end))

  -- `f.open = of`, with the iounit of the File.
  unfoldable pub set_open : Remote S → ℕ → ℕ → Act S (Unit {0})
  set_open w f iounit =
      let o : OpenFile = record { iounit = iounit; offset = 0 } in
      (set_remote w f (record (w.files f) { opened = some o }), gave tt)

  unfoldable pub set_st : Remote S → ℕ → Stat → Act S Stat
  set_st w f st = (set_remote w f (record (w.files f) { st = st }), gave st)

  -- The file for a fid that was created, with what its Stat gave or a zero Stat.
  unfoldable pub created : Remote S → ℕ → List (List ℕ) → ℕ → S × Called Stat → Act S ℕ
  created w fid path iounit q =
      let o : OpenFile = record { iounit = iounit; offset = 0 } in
      let st : Stat = elim q.1 [ called x ↦ x | other ↦ zero_stat ] in
      new_remote (set_conn w q.0) (record { fid = fid; path = path; st = st; opened = some o })

  unfoldable pub was_read :
      Remote S → ℕ → OpenFile → S × ℕ × List ℕ × IoEnd → Act S (List ℕ × IoEnd)
  was_read w f o (s, offset, bytes, end) =
      let o' : OpenFile = record o { offset = offset } in
      (set_remote (set_conn w s) f (record (w.files f) { opened = some o' }), gave (bytes, end))

  abbrev pub was_written : Remote S → S × ℕ × IoEnd → Act S (ℕ × IoEnd)
  was_written w (s, n, end) = (set_conn w s, gave (n, end))

module _ {S : Type 0} (rpc : Rpc S) where
  -- Fid.WalkContext of the fid `cur`, with a new fid.
  unfoldable pub walk_fid : Remote S → ℕ → List (List ℕ) → Act S ℕ
  walk_fid w cur names = walked w (fid_walk rpc w.conn cur (alloc_fid w.client) names)

  -- The Stat of the new fid, and the clientFile for it.
  unfoldable pub with_stat : Remote S → ℕ → List (List ℕ) → Act S ℕ
  with_stat w fid path =
      then_act (replied_to w (λ st. st) (fid_stat rpc w.conn fid))
        (λ w' st. new_remote w' (record { fid = fid; path = path; st = st; opened = none }))

  -- clientFile.walkTo
  unfoldable pub walk_to : Remote S → ℕ → List (List ℕ) → Act S ℕ
  walk_to w root path = then_act (walk_fid w root path) (λ w' fid. with_stat w' fid path)

  -- clientFS.Attach, which puts "ns: attach: " before an error.
  unfoldable pub remote_attach : Remote S → ℕ → Act S ℕ
  remote_attach w root = walk_to w root []

  -- clientFile.Clone
  unfoldable pub remote_clone : Remote S → ℕ → ℕ → Act S ℕ
  remote_clone w root f = walk_to w root (w.files f).path

  -- clientFile.Walk. The file itself is its parent at the root.
  unfoldable pub remote_walk : Remote S → ℕ → ℕ → List ℕ → Act S ℕ
  remote_walk w root f name =
      let path = (w.files f).path in
      let up = walk_to w root (drop_last path) in
      let down = walk_to w root (path ++ (name ∷ [])) in
      if same_bytes name (text "..") then if length path == 0 then (w, gave f) else up else down

  -- clientFile.Stat
  unfoldable pub remote_stat : Remote S → ℕ → Act S Stat
  remote_stat w f =
      then_act (replied_to w (λ st. st) (fid_stat rpc w.conn (w.files f).fid))
        (λ w' st. set_st w' f st)

  unfoldable pub remote_wstat : Remote S → ℕ → Stat → Act S (Unit {0})
  remote_wstat w f st = replied_to w (λ x. x) (fid_wstat rpc w.conn (w.files f).fid st)

  -- Fid.OpenFileContext of the file's fid, and `f.open = of`.
  unfoldable pub open_fid : Remote S → ℕ → ℕ → Act S (Unit {0})
  open_fid w f mode =
      then_act (replied_to w (λ q. q.1) (fid_open rpc w.conn (w.files f).fid mode))
        (λ w' iounit. set_open w' f iounit)

  -- clientFile.Open. An error of the Stat after it is dropped.
  unfoldable pub remote_open : Remote S → ℕ → ℕ → Act S (Unit {0})
  remote_open w f mode =
      let file = w.files f in
      let after_open : Act S (Unit {0}) =
        then_act (open_fid w f mode) (λ w' x. ((remote_stat w' f).0, gave tt)) in
      if is_open file.opened && (qid_is_dir file.st.qid && (bit_and mode 3 == oread))
      then (w, gave tt)
      else after_open

  -- The end of clientFile.Create, with the results of the call on the clone of the directory's fid.
  unfoldable pub after_create : ℕ → List (List ℕ) → Act S ℕ → Act S ℕ
  after_create fid path (w, lost e) = (set_conn w (fid_clunk rpc w.conn fid).0, lost e)
  after_create fid path (w, gave iounit) = created w fid path iounit (fid_stat rpc w.conn fid)

  unfoldable pub create_in_clone : Remote S → ℕ → List (List ℕ) → List ℕ → ℕ → ℕ → Act S ℕ
  create_in_clone w fid path name perm mode =
      after_create fid (path ++ (name ∷ []))
        (replied_to w (λ q. q.1) (fid_create rpc w.conn fid name perm mode))

  -- clientFile.Create
  unfoldable pub remote_create : Remote S → ℕ → List ℕ → ℕ → ℕ → Act S ℕ
  remote_create w f name perm mode =
      then_act (walk_fid w (w.files f).fid [])
        (λ w' fid. create_in_clone w' fid (w.files f).path name perm mode)

  -- clientFile.readable
  unfoldable pub readable : Remote S → ℕ → Act S (Unit {0})
  readable w f =
      let r = open_fid w f oread in
      if is_open (w.files f).opened
      then (w, gave tt)
      else if qid_is_dir (w.files f).st.qid
      then r
      else (w, lost not_open)

  -- Seek to the offset, and Read of `count` bytes, on the open file.
  unfoldable pub seek_read : Remote S → ℕ → ℕ → ℕ → Act S (List ℕ × IoEnd)
  seek_read w f offset count = elim (w.files f).opened [
    | none ↦ (w, lost not_open)
    | some o ↦
        let done =
          was_read w f o
            (file_read rpc (w.files f).fid (max_io w.client.msize o.iounit) w.conn offset count) in
        if leb (2 ^ 63) offset
        then (w, lost (rpc_error (text "client: Seek: negative offset")))
        else done
  ]

  -- clientFile.Read
  unfoldable pub remote_read : Remote S → ℕ → ℕ → ℕ → Act S (List ℕ × IoEnd)
  remote_read w f offset count = then_act (readable w f) (λ w' x. seek_read w' f offset count)

  -- clientFile.Write: how many bytes were written, and the error.
  unfoldable pub remote_write : Remote S → ℕ → ℕ → List ℕ → Act S (ℕ × IoEnd)
  remote_write w f offset bytes = elim (w.files f).opened [
    | none ↦ (w, lost not_open)
    | some o ↦
        was_written w
          (write_at rpc (w.files f).fid (max_io w.client.msize o.iounit) w.conn bytes offset)
  ]

  -- clientFile.Remove
  unfoldable pub remote_remove : Remote S → ℕ → Act S (Unit {0})
  remote_remove w f = replied_to w (λ x. x) (fid_remove rpc w.conn (w.files f).fid)

  -- clientFile.Close; the close of the open file clunks the same fid.
  unfoldable pub remote_close : Remote S → ℕ → Act S (Unit {0})
  remote_close w f = replied_to w (λ x. x) (fid_clunk rpc w.conn (w.files f).fid)
