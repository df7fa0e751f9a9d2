-- ===== src/Server/Dispatch.antt =====
-- server/dispatch.go: the handler of each request. A handler runs alone here: the other goroutines
-- of the connection make no step between its calls.
pub mod Replies
pub mod Fids
pub mod Walk
use p.Common.{ℕ, ◌+◌, ◌%◌, ◌^◌, List, [], ◌∷◌, ◌++◌, Bool, true, false, ◌&&◌, Option, none, some}
use p.Common.Tests.{◌==◌, if◌then◌else◌}
use p.Common.Maps.{lookup}
use p.Wire.Types.{
  text, has_bits, dmsymlink, Qid, Stat, Message, tversion, rversion, tauth, rauth, tattach, rattach,
  rerror, tflush, rflush, twalk, rwalk, topen, ropen, tcreate, rcreate, tread, rread, twrite,
  rwrite, tclunk, rclunk, tremove, rremove, tstat, rstat, twstat, rwstat,
}
use p.Wire.Fcall.Types.{msg_type, fcall_type_string}
use p.Server.Backend.{Outcome, okay, failed, ReadOutcome, got, at_eof, read_failed, Backend}
use p.Server.Conn.{Conn, get_fid, put_fid, del_fid, t_version}

-- errReply: the text of the error, also where the error is an RerrorFcall.
abbrev pub err_reply : List ℕ → Message
err_reply e = rerror e

abbrev pub err_unknown_fid : Message
err_unknown_fid = rerror (text "unknown fid")

-- What the loop of conn.tWalk ends with: the file reached and the qids, or the error reply.
pub data Walked (File : Type 0) : Type 0 where
  reached : File → List Qid → Walked File
  lost : List ℕ → Walked File

-- The error of Remove, or else that of Close.
unfoldable pub first_error : Outcome (Unit {0}) → Outcome (Unit {0}) → Message
first_error (failed e) closed = err_reply e
first_error (okay _) (failed e) = err_reply e
first_error (okay _) (okay _) = rremove

module _ {File World : Type 0} (B : Backend File World) where
  open B use {
    attach, qid, stat, wstat, walk, open_file, create, read, write, remove, close, symlink, clone,
  }

  abbrev pub State : Type 0
  State = Conn File × World

  -- conn.tAttach
  unfoldable pub t_attach : State → ℕ → List ℕ → List ℕ → State × Message
  t_attach (c, w) fid uname aname =
      let (w', r) = attach c.unix w uname aname in
      elim r [
        | failed e ↦ ((c, w'), err_reply e)
        | okay f ↦ ((put_fid c fid f, w'), rattach (qid w' f))
      ]

  -- conn.tFlush
  unfoldable pub t_flush : State → ℕ → State × Message
  t_flush (c, w) oldtag = elim (lookup oldtag c.inflight) [
    | none ↦ ((c, w), rflush)
    | some request ↦ ((record c { cancelled = request ∷ c.cancelled }, w), rflush)
  ]

  -- The loop of conn.tWalk, with `i` elements walked so far.
  unfoldable pub walk_loop :
      Bool → World → File → ℕ → List (List ℕ) → List Qid → World × Walked File
  walk_loop ctx w cur i [] qids = (w, reached cur qids)
  walk_loop ctx w cur i (name ∷ names) qids =
      let (w', r) = walk ctx w cur name in
      elim r [
        | failed e ↦ (w', if i == 0 then lost e else reached cur qids)
        | okay next ↦ walk_loop ctx w' next (i + 1) names (qids ++ (qid w' next ∷ []))
      ]

  -- The file that a walk of no names gives newfid: a clone, if the file is a Cloner.
  unfoldable pub clone_file : Bool → World → File → World × Outcome File
  clone_file ctx w f = elim (clone f) [ none ↦ (w, okay f) | some method ↦ method ctx w ]

  unfoldable pub t_walk_clone : State → File → ℕ → State × Message
  t_walk_clone (c, w) f newfid =
      let (w', r) = clone_file c.unix w f in
      elim r [ failed e ↦ ((c, w'), err_reply e) | okay nf ↦ ((put_fid c newfid nf, w'), rwalk []) ]

  unfoldable pub t_walk_names : State → File → ℕ → List (List ℕ) → State × Message
  t_walk_names (c, w) f newfid wname =
      let (w', r) = walk_loop c.unix w f 0 wname [] in
      elim r [
        | lost e ↦ ((c, w'), err_reply e)
        | reached cur qids ↦ ((put_fid c newfid cur, w'), rwalk qids)
      ]

  -- conn.tWalk
  unfoldable pub t_walk : State → ℕ → ℕ → List (List ℕ) → State × Message
  t_walk s fid newfid wname = elim (get_fid s.0 fid) [
    | none ↦ (s, err_unknown_fid)
    | some f ↦ elim wname [
      | [] ↦ t_walk_clone s f newfid
      | name ∷ names ↦ t_walk_names s f newfid (name ∷ names)
    ]
  ]

  -- conn.tOpen
  unfoldable pub t_open : State → ℕ → ℕ → State × Message
  t_open (c, w) fid mode = elim (get_fid c fid) [
    | none ↦ ((c, w), err_unknown_fid)
    | some f ↦
        let (w', r) = open_file c.unix w f mode in
        elim r [ failed e ↦ ((c, w'), err_reply e) | okay _ ↦ ((c, w'), ropen (qid w' f) 0) ]
  ]

  -- The call of Symlink or Create in conn.tCreate.
  unfoldable pub create_child :
      Conn File → World → File → List ℕ → ℕ → ℕ → List ℕ → World × Outcome File
  create_child c w f name perm mode extension =
      if c.unix && has_bits perm dmsymlink
      then elim (symlink f) [
        | none ↦ (w, failed (text "server: file does not support symlinks"))
        | some method ↦ method c.unix w name extension
      ]
      else create c.unix w f name perm mode

  -- conn.tCreate
  unfoldable pub t_create : State → ℕ → List ℕ → ℕ → ℕ → List ℕ → State × Message
  t_create (c, w) fid name perm mode extension = elim (get_fid c fid) [
    | none ↦ ((c, w), err_unknown_fid)
    | some f ↦
        let (w', r) = create_child c w f name perm mode extension in
        elim r [
          | failed e ↦ ((c, w'), err_reply e)
          | okay nf ↦ ((put_fid c fid nf, w'), rcreate (qid w' nf) 0)
        ]
  ]

  -- conn.tRead
  unfoldable pub t_read : State → ℕ → ℕ → ℕ → State × Message
  t_read (c, w) fid offset count = elim (get_fid c fid) [
    | none ↦ ((c, w), err_unknown_fid)
    | some f ↦
        let (w', r) = read c.unix w f offset count in
        elim r [
          | read_failed e ↦ ((c, w'), err_reply e)
          | got bytes ↦ ((c, w'), rread bytes)
          | at_eof bytes ↦ ((c, w'), rread bytes)
        ]
  ]

  -- conn.tWrite
  unfoldable pub t_write : State → ℕ → ℕ → List ℕ → State × Message
  t_write (c, w) fid offset bytes = elim (get_fid c fid) [
    | none ↦ ((c, w), err_unknown_fid)
    | some f ↦
        let (w', r) = write c.unix w f offset bytes in
        elim r [ failed e ↦ ((c, w'), err_reply e) | okay n ↦ ((c, w'), rwrite (n % 2 ^ 32)) ]
  ]

  -- conn.tClunk: an unknown fid is no error, and an error of Close is reported.
  unfoldable pub t_clunk : State → ℕ → State × Message
  t_clunk (c, w) fid = elim (get_fid c fid) [
    | none ↦ ((c, w), rclunk)
    | some f ↦
        let (w', r) = close w f in
        elim r [
          | failed e ↦ ((del_fid c fid, w'), err_reply e)
          | okay _ ↦ ((del_fid c fid, w'), rclunk)
        ]
  ]

  -- conn.tRemove
  unfoldable pub t_remove : State → ℕ → State × Message
  t_remove (c, w) fid = elim (get_fid c fid) [
    | none ↦ ((c, w), err_unknown_fid)
    | some f ↦
        let (w', removed) = remove c.unix w f in
        let (w'', closed) = close w' f in ((del_fid c fid, w''), first_error removed closed)
  ]

  -- conn.tStat
  unfoldable pub t_stat : State → ℕ → State × Message
  t_stat (c, w) fid = elim (get_fid c fid) [
    | none ↦ ((c, w), err_unknown_fid)
    | some f ↦
        let (w', r) = stat c.unix w f in
        elim r [ failed e ↦ ((c, w'), err_reply e) | okay st ↦ ((c, w'), rstat st) ]
  ]

  -- conn.tWstat
  unfoldable pub t_wstat : State → ℕ → Stat → State × Message
  t_wstat (c, w) fid st = elim (get_fid c fid) [
    | none ↦ ((c, w), err_unknown_fid)
    | some f ↦
        let (w', r) = wstat c.unix w f st in
        elim r [ failed e ↦ ((c, w'), err_reply e) | okay _ ↦ ((c, w'), rwstat) ]
  ]

  -- conn.dispatch
  unfoldable pub dispatch : State → Message → State × Message
  dispatch s (tversion msize version) =
      let (c, reply) = t_version s.0 msize version in ((c, s.1), reply)
  dispatch s (tauth _ _ _) = (s, rerror (text "authentication not required"))
  dispatch s (tattach fid afid uname aname) = t_attach s fid uname aname
  dispatch s (tflush oldtag) = t_flush s oldtag
  dispatch s (twalk fid newfid wname) = t_walk s fid newfid wname
  dispatch s (topen fid mode) = t_open s fid mode
  dispatch s (tcreate fid name perm mode extension) = t_create s fid name perm mode extension
  dispatch s (tread fid offset count) = t_read s fid offset count
  dispatch s (twrite fid offset bytes) = t_write s fid offset bytes
  dispatch s (tclunk fid) = t_clunk s fid
  dispatch s (tremove fid) = t_remove s fid
  dispatch s (tstat fid) = t_stat s fid
  dispatch s (twstat fid st) = t_wstat s fid st
  dispatch s m = (s, rerror (text "unexpected " ++ text (fcall_type_string (msg_type m))))
