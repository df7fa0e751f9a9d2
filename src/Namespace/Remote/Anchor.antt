-- ===== src/Namespace/Remote/Anchor.antt =====
-- ns/fid.go: the root of a remote tree is only walked from.
use p.Common.{
  ℕ, ◌≡◌, ◌≢◌, refl, sym, ap, ◌∙◌, List, [], ◌∷◌, ◌++◌, ◌&&◌, bit_and, Option, some, none,
}
use p.Common.Lists.{drop_last}
use p.Wire.Types.{tclunk, twstat, tremove, oread, qid_is_dir, Stat}
use p.Client.Rpc.{Rpc}
use p.Client.Session.{alloc_fid}
use p.Client.Walk.Batches.{AgreeOn}
use p.Client.Fid.{fid_wstat, fid_remove, fid_clunk, as_done}
use p.Client.ReadDir.{max_io}
use p.Common.Tests.{◌==◌, if◌then◌else◌}
use p.Namespace.Remote.{
  OpenFile, Remote, gave, replied_to, is_open, was_written, walk_fid, remote_attach, remote_clone,
  remote_walk, remote_stat, remote_wstat, open_fid, remote_open, remote_create, readable,
  remote_read, remote_write, remote_remove, remote_close,
}
use p.Namespace.Remote.Calls.{
  SparesRoot, walk_fid-alloc, open_fid-fid, readable-fid, then_act-same, write_at-Agree,
  walk_fid-Agree, walk_to-Agree, remote_stat-Agree, open_fid-Agree, create_in_clone-Agree,
  seek_read-Agree,
}

-- The methods of a file `f` do the same on two connections.
pub record SameMethods {S : Type 0} (root : ℕ) (rpc rpc' : Rpc S) (w : Remote S) (f : ℕ)
    : Type 0 where
  pub attach : remote_attach rpc w root ≡ remote_attach rpc' w root
  pub clone : remote_clone rpc w root f ≡ remote_clone rpc' w root f
  pub walk : (name : List ℕ) → remote_walk rpc w root f name ≡ remote_walk rpc' w root f name
  pub stat : remote_stat rpc w f ≡ remote_stat rpc' w f
  pub wstat : (st : Stat) → remote_wstat rpc w f st ≡ remote_wstat rpc' w f st
  pub open_file : (mode : ℕ) → remote_open rpc w f mode ≡ remote_open rpc' w f mode
  pub create :
      (name : List ℕ) (perm mode : ℕ)
      → remote_create rpc w f name perm mode ≡ remote_create rpc' w f name perm mode
  pub read :
      (offset count : ℕ) → remote_read rpc w f offset count ≡ remote_read rpc' w f offset count
  pub write :
      (offset : ℕ) (bytes : List ℕ)
      → remote_write rpc w f offset bytes ≡ remote_write rpc' w f offset bytes
  pub remove : remote_remove rpc w f ≡ remote_remove rpc' w f
  pub close : remote_close rpc w f ≡ remote_close rpc' w f

module _ {S : Type 0} (root : ℕ) (rpc rpc' : Rpc S) (same : AgreeOn (SparesRoot root) rpc rpc')
    (w : Remote S) (f : ℕ) (own : (w.files f).fid ≢ root) (new : alloc_fid w.client ≢ root) where
  remote_walk-Agree :
      (name : List ℕ) → remote_walk rpc w root f name ≡ remote_walk rpc' w root f name
  unfolding remote_walk
  remote_walk-Agree name =
      rw
        (
          remote_walk,
          walk_to-Agree root rpc rpc' same w (drop_last (w.files f).path) new,
          walk_to-Agree root rpc rpc' same w ((w.files f).path ++ (name ∷ [])) new,
        )
        refl

  remote_open-Agree : (mode : ℕ) → remote_open rpc w f mode ≡ remote_open rpc' w f mode
  unfolding remote_open
  remote_open-Agree mode =
      ap
        (λ r.
          if is_open (w.files f).opened
            && (qid_is_dir (w.files f).st.qid && (bit_and mode 3 == oread))
          then (w, gave tt)
          else r)
        (then_act-same (open_fid rpc w f mode) (open_fid rpc' w f mode) _ _
          (open_fid-Agree root rpc rpc' same w f mode own)
          (λ w' x h.
            ap (λ r. (r.0, gave tt))
              (remote_stat-Agree root rpc rpc' same w' f
                (λ e. own (sym (open_fid-fid rpc' w w' f mode x h) ∙ e)))))

  remote_create-Agree :
      (name : List ℕ) (perm mode : ℕ)
      → remote_create rpc w f name perm mode ≡ remote_create rpc' w f name perm mode
  unfolding remote_create
  remote_create-Agree name perm mode =
      then_act-same (walk_fid rpc w (w.files f).fid []) (walk_fid rpc' w (w.files f).fid []) _ _
        (walk_fid-Agree root rpc rpc' same w (w.files f).fid [] new)
        (λ w' fid h.
          create_in_clone-Agree root rpc rpc' same w' fid (w.files f).path name perm mode
            (made w' fid h))
    where
      made :
          (w' : Remote S) (fid : ℕ)
          → walk_fid rpc' w (w.files f).fid [] ≡ (w', gave fid)
          → fid ≢ root
      made w' fid h = λ e. new (sym (walk_fid-alloc rpc' w w' (w.files f).fid [] fid h) ∙ e)

  remote_read-Agree :
      (offset count : ℕ) → remote_read rpc w f offset count ≡ remote_read rpc' w f offset count
  unfolding remote_read readable
  remote_read-Agree offset count =
      then_act-same (readable rpc w f) (readable rpc' w f) _ _ readable-Agree (λ w' x h.
        seek_read-Agree root rpc rpc' same w' f offset count
          (λ e. own (sym (readable-fid rpc' w w' f x h) ∙ e)))
    where
      readable-Agree : readable rpc w f ≡ readable rpc' w f
      readable-Agree = rw (open_fid-Agree root rpc rpc' same w f oread own) refl

  remote_write-Agree :
      (offset : ℕ) (bytes : List ℕ)
      → remote_write rpc w f offset bytes ≡ remote_write rpc' w f offset bytes
  unfolding remote_write
  remote_write-Agree offset bytes = by_open (w.files f).opened refl
    where
      by_open :
          (o : Option OpenFile)
          → (w.files f).opened ≡ o
          → remote_write rpc w f offset bytes ≡ remote_write rpc' w f offset bytes
      by_open none h = rw (remote_write, h) refl
      by_open (some o) h =
          rw (remote_write, h)
            (ap (was_written w) (
              write_at-Agree root rpc rpc' same (w.files f).fid (max_io w.client.msize o.iounit)
                w.conn bytes offset own))

  -- The methods of clientFS and clientFile use the root of the remote tree only to walk from it: they do
  -- the same on two connections that answer alike all messages but a Tclunk, Tremove, Topen, Tcreate,
  -- Tstat, Twstat, Tread or Twrite of that fid, or a Twalk that makes it anew. This is so where the fid
  -- of the file, and the next that the client gives out, are not the root's.
  pub methods-Agree : SameMethods root rpc rpc' w f
  unfolding remote_attach remote_clone remote_wstat remote_remove remote_close fid_wstat fid_remove
      fid_clunk
  methods-Agree = record {
    attach = walk_to-Agree root rpc rpc' same w [] new;
    clone = walk_to-Agree root rpc rpc' same w (w.files f).path new;
    walk = remote_walk-Agree;
    stat = remote_stat-Agree root rpc rpc' same w f own;
    wstat = λ st.
        ap (λ q. replied_to w (λ x. x) (q.0, as_done q.1))
          (same w.conn (twstat (w.files f).fid st) own);
    open_file = remote_open-Agree;
    create = remote_create-Agree;
    read = remote_read-Agree;
    write = remote_write-Agree;
    remove =
        ap (λ q. replied_to w (λ x. x) (q.0, as_done q.1))
          (same w.conn (tremove (w.files f).fid) own);
    close =
        ap (λ q. replied_to w (λ x. x) (q.0, as_done q.1))
          (same w.conn (tclunk (w.files f).fid) own);
  }
