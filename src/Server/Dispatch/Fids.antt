-- ===== src/Server/Dispatch/Fids.antt =====
-- server/dispatch.go: what a request does to the fid table.
use p.Common.{ℕ, ◌≡◌, ◌≢◌, refl, ap, List, [], ◌∷◌, Option, none, some, arith}
use p.Wire.Types.{Message, tversion, tattach, tflush, twalk, tcreate, tclunk, tremove}
use p.Wire.Fcall.Types.{msg_type}
use p.Server.Backend.{Backend}
use p.Server.Conn.{Conn, get_fid-put_fid, get_fid-del_fid, get_fid, choose_version, t_version}
use p.Server.Dispatch.{
  State, t_attach, t_flush, t_walk_clone, t_walk_names, t_walk, t_open, t_create, t_read, t_write,
  t_clunk, t_remove, t_stat, t_wstat, dispatch,
}
use p.Server.Dispatch.Replies.{Answers, dispatch-Answers}

module _ {File World : Type 0} (B : Backend File World) where
  -- The fid whose entry a request may write or remove.
  abbrev pub target : Message → Option ℕ
  target (tattach fid _ _ _) = some fid
  target (twalk _ newfid _) = some newfid
  target (tcreate fid _ _ _ _) = some fid
  target (tclunk fid) = some fid
  target (tremove fid) = some fid
  target m = none

  -- The fid that a request releases, whether it succeeds or not.
  abbrev pub released : Message → Option ℕ
  released (tclunk fid) = some fid
  released (tremove fid) = some fid
  released m = none

  abbrev IsVersion : Message → Type 0
  IsVersion (tversion _ _) = Unit {0}
  IsVersion m = ⊥

  t_walk-frame :
      (s : State B) (fid newfid : ℕ) (wname : List (List ℕ)) (k : ℕ)
      → newfid ≢ k
      → get_fid (t_walk B s fid newfid wname).0.0 k ≡ get_fid s.0 k
  unfolding t_walk t_walk_clone t_walk_names
  t_walk-frame s fid newfid [] k h = grind (arith, get_fid-put_fid)
  t_walk-frame s fid newfid (name ∷ names) k h = grind (arith, get_fid-put_fid)

  -- A request other than Tversion leaves every fid but its target as it was.
  pub dispatch_frame :
      (s : State B) (m : Message) (k : ℕ)
      → ¬ IsVersion m
      → target m ≢ some k
      → get_fid (dispatch B s m).0.0 k ≡ get_fid s.0 k
  unfolding dispatch t_attach t_flush t_open t_create t_read t_write t_clunk t_remove t_stat t_wstat
  dispatch_frame s (tversion msize version) k v h = absurd (v tt)
  dispatch_frame s (twalk fid newfid wname) k v h =
      t_walk-frame s fid newfid wname k (λ e. h (ap some e))
  dispatch_frame s (tflush oldtag) k v h = unfold get_fid in ground arith
  dispatch_frame s m k v h = grind (arith, get_fid-put_fid, get_fid-del_fid)

  t_walk-rerror :
      (s : State B) (fid newfid : ℕ) (wname : List (List ℕ))
      → msg_type (t_walk B s fid newfid wname).1 ≡ 107
      → (t_walk B s fid newfid wname).0.0 ≡ s.0
  unfolding t_walk t_walk_clone t_walk_names msg_type
  t_walk-rerror s fid newfid [] e = ground arith
  t_walk-rerror s fid newfid (name ∷ names) e = ground arith

  -- A request that is answered by Rerror leaves the connection as it was, but for Tclunk and
  -- Tremove, which release their fid.
  pub dispatch_rerror :
      (s : State B) (m : Message)
      → released m ≡ none
      → msg_type (dispatch B s m).1 ≡ 107
      → (dispatch B s m).0.0 ≡ s.0
  unfolding dispatch t_version choose_version t_attach t_flush t_open t_create t_read t_write t_stat
      t_wstat msg_type
  dispatch_rerror s (twalk fid newfid wname) r e = t_walk-rerror s fid newfid wname e
  dispatch_rerror s m r e = ground arith

  -- After Tclunk or Tremove the fid is unknown, whatever the reply says.
  dispatch-released :
      (s : State B) (m : Message) (k : ℕ)
      → released m ≡ some k
      → get_fid (dispatch B s m).0.0 k ≡ none
  unfolding dispatch t_clunk t_remove
  dispatch-released s (tclunk fid) k e = grind (arith, get_fid-del_fid)
  dispatch-released s m k e = grind (arith, get_fid-del_fid)

-- Nothing, or that the fid is unknown.
abbrev pub Forgotten : {File : Type 0} → Option ℕ → Conn File → Type 0
Forgotten none c = Unit {0}
Forgotten (some k) c = get_fid c k ≡ none

module _ {File World : Type 0} (B : Backend File World) where
  -- Every request of a client is answered by the reply that belongs to it or by an Rerror, and after
  -- Tclunk or Tremove the fid is unknown, whatever the reply.
  pub dispatch-Settles :
      (s : State B) (m : Message)
      → Answers m (dispatch B s m).1 × Forgotten (released B m) (dispatch B s m).0.0
  dispatch-Settles s m = (dispatch-Answers B s m, by_fid (released B m) refl)
    where
      by_fid : (o : Option ℕ) → released B m ≡ o → Forgotten o (dispatch B s m).0.0
      by_fid none e = tt
      by_fid (some k) e = dispatch-released B s m k e
