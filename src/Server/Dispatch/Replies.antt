-- ===== src/Server/Dispatch/Replies.antt =====
-- server/dispatch.go: the type of the reply to each request.
use p.Common.{ℕ, suc, ◌≡◌, ◌⊎◌, List, [], ◌∷◌, arith}
use p.Wire.Types.{Message, tversion, twalk}
use p.Wire.Fcall.Types.{msg_type}
use p.Server.Backend.{Backend}
use p.Server.Conn.{choose_version, t_version}
use p.Server.Dispatch.{
  State, first_error, t_attach, t_flush, t_walk_clone, t_walk_names, t_walk, t_open, t_create,
  t_read, t_write, t_clunk, t_remove, t_stat, t_wstat, dispatch,
}

-- The reply has the type next to the request's, or is an Rerror.
abbrev pub Answers : Message → Message → Type 0
Answers request reply = (msg_type reply ≡ suc (msg_type request)) ⊎ (msg_type reply ≡ 107)

module _ {File World : Type 0} (B : Backend File World) where
  t_walk-Answers :
      (s : State B) (fid newfid : ℕ) (wname : List (List ℕ))
      → Answers (twalk fid newfid wname) (t_walk B s fid newfid wname).1
  unfolding t_walk t_walk_clone t_walk_names msg_type
  t_walk-Answers s fid newfid [] = ground arith
  t_walk-Answers s fid newfid (name ∷ names) = ground arith

  -- Every request of a client is answered by the reply that belongs to it or by an Rerror.
  pub dispatch-Answers : (s : State B) (m : Message) → Answers m (dispatch B s m).1
  unfolding dispatch t_version choose_version t_attach t_flush t_open t_create t_read t_write
      t_clunk first_error t_remove t_stat t_wstat msg_type
  dispatch-Answers s (tversion msize version) = ground arith
  dispatch-Answers s (twalk fid newfid wname) = t_walk-Answers s fid newfid wname
  dispatch-Answers s m = ground arith
