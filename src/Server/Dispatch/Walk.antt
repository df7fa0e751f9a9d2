-- ===== src/Server/Dispatch/Walk.antt =====
-- server/dispatch.go: what Twalk with names does, against a description of the walk by rules.
use p.Common.{
  ℕ, ◌+◌, ◌≤◌, ◌≡◌, ◌≢◌, refl, ap, ◌∙◌, List, [], ◌∷◌, ◌++◌, Bool, some, append_assoc, append-nil,
  arith,
}
use p.Common.Tests.{◌==◌, if◌then◌else◌, ne→==}
use p.Common.Lists.{length}
use p.Wire.Types.{Qid, Message, rerror, rwalk}
use p.Server.Backend.{Outcome, okay, failed, Backend}
use p.Server.Conn.{Conn, get_fid, put_fid}
use p.Server.Dispatch.{Walked, reached, lost, State, walk_loop, t_walk_names, t_walk}

module _ {File World : Type 0} (B : Backend File World) (ctx : Bool) where
  -- From the file `f` in the backend's state `w`, the walk by the names gets through a front of
  -- them, as long as it can be: it sees these qids, and ends at a file and a state.
  pub data Front : World → File → List (List ℕ) → List Qid → World → File → Type 0 where
    end : {w : World} {f : File} → Front w f [] [] w f
    stop :
        {name : List ℕ} {names : List (List ℕ)} {w w' : World} {f : File} {e : List ℕ}
        → B.walk ctx w f name ≡ (w', failed e)
        → Front w f (name ∷ names) [] w' f
    step :
        {name : List ℕ} {names : List (List ℕ)} {qids : List Qid} {w w' w'' : World} {f g h : File}
        → B.walk ctx w f name ≡ (w', okay g)
        → Front w' g names qids w'' h
        → Front w f (name ∷ names) (B.qid w' g ∷ qids) w'' h

  -- A walk that sees a qid for each element it gets through.
  length-Front :
      {w w' : World} {f g : File} {names : List (List ℕ)} {qids : List Qid}
      → Front w f names qids w' g
      → length qids ≤ length names
  length-Front end = omega arith
  length-Front (stop e) = omega arith
  length-Front (step e r) = omega (arith, length-Front r)

  -- What the loop does once it has got through an element.
  abbrev Ends : World → File → List (List ℕ) → List Qid → World × Walked File → Type 0
  Ends w f names acc r =
      (qids : List Qid) × (w' : World) × (g : File) × Front w f names qids w' g
      × (r ≡ (w', reached g (acc ++ qids)))

  module _ {w w' : World} {f : File} (i : ℕ) {name : List ℕ} (names : List (List ℕ))
      (acc : List Qid) where
    walk_loop_okay :
        {g : File}
        → B.walk ctx w f name ≡ (w', okay g)
        → walk_loop B ctx w f i (name ∷ names) acc
          ≡ walk_loop B ctx w' g (i + 1) names (acc ++ (B.qid w' g ∷ []))
    unfolding walk_loop
    walk_loop_okay eq = ground arith

    walk_loop_failed :
        {e : List ℕ}
        → B.walk ctx w f name ≡ (w', failed e)
        → walk_loop B ctx w f i (name ∷ names) acc ≡ (w', if i == 0 then lost e else reached f acc)
    unfolding walk_loop
    walk_loop_failed eq = ground arith

  walk_loop-Ends :
      (names : List (List ℕ)) (w : World) (f : File) (i : ℕ) (acc : List Qid)
      → i ≢ 0
      → Ends w f names acc (walk_loop B ctx w f i names acc)
  walk_loop-Ends [] w f i acc h = ([], w, f, end, unfold walk_loop in rw append-nil)
  walk_loop-Ends (name ∷ names) w f i acc h =
      go (B.walk ctx w f name) refl
        (λ w' g. walk_loop-Ends names w' g (i + 1) (acc ++ (B.qid w' g ∷ [])) (omega arith))
    where
      go :
          (r : World × Outcome File)
          → B.walk ctx w f name ≡ r
          → ((w' : World) (g : File)
              → Ends w' g names
                  (acc ++ (B.qid w' g ∷ []))
                  (walk_loop B ctx w' g (i + 1) names (acc ++ (B.qid w' g ∷ []))))
          → Ends w f (name ∷ names) acc (walk_loop B ctx w f i (name ∷ names) acc)
      go (w', failed e) eq next =
          ([], w', f, stop eq, walk_loop_failed i names acc eq ∙ rw (ne→== i 0 h, append-nil))
      go (w', okay g) eq next =
          let (qids, w'', k, front, same) = next w' g in
          (
            B.qid w' g ∷ qids,
            w'',
            k,
            step eq front,
            walk_loop_okay i names acc eq
                ∙ same
                ∙ ap (λ x. (w'', reached k x)) (append_assoc acc (B.qid w' g ∷ []) qids),
          )

module _ {File World : Type 0} (B : Backend File World) where
  -- What Twalk answers and leaves behind: an Rerror and the connection as it was, if the first name
  -- fails; or else the qids of the longest front of the names, with newfid at the file it ends at.
  pub data WalkResult (c : Conn File) (w : World) (f : File) (newfid : ℕ) (names : List (List ℕ))
      : State B × Message → Type 0 where
    first_fails :
        {name : List ℕ} {rest : List (List ℕ)} {w' : World} {e : List ℕ} {r : State B × Message}
        → names ≡ name ∷ rest
        → B.walk c.unix w f name ≡ (w', failed e)
        → r ≡ ((c, w'), rerror e)
        → WalkResult c w f newfid names r
    gets_through :
        {qids : List Qid} {w' : World} {g : File} {r : State B × Message}
        → Front B c.unix w f names qids w' g
        → qids ≢ []
        → length qids ≤ length names
        → r ≡ ((put_fid c newfid g, w'), rwalk qids)
        → WalkResult c w f newfid names r

  t_walk_known :
      (c : Conn File) (w : World) (fid newfid : ℕ) (f : File) (name : List ℕ)
      (names : List (List ℕ))
      → get_fid c fid ≡ some f
      → t_walk B (c, w) fid newfid (name ∷ names) ≡ t_walk_names B (c, w) f newfid (name ∷ names)
  unfolding t_walk
  t_walk_known c w fid newfid f name names h = ground arith

  t_walk_names_lost :
      (c : Conn File) (w : World) (f : File) (newfid : ℕ) (names : List (List ℕ)) {w' : World}
      {e : List ℕ}
      → walk_loop B c.unix w f 0 names [] ≡ (w', lost e)
      → t_walk_names B (c, w) f newfid names ≡ ((c, w'), rerror e)
  unfolding t_walk_names
  t_walk_names_lost c w f newfid names h = ground arith

  t_walk_names_reached :
      (c : Conn File) (w : World) (f : File) (newfid : ℕ) (names : List (List ℕ)) {w' : World}
      {g : File} {qids : List Qid}
      → walk_loop B c.unix w f 0 names [] ≡ (w', reached g qids)
      → t_walk_names B (c, w) f newfid names ≡ ((put_fid c newfid g, w'), rwalk qids)
  unfolding t_walk_names
  t_walk_names_reached c w f newfid names h = ground arith

  -- Twalk from a known fid with at least one name. If the backend's walk of the first name fails, the
  -- reply is an Rerror with its error, and the connection is as it was. Or else the reply has the qids
  -- of the longest front of the names that the backend can walk, one at least, and newfid is at the
  -- file where that front ends.
  pub t_walk-WalkResult :
      (c : Conn File) (w : World) (fid newfid : ℕ) (f : File) (name : List ℕ)
      (names : List (List ℕ))
      → get_fid c fid ≡ some f
      → WalkResult c w f newfid (name ∷ names) (t_walk B (c, w) fid newfid (name ∷ names))
  t_walk-WalkResult c w fid newfid f name names h = go (B.walk c.unix w f name) refl
    where
      start :
          t_walk B (c, w) fid newfid (name ∷ names) ≡ t_walk_names B (c, w) f newfid (name ∷ names)
      start = t_walk_known c w fid newfid f name names h

      go :
          (r : World × Outcome File)
          → B.walk c.unix w f name ≡ r
          → WalkResult c w f newfid (name ∷ names) (t_walk B (c, w) fid newfid (name ∷ names))
      go (w', failed e) eq = first_fails refl eq (
          start
          ∙ t_walk_names_lost c w f newfid (name ∷ names) (walk_loop_failed B c.unix 0 names [] eq))
      go (w', okay g) eq =
          let (qids, w'', k, front, same) =
            walk_loop-Ends B c.unix names w' g 1 (B.qid w' g ∷ []) (omega arith) in
          gets_through (step eq front) (λ x. cc) (length-Front B c.unix (step eq front))
            (start
              ∙ t_walk_names_reached c w f newfid (name ∷ names)
                  (walk_loop_okay B c.unix 0 names [] eq ∙ same))
