-- ===== src/Client/Walk/Batches.antt =====
-- client/fid.go: the requests of Fid.WalkContext.
use p.Common.{ℕ, zero, suc, ◌≤◌, ◌≡◌, refl, ap, ◌∙◌, List, [], ◌∷◌, Bool, true, false, arith}
use p.Common.Lists.{length, take, drop}
use p.Wire.Types.{max_welem, Message, twalk, tclunk}
use p.Client.Rpc.{Rpc}
use p.Client.Walk.{
  WalkEnd, clunk_quiet, Batch, got_qids, batch_failed, walk_batch, on_batch, walk_batches,
  after_clone, fid_walk,
}

-- A message that the protocol allows: a Twalk has MaxWElem names at most.
abbrev pub IsAllowed : Message → Type 0
IsAllowed (twalk fid newfid wname) = length wname ≤ max_welem
IsAllowed m = Unit {0}

-- Two connections that answer the messages of a kind alike.
abbrev pub AgreeOn : {S : Type 0} → (Message → Type 0) → Rpc S → Rpc S → Type 0
AgreeOn {S} P rpc rpc' = (s : S) (m : Message) → P m → rpc s m ≡ rpc' s m

abbrev pub Agree : {S : Type 0} → Rpc S → Rpc S → Type 0
Agree rpc rpc' = AgreeOn IsAllowed rpc rpc'

length-take_le : {A : Type 0} (n : ℕ) (xs : List A) → length (take n xs) ≤ n
length-take_le zero xs = omega arith
length-take_le (suc n) [] = omega arith
length-take_le (suc n) (x ∷ xs) = omega (arith, length-take_le n xs)

-- The messages of a walk that makes the fid `newfid` are of the kind.
pub record Walks (P : Message → Type 0) (newfid : ℕ) : Type 0 where
  pub walks :
      (from : ℕ) (names : List (List ℕ)) → length names ≤ max_welem → P (twalk from newfid names)
  pub clunks : P (tclunk newfid)

module _ {S : Type 0} (P : Message → Type 0) (rpc rpc' : Rpc S) (same : AgreeOn P rpc rpc')
    (newfid : ℕ) (kind : Walks P newfid) where
  clunk_quiet-Agree : (s : S) → clunk_quiet rpc s newfid ≡ clunk_quiet rpc' s newfid
  unfolding clunk_quiet
  clunk_quiet-Agree s = ap (λ r. r.0) (same s (tclunk newfid) kind.clunks)

  walk_batch-Agree :
      (s : S) (from : ℕ) (names : List (List ℕ))
      → length names ≤ max_welem
      → walk_batch rpc s from newfid names ≡ walk_batch rpc' s from newfid names
  unfolding walk_batch
  walk_batch-Agree s from names h = rw (same s (twalk from newfid names) (kind.walks from names h))

  on_batch-Agree :
      (s : S) (b : Batch) (first : Bool) (batch : List (List ℕ)) (next next' : S → S × WalkEnd)
      → ((t : S) → next t ≡ next' t)
      → on_batch rpc s b first newfid batch next ≡ on_batch rpc' s b first newfid batch next'
  unfolding on_batch
  on_batch-Agree s (batch_failed e) first batch next next' h = rw (clunk_quiet-Agree s)
  on_batch-Agree s (got_qids qids) first batch next next' h = rw (clunk_quiet-Agree s, h s)

  walk_batches-Agree :
      (fuel : ℕ) (s : S) (first : Bool) (cur : ℕ) (names : List (List ℕ))
      → walk_batches rpc fuel s first cur newfid names
        ≡ walk_batches rpc' fuel s first cur newfid names
  unfolding walk_batches
  walk_batches-Agree fuel s first cur [] = refl
  walk_batches-Agree zero s first cur (n ∷ ns) = refl
  walk_batches-Agree (suc fuel) s first cur (n ∷ ns) =
      let batch : List (List ℕ) = take max_welem (n ∷ ns) in
      let r : S × Batch = walk_batch rpc s cur newfid batch in
      let next : Rpc S → S → S × WalkEnd =
        λ q s'. walk_batches q fuel s' false newfid newfid (drop max_welem (n ∷ ns)) in
      on_batch-Agree r.0 r.1 first batch (next rpc) (next rpc')
        (λ t. walk_batches-Agree fuel t false newfid (drop max_welem (n ∷ ns)))
      ∙ ap (λ q. on_batch rpc' q.0 q.1 first newfid batch (next rpc'))
          (walk_batch-Agree s cur batch (length-take_le max_welem (n ∷ ns)))

  pub fid_walk-AgreeOn :
      (s : S) (cur : ℕ) (names : List (List ℕ))
      → fid_walk rpc s cur newfid names ≡ fid_walk rpc' s cur newfid names
  unfolding fid_walk
  fid_walk-AgreeOn s cur [] =
      ap (λ q. after_clone q.0 q.1 newfid) (walk_batch-Agree s cur [] (omega arith))
  fid_walk-AgreeOn s cur (n ∷ ns) = walk_batches-Agree (length (n ∷ ns)) s true cur (n ∷ ns)

module _ {S : Type 0} (rpc rpc' : Rpc S) (same : Agree rpc rpc') where
  -- Fid.WalkContext sends no Twalk of more than MaxWElem names, whatever names it is given: on two
  -- connections that answer alike all messages but these, its results are the same.
  pub fid_walk-Agree :
      (s : S) (cur newfid : ℕ) (names : List (List ℕ))
      → fid_walk rpc s cur newfid names ≡ fid_walk rpc' s cur newfid names
  fid_walk-Agree s cur newfid names =
      fid_walk-AgreeOn IsAllowed rpc rpc' same newfid
        (record { walks = λ from ns h. h; clunks = tt }) s cur names
