-- ===== src/Namespace/Remote/Calls.antt =====
-- ns/fid.go: the calls that the methods of a clientFile make, and the fids that they are on.
use p.Common.{
  ℕ, zero, suc, ◌+◌, ◌%◌, ◌^◌, ◌≡◌, ◌≢◌, refl, sym, ap, ◌∙◌, List, [], ◌∷◌, ◌++◌, Bool, true, false,
  Option, some, none, arith,
}
use Prim.Native.Nat.{min}
use mathlib.Core.Path.{fun_ext}
use p.Common.Lists.{length, take, drop}
use p.Wire.Types.{
  Message, twalk, tclunk, tstat, twstat, topen, tcreate, tread, twrite, tremove, oread, text,
  qid_is_dir, Qid,
}
use p.Client.Rpc.{Rpc, Reply}
use p.Client.Session.{alloc_fid}
use p.Client.Walk.{
  WalkEnd, walked_to, walk_failed, wrong_walk_reply, name_not_found, no_such_name, out_of_names,
  fid_walk,
}
use p.Client.Walk.Batches.{AgreeOn, fid_walk-AgreeOn}
use p.Client.Fid.{
  fid_open, fid_create, fid_stat, fid_clunk, Called, called, call_error, mismatched, as_opened,
  as_created, as_stat,
}
use p.Client.Io.{on_write, write_at_loop, write_at, on_file_read, file_read}
use p.Client.ReadDir.{max_io}
use p.Common.Tests.{leb, if◌then◌else◌}
use p.Namespace.Remote.{
  OpenFile, Remote, RemoteError, RemoteResult, gave, lost, not_open, rpc_error, Act, then_act,
  replied_to, walked, new_remote, set_st, set_open, is_open, created, was_read, after_create,
  set_conn, walk_fid, with_stat, walk_to, remote_stat, open_fid, create_in_clone, readable,
  seek_read,
}

-- A message that leaves the fid `root` alone, but for a Twalk that makes another fid from it.
abbrev pub SparesRoot : ℕ → Message → Type 0
SparesRoot root (twalk from newfid names) = newfid ≢ root
SparesRoot root (tclunk fid) = fid ≢ root
SparesRoot root (tstat fid) = fid ≢ root
SparesRoot root (twstat fid st) = fid ≢ root
SparesRoot root (topen fid mode) = fid ≢ root
SparesRoot root (tcreate fid name perm mode ext) = fid ≢ root
SparesRoot root (tread fid offset count) = fid ≢ root
SparesRoot root (twrite fid offset bytes) = fid ≢ root
SparesRoot root (tremove fid) = fid ≢ root
SparesRoot root m = Unit {0}

abbrev pub value_or : ℕ → RemoteResult ℕ → ℕ
value_or d (lost e) = d
value_or d (gave x) = x

pub lost_gave : {e : RemoteError} {x : ℕ} → ◌≡◌ {A = RemoteResult ℕ} (lost e) (gave x) → ⊥
lost_gave h = cc h

-- The fid that a walk gives is the one that allocFid gave.
pub walked-alloc :
    {S : Type 0} (w w' : Remote S) (r : S × WalkEnd) (fid : ℕ)
    → walked w r ≡ (w', gave fid)
    → fid ≡ alloc_fid w.client
walked-alloc w w' (s, walked_to f) fid h = sym (ap (λ q. value_or (alloc_fid w.client) q.1) h)
walked-alloc w w' (s, walk_failed e) fid h = absurd (lost_gave (ap (λ q. q.1) h))
walked-alloc w w' (s, wrong_walk_reply t) fid h = absurd (lost_gave (ap (λ q. q.1) h))
walked-alloc w w' (s, name_not_found n) fid h = absurd (lost_gave (ap (λ q. q.1) h))
walked-alloc w w' (s, no_such_name) fid h = absurd (lost_gave (ap (λ q. q.1) h))
walked-alloc w w' (s, out_of_names) fid h = absurd (lost_gave (ap (λ q. q.1) h))

pub walk_fid-alloc :
    {S : Type 0} (rpc : Rpc S) (w w' : Remote S) (cur : ℕ) (names : List (List ℕ)) (fid : ℕ)
    → walk_fid rpc w cur names ≡ (w', gave fid)
    → fid ≡ alloc_fid w.client
unfolding walk_fid
walk_fid-alloc rpc w w' cur names fid h =
    walked-alloc w w' (fid_walk rpc w.conn cur (alloc_fid w.client) names) fid h

-- A file that is opened keeps its fid.
pub opened-fid :
    {S : Type 0} (w w' : Remote S) (f : ℕ) (r : S × Called (Qid × ℕ)) (x : Unit {0})
    → then_act (replied_to w (λ q. q.1) r) (λ v iounit. set_open v f iounit) ≡ (w', gave x)
    → (w'.files f).fid ≡ (w.files f).fid
unfolding set_open
opened-fid w w' f (s, called q) x h = ap (λ v. (v.0.files f).fid) (sym h) ∙ ground arith
opened-fid w w' f (s, call_error e) x h = absurd (cc (ap (λ v. v.1) h))
opened-fid w w' f (s, mismatched t) x h = absurd (cc (ap (λ v. v.1) h))

pub open_fid-fid :
    {S : Type 0} (rpc : Rpc S) (w w' : Remote S) (f mode : ℕ) (x : Unit {0})
    → open_fid rpc w f mode ≡ (w', gave x)
    → (w'.files f).fid ≡ (w.files f).fid
unfolding open_fid
open_fid-fid rpc w w' f mode x h = opened-fid w w' f (fid_open rpc w.conn (w.files f).fid mode) x h

pub readable-fid :
    {S : Type 0} (rpc : Rpc S) (w w' : Remote S) (f : ℕ) (x : Unit {0})
    → readable rpc w f ≡ (w', gave x)
    → (w'.files f).fid ≡ (w.files f).fid
unfolding readable
readable-fid rpc w w' f x h =
    by_tests (is_open (w.files f).opened) (qid_is_dir (w.files f).st.qid) h
  where
    by_tests :
        (b c : Bool)
        → (if b then (w, gave tt) else if c then open_fid rpc w f oread else (w, lost not_open))
          ≡ (w', gave x)
        → (w'.files f).fid ≡ (w.files f).fid
    by_tests true c h = ap (λ v. (v.0.files f).fid) (sym h)
    by_tests false true h = open_fid-fid rpc w w' f oread x h
    by_tests false false h = absurd (cc (ap (λ v. v.1) h))

-- Two calls that give the same, and then do the same where they give something.
pub then_act-same :
    {S A B : Type 0} (r r' : Act S A) (k k' : Remote S → A → Act S B)
    → r ≡ r'
    → ((w : Remote S) (x : A) → r' ≡ (w, gave x) → k w x ≡ k' w x)
    → then_act r k ≡ then_act r' k'
then_act-same r (w, lost e) k k' h same = ap (λ q. then_act q k) h
then_act-same r (w, gave x) k k' h same = ap (λ q. then_act q k) h ∙ same w x refl

module _ {S : Type 0} (root : ℕ) (rpc rpc' : Rpc S)
    (same : AgreeOn (SparesRoot root) rpc rpc') where
  pub write_at_loop-Agree :
      (fid max fuel : ℕ) (s : S) (p : List ℕ) (off total : ℕ)
      → fid ≢ root
      → write_at_loop rpc fid max fuel s p off total ≡ write_at_loop rpc' fid max fuel s p off total
  unfolding write_at_loop
  write_at_loop-Agree fid max fuel s [] off total own = refl
  write_at_loop-Agree fid max zero s (b ∷ p) off total own = refl
  write_at_loop-Agree fid max (suc fuel) s (b ∷ p) off total own =
      ap
        (λ q.
          on_write q.0 q.1 (b ∷ p) total
            (λ n. write_at_loop rpc fid max fuel q.0 (drop n (b ∷ p)) off (total + n)))
        (same s (twrite fid ((off + total) % 2 ^ 64) (take max (b ∷ p))) own)
      ∙ ap (on_write r.0 r.1 (b ∷ p) total)
          (fun_ext (λ n. write_at_loop-Agree fid max fuel r.0 (drop n (b ∷ p)) off (total + n) own))
    where
      r : S × Reply
      r = rpc' s (twrite fid ((off + total) % 2 ^ 64) (take max (b ∷ p)))

  pub write_at-Agree :
      (fid max : ℕ) (s : S) (p : List ℕ) (off : ℕ)
      → fid ≢ root
      → write_at rpc fid max s p off ≡ write_at rpc' fid max s p off
  unfolding write_at
  write_at-Agree fid max s p off own = write_at_loop-Agree fid max (length p) s p off 0 own

  pub file_read-Agree :
      (fid max : ℕ) (s : S) (offset len : ℕ)
      → fid ≢ root
      → file_read rpc fid max s offset len ≡ file_read rpc' fid max s offset len
  unfolding file_read
  file_read-Agree fid max s offset len own =
      ap (λ q. on_file_read q.0 q.1 (min len max) offset)
        (same s (tread fid (offset % 2 ^ 64) (min len max % 2 ^ 32)) own)

  pub stat-Agree : (s : S) (fid : ℕ) → fid ≢ root → fid_stat rpc s fid ≡ fid_stat rpc' s fid
  unfolding fid_stat
  stat-Agree s fid own = ap (λ q. (q.0, as_stat q.1)) (same s (tstat fid) own)

  pub walk_fid-Agree :
      (w : Remote S) (cur : ℕ) (names : List (List ℕ))
      → alloc_fid w.client ≢ root
      → walk_fid rpc w cur names ≡ walk_fid rpc' w cur names
  unfolding walk_fid
  walk_fid-Agree w cur names new = ap (walked w) (
      fid_walk-AgreeOn (SparesRoot root) rpc rpc' same (alloc_fid w.client)
        (record { walks = λ from ns h. new; clunks = new }) w.conn cur names)

  pub with_stat-Agree :
      (w : Remote S) (fid : ℕ) (path : List (List ℕ))
      → fid ≢ root
      → with_stat rpc w fid path ≡ with_stat rpc' w fid path
  unfolding with_stat
  with_stat-Agree w fid path own =
      ap
        (λ q.
          then_act (replied_to w (λ st. st) q)
            (λ w' st. new_remote w' (record { fid = fid; path = path; st = st; opened = none })))
        (stat-Agree w.conn fid own)

  pub walk_to-Agree :
      (w : Remote S) (path : List (List ℕ))
      → alloc_fid w.client ≢ root
      → walk_to rpc w root path ≡ walk_to rpc' w root path
  unfolding walk_to
  walk_to-Agree w path new =
      then_act-same (walk_fid rpc w root path) (walk_fid rpc' w root path) _ _
        (walk_fid-Agree w root path new) (λ w' fid h. with_stat-Agree w' fid path (own w' fid h))
    where
      own : (w' : Remote S) (fid : ℕ) → walk_fid rpc' w root path ≡ (w', gave fid) → fid ≢ root
      own w' fid h = λ e. new (sym (walk_fid-alloc rpc' w w' root path fid h) ∙ e)

  pub remote_stat-Agree :
      (w : Remote S) (f : ℕ) → (w.files f).fid ≢ root → remote_stat rpc w f ≡ remote_stat rpc' w f
  unfolding remote_stat
  remote_stat-Agree w f own =
      ap (λ q. then_act (replied_to w (λ st. st) q) (λ w' st. set_st w' f st))
        (stat-Agree w.conn (w.files f).fid own)

  pub open_fid-Agree :
      (w : Remote S) (f mode : ℕ)
      → (w.files f).fid ≢ root
      → open_fid rpc w f mode ≡ open_fid rpc' w f mode
  unfolding open_fid fid_open
  open_fid-Agree w f mode own =
      ap
        (λ q.
          then_act (replied_to w (λ x. x.1) (q.0, as_opened q.1))
            (λ w' iounit. set_open w' f iounit))
        (same w.conn (topen (w.files f).fid mode) own)

  pub after_create-Agree :
      (fid : ℕ) (path : List (List ℕ)) (r : Act S ℕ)
      → fid ≢ root
      → after_create rpc fid path r ≡ after_create rpc' fid path r
  unfolding after_create fid_clunk
  after_create-Agree fid path (w, lost e) own =
      ap (λ q. (set_conn w q.0, lost e)) (same w.conn (tclunk fid) own)
  after_create-Agree fid path (w, gave iounit) own =
      ap (created w fid path iounit) (stat-Agree w.conn fid own)

  pub create_in_clone-Agree :
      (w : Remote S) (fid : ℕ) (path : List (List ℕ)) (name : List ℕ) (perm mode : ℕ)
      → fid ≢ root
      → create_in_clone rpc w fid path name perm mode
        ≡ create_in_clone rpc' w fid path name perm mode
  unfolding create_in_clone fid_create
  create_in_clone-Agree w fid path name perm mode own =
      ap
        (λ q.
          after_create rpc fid (path ++ (name ∷ []))
            (replied_to w (λ x. x.1) (q.0, as_created q.1)))
        (same w.conn (tcreate fid name perm mode []) own)
      ∙ after_create-Agree fid (path ++ (name ∷ [])) _ own

  pub seek_read-Agree :
      (w : Remote S) (f offset count : ℕ)
      → (w.files f).fid ≢ root
      → seek_read rpc w f offset count ≡ seek_read rpc' w f offset count
  unfolding seek_read
  seek_read-Agree w f offset count own = by_open (w.files f).opened refl
    where
      by_open :
          (o : Option OpenFile)
          → (w.files f).opened ≡ o
          → seek_read rpc w f offset count ≡ seek_read rpc' w f offset count
      by_open none h = rw (seek_read, h) refl
      by_open (some o) h =
          rw (seek_read, h)
            (ap
              (λ r.
                if leb (2 ^ 63) offset
                then (w, lost (rpc_error (text "client: Seek: negative offset")))
                else was_read w f o r)
              (file_read-Agree (w.files f).fid (max_io w.client.msize o.iounit) w.conn offset count
                own))
