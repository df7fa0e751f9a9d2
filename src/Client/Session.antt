-- ===== src/Client/Session.antt =====
-- client/client.go, client/session.go and client/file.go: NewClient's handshake, Attach, and the calls
-- that take a path. A call, with the tag that it takes, the closing of the connection, and all that
-- they talk to are parameters.
use Prim.Native.Nat.{min}
use p.Common.{
  ℕ, zero, suc, ◌+◌, ◌%◌, ◌^◌, List, [], ◌∷◌, Bool, true, false, not, ◌&&◌, Option, none, some,
}
use p.Common.Tests.{if◌then◌else◌}
use p.Common.Names.{same_bytes}
use p.Wire.Types.{
  no_fid, version, version_u, version_unknown, Qid, Stat, tversion, rversion, tattach, rattach,
}
use p.Wire.Fcall.Types.{msg_type}
use p.Client.Rpc.{Reply, replied, rpc_failed, Rpc}
use p.Client.Fid.{
  Called, called, call_error, mismatched, fid_open, fid_create, fid_symlink, fid_wstat, fid_clunk,
}
use p.Client.Walk.{WalkEnd, walked_to, fid_walk}
use p.Client.Io.{split_path}

-- What Client keeps of the session.
pub record Client : Type 0 where
  pub msize : ℕ
  pub unix : Bool
  pub next_fid : ℕ
  pub root : Option ℕ

-- What NewClient returns: a client, the text of a failed call's error, the type of a reply that is no
-- Rversion, or the version that the server answered with. `no_round_left` is no Go value.
pub data Dialed : Type 0 where
  connected : Client → Dialed
  dial_failed : List ℕ → Dialed
  unexpected_reply : ℕ → Dialed
  unsupported : (asked answered : List ℕ) → Dialed
  no_round_left : Dialed

abbrev pub new_client_with : ℕ → Bool → Dialed
new_client_with msize unix =
    connected (record { msize = msize; unix = unix; next_fid = 0; root = none })

module _ {S : Type 0} (rpc : Rpc S) (hang_up : S → S) where
  -- The switch on the answer to a Tversion; `retry` is the next round of the loop.
  unfoldable pub on_version : S → ℕ → List ℕ → Bool → ℕ → List ℕ → (S → S × Dialed) → S × Dialed
  on_version s msize asked retried rmsize answer retry =
      let again = retry s in
      if same_bytes answer asked
      then (s, new_client_with (min msize rmsize) (same_bytes asked version_u))
      else if same_bytes answer version
      then (s, new_client_with (min msize rmsize) false)
      else if same_bytes answer version_unknown && not (same_bytes asked version) && not retried
      then again
      else (hang_up s, unsupported asked answer)

  unfoldable pub on_version_reply : S → Reply → ℕ → List ℕ → Bool → (S → S × Dialed) → S × Dialed
  on_version_reply s (rpc_failed e) msize asked retried retry = (hang_up s, dial_failed e)
  on_version_reply s (replied (rversion rmsize answer)) msize asked retried retry =
      on_version s msize asked retried rmsize answer retry
  on_version_reply s (replied m) msize asked retried retry =
      (hang_up s, unexpected_reply (msg_type m))

  -- The loop of NewClient.
  unfoldable pub handshake : ℕ → S → ℕ → List ℕ → Bool → S × Dialed
  handshake zero s msize asked retried = (s, no_round_left)
  handshake (suc rounds) s msize asked retried =
      let r = rpc s (tversion msize asked) in
      on_version_reply r.0 r.1 msize asked retried (λ s'. handshake rounds s' msize version true)

  -- NewClient, with the msize and the version of its options. It goes round the loop twice at most.
  unfoldable pub new_client : S → ℕ → List ℕ → S × Dialed
  new_client s msize asked = handshake 2 s msize asked false

-- Client.allocFid: the new fid, and the counter after it.
abbrev pub alloc_fid : Client → ℕ
alloc_fid c = (c.next_fid + 1) % 2 ^ 32

abbrev pub allocated : Client → Client
allocated c = record c { next_fid = alloc_fid c }

unfoldable pub on_attach : Client → ℕ → Reply → Client × Called ℕ
on_attach c fid (rpc_failed e) = (c, call_error e)
on_attach c fid (replied (rattach qid)) = (record c { root = some fid }, called fid)
on_attach c fid (replied m) = (c, mismatched (msg_type m))

-- What a call that takes a path ends with, other than its result.
pub data PathCall (A : Type 0) : Type 0 where
  path_done : A → PathCall A
  not_attached empty_path : PathCall A
  walk_ended : WalkEnd → PathCall A
  call_ended : Called A → PathCall A

-- A path's directory and its last name.
unfoldable pub split_last : List (List ℕ) → Option (List (List ℕ) × List ℕ)
split_last [] = none
split_last (name ∷ names) = elim (split_last names) [
  | none ↦ some ([], name)
  | some (dir, last) ↦ some (name ∷ dir, last)
]

-- A Stat that changes only the name.
abbrev pub rename_stat : List ℕ → Stat
rename_stat name = record {
  type = 0xFFFF;
  dev = 0xFFFFFFFF;
  qid = record { type = 0xFF; version = 0xFFFFFFFF; path = 0xFFFFFFFFFFFFFFFF };
  mode = 0xFFFFFFFF;
  atime = 0xFFFFFFFF;
  mtime = 0xFFFFFFFF;
  length = 0xFFFFFFFFFFFFFFFF;
  name = name;
  uid = [];
  gid = [];
  muid = [];
  extension = [];
  nuid = 0;
  ngid = 0;
  nmuid = 0;
}

module _ {S : Type 0} (rpc : Rpc S) where
  -- Client.AttachContext
  unfoldable pub attach : S → Client → List ℕ → List ℕ → S × (Client × Called ℕ)
  attach s c uname aname =
      let fid = alloc_fid c in
      let r = rpc s (tattach fid no_fid uname aname) in (r.0, on_attach (allocated c) fid r.1)

  -- The walk from the root to the names, and then a call on the fid that it gives.
  unfoldable pub from_root :
      {A : Type 0}
      → S
      → Client
      → List (List ℕ)
      → (S → ℕ → S × PathCall A)
      → S × (Client × PathCall A)
  from_root s c names then_call = elim c.root [
    | none ↦ (s, (c, not_attached))
    | some root ↦
        let w = fid_walk rpc s root (alloc_fid c) names in
        elim w.1 [
          | walked_to fid ↦ let r = then_call w.0 fid in (r.0, (allocated c, r.1))
          | end ↦ (w.0, (allocated c, walk_ended end))
        ]
  ]

  -- A file's fid and its iounit, or the error, after which the fid is clunked.
  unfoldable pub or_clunk : S → ℕ → Called (ℕ × ℕ) → S × PathCall (ℕ × ℕ)
  or_clunk s fid (called f) = (s, path_done f)
  or_clunk s fid (call_error e) = ((fid_clunk rpc s fid).0, call_ended (call_error e))
  or_clunk s fid (mismatched t) = ((fid_clunk rpc s fid).0, call_ended (mismatched t))

  -- The File for the results of Open or Create on a fid: the fid with the iounit.
  abbrev as_file : ℕ → Called (Qid × ℕ) → Called (ℕ × ℕ)
  as_file fid (called (qid, iounit)) = called (fid, iounit)
  as_file fid (call_error e) = call_error e
  as_file fid (mismatched t) = mismatched t

  -- Client.OpenContext, with Fid.OpenFileContext
  unfoldable pub open_path : S → Client → List ℕ → ℕ → S × (Client × PathCall (ℕ × ℕ))
  open_path s c path mode =
      from_root s c (split_path path)
        (λ s' fid. let r = fid_open rpc s' fid mode in or_clunk r.0 fid (as_file fid r.1))

  -- The end of Client.CreateContext, with Fid.CreateFileContext, and of Client.SymlinkContext.
  abbrev create_last : List ℕ → ℕ → ℕ → S → ℕ → S × PathCall (ℕ × ℕ)
  create_last name perm mode s fid =
      let r = fid_create rpc s fid name perm mode in or_clunk r.0 fid (as_file fid r.1)

  abbrev symlink_last : Bool → List ℕ → List ℕ → S → ℕ → S × PathCall Qid
  symlink_last unix name target s fid =
      let r = fid_symlink rpc s fid unix name target in
      let s' = (fid_clunk rpc r.0 fid).0 in
      (s', elim r.1 [ called qid ↦ path_done qid | other ↦ call_ended other ])

  -- What both do with a path, after the test for a root.
  unfoldable pub in_parent :
      {A : Type 0}
      → S
      → Client
      → List ℕ
      → (List ℕ → S → ℕ → S × PathCall A)
      → S × (Client × PathCall A)
  in_parent s c path last = elim c.root [
    | none ↦ (s, (c, not_attached))
    | some root ↦ elim (split_last (split_path path)) [
      | none ↦ (s, (c, empty_path))
      | some (dir, name) ↦ from_root s c dir (last name)
    ]
  ]

  unfoldable pub create_path : S → Client → List ℕ → ℕ → ℕ → S × (Client × PathCall (ℕ × ℕ))
  create_path s c path perm mode = in_parent s c path (λ name. create_last name perm mode)

  unfoldable pub symlink_path : S → Client → List ℕ → List ℕ → S × (Client × PathCall Qid)
  symlink_path s c path target = in_parent s c path (λ name. symlink_last c.unix name target)

  -- File.RenameContext, of a file with this fid.
  unfoldable pub file_rename : S → ℕ → List ℕ → S × Called (Unit {0})
  file_rename s fid name = fid_wstat rpc s fid (rename_stat name)
