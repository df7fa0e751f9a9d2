-- ===== src/Server/Conn.antt =====
-- server/conn.go: the state of a connection, its fid table, and the version handshake.
pub mod Version
use Prim.Native.Nat.{min}
use p.Common.{ℕ, ◌≡◌, refl, List, [], ◌∷◌, Bool, true, false, Option, none, some, arith}
use p.Common.Tests.{◌==◌, if◌then◌else◌}
use p.Common.Maps.{lookup, delete, insert, lookup-delete, lookup-insert}
use p.Common.Names.{same_bytes}
use p.Wire.Types.{default_msize, version, version_u, version_unknown, Message, rversion}

-- Server.maxMsize, for the value of Server.Msize.
unfoldable pub max_msize : ℕ → ℕ
max_msize msize = if msize == 0 then default_msize else msize

-- The reply of conn.tVersion, and whether it turns 9P2000.u on.
unfoldable pub choose_version : ℕ → List ℕ → Bool × Message
choose_version msize v =
    if same_bytes v version_u
    then (true, rversion msize version_u)
    else if same_bytes v version
    then (false, rversion msize version)
    else (false, rversion msize version_unknown)

-- What the handlers use of conn: Server.Msize, the negotiated msize and version, the fid table with
-- the file of each openFile, and `inflight`, which maps a tag to the request whose context its
-- cancel function cancels; `cancelled` lists the requests that were cancelled.
-- Every openFile stands in the table under one fid, so that setting its file is writing the entry.
pub record Conn (File : Type 0) : Type 0 where
  pub srv_msize : ℕ
  pub msize : ℕ
  pub unix : Bool
  pub fids : List (ℕ × File)
  pub inflight : List (ℕ × ℕ)
  pub cancelled : List ℕ

module _ {File : Type 0} where
  -- Server.newConn
  unfoldable pub new_conn : ℕ → Conn File
  new_conn srv_msize = record {
    srv_msize = srv_msize;
    msize = max_msize srv_msize;
    unix = false;
    fids = [];
    inflight = [];
    cancelled = [];
  }

  -- conn.getFid, conn.putFid and conn.delFid
  unfoldable pub get_fid : Conn File → ℕ → Option File
  get_fid c fid = lookup fid c.fids

  unfoldable pub put_fid : Conn File → ℕ → File → Conn File
  put_fid c fid f = record c { fids = insert fid f c.fids }

  unfoldable pub del_fid : Conn File → ℕ → Conn File
  del_fid c fid = record c { fids = delete fid c.fids }

  -- conn.tVersion
  unfoldable pub t_version : Conn File → ℕ → List ℕ → Conn File × Message
  t_version c msize v =
      let m = min msize (max_msize c.srv_msize) in
      let r = choose_version m v in (record c { fids = []; msize = m; unix = r.0 }, r.1)

module _ {File : Type 0} where
  pub get_fid-put_fid :
      (c : Conn File) (fid : ℕ) (f : File) (k : ℕ)
      → get_fid (put_fid c fid f) k ≡ (if fid == k then some f else get_fid c k)
  unfolding get_fid put_fid
  get_fid-put_fid c fid f k = lookup-insert fid k f c.fids

  pub get_fid-del_fid :
      (c : Conn File) (fid k : ℕ)
      → get_fid (del_fid c fid) k ≡ (if fid == k then none else get_fid c k)
  unfolding get_fid del_fid
  get_fid-del_fid c fid k = lookup-delete fid k c.fids
