-- ===== src/EndToEnd/Session.antt =====
-- client/client.go and client/session.go over server/conn.go and server/dispatch.go: a new session,
-- with the bytes between both ends.
use Prim.Native.Nat.{min}
use mathlib.Core.Path.{subst}
use p.Common.{
  ℕ, ◌∙◌, ◌+◌, ◌%◌, ◌^◌, ◌<◌, ◌≡◌, refl, sym, ap, [], ◌⊎◌, inl, inr, List, Bool, true, false, none,
  some, arith,
}
use p.Common.Tests.{◌==◌, if◌then◌else◌}
use p.Common.Lists.{length, length-append}
use p.Common.Bytes.{le_bytes}
use p.Common.Maps.{lookup}
use p.Common.Names.{same_bytes}
use p.Wire.Types.{no_tag, no_fid, Qid, version, version_u, tversion, rversion, tattach, rattach}
use p.Wire.Encode.{cut_string, put_string, put_qid}
use p.Wire.Forward.{IsQid, cut_string_short}
use p.Wire.Fcall.Types.{msg_type}
use p.Wire.Fcall.Encode.{marshal_body}
use p.Wire.Framing.{marshal_rest, marshal_version}
use p.Wire.Stat.RoundTrip.{IsString}
use p.Server.Backend.{okay, Backend}
use p.Server.Conn.{Conn, max_msize, choose_version, get_fid, put_fid, get_fid-put_fid, t_version}
use p.Server.Dispatch.{State, t_attach, dispatch}
use p.Client.Fid.{Called, called}
use p.Client.Session.{
  Client, Dialed, connected, new_client_with, on_version, on_version_reply, handshake, new_client,
  on_attach, attach, alloc_fid,
}
use p.EndToEnd.Wire.{Wired, open_at, wire_rpc, Travels, IsWithin, wire_rpc_gives}

-- Tversion and Rversion are encoded alike in both dialects.
version-Travels :
    (n : ℕ) (v : List ℕ) (from to : Bool)
    → n < 2 ^ 32
    → IsString v
    → Travels no_tag (tversion n v) from to × Travels no_tag (rversion n v) from to
unfolding marshal_version marshal_rest marshal_body msg_type put_string le_bytes
version-Travels n v from to h k = (
  record {
    alike = refl;
    fields = (h, k);
    size = omega (arith, k, ap length (cut_string_short v k));
  },
  record {
    alike = refl;
    fields = (h, k);
    size = omega (arith, k, ap length (cut_string_short v k));
  },
)

-- So are Tattach and Rattach.
tattach-Travels :
    (tag fid : ℕ) (uname aname : List ℕ) (from to : Bool)
    → fid < 2 ^ 32
    → IsString uname
    → IsString aname
    → Travels tag (tattach fid no_fid uname aname) from to
unfolding marshal_version marshal_rest marshal_body msg_type put_string le_bytes
tattach-Travels tag fid uname aname from to b k l = record {
  alike = refl;
  fields = (b, omega arith, k, l);
  size = omega (
    arith,
    k,
    l,
    ap length (cut_string_short uname k),
    ap length (cut_string_short aname l),
    length-append (cut_string uname) (put_string aname),
  );
}

rattach-Travels : (tag : ℕ) (q : Qid) (from to : Bool) → IsQid q → Travels tag (rattach q) from to
unfolding marshal_version marshal_rest marshal_body msg_type put_qid le_bytes
rattach-Travels tag q from to h = record { alike = refl; fields = h; size = omega arith }

module _ {File World : Type 0} (B : Backend File World) where
  -- What both sides hold after NewClient, and that the connection has not ended.
  pub record Agrees (asked : ℕ) (v : List ℕ) (c : Conn File) (w : World)
      (r : Wired (State B) × Dialed) : Type 0 where
    pub client : Client
    pub fresh : client.next_fid ≡ 0
    pub is_connected : r.1 ≡ connected client
    pub is_open : r.0 ≡ open_at r.0.server
    pub msize : client.msize ≡ min asked (max_msize c.srv_msize)
    pub same_msize : r.0.server.0.msize ≡ client.msize
    pub unix : client.unix ≡ same_bytes v version_u
    pub same_unix : r.0.server.0.unix ≡ client.unix
    pub no_fids : (fid : ℕ) → get_fid r.0.server.0 fid ≡ none
    pub world : r.0.server.1 ≡ w

  -- NewClient over the connection. Until it is negotiated, the client's msize is the one asked for, and
  -- its dialect is the plain one.
  abbrev pub connect :
      (Wired (State B) → Wired (State B))
      → Conn File
      → World
      → ℕ
      → List ℕ
      → Wired (State B) × Dialed
  connect hang_up c w asked v =
      new_client (wire_rpc B no_tag asked false) hang_up (open_at (c, w)) asked v

  module _ (hang_up : Wired (State B) → Wired (State B)) (c : Conn File) (w : World) (asked : ℕ)
      (v : List ℕ) where
    abbrev least : ℕ
    least = min asked (max_msize c.srv_msize)

    -- The server's state after tVersion.
    abbrev after : Bool → Wired (State B)
    after unix = open_at (record c { msize = least; unix = unix; fids = [] }, w)

    reply-Agrees :
        (unix : Bool)
        → connect hang_up c w asked v ≡ (after unix, new_client_with (min asked least) unix)
        → unix ≡ same_bytes v version_u
        → Agrees asked v c w (connect hang_up c w asked v)
    unfolding get_fid lookup
    reply-Agrees unix e same = subst (Agrees asked v c w) (sym e) (record {
      client = record { msize = min asked least; unix = unix; next_fid = 0; root = none };
      fresh = refl;
      is_connected = refl;
      is_open = refl;
      msize = omega arith;
      same_msize = omega arith;
      unix = same;
      same_unix = refl;
      no_fids = λ fid. refl;
      world = refl;
    })

    connected_as :
        (unix : Bool)
        → asked < 2 ^ 32
        → IsString v
        → same_bytes v v ≡ true
        → unix ≡ same_bytes v version_u
        → dispatch B (c, w) (tversion asked v) ≡ ((after unix).server, rversion least v)
        → IsWithin c.msize no_tag (tversion asked v) c.unix
        → IsWithin asked no_tag (rversion least v) false
        → connect hang_up c w asked v ≡ (after unix, new_client_with (min asked least) unix)
    unfolding new_client handshake on_version_reply on_version
    connected_as unix b k same u e h h' =
        let t = (version-Travels asked v false c.unix b k).0 in
        let t' = (version-Travels least v unix false (omega arith) k).1 in
        rw
          (
            wire_rpc_gives B no_tag asked false c w (tversion asked v) _ e (omega arith) t t' h h',
            same,
            u,
          )
          refl

    new_client-Agrees :
        asked < 2 ^ 32
        → (v ≡ version) ⊎ (v ≡ version_u)
        → IsWithin c.msize no_tag (tversion asked v) c.unix
        → IsWithin asked no_tag (rversion least v) false
        → Agrees asked v c w (connect hang_up c w asked v)
    new_client-Agrees b known h h' = by_version known
      where
        answered :
            (u : List ℕ) (unix : Bool)
            → u ≡ v
            → IsString u
            → same_bytes u u ≡ true
            → unix ≡ same_bytes u version_u
            → dispatch B (c, w) (tversion asked u) ≡ ((after unix).server, rversion least u)
            → Agrees asked v c w (connect hang_up c w asked v)
        answered u unix e k same t d =
            reply-Agrees unix
              (connected_as unix b (subst IsString e k) (subst (λ v. same_bytes v v ≡ true) e same)
                (subst (λ v. unix ≡ same_bytes v version_u) e t)
                (subst
                  (λ v.
                    dispatch B (c, w) (tversion asked v) ≡ ((after unix).server, rversion least v))
                  e d)
                h h')
              (subst (λ v. unix ≡ same_bytes v version_u) e t)

        by_version :
            (v ≡ version) ⊎ (v ≡ version_u) → Agrees asked v c w (connect hang_up c w asked v)
        by_version (inl e) =
            unfold dispatch t_version choose_version same_bytes in
            answered version false (sym e) (omega arith) refl refl refl
        by_version (inr e) =
            unfold dispatch t_version choose_version same_bytes in
            answered version_u true (sym e) (omega arith) refl refl refl

  t_attach-okay :
      (c : Conn File) (w : World) (fid : ℕ) (uname aname : List ℕ) (f : File) (w' : World)
      → B.attach c.unix w uname aname ≡ (w', okay f)
      → dispatch B (c, w) (tattach fid no_fid uname aname)
        ≡ ((put_fid c fid f, w'), rattach (B.qid w' f))
  unfolding dispatch t_attach
  t_attach-okay c w fid uname aname f w' h = ground arith

  -- What Attach on a connection without fids gives.
  abbrev pub Attached : Wired (State B) × (Client × Called ℕ) → File → Type 0
  Attached r f =
      (r.0.ended ≡ none)
      × (r.1.0.root ≡ some 1)
      × (r.1.1 ≡ called 1)
      × ((fid : ℕ) → get_fid r.0.server.0 fid ≡ (if 1 == fid then some f else none))

  attach-Attached :
      (tag : ℕ) (c : Conn File) (w : World) (k : Client) (uname aname : List ℕ) (f : File)
      (w' : World)
      → tag < 2 ^ 16
      → alloc_fid k ≡ 1
      → ((fid : ℕ) → get_fid c fid ≡ none)
      → B.attach c.unix w uname aname ≡ (w', okay f)
      → IsString uname
      → IsString aname
      → IsQid (B.qid w' f)
      → IsWithin c.msize tag (tattach 1 no_fid uname aname) c.unix
      → IsWithin k.msize tag (rattach (B.qid w' f)) k.unix
      → Attached (attach (wire_rpc B tag k.msize k.unix) (open_at (c, w)) k uname aname) f
  unfolding attach on_attach
  attach-Attached tag c w k uname aname f w' b first empty there su sa q h h' =
      let t = tattach-Travels tag 1 uname aname k.unix c.unix (omega arith) su sa in
      let t' = rattach-Travels tag (B.qid w' f) c.unix k.unix q in
      rw
        (
          attach,
          first,
          wire_rpc_gives B tag k.msize k.unix c w (tattach 1 no_fid uname aname) _
              (t_attach-okay c w 1 uname aname f w' there) b t (unfold put_fid in t') h h',
        )
        (
          refl,
          refl,
          refl,
          λ fid. get_fid-put_fid c 1 f fid ∙ ap (λ o. if 1 == fid then some f else o) (empty fid),
        )

  -- NewClient with either version, and then Attach, over the bytes between a client and this server, in
  -- any state: where the backend's Attach gives a file, and where the four messages fit the wire and
  -- the msize of the end that reads them. NewClient connects: both sides then hold the smaller of the
  -- two msizes and the same answer to whether 9P2000.u is spoken, which is what was asked for; the
  -- server has no fids left, and its backend was not called. After Attach the connection is still up,
  -- the client's root is fid 1, and the server has the file under this fid and no file under others.
  pub session-Agrees :
      (hang_up : Wired (State B) → Wired (State B)) (c : Conn File) (w : World) (asked tag : ℕ)
      (v uname aname : List ℕ) (f : File) (w' : World)
      → asked < 2 ^ 32
      → tag < 2 ^ 16
      → (v ≡ version) ⊎ (v ≡ version_u)
      → B.attach (same_bytes v version_u) w uname aname ≡ (w', okay f)
      → IsString uname
      → IsString aname
      → IsQid (B.qid w' f)
      → IsWithin c.msize no_tag (tversion asked v) c.unix
      → IsWithin asked no_tag (rversion (min asked (max_msize c.srv_msize)) v) false
      → IsWithin
          (min asked (max_msize c.srv_msize))
          tag
          (tattach 1 no_fid uname aname)
          (same_bytes v version_u)
      → IsWithin
          (min asked (max_msize c.srv_msize))
          tag
          (rattach (B.qid w' f))
          (same_bytes v version_u)
      → (a : Agrees asked v c w (connect hang_up c w asked v)) × Attached
          (attach
            (wire_rpc B tag a.client.msize a.client.unix)
            (connect hang_up c w asked v).0
            a.client
            uname
            aname)
          f
  session-Agrees hang_up c w asked tag v uname aname f w' small b known there su sa q h h' k k' =
      let a = new_client-Agrees hang_up c w asked v small known h h' in
      let s = (connect hang_up c w asked v).0 in
      let first : alloc_fid a.client ≡ 1 = ap (λ n. (n + 1) % 2 ^ 32) a.fresh in
      let found : B.attach s.server.0.unix s.server.1 uname aname ≡ (w', okay f) =
        rw (a.same_unix ∙ a.unix, a.world) there in
      (
        a,
        subst
            (λ s.
              Attached (attach (wire_rpc B tag a.client.msize a.client.unix) s a.client uname aname)
                f)
            (sym a.is_open)
            (attach-Attached tag s.server.0 s.server.1 a.client uname aname f w' b first a.no_fids
              found su sa q (rw (a.same_msize ∙ a.msize, a.same_unix ∙ a.unix) k)
              (rw (a.msize, a.unix) k')),
      )
