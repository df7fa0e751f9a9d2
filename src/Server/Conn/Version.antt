-- ===== src/Server/Conn/Version.antt =====
-- server/conn.go: what conn.tVersion negotiates.
use Prim.Native.Nat.{min}
use p.Common.{ℕ, ◌≡◌, ◌≢◌, refl, ◌⊎◌, inl, inr, List, ◌++◌, Bool, true, false, none, arith}
use p.Common.Maps.{lookup}
use p.Common.Names.{same_bytes, same_bytes_sound, same_bytes_complete}
use p.Common.Tests.{Bool-cases}
use p.Wire.Types.{version, version_u, version_unknown, Message, rversion, ok}
use p.Wire.Framing.{marshal_version, read_message}
use p.Wire.Framing.RoundTrip.{FitsSize, read_message-marshal}
use p.Server.Conn.{Conn, max_msize, choose_version, get_fid, t_version}

-- The version that the reply names, and whether it turns 9P2000.u on.
abbrev pub Chosen : List ℕ → Bool → List ℕ → Type 0
Chosen asked unix answer =
    ((asked ≡ version_u) × (answer ≡ version_u) × (unix ≡ true))
    ⊎ ((asked ≡ version) × (answer ≡ version) × (unix ≡ false))
    ⊎ ((asked ≢ version_u) × (asked ≢ version) × (answer ≡ version_unknown) × (unix ≡ false))

choose_version-Chosen :
    (msize : ℕ) (v : List ℕ)
    → (answer : List ℕ) × ((choose_version msize v).1 ≡ rversion msize answer)
      × Chosen v (choose_version msize v).0 answer
unfolding choose_version
choose_version-Chosen msize v = elim (Bool-cases (same_bytes v version_u)) [
  | inl u ↦ (version_u, rw u refl, inl (same_bytes_sound v version_u u, refl, rw u refl))
  | inr not_u ↦ elim (Bool-cases (same_bytes v version)) [
    | inl p ↦ (
      version,
      rw (not_u, p) refl,
      inr (inl (same_bytes_sound v version p, refl, rw (not_u, p) refl)),
    )
    | inr not_p ↦ (
      version_unknown,
      rw (not_u, not_p) refl,
      inr (
          inr (
            same_bytes_complete v version_u not_u,
            same_bytes_complete v version not_p,
            refl,
            rw (not_u, not_p) refl,
          )),
    )
  ]
]

module _ {File : Type 0} where
  -- A Tversion empties the fid table and settles on the smaller of the client's msize and the
  -- server's, which the reply names with the version. The version is the one that the
  -- client asked for if that is 9P2000.u or 9P2000, and `unknown` otherwise; 9P2000.u is on just when
  -- the reply names it.
  pub t_version-Chosen :
      (c : Conn File) (msize : ℕ) (v : List ℕ)
      → ((fid : ℕ) → get_fid (t_version c msize v).0 fid ≡ none)
        × ((t_version c msize v).0.msize ≡ min msize (max_msize c.srv_msize))
        × ((answer : List ℕ) × ((t_version c msize v).1
              ≡ rversion (t_version c msize v).0.msize answer)
            × Chosen v (t_version c msize v).0.unix answer)
  unfolding t_version get_fid lookup
  t_version-Chosen c msize v =
      ((λ fid. refl), refl, choose_version-Chosen (min msize (max_msize c.srv_msize)) v)

  -- After a Tversion with an msize of zero, ReadMessage with the negotiated msize takes an encoded
  -- message of any size that fits the size prefix, whatever the server's own msize is.
  pub t_version-unlimited :
      (c : Conn File) (v : List ℕ) (tag : ℕ) (m : Message) (u : Bool) (rest : List ℕ)
      → FitsSize tag m u
      → read_message (marshal_version tag m u ++ rest) (t_version c 0 v).0.msize
        ≡ ok (marshal_version tag m u, rest)
  unfolding t_version
  t_version-unlimited c v tag m u rest h =
      read_message-marshal tag m u (min 0 (max_msize c.srv_msize)) rest h (inl zero_min)
    where
      zero_min : min 0 (max_msize c.srv_msize) ≡ 0
      zero_min = omega arith
