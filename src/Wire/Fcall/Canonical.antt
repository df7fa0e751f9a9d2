-- ===== src/Wire/Fcall/Canonical.antt =====
-- fcall.go: a body that was decoded is encoded to the bytes it came from.
use p.Common.{
  ℕ, zero, suc, ◌≤◌, ◌<◌, ◌^◌, ◌%◌, ◌≡◌, refl, ap, inl, inr, List, [], ◌∷◌, ◌++◌, Bool, true,
  append-nil, arith,
}
use p.Common.Tests.{ltb, ltb→le, Bool-cases, if◌then◌else◌}
use p.Common.Lists.{length, All}
use p.Common.Bytes.{le_bytes}
use p.Wire.Types.{
  Qid, Message, tversion, rversion, tauth, rauth, tattach, rattach, rerror, tflush, rflush, twalk,
  rwalk, topen, ropen, tcreate, rcreate, tread, rread, twrite, rwrite, tclunk, rclunk, tremove,
  rremove, tstat, rstat, twstat, rwstat,
}
use p.Wire.Decode.{get_uint, get_string}
use p.Wire.Forward.{IsQid}
use p.Wire.Backward.{
  Consumes, Consumes-pure, Consumes-then, Consumes-weaken, on_unix-Consumes, get_uint-Consumes,
  get_bytes-Consumes, get_string-Consumes, get_qid-Consumes,
}
use p.Wire.Stat.Canonical.{get_stat-Consumes}
use p.Wire.Stat.RoundTrip.{IsString}
use p.Wire.Fcall.Types.{msg_type}
use p.Wire.Fcall.Encode.{
  put_each_string, put_each_qid, put_strings, put_qids, put_counted, put_extension, marshal_body,
}
use p.Wire.Fcall.Decode.{
  get_each_string, get_each_qid, too_many, get_strings, get_qids, get_counted, get_extension,
  unmarshal_body,
}
use p.Wire.Fcall.RoundTrip.{FitsExtension, Fits, blank, mod_small}

get_each_string-Consumes :
    (u : Bool) (n : ℕ)
    → Consumes u
        (get_each_string n)
        (λ ss bs. (bs ≡ put_each_string ss) × ((length ss ≡ n) × All IsString ss))
unfolding get_each_string put_each_string
get_each_string-Consumes u zero = Consumes-pure [] (refl, (refl, tt))
get_each_string-Consumes u (suc n) = Consumes-then (get_string-Consumes u) λ s.
    Consumes-then (get_each_string-Consumes u n)
      λ ss. Consumes-pure (s ∷ ss) λ h h'. (rw append-nil, (ap suc h.0, (h', h.1)))

get_each_qid-Consumes :
    (u : Bool) (n : ℕ)
    → Consumes u
        (get_each_qid n)
        (λ qs bs. (bs ≡ put_each_qid qs) × ((length qs ≡ n) × All IsQid qs))
unfolding get_each_qid put_each_qid
get_each_qid-Consumes u zero = Consumes-pure [] (refl, (refl, tt))
get_each_qid-Consumes u (suc n) = Consumes-then (get_qid-Consumes u) λ q.
    Consumes-then (get_each_qid-Consumes u n)
      λ qs. Consumes-pure (q ∷ qs) λ h h'. (rw append-nil, (ap suc h.0, (h', h.1)))

-- A read that records an error never succeeds.
too_many-Consumes :
    {A : Type 0} {S : List A → List ℕ → Type 0} (u : Bool) (old : List A)
    → Consumes u (too_many old) S
unfolding too_many
too_many-Consumes u old = record {
  sticky = λ d e. ground arith;
  run = λ d hu hb e. absurd (ground arith);
}

-- The elements behind the count `n`.
counted_strings :
    (u : Bool) (n : ℕ) (old : List (List ℕ))
    → Consumes u (if ltb 16 n then too_many old else get_each_string n) (λ ss bs.
      n < 256 ^ 2 → (le_bytes 2 n ++ bs ≡ put_strings ss) × ((length ss ≤ 16) × All IsString ss))
unfolding put_strings
counted_strings u n old = elim (Bool-cases (ltb 16 n)) [
  | inl more ↦ rw more (too_many-Consumes u old)
  | inr few ↦ rw few (
      Consumes-weaken (get_each_string-Consumes u n) (λ ss bs h hn.
        let le : length ss ≤ 16 = rw h.1.0 (ltb→le 16 n few) in
        (rw (h.0, ← h.1.0, mod_small (length ss) (2 ^ 16) (omega arith)), (le, h.1.1))))
]

get_strings-Consumes :
    (u : Bool) (old : List (List ℕ))
    → Consumes u
        (get_strings old)
        (λ ss bs. (bs ≡ put_strings ss) × ((length ss ≤ 16) × All IsString ss))
unfolding get_strings
get_strings-Consumes u old = Consumes-then (get_uint-Consumes u 2) λ n. counted_strings u n old

-- The elements behind the count `n`.
counted_qids :
    (u : Bool) (n : ℕ) (old : List Qid)
    → Consumes u (if ltb 16 n then too_many old else get_each_qid n) (λ qs bs.
      n < 256 ^ 2 → (le_bytes 2 n ++ bs ≡ put_qids qs) × ((length qs ≤ 16) × All IsQid qs))
unfolding put_qids
counted_qids u n old = elim (Bool-cases (ltb 16 n)) [
  | inl more ↦ rw more (too_many-Consumes u old)
  | inr few ↦ rw few (
      Consumes-weaken (get_each_qid-Consumes u n) (λ qs bs h hn.
        let le : length qs ≤ 16 = rw h.1.0 (ltb→le 16 n few) in
        (rw (h.0, ← h.1.0, mod_small (length qs) (2 ^ 16) (omega arith)), (le, h.1.1))))
]

get_qids-Consumes :
    (u : Bool) (old : List Qid)
    → Consumes u (get_qids old) (λ qs bs. (bs ≡ put_qids qs) × ((length qs ≤ 16) × All IsQid qs))
unfolding get_qids
get_qids-Consumes u old = Consumes-then (get_uint-Consumes u 2) λ n. counted_qids u n old

get_counted-Consumes :
    (u : Bool)
    → Consumes u get_counted (λ bytes bs. (bs ≡ put_counted bytes) × (length bytes < 2 ^ 32))
unfolding get_counted put_counted
get_counted-Consumes u = Consumes-then (get_uint-Consumes u 4) λ n.
    Consumes-weaken (get_bytes-Consumes u n)
      λ bytes bs h hn. (rw (h.0, h.1, mod_small n (2 ^ 32) hn), rw h.1 hn)

get_mode-Consumes :
    (u : Bool) → Consumes u (get_uint 1) (λ m bs. (bs ≡ le_bytes 1 (m % 2 ^ 8)) × (m < 2 ^ 8))
get_mode-Consumes u =
    Consumes-weaken (get_uint-Consumes u 1) λ m bs h. (rw (mod_small m (2 ^ 8) h.1) h.0, h.1)

get_extension-Consumes :
    (u : Bool)
    → Consumes u (get_extension []) (λ e bs. (bs ≡ put_extension u e) × FitsExtension u e)
unfolding get_extension put_extension
get_extension-Consumes u =
    on_unix-Consumes (λ v e bs. (bs ≡ put_extension v e) × FitsExtension v e) u get_string []
      (get_string-Consumes true) (refl, refl)

-- What a body of the type of `z` gives: a message of that type, from the bytes that marshalBody
-- writes for it, and it fits the wire.
abbrev pub Body : Bool → Message → Message → List ℕ → Type 0
Body u z m bs = (bs ≡ marshal_body u m) × (msg_type m ≡ msg_type z) × Fits u m

pub unmarshal_body-Consumes :
    (u : Bool) (z : Message) → Consumes u (unmarshal_body (blank z)) (Body u z)
unfolding unmarshal_body marshal_body msg_type
unmarshal_body-Consumes u (tversion _ _) = Consumes-then (get_uint-Consumes u 4) λ msize.
    Consumes-then (get_string-Consumes u)
      λ version. Consumes-pure (tversion msize version) λ h1 h0. (rw append-nil, refl, (h0, h1))
unmarshal_body-Consumes u (rversion _ _) = Consumes-then (get_uint-Consumes u 4) λ msize.
    Consumes-then (get_string-Consumes u)
      λ version. Consumes-pure (rversion msize version) λ h1 h0. (rw append-nil, refl, (h0, h1))
unmarshal_body-Consumes u (tauth _ _ _) = Consumes-then (get_uint-Consumes u 4) λ afid.
    Consumes-then (get_string-Consumes u) λ uname. Consumes-then (get_string-Consumes u) λ aname.
      Consumes-pure (tauth afid uname aname) λ h2 h1 h0. (rw append-nil, refl, (h0, h1, h2))
unmarshal_body-Consumes u (rauth _) =
    Consumes-then (get_qid-Consumes u)
      λ aqid. Consumes-pure (rauth aqid) λ h0. (rw append-nil, refl, h0)
unmarshal_body-Consumes u (tattach _ _ _ _) = Consumes-then (get_uint-Consumes u 4) λ fid.
    Consumes-then (get_uint-Consumes u 4) λ afid. Consumes-then (get_string-Consumes u) λ uname.
      Consumes-then (get_string-Consumes u) λ aname.
        Consumes-pure (tattach fid afid uname aname)
          λ h3 h2 h1 h0. (rw append-nil, refl, (h0, h1, h2, h3))
unmarshal_body-Consumes u (rattach _) =
    Consumes-then (get_qid-Consumes u)
      λ qid. Consumes-pure (rattach qid) λ h0. (rw append-nil, refl, h0)
unmarshal_body-Consumes u (rerror _) =
    Consumes-then (get_string-Consumes u)
      λ ename. Consumes-pure (rerror ename) λ h0. (rw append-nil, refl, h0)
unmarshal_body-Consumes u (tflush _) =
    Consumes-then (get_uint-Consumes u 2)
      λ oldtag. Consumes-pure (tflush oldtag) λ h0. (rw append-nil, refl, h0)
unmarshal_body-Consumes u rflush = Consumes-pure rflush (refl, refl, tt)
unmarshal_body-Consumes u (twalk _ _ _) = Consumes-then (get_uint-Consumes u 4) λ fid.
    Consumes-then (get_uint-Consumes u 4) λ newfid.
      Consumes-then (get_strings-Consumes u []) λ wname.
        Consumes-pure (twalk fid newfid wname)
          λ h2 h1 h0. (rw append-nil, refl, (h0, h1, h2.0, h2.1))
unmarshal_body-Consumes u (rwalk _) =
    Consumes-then (get_qids-Consumes u [])
      λ wqid. Consumes-pure (rwalk wqid) λ h0. (rw append-nil, refl, (h0.0, h0.1))
unmarshal_body-Consumes u (topen _ _) = Consumes-then (get_uint-Consumes u 4) λ fid.
    Consumes-then (get_mode-Consumes u)
      λ mode. Consumes-pure (topen fid mode) λ h1 h0. (rw append-nil, refl, (h0, h1))
unmarshal_body-Consumes u (ropen _ _) = Consumes-then (get_qid-Consumes u) λ qid.
    Consumes-then (get_uint-Consumes u 4)
      λ iounit. Consumes-pure (ropen qid iounit) λ h1 h0. (rw append-nil, refl, (h0, h1))
unmarshal_body-Consumes u (tcreate _ _ _ _ _) = Consumes-then (get_uint-Consumes u 4) λ fid.
    Consumes-then (get_string-Consumes u) λ name. Consumes-then (get_uint-Consumes u 4) λ perm.
      Consumes-then (get_mode-Consumes u) λ mode.
        Consumes-then (get_extension-Consumes u) λ extension.
          Consumes-pure (tcreate fid name perm mode extension)
            λ h4 h3 h2 h1 h0. (rw append-nil, refl, (h0, h1, h2, h3, h4))
unmarshal_body-Consumes u (rcreate _ _) = Consumes-then (get_qid-Consumes u) λ qid.
    Consumes-then (get_uint-Consumes u 4)
      λ iounit. Consumes-pure (rcreate qid iounit) λ h1 h0. (rw append-nil, refl, (h0, h1))
unmarshal_body-Consumes u (tread _ _ _) = Consumes-then (get_uint-Consumes u 4) λ fid.
    Consumes-then (get_uint-Consumes u 8) λ offset. Consumes-then (get_uint-Consumes u 4) λ count.
      Consumes-pure (tread fid offset count) λ h2 h1 h0. (rw append-nil, refl, (h0, h1, h2))
unmarshal_body-Consumes u (rread _) =
    Consumes-then (get_counted-Consumes u)
      λ b. Consumes-pure (rread b) λ h0. (rw append-nil, refl, h0)
unmarshal_body-Consumes u (twrite _ _ _) = Consumes-then (get_uint-Consumes u 4) λ fid.
    Consumes-then (get_uint-Consumes u 8) λ offset.
      Consumes-then (get_counted-Consumes u)
        λ b. Consumes-pure (twrite fid offset b) λ h2 h1 h0. (rw append-nil, refl, (h0, h1, h2))
unmarshal_body-Consumes u (rwrite _) =
    Consumes-then (get_uint-Consumes u 4)
      λ count. Consumes-pure (rwrite count) λ h0. (rw append-nil, refl, h0)
unmarshal_body-Consumes u (tclunk _) =
    Consumes-then (get_uint-Consumes u 4)
      λ fid. Consumes-pure (tclunk fid) λ h0. (rw append-nil, refl, h0)
unmarshal_body-Consumes u rclunk = Consumes-pure rclunk (refl, refl, tt)
unmarshal_body-Consumes u (tremove _) =
    Consumes-then (get_uint-Consumes u 4)
      λ fid. Consumes-pure (tremove fid) λ h0. (rw append-nil, refl, h0)
unmarshal_body-Consumes u rremove = Consumes-pure rremove (refl, refl, tt)
unmarshal_body-Consumes u (tstat _) =
    Consumes-then (get_uint-Consumes u 4)
      λ fid. Consumes-pure (tstat fid) λ h0. (rw append-nil, refl, h0)
unmarshal_body-Consumes u (rstat _) =
    Consumes-then (get_stat-Consumes u) λ s. Consumes-pure (rstat s) λ h0. (rw append-nil, refl, h0)
unmarshal_body-Consumes u (twstat _ _) = Consumes-then (get_uint-Consumes u 4) λ fid.
    Consumes-then (get_stat-Consumes u)
      λ s. Consumes-pure (twstat fid s) λ h1 h0. (rw append-nil, refl, (h0, h1))
unmarshal_body-Consumes u rwstat = Consumes-pure rwstat (refl, refl, tt)
