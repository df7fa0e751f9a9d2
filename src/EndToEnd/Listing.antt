-- ===== src/EndToEnd/Listing.antt =====
-- client/file.go over server/dispatch.go and server/dir.go: a client that lists a directory of a
-- server whose File.Read hands its buffer to MarshalDirVersion.
use p.Common.{
  ℕ, zero, suc, ◌+◌, ◌%◌, ◌^◌, ◌≤◌, ◌<◌, ◌≡◌, refl, sym, ap, ◌∙◌, List, [], ◌∷◌, ◌++◌, Bool, some,
  append_assoc, append-nil, arith,
}
use p.Common.Lists.{length, All, length-append}
use p.Common.Int.{pos}
use p.Wire.Types.{Stat, Message, rerror, tread, rread}
use p.Wire.Stat.{marshal_stat_version}
use p.Wire.Stat.RoundTrip.{FitsStat}
use p.Server.Backend.{ReadOutcome, got, at_eof, read_failed, Backend}
use p.Server.Conn.{Conn, get_fid}
use p.Server.Dispatch.{State, t_read, dispatch}
use p.Server.Dir.{as_read, marshal_dir_version}
use p.Server.Dir.Contract.{
  encode_dir, encode_dir-append, length-encode_dir, blob-IsLong, marshal_dir_chunk, marshal_dir_end,
}
use mathlib.Core.Path.{subst}
use p.Client.Rpc.{Reply, replied, rpc_failed, Rpc}
use p.Client.ReadDir.{max_io, Listing, listed, decode_chunk, on_reply, read_dir_loop, read_dir}
use p.Client.ReadDir.Decode.{decode_chunk-encode_dir}

-- What the client's call makes of a reply: an Rerror is an error.
abbrev pub as_reply : Message → Reply
as_reply (rerror e) = rpc_failed e
as_reply m = replied m

as_message : ReadOutcome → Message
as_message (got bytes) = rread bytes
as_message (at_eof bytes) = rread bytes
as_message (read_failed e) = rerror e

-- Reading at most `n` bytes for each entry, `n` bytes hold any of them.
abbrev pub EachFits : Bool → ℕ → List Stat → Type 0
EachFits u n es = All (λ e. length (marshal_stat_version u e) ≤ n) es

-- A list is no longer than its encoding.
length-encode_dir_le : (u : Bool) (es : List Stat) → length es ≤ length (encode_dir u es)
length-encode_dir_le u [] = omega arith
length-encode_dir_le u (e ∷ es) =
    omega (arith, length-encode_dir u e es, blob-IsLong u e, length-encode_dir_le u es)

max_io-IsSmall : (msize iounit : ℕ) → msize < 2 ^ 32 → max_io msize iounit < 2 ^ 32
unfolding max_io
max_io-IsSmall msize iounit h = ground arith

All-split : {A : Type 0} (P : A → Type 0) (xs ys : List A) → All P (xs ++ ys) → All P xs × All P ys
All-split P [] ys h = (tt, h)
All-split P (x ∷ xs) ys h = let (front, back) = All-split P xs ys h.1 in ((h.0, front), back)

-- A round of the outer loop, with the reply to its request.
loop_round :
    {S : Type 0} (rpc : Rpc S) (fid : ℕ) (u : Bool) (count fuel : ℕ) (s s' : S) (off : ℕ)
    (stats : List Stat) (r : Reply)
    → off < 2 ^ 64
    → count < 2 ^ 32
    → rpc s (tread fid off count) ≡ (s', r)
    → read_dir_loop rpc fid u count (suc fuel) s off stats
      ≡ on_reply u s' r stats (λ n stats'. read_dir_loop rpc fid u count fuel s' (off + n) stats')
unfolding read_dir_loop
loop_round {S} rpc fid u count fuel s s' off stats r h k e =
    rw (mod_64 off h, mod_32 count k, e) refl
  where
    mod_64 : (n : ℕ) → n < 2 ^ 64 → n % 2 ^ 64 ≡ n
    mod_64 n h = omega arith

    mod_32 : (n : ℕ) → n < 2 ^ 32 → n % 2 ^ 32 ≡ n
    mod_32 n h = omega arith

-- A reply with bytes that are whole entries.
on_reply_bytes :
    {S : Type 0} (u : Bool) (s : S) (bytes : List ℕ) (stats more : List Stat)
    (next : ℕ → List Stat → S × Listing)
    → 0 < length bytes
    → decode_chunk (length bytes) u bytes stats ≡ listed more
    → on_reply u s (replied (rread bytes)) stats next ≡ next (length bytes) more
unfolding on_reply
on_reply_bytes u s [] stats more next h e = absurd (omega arith)
on_reply_bytes u s (b ∷ bs) stats more next h e = ground arith

on_reply-encode_dir :
    {S : Type 0} (u : Bool) (s : S) (e : Stat) (es stats : List Stat)
    (next : ℕ → List Stat → S × Listing)
    → All (FitsStat u) (e ∷ es)
    → on_reply u s (replied (rread (encode_dir u (e ∷ es)))) stats next
      ≡ next (length (encode_dir u (e ∷ es))) (stats ++ (e ∷ es))
on_reply-encode_dir u s e es stats next h =
    on_reply_bytes u s (encode_dir u (e ∷ es)) stats _ next
      (omega (arith, length-encode_dir u e es, blob-IsLong u e))
      (decode_chunk-encode_dir _ u (e ∷ es) stats h (length-encode_dir_le u (e ∷ es)))

module _ {File World : Type 0} (B : Backend File World) where
  open B use {read}

  -- A call of the client, answered by the server's dispatch. This is what a call over the bytes comes
  -- to where request and reply fit the wire and the msizes.
  abbrev pub server_rpc : Rpc (State B)
  server_rpc s m = let r = dispatch B s m in (r.0, as_reply r.1)

  -- The file is a directory of the entries: its Read is MarshalDirVersion on them, whatever the
  -- state of the backend.
  abbrev pub IsDir : Bool → File → List Stat → Type 0
  IsDir u f entries =
      (w : World) (offset count : ℕ)
      → offset < 2 ^ 63
      → (read u w f offset count).1 ≡ as_read (marshal_dir_version entries (pos offset) count u)

  -- A Tread of a known fid reaches the file's Read.
  rpc-tread :
      (c : Conn File) (w : World) (fid offset count : ℕ) (f : File) (r : ReadOutcome)
      → get_fid c fid ≡ some f
      → (read c.unix w f offset count).1 ≡ r
      → server_rpc (c, w) (tread fid offset count)
        ≡ ((c, (read c.unix w f offset count).0), as_reply (as_message r))
  unfolding dispatch t_read as_message
  rpc-tread c w fid offset count f r h e = ground arith

  -- The first rounds read the entries `front`; the next ones read `back`.
  list_rest :
      (fid count fuel : ℕ) (c : Conn File) (w : World) (f : File) (front back : List Stat)
      → get_fid c fid ≡ some f
      → IsDir c.unix f (front ++ back)
      → All (FitsStat c.unix) back
      → EachFits c.unix count back
      → count < 2 ^ 32
      → length (encode_dir c.unix (front ++ back)) < 2 ^ 63
      → length back < fuel
      → (read_dir_loop server_rpc fid c.unix count fuel
          (c, w)
          (length (encode_dir c.unix front))
          front).1
        ≡ listed (front ++ back)
  unfolding on_reply as_message
  list_rest fid count zero c w f front back known dir fit room small size enough =
      absurd (omega arith)
  list_rest fid count (suc fuel) c w f front [] known dir fit room small size enough =
      let here : ℕ = length (encode_dir c.unix front) in
      let nil : front ++ [] ≡ front = append-nil front in
      let off : here < 2 ^ 63 = subst (λ es. length (encode_dir c.unix es) < 2 ^ 63) nil size in
      let end : as_read (marshal_dir_version (front ++ []) (pos here) count c.unix) ≡ at_eof [] =
        ap as_read (
          ap (λ es. marshal_dir_version es (pos here) count c.unix) nil
          ∙ marshal_dir_end c.unix front count) in
      let said : (read c.unix w f here count).1 ≡ at_eof [] = dir w here count off ∙ end in
      ap (λ r. r.1)
        (loop_round server_rpc fid c.unix count fuel (c, w) _ here front _ (omega (arith, off))
          small (rpc-tread c w fid here count f _ known said))
      ∙ ap listed (sym nil)
  list_rest fid count (suc fuel) c w f front (e ∷ back) known dir fit room small size enough =
      let here : ℕ = length (encode_dir c.unix front) in
      let (given, rest, split, answer, _, _) = marshal_dir_chunk c.unix front e back count room.0 in
      let bytes : List ℕ = encode_dir c.unix (e ∷ given) in
      let whole : front ++ (e ∷ back) ≡ (front ++ (e ∷ given)) ++ rest =
        ap (λ xs. front ++ (e ∷ xs)) split ∙ sym (append_assoc front (e ∷ given) rest) in
      let fits : All (FitsStat c.unix) (given ++ rest) =
        subst (All (FitsStat c.unix)) split fit.1 in
      let rooms : EachFits c.unix count (given ++ rest) =
        subst (EachFits c.unix count) split room.1 in
      let sum : length (encode_dir c.unix (front ++ (e ∷ back)))
          ≡ here + length (encode_dir c.unix (e ∷ back)) =
        ap length (encode_dir-append c.unix front (e ∷ back))
        ∙ length-append (encode_dir c.unix front) _ in
      let next : here + length bytes ≡ length (encode_dir c.unix (front ++ (e ∷ given))) = sym (
        ap length (encode_dir-append c.unix front (e ∷ given))
        ∙ length-append (encode_dir c.unix front) _) in
      let said : (read c.unix w f here count).1 ≡ got bytes =
        dir w here count (omega (arith, sum)) ∙ ap as_read answer in
      let w' : World = (read c.unix w f here count).0 in
      let after : List Stat = front ++ (e ∷ given) in
      ap (λ r. r.1)
        (loop_round server_rpc fid c.unix count fuel (c, w) _ here front _ (omega (arith, sum))
            small (rpc-tread c w fid here count f _ known said)
          ∙ on_reply-encode_dir c.unix (c, w') e given front _
              (fit.0, (All-split _ given rest fits).0)
          ∙ ap (λ o. read_dir_loop server_rpc fid c.unix count fuel (c, w') o after) next)
      ∙ list_rest fid count fuel c w' f after rest known (subst (IsDir c.unix f) whole dir)
          (All-split _ given rest fits).1 (All-split _ given rest rooms).1 small
          (subst (λ es. length (encode_dir c.unix es) < 2 ^ 63) whole size)
          (omega (arith, ap length split, length-append given rest))
      ∙ ap listed (sym whole)

  -- A client lists a directory on a server whose File.Read is MarshalDirVersion on the entries. The
  -- fid is known, every entry fits the wire and one request, msize is a uint32, and the directory has
  -- less than 2^63 bytes. Then ReadDirContext returns the entries, all of them and in their order,
  -- and it takes one round more than there are entries, at most.
  pub read_dir-IsDir :
      (fid msize iounit fuel : ℕ) (c : Conn File) (w : World) (f : File) (entries : List Stat)
      → get_fid c fid ≡ some f
      → IsDir c.unix f entries
      → All (FitsStat c.unix) entries
      → EachFits c.unix (max_io msize iounit) entries
      → msize < 2 ^ 32
      → length (encode_dir c.unix entries) < 2 ^ 63
      → length entries < fuel
      → (read_dir server_rpc fid c.unix msize iounit fuel (c, w)).1 ≡ listed entries
  unfolding read_dir
  read_dir-IsDir fid msize iounit fuel c w f entries known dir fit room small size enough =
      list_rest fid (max_io msize iounit) fuel c w f [] entries known dir fit room
        (max_io-IsSmall msize iounit small) size enough
