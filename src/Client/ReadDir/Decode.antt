-- ===== src/Client/ReadDir/Decode.antt =====
-- client/file.go: the inner loop of ReadDirContext on the entries that a server writes.
use p.Common.{
  ℕ, zero, suc, ◌+◌, ◌≤◌, ◌≡◌, refl, sym, ap, ◌∙◌, List, [], ◌∷◌, ◌++◌, Bool, append_assoc,
  append-nil, arith,
}
use p.Common.Lists.{length, take, drop, All, length-append, take-append, drop-append}
use p.Common.Bytes.{le_bytes, le_value, length-le_bytes, le_value-le_bytes}
use p.Wire.Types.{Stat, ok}
use p.Wire.Stat.{put_stat, marshal_stat_body, unmarshal_stat_version}
use p.Wire.Stat.RoundTrip.{FitsStat, mod_small, unmarshal_stat-marshal_stat}
use p.Server.Dir.Contract.{encode_dir, length-encode_dir, blob-IsLong}
use p.Client.ReadDir.{listed, decode_chunk}

-- The prefix of an entry says its length.
entry_size :
    (u : Bool) (e : Stat) (rest : List ℕ)
    → FitsStat u e
    → 2 + le_value (take 2 (put_stat u e ++ rest)) ≡ length (put_stat u e)
unfolding put_stat
entry_size u e rest h =
    let n : ℕ = length (marshal_stat_body u e) in
    rw
      (
        mod_small n h.size,
        append_assoc,
        take-append (le_bytes 2 n) (marshal_stat_body u e ++ rest) 2 (length-le_bytes 2 n),
        le_value-le_bytes 2 n h.size,
        length-append (le_bytes 2 n) (marshal_stat_body u e),
        length-le_bytes 2 n,
      )
      refl

-- One round on the front of the bytes.
decode_chunk_step :
    (fuel : ℕ) (u : Bool) (chunk : List ℕ) (total : ℕ) (st : Stat) (stats : List Stat)
    → 2 ≤ length chunk
    → total ≡ 2 + le_value (take 2 chunk)
    → total ≤ length chunk
    → unmarshal_stat_version (take total chunk) u ≡ ok st
    → decode_chunk (suc fuel) u chunk stats
      ≡ decode_chunk fuel u (drop total chunk) (stats ++ (st ∷ []))
unfolding decode_chunk
decode_chunk_step fuel u [] total st stats h e l d = absurd (omega arith)
decode_chunk_step fuel u (b ∷ bs) total st stats h e l d = ground arith

-- The entries of a whole number of blobs are decoded in order, with a round for each.
pub decode_chunk-encode_dir :
    (fuel : ℕ) (u : Bool) (es stats : List Stat)
    → All (FitsStat u) es
    → length es ≤ fuel
    → decode_chunk fuel u (encode_dir u es) stats ≡ listed (stats ++ es)
unfolding decode_chunk
decode_chunk-encode_dir fuel u [] stats h l = ap listed (sym (append-nil stats))
decode_chunk-encode_dir zero u (e ∷ es) stats h l = absurd (omega arith)
decode_chunk-encode_dir (suc fuel) u (e ∷ es) stats h l =
    let rest : List ℕ = encode_dir u es in
    let total : ℕ = length (put_stat u e) in
    let long : total + length rest ≡ length (encode_dir u (e ∷ es)) =
      sym (length-encode_dir u e es) in
    decode_chunk_step fuel u (encode_dir u (e ∷ es)) total e stats
      (omega (arith, long, blob-IsLong u e)) (sym (entry_size u e rest h.0)) (omega (arith, long))
      (ap (λ bs. unmarshal_stat_version bs u) (take-append (put_stat u e) rest total refl)
        ∙ unmarshal_stat-marshal_stat u e h.0)
    ∙ ap (λ bs. decode_chunk fuel u bs (stats ++ (e ∷ [])))
        (drop-append (put_stat u e) rest total refl)
    ∙ decode_chunk-encode_dir fuel u es (stats ++ (e ∷ [])) h.1 (omega arith)
    ∙ ap listed (append_assoc stats (e ∷ []) es)
