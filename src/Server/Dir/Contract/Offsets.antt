-- ===== src/Server/Dir/Contract/Offsets.antt =====
-- server/dir.go: what a read of a directory returns, at every offset.
use p.Common.{
  ℕ, ◌+◌, ◌-◌, ◌≤◌, ◌<◌, ◌≡◌, ◌≢◌, ◌⊎◌, refl, sym, ap, inl, inr, List, [], ◌∷◌, ◌++◌, Bool,
  append-nil, arith,
}
use p.Common.Tests.{ltb, Bool-cases, ltb→lt, ltb→le}
use p.Common.Lists.{length}
use p.Common.Int.{ℤ, pos, negsuc}
use p.Wire.Types.{Stat}
use p.Wire.Stat.{marshal_stat_version}
use p.Server.Dir.{
  DirRead, wrote, eof, negative_offset, not_on_boundary, out_of_range, buffer_too_small, Start,
  from, return, skip, marshal_dir_version,
}
use p.Server.Dir.Contract.{
  encode_dir, Full, length-encode_dir, skip-append, skip_all, skip_boundary, marshal_dir_chunk,
  marshal_dir_end, marshal_dir_small,
}

-- The offset lies behind some of the entries.
abbrev pub IsBoundary : Bool → List Stat → ℤ → Type 0
IsBoundary u entries offset =
    (front back : List Stat) × (entries ≡ front ++ back)
    × (offset ≡ pos (length (encode_dir u front)))

-- The answer where the entries `back` are left: the end of the file, an error if the buffer cannot hold
-- the next entry, or else that entry and those after it, as many as the buffer holds.
abbrev pub GivesNext : Bool → ℕ → List Stat → DirRead → Type 0
GivesNext u size [] r = r ≡ eof
GivesNext u size (e ∷ es) r =
    ((size < length (marshal_stat_version u e)) × (r ≡ buffer_too_small))
    ⊎ ((given rest : List Stat) × (es ≡ given ++ rest)
        × (r ≡ wrote (encode_dir u (e ∷ given)))
        × (length (encode_dir u (e ∷ given)) ≤ size)
        × Full u (size - length (encode_dir u (e ∷ given))) rest)

abbrev pub IsRejected : DirRead → Type 0
IsRejected r = (r ≡ negative_offset) ⊎ ((r ≡ not_on_boundary) ⊎ (r ≡ out_of_range))

abbrev pub Contract : Bool → List Stat → ℤ → ℕ → DirRead → Type 0
Contract u entries offset size r =
    ((front back : List Stat) × (entries ≡ front ++ back)
      × (offset ≡ pos (length (encode_dir u front)))
      × GivesNext u size back r)
    ⊎ ((¬ IsBoundary u entries offset) × IsRejected r)

marshal_dir-GivesNext :
    (u : Bool) (front back : List Stat) (size : ℕ)
    → GivesNext u size back
        (marshal_dir_version (front ++ back) (pos (length (encode_dir u front))) size u)
marshal_dir-GivesNext u front [] size = rw (append-nil front) (marshal_dir_end u front size)
marshal_dir-GivesNext u front (e ∷ es) size =
    elim (Bool-cases (ltb size (length (marshal_stat_version u e)))) [
      | inl over ↦ inl (ltb→lt _ _ over, marshal_dir_small u front e es size (ltb→lt _ _ over))
      | inr fits ↦ inr (marshal_dir_chunk u front e es size (ltb→le _ _ fits))
    ]

skip_returns :
    (u : Bool) (at o : ℕ) (entries : List Stat) (r : DirRead)
    → skip u at entries o ≡ return r
    → ((r ≡ eof) × (o ≡ at + length (encode_dir u entries)))
      ⊎ ((r ≡ not_on_boundary) ⊎ (r ≡ out_of_range))
unfolding skip
skip_returns u at o [] r h = ground arith
skip_returns u at o (e ∷ entries) r h = ground (
  arith,
  skip_returns u (at + length (marshal_stat_version u e)) o entries r,
  length-encode_dir u e entries,
)

-- At an offset behind some of the entries the first loop does not reject the read.
boundary_skip :
    (u : Bool) (o : ℕ) (front back : List Stat) (r : DirRead)
    → o ≡ length (encode_dir u front)
    → skip u 0 (front ++ back) o ≡ return r
    → r ≡ eof
boundary_skip u o front [] r h s = cc (s, append-nil front, skip_all u 0 o front (omega (arith, h)))
boundary_skip u o front (e ∷ es) r h s = cc (s, skip-append u 0 o front e es (omega (arith, h)))

at_boundary :
    (u : Bool) (entries front back : List Stat) (o size : ℕ)
    → entries ≡ front ++ back
    → o ≡ length (encode_dir u front)
    → GivesNext u size back (marshal_dir_version entries (pos o) size u)
at_boundary u entries front back o size split off =
    rw (split, off) (marshal_dir-GivesNext u front back size)

-- What a read of a directory returns. At an offset behind some of the entries it is what the entries
-- after them give: the end of the file if there are none, an error if the buffer cannot hold the next
-- one, and otherwise whole entries, the next one first, as many as the buffer holds. At every other
-- offset it is an error.
pub marshal_dir-Contract :
    (u : Bool) (entries : List Stat) (offset : ℤ) (size : ℕ)
    → Contract u entries offset size (marshal_dir_version entries offset size u)
unfolding marshal_dir_version
marshal_dir-Contract u entries (negsuc n) size = inr (λ b. cc b.3, inl refl)
marshal_dir-Contract u entries (pos o) size = by_start (skip u 0 entries o) refl
  where
    Goal : Type 0
    Goal = Contract u entries (pos o) size (marshal_dir_version entries (pos o) size u)

    not_eof : (r : DirRead) → (r ≡ not_on_boundary) ⊎ (r ≡ out_of_range) → r ≢ eof
    not_eof r (inl e) = λ f. cc (e, f)
    not_eof r (inr e) = λ f. cc (e, f)

    off_boundary :
        (r : DirRead) → skip u 0 entries o ≡ return r → r ≢ eof → ¬ IsBoundary u entries (pos o)
    off_boundary r h e = λ b. e (boundary_skip u o b.0 b.1 r (ground (arith, b.3)) (rw (← b.2) h))

    by_end :
        (r : DirRead)
        → skip u 0 entries o ≡ return r
        → ((r ≡ eof) × (o ≡ 0 + length (encode_dir u entries)))
          ⊎ ((r ≡ not_on_boundary) ⊎ (r ≡ out_of_range))
        → Goal
    by_end r h (inl (e, at)) = inl (
      entries,
      [],
      sym (append-nil entries),
      ap pos (omega (arith, at)),
      at_boundary u entries entries [] o size (sym (append-nil entries)) (omega (arith, at)),
    )
    by_end r h (inr bad) =
        inr (off_boundary r h (not_eof r bad), rw (marshal_dir_version, h) (inr bad))

    by_start : (s : Start) → skip u 0 entries o ≡ s → Goal
    by_start (from es) h =
        let (front, split, off) = skip_boundary u 0 o entries es h in
        inl (
          front,
          es,
          split,
          ap pos (omega (arith, off)),
          at_boundary u entries front es o size split (omega (arith, off)),
        )
    by_start (return r) h = by_end r h (skip_returns u 0 o entries r h)
