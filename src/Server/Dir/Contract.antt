-- ===== src/Server/Dir/Contract.antt =====
-- server/dir.go: the offset contract of directory reads.
pub mod Offsets
use p.Common.{
  ℕ, ◌+◌, ◌-◌, ◌≤◌, ◌<◌, ◌≡◌, ◌≢◌, refl, sym, ap, ◌∙◌, inl, inr, List, [], ◌∷◌, ◌++◌, Bool,
  append_assoc, arith,
}
use mathlib.Core.Path.{subst}
use p.Common.Tests.{ltb, ◌==◌, le→ltb, lt→ltb, Bool-cases, ltb→lt, ltb→le}
use p.Common.Lists.{length, length-append}
use p.Common.Int.{ℤ, pos, negsuc}
use p.Common.Bytes.{le_bytes}
use p.Wire.Types.{Stat}
use p.Wire.Stat.{put_stat, marshal_stat_version}
use p.Server.Dir.{
  wrote, eof, buffer_too_small, Start, from, return, skip, fill, give, marshal_dir_version,
}

-- The encoding of a whole directory.
abbrev pub encode_dir : Bool → List Stat → List ℕ
encode_dir u [] = []
encode_dir u (e ∷ es) = marshal_stat_version u e ++ encode_dir u es

pub encode_dir-append :
    (u : Bool) (es fs : List Stat) → encode_dir u (es ++ fs) ≡ encode_dir u es ++ encode_dir u fs
encode_dir-append u [] fs = refl
encode_dir-append u (e ∷ es) fs =
    rw (encode_dir-append u es fs)
      (sym (append_assoc (put_stat u e) (encode_dir u es) (encode_dir u fs)))

-- An entry takes two bytes at least.
pub blob-IsLong : (u : Bool) (e : Stat) → 2 ≤ length (marshal_stat_version u e)
unfolding put_stat le_bytes
blob-IsLong u e = omega arith

pub length-encode_dir :
    (u : Bool) (e : Stat) (es : List Stat)
    → length (encode_dir u (e ∷ es)) ≡ length (marshal_stat_version u e) + length (encode_dir u es)
length-encode_dir u e es = length-append (put_stat u e) (encode_dir u es)

-- The offset behind the first entries is found.
pub skip-append :
    (u : Bool) (at o : ℕ) (front : List Stat) (e : Stat) (es : List Stat)
    → o ≡ at + length (encode_dir u front)
    → skip u at (front ++ (e ∷ es)) o ≡ from (e ∷ es)
unfolding skip
skip-append u at o [] e es h = ground arith
skip-append u at o (f ∷ front) e es h = ground (
  arith,
  length-encode_dir u f front,
  blob-IsLong u f,
  skip-append u (at + length (marshal_stat_version u f)) o front e es,
)

pub skip_all :
    (u : Bool) (at o : ℕ) (front : List Stat)
    → o ≡ at + length (encode_dir u front)
    → skip u at front o ≡ return eof
unfolding skip
skip_all u at o [] h = ground arith
skip_all u at o (f ∷ front) h = ground (
  arith,
  length-encode_dir u f front,
  blob-IsLong u f,
  skip_all u (at + length (marshal_stat_version u f)) o front,
)

-- The second loop stops at the first entry that does not fit.
abbrev pub Full : Bool → ℕ → List Stat → Type 0
Full u room [] = Unit {0}
Full u room (e ∷ es) = room < length (marshal_stat_version u e)

-- It writes whole entries, as many as fit.
fill-encode_dir :
    (u : Bool) (size n : ℕ) (es : List Stat)
    → n ≤ size
    → (some_es rest : List Stat) × (es ≡ some_es ++ rest)
      × (fill u size n es ≡ encode_dir u some_es)
      × (n + length (encode_dir u some_es) ≤ size)
      × Full u (size - (n + length (encode_dir u some_es))) rest
unfolding fill
fill-encode_dir u size n [] h = ([], [], refl, refl, omega arith, tt)
fill-encode_dir u size n (e ∷ es) h =
    elim (Bool-cases (ltb size (n + length (marshal_stat_version u e)))) [
      | inl over ↦ ([], e ∷ es, refl, rw over, omega arith, omega (arith, ltb→lt _ _ over))
      | inr fits ↦
          let le = ltb→le size (n + length (marshal_stat_version u e)) fits in
          let (xs, rest, split, same, room, full) =
            fill-encode_dir u size (n + length (marshal_stat_version u e)) es le in
          (
            e ∷ xs,
            rest,
            ap (◌∷◌ e) split,
            rw fits (ap (◌++◌ (put_stat u e)) same),
            omega (arith, length-encode_dir u e xs, room),
            subst (λ k. Full u (size - k) rest) (omega (arith, length-encode_dir u e xs)) full,
          )
    ]

give-encode_dir :
    (u : Bool) (e : Stat) (es : List Stat)
    → give (encode_dir u (e ∷ es)) ≡ wrote (encode_dir u (e ∷ es))
unfolding give put_stat le_bytes
give-encode_dir u e es = refl

-- The entry that fits is written first.
fill_fits :
    (u : Bool) (size n : ℕ) (e : Stat) (es : List Stat)
    → n + length (marshal_stat_version u e) ≤ size
    → fill u size n (e ∷ es)
      ≡ marshal_stat_version u e ++ fill u size (n + length (marshal_stat_version u e)) es
unfolding fill
fill_fits u size n e es h = rw (le→ltb size (n + length (marshal_stat_version u e)) h)

fill_over :
    (u : Bool) (size n : ℕ) (e : Stat) (es : List Stat)
    → size < n + length (marshal_stat_version u e)
    → fill u size n (e ∷ es) ≡ []
unfolding fill
fill_over u size n e es h = rw (lt→ltb size (n + length (marshal_stat_version u e)) h)

-- The read at the offset behind `front` is what the second loop writes from there on.
at_front :
    (u : Bool) (front : List Stat) (e : Stat) (es : List Stat) (size : ℕ)
    → marshal_dir_version (front ++ (e ∷ es)) (pos (length (encode_dir u front))) size u
      ≡ give (fill u size 0 (e ∷ es))
unfolding marshal_dir_version
at_front u front e es size =
    ground (arith, skip-append u 0 (length (encode_dir u front)) front e es)

-- A directory read at the offset behind the entries `front`, where the next entry `e` fits the
-- buffer, returns whole entries: `e` and those after it, as many as the buffer holds.
pub marshal_dir_chunk :
    (u : Bool) (front : List Stat) (e : Stat) (es : List Stat) (size : ℕ)
    → length (marshal_stat_version u e) ≤ size
    → (given rest : List Stat) × (es ≡ given ++ rest)
      × (marshal_dir_version (front ++ (e ∷ es)) (pos (length (encode_dir u front))) size u
          ≡ wrote (encode_dir u (e ∷ given)))
      × (length (encode_dir u (e ∷ given)) ≤ size)
      × Full u (size - length (encode_dir u (e ∷ given))) rest
marshal_dir_chunk u front e es size h =
    let n : ℕ = 0 + length (marshal_stat_version u e) in
    let (given, rest, split, same, room, full) = fill-encode_dir u size n es (omega arith) in
    let len : n + length (encode_dir u given) ≡ length (encode_dir u (e ∷ given)) =
      omega (arith, length-encode_dir u e given) in
    (
      given,
      rest,
      split,
      at_front u front e es size
          ∙ ap give (fill_fits u size 0 e es (omega arith) ∙ ap (◌++◌ (put_stat u e)) same)
          ∙ give-encode_dir u e given,
      omega (arith, room),
      subst (λ k. Full u (size - k) rest) len full,
    )

-- Reading at the offset behind the last entry is the end of the file.
pub marshal_dir_end :
    (u : Bool) (entries : List Stat) (size : ℕ)
    → marshal_dir_version entries (pos (length (encode_dir u entries))) size u ≡ eof
unfolding marshal_dir_version
marshal_dir_end u entries size =
    ground (arith, skip_all u 0 (length (encode_dir u entries)) entries (omega arith))

-- A buffer that is too small for the next entry is an error, and no end of the file.
pub marshal_dir_small :
    (u : Bool) (front : List Stat) (e : Stat) (es : List Stat) (size : ℕ)
    → size < length (marshal_stat_version u e)
    → marshal_dir_version (front ++ (e ∷ es)) (pos (length (encode_dir u front))) size u
      ≡ buffer_too_small
unfolding give
marshal_dir_small u front e es size h =
    at_front u front e es size ∙ ap give (fill_over u size 0 e es (omega arith))

pub skip_boundary :
    (u : Bool) (at o : ℕ) (entries es : List Stat)
    → skip u at entries o ≡ from es
    → (front : List Stat) × (entries ≡ front ++ es) × (o ≡ at + length (encode_dir u front))
unfolding skip
skip_boundary u at o [] es h = cc
skip_boundary u at o (e ∷ entries) es h = elim (Bool-cases (at == o)) [
  | inl here ↦ ([], ground arith, ground arith)
  | inr not_here ↦
      let (front, split, off) =
        skip_boundary u (at + length (marshal_stat_version u e)) o entries es (ground arith) in
      (e ∷ front, ap (◌∷◌ e) split, omega (arith, off, length-encode_dir u e front))
]
