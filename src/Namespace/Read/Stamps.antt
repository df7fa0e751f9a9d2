-- ===== src/Namespace/Read/Stamps.antt =====
-- ns/dev.go: patching the dev of entries in place gives the entries with that dev.
use p.Common.{
  ℕ, zero, suc, ◌+◌, ◌^◌, ◌≤◌, ◌<◌, ◌%◌, ◌≡◌, refl, sym, ap, ◌∙◌, ◌⊎◌, inl, inr, List, [], ◌∷◌,
  ◌++◌, map, Bool, true, false, some, append_assoc, append-nil, arith,
}
use p.Common.Tests.{ltb, ◌==◌, Bool-cases, ==_iff}
use p.Common.Lists.{length, take, drop, All, length-append, take-append, drop-append}
use p.Common.Bytes.{le_bytes, le_value, le_value-le_bytes}
use p.Wire.Types.{Stat, qid_is_dir}
use p.Wire.Stat.{marshal_stat_body, put_stat, marshal_unix}
use p.Server.Backend.{got}
use p.Server.Dir.Contract.{encode_dir, length-encode_dir, blob-IsLong}
use p.Namespace.{Outside, foreign, bound, Ns}
use p.Namespace.Files.{stamp, ns_qid}
use p.Namespace.Read.{set_dir_dev, restamp, ns_read}

-- What follows the dev in an encoded Stat.
tail : Bool → Stat → List ℕ
tail u e = drop 6 (marshal_stat_body u e)

with_dev : ℕ → Stat → Stat
with_dev dev e = record e { dev = dev }

-- Bytes that are no whole entry.
pub IsPartial : List ℕ → Type 0
IsPartial b = (length b < 2) ⊎ (length b < 2 + le_value (take 2 b))

body_split :
    (u : Bool) (e : Stat)
    → marshal_stat_body u e ≡ le_bytes 2 e.type ++ (le_bytes 4 e.dev ++ tail u e)
unfolding tail marshal_stat_body le_bytes
body_split u e = refl

tail-with_dev : (u : Bool) (dev : ℕ) (e : Stat) → tail u (with_dev dev e) ≡ tail u e
unfolding tail with_dev marshal_stat_body le_bytes marshal_unix
tail-with_dev true dev e = refl
tail-with_dev false dev e = refl

-- An entry with the size `n` and this type and dev.
blob : ℕ → ℕ → List ℕ → ℕ → List ℕ
blob n a t d = le_bytes 2 n ++ (le_bytes 2 a ++ (le_bytes 4 d ++ t))

-- One round, at a whole entry.
module _ (n a d : ℕ) (t rest : List ℕ) (size : n ≡ 6 + length t) (small : n < 2 ^ 16) where
  length-blob : length (blob n a t d) ≡ 2 + n
  unfolding blob le_bytes
  length-blob = omega (arith, size)

  blob_size : le_value (take 2 (blob n a t d ++ rest)) ≡ n
  unfolding blob le_bytes
  blob_size = le_value-le_bytes 2 n small

  patched :
      (dev : ℕ) (more : List ℕ)
      → take 4 (blob n a t d ++ rest) ++ (le_bytes 4 dev ++ (drop 8 (blob n a t d) ++ more))
        ≡ blob n a t dev ++ more
  unfolding blob le_bytes
  patched dev more = refl

  set_dir_dev-blob :
      (k dev : ℕ)
      → set_dir_dev (suc k) dev (blob n a t d ++ rest) ≡ blob n a t dev ++ set_dir_dev k dev rest
  unfolding set_dir_dev
  set_dir_dev-blob k dev =
      let long : length (blob n a t d ++ rest) ≡ 2 + n + length rest =
        length-append (blob n a t d) rest ∙ ap (λ m. m + length rest) length-blob in
      let two : ltb (length (blob n a t d ++ rest)) 2 ≡ false = ground (arith, long) in
      let whole : ltb (length (blob n a t d ++ rest)) (2 + n) ≡ false = ground (arith, long) in
      let eight : ltb (2 + n) 8 ≡ false = ground (arith, size) in
      rw
        (
          blob_size,
          two,
          whole,
          eight,
          take-append (blob n a t d) rest (2 + n) length-blob,
          drop-append (blob n a t d) rest (2 + n) length-blob,
        )
        (patched dev (set_dir_dev k dev rest))

partial_kept : (k dev : ℕ) (b : List ℕ) → IsPartial b → set_dir_dev k dev b ≡ b
unfolding set_dir_dev IsPartial
partial_kept zero dev b h = refl
partial_kept (suc k) dev b h = ground arith

length-body : (u : Bool) (e : Stat) → length (marshal_stat_body u e) ≡ 6 + length (tail u e)
unfolding le_bytes
length-body u e = omega (arith, ap length (body_split u e))

put_stat-blob :
    (u : Bool) (e : Stat)
    → length (marshal_stat_body u e) < 2 ^ 16
    → put_stat u e ≡ blob (length (marshal_stat_body u e)) e.type (tail u e) e.dev
unfolding put_stat blob
put_stat-blob u e small =
    let exact : length (marshal_stat_body u e) % 2 ^ 16 ≡ length (marshal_stat_body u e) =
      omega (arith, small) in
    rw exact (ap (λ x. le_bytes 2 (length (marshal_stat_body u e)) ++ x) (body_split u e))

length-body-with_dev :
    (u : Bool) (dev : ℕ) (e : Stat)
    → length (marshal_stat_body u (with_dev dev e)) ≡ length (marshal_stat_body u e)
length-body-with_dev u dev e =
    length-body u (with_dev dev e)
    ∙ ap (λ x. 6 + length x) (tail-with_dev u dev e)
    ∙ sym (length-body u e)

put_stat-with_dev :
    (u : Bool) (dev : ℕ) (e : Stat)
    → length (marshal_stat_body u e) < 2 ^ 16
    → put_stat u (with_dev dev e) ≡ blob (length (marshal_stat_body u e)) e.type (tail u e) dev
unfolding with_dev
put_stat-with_dev u dev e small =
    let same = length-body-with_dev u dev e in
    put_stat-blob u (with_dev dev e) (omega (arith, same, small))
    ∙ ap (λ n. blob n e.type (tail u (with_dev dev e)) dev) same
    ∙ ap (λ t. blob (length (marshal_stat_body u e)) e.type t dev) (tail-with_dev u dev e)

module _ (u : Bool) (dev : ℕ) where
  -- Whole entries, and then bytes that are no whole one.
  set_dir_dev-encode_dir :
      (k : ℕ) (es : List Stat) (rest : List ℕ)
      → length (encode_dir u es) ≤ k
      → All (λ e. length (marshal_stat_body u e) < 2 ^ 16) es
      → IsPartial rest
      → set_dir_dev k dev (encode_dir u es ++ rest) ≡ encode_dir u (map (with_dev dev) es) ++ rest
  set_dir_dev-encode_dir k [] rest enough fit part = partial_kept k dev rest part
  set_dir_dev-encode_dir zero (e ∷ es) rest enough fit part =
      absurd (omega (arith, enough, length-encode_dir u e es, blob-IsLong u e))
  set_dir_dev-encode_dir (suc k) (e ∷ es) rest enough fit part =
      let n : ℕ = length (marshal_stat_body u e) in
      let size : n ≡ 6 + length (tail u e) = length-body u e in
      let more =
        set_dir_dev-encode_dir k es rest
          (omega (arith, enough, length-encode_dir u e es, blob-IsLong u e)) fit.1 part in
      ap (λ x. set_dir_dev (suc k) dev (x ++ rest))
        (ap (λ x. x ++ encode_dir u es) (put_stat-blob u e fit.0))
      ∙ ap (set_dir_dev (suc k) dev)
          (append_assoc (blob n e.type (tail u e) e.dev) (encode_dir u es) rest)
      ∙ set_dir_dev-blob n e.type e.dev (tail u e) (encode_dir u es ++ rest) size fit.0 k dev
      ∙ ap (λ x. blob n e.type (tail u e) dev ++ x) more
      ∙ sym
          (append_assoc (blob n e.type (tail u e) dev) (encode_dir u (map (with_dev dev) es)) rest)
      ∙ ap (λ x. (x ++ encode_dir u (map (with_dev dev) es)) ++ rest)
          (sym (put_stat-with_dev u dev e fit.0))

no_part : IsPartial []
unfolding IsPartial
no_part = inl (omega arith)

-- The patch of whole entries.
restamp-encode_dir :
    (u : Bool) (dev : ℕ) (es : List Stat)
    → All (λ e. length (marshal_stat_body u e) < 2 ^ 16) es
    → set_dir_dev (length (encode_dir u es)) dev (encode_dir u es)
      ≡ encode_dir u (map (with_dev dev) es)
restamp-encode_dir u dev es fit =
    let size = length (encode_dir u es) in
    ap (set_dir_dev size dev) (sym (append-nil (encode_dir u es)))
    ∙ set_dir_dev-encode_dir u dev size es [] (omega arith) fit no_part
    ∙ append-nil (encode_dir u (map (with_dev dev) es))

map-stamp_zero : (es : List Stat) → map (stamp 0) es ≡ es
map-stamp_zero [] = refl
map-stamp_zero (e ∷ es) = ap (λ x. e ∷ x) (map-stamp_zero es)

map-stamp :
    (dev : ℕ) (es : List Stat) → (dev == 0) ≡ false → map (stamp dev) es ≡ map (with_dev dev) es
unfolding with_dev
map-stamp dev [] h = refl
map-stamp dev (e ∷ es) h = rw (h, map-stamp dev es h) refl

-- A file in a layer that wraps a file system, where a read of the directory gave whole entries: the
-- read gives the same entries, each with the layer's dev, unless that is 0, which leaves them.
pub ns_read-stamped :
    {N W : Type 0} (out : Outside N W) (k : ℕ) (u : Bool) (ns : Ns N) (w w' : W) (n : N)
    (dev offset count : ℕ) (es : List Stat)
    → out.files.read u w n offset count ≡ (w', got (encode_dir u es))
    → qid_is_dir (out.files.qid w' n) ≡ true
    → All (λ e. length (marshal_stat_body u e) < 2 ^ 16) es
    → ns_read out (suc (suc k)) u (ns, w) (bound (foreign n) dev) offset count
      ≡ some ((ns, w'), got (encode_dir u (map (stamp dev) es)))
unfolding ns_read restamp ns_qid
ns_read-stamped out k u ns w w' n dev offset count es gave dir fit = elim (Bool-cases (dev == 0)) [
  | inl none_there ↦
      let zero_dev : dev ≡ 0 = (==_iff dev 0).0 none_there in
      rw (ap (λ r. r.1) gave, ap (λ r. r.0) gave, none_there, zero_dev, map-stamp_zero es) refl
  | inr some_dev ↦
      rw
        (
          ap (λ r. r.1) gave,
          ap (λ r. r.0) gave,
          dir,
          some_dev,
          restamp-encode_dir u dev es fit,
          map-stamp dev es some_dev,
        )
        refl
]
