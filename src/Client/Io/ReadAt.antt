-- ===== src/Client/Io/ReadAt.antt =====
-- client/file.go: reading from a server that holds the bytes of a file.
use Prim.Native.Nat.{min}
use mathlib.Core.Path.{subst}
use native.Mathlib.Nat.{zero-add, suc-add}
use p.Common.{
  ℕ, zero, suc, ◌+◌, ◌-◌, ◌%◌, ◌^◌, ◌≤◌, ◌<◌, ◌≡◌, refl, sym, ap, ◌∙◌, inl, inr, List, [], ◌∷◌,
  ◌++◌, Bool, false, append_assoc, append-nil, arith,
}
use p.Common.Tests.{ltb, if◌then◌else◌, Bool-cases, ltb→le, ltb→lt, lt→ltb, le→ltb}
use p.Common.Lists.{length, take, drop, length-drop, length-take, take_all, drop-drop}
use p.Wire.Types.{tread, rread}
use p.Client.Rpc.{replied, Rpc}
use p.Client.Io.{IoEnd, fine, end_of_file, on_read, read_at_loop, read_at}

-- A server on which the fid stands for the bytes: a Tread is answered by at most `count` of them
-- from the offset on, all that there are.
abbrev pub Holds : {S : Type 0} → Rpc S → ℕ → List ℕ → Type 0
Holds {S} rpc fid bytes =
    (s : S) (off count : ℕ)
    → (s' : S) × (rpc s (tread fid off count) ≡ (s', replied (rread (take count (drop off bytes)))))

abbrev pub end_if : Bool → IoEnd
end_if short = if short then end_of_file else fine

-- What a read of `len` bytes at `off` gives: the bytes of the file there, and io.EOF if they are
-- fewer than that.
abbrev pub Reads : {S : Type 0} → List ℕ → ℕ → ℕ → List ℕ → S × List ℕ × IoEnd → Type 0
Reads bytes len off buf r =
    (r.1 ≡ buf ++ take len (drop off bytes)) × (r.2 ≡ end_if (ltb (length bytes - off) len))

take_sum : (n m : ℕ) (xs : List ℕ) → take (n + m) xs ≡ take n xs ++ take m (drop n xs)
take_sum zero m xs = rw zero-add
take_sum (suc n) zero [] = rw suc-add
take_sum (suc n) (suc m) [] = rw suc-add
take_sum (suc n) m (x ∷ xs) = rw suc-add (ap (◌∷◌ x) (take_sum n m xs))

take_on :
    (n k off : ℕ) (xs : List ℕ)
    → n ≤ k
    → take k (drop off xs) ≡ take n (drop off xs) ++ take (k - n) (drop (off + n) xs)
take_on n k off xs h =
    let sum : k ≡ n + (k - n) = omega arith in
    ap (λ m. take m (drop off xs)) sum
    ∙ take_sum n (k - n) (drop off xs)
    ∙ ap (λ ys. take n (drop off xs) ++ take (k - n) ys) (drop-drop n off xs)

not_lt_zero : (n : ℕ) → ltb n 0 ≡ false
not_lt_zero n = ground arith

ltb_shift :
    (size off n k : ℕ)
    → n ≤ k
    → n ≤ size - off
    → ltb (size - (off + n)) (k - n) ≡ ltb (size - off) k
ltb_shift size off n k h le = ground arith

take-take : (n : ℕ) (xs : List ℕ) → take n (take n xs) ≡ take n xs
take-take zero xs = refl
take-take (suc n) [] = refl
take-take (suc n) (x ∷ xs) = ap (◌∷◌ x) (take-take n xs)

module _ {S : Type 0} (s : S) (n : ℕ) (there buf : List ℕ)
    (next : List ℕ → S × List ℕ × IoEnd) where
  on_read_short :
      length there < n
      → on_read s (replied (rread (take n there))) n buf next ≡ (s, buf ++ there, end_of_file)
  unfolding on_read
  on_read_short h =
      rw (take-take n there, take_all there n (omega arith), lt→ltb (length there) n h) refl

  on_read_full :
      n ≤ length there
      → on_read s (replied (rread (take n there))) n buf next ≡ next (buf ++ take n there)
  unfolding on_read
  on_read_full h = rw (take-take n there, length-take n there h, le→ltb n n (omega arith)) refl

module _ {S : Type 0} (rpc : Rpc S) (fid max : ℕ) (bytes : List ℕ) where
  -- A round of the loop, with its reply.
  read_at_round :
      (fuel : ℕ) (s : S) (l off : ℕ) (buf : List ℕ)
      → Holds rpc fid bytes
      → max < 2 ^ 32
      → off < 2 ^ 64
      → (s' : S) × (read_at_loop rpc fid max (suc fuel) s (suc l) off buf
          ≡ on_read s'
              (replied (rread (take (min (suc l) max) (drop off bytes))))
              (min (suc l) max)
              buf
              (λ buf'.
                read_at_loop rpc fid max fuel s'
                  (suc l - min (suc l) max)
                  (off + min (suc l) max)
                  buf'))
  unfolding read_at_loop
  read_at_round fuel s l off buf holds h k =
      let n : ℕ = min (suc l) max in
      let small : n % 2 ^ 32 ≡ n = omega arith in
      let near : off % 2 ^ 64 ≡ off = omega arith in
      let (s', e) = holds s off n in (s', rw (small, near, e) refl)

  read_at_loop-Reads :
      (fuel : ℕ) (s : S) (len off : ℕ) (buf : List ℕ)
      → Holds rpc fid bytes
      → 0 < max
      → max < 2 ^ 32
      → off + len < 2 ^ 64
      → len ≤ fuel
      → Reads bytes len off buf (read_at_loop rpc fid max fuel s len off buf)
  read_at_loop-Reads fuel s zero off buf holds some small near enough =
      unfold read_at_loop in
      (sym (append-nil buf), ap end_if (sym (not_lt_zero (length bytes - off))))
  read_at_loop-Reads zero s (suc l) off buf holds some small near enough = absurd (omega arith)
  read_at_loop-Reads (suc fuel) s (suc l) off buf holds some small near enough =
      let n : ℕ = min (suc l) max in
      let there : List ℕ = drop off bytes in
      let size : length there ≡ length bytes - off = length-drop off bytes in
      let (s', round) = read_at_round fuel s l off buf holds small (omega arith) in
      elim (Bool-cases (ltb (length there) n)) [
        | inl short ↦
            let few : length there < n = ltb→lt (length there) n short in
            subst (Reads bytes (suc l) off buf) (sym (round ∙ on_read_short s' n there buf _ few)) (
              ap (◌++◌ buf) (sym (take_all there (suc l) (omega (arith, few)))),
              ap end_if (sym (lt→ltb (length bytes - off) (suc l) (omega (arith, few, size)))),
            )
        | inr full ↦
            let many : n ≤ length there = ltb→le (length there) n full in
            let (got, end) =
              read_at_loop-Reads fuel s' (suc l - n) (off + n) (buf ++ take n there) holds some
                small (omega arith) (omega arith) in
            subst (Reads bytes (suc l) off buf) (sym (round ∙ on_read_full s' n there buf _ many)) (
              got
                  ∙ append_assoc buf (take n there) _
                  ∙ ap (◌++◌ buf) (sym (take_on n (suc l) off bytes (omega arith))),
              end
                  ∙ ap end_if (
                      ltb_shift (length bytes) off n (suc l) (omega arith)
                        (omega (arith, many, size))),
            )
      ]

  -- File.readAt on a server that holds the bytes of a file, for `len` bytes at `off`, with requests
  -- of `max` bytes, at least one and less than 2 ^ 32, where `off + len` is less than 2 ^ 64:
  -- however the requests cut it up, the buffer gets the bytes of the file from `off` on, and the
  -- error is io.EOF if they are fewer than `len`, and nil otherwise.
  pub read_at-Reads :
      (s : S) (len off : ℕ)
      → Holds rpc fid bytes
      → 0 < max
      → max < 2 ^ 32
      → off + len < 2 ^ 64
      → Reads bytes len off [] (read_at rpc fid max s len off)
  unfolding read_at
  read_at-Reads s len off holds some small near =
      read_at_loop-Reads len s len off [] holds some small near (omega arith)
