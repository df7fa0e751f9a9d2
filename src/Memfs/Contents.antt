-- ===== src/Memfs/Contents.antt =====
-- examples/memfs/memfs.go: the contents of a file after a write.
use Prim.Native.Nat.{max}
use p.Common.{
  ℕ, zero, suc, ◌+◌, ◌-◌, ◌%◌, ◌^◌, ◌≤◌, ◌<◌, ◌≡◌, ◌≢◌, refl, ap, ◌∙◌, List, [], ◌∷◌, ◌++◌, Bool,
  false, arith,
}
use p.Common.Tests.{ltb, if◌then◌else◌}
use p.Common.Lists.{
  length, take, drop, replicate, length-append, length-take, length-drop, length-replicate,
  take-append, drop-append, take_all,
}
use p.Server.Backend.{okay, got}
use p.Common.Int.{is_negative}
use p.Memfs.{Node, Fs, write_node, resize}
use p.Memfs.Methods.{slice_from, splice, grown, written, mem_read, mem_write}

-- The byte at an index, 0 beyond the end.
abbrev pub nth : ℕ → List ℕ → ℕ
nth i [] = 0
nth zero (x ∷ xs) = x
nth (suc i) (x ∷ xs) = nth i xs

nth-append :
    (i : ℕ) (xs ys : List ℕ)
    → nth i (xs ++ ys) ≡ (if ltb i (length xs) then nth i xs else nth (i - length xs) ys)
nth-append i [] ys = ground arith
nth-append zero (x ∷ xs) ys = ground arith
nth-append (suc i) (x ∷ xs) ys = ground (arith, nth-append i xs ys)

nth-take : (i n : ℕ) (xs : List ℕ) → nth i (take n xs) ≡ (if ltb i n then nth i xs else 0)
nth-take i zero xs = ground arith
nth-take i (suc n) [] = ground arith
nth-take zero (suc n) (x ∷ xs) = ground arith
nth-take (suc i) (suc n) (x ∷ xs) = ground (arith, nth-take i n xs)

nth-drop : (i n : ℕ) (xs : List ℕ) → nth i (drop n xs) ≡ nth (n + i) xs
nth-drop i zero xs = ground arith
nth-drop i (suc n) [] = refl
nth-drop i (suc n) (x ∷ xs) = ground (arith, nth-drop i n xs)

nth-replicate : (i n : ℕ) → nth i (replicate n 0) ≡ 0
nth-replicate i zero = refl
nth-replicate zero (suc n) = refl
nth-replicate (suc i) (suc n) = nth-replicate i n

nth_beyond : (i : ℕ) (xs : List ℕ) → length xs ≤ i → nth i xs ≡ 0
nth_beyond i [] h = refl
nth_beyond zero (x ∷ xs) h = absurd (omega arith)
nth_beyond (suc i) (x ∷ xs) h = nth_beyond i xs (omega arith)

nth-resize : (i n : ℕ) (b : List ℕ) → length b ≤ n → nth i (resize b n) ≡ nth i b
unfolding resize
nth-resize i n b h = ground (
  arith,
  nth-take i n b,
  nth-append i b (replicate (n - length b) 0),
  nth-replicate (i - length b) (n - length b),
  nth_beyond i b,
)

length-resize : (n : ℕ) (b : List ℕ) → length (resize b n) ≡ n
unfolding resize
length-resize n b = ground (
  arith,
  length-take n b,
  length-append b (replicate (n - length b) 0),
  length-replicate {A = ℕ} (n - length b) 0,
)

module _ (b : List ℕ) (offset count : ℕ) (h : offset + count < 2 ^ 63) where
  grown_eq :
      grown b offset count
      ≡ (if ltb (length b) (offset + count) then resize b (offset + count) else b)
  unfolding grown
  grown_eq =
      let end : (offset + count) % 2 ^ 64 ≡ offset + count = omega arith in
      let near : is_negative (offset + count) ≡ false = ground arith in rw (end, near) refl

  length-grown : length (grown b offset count) ≡ max (length b) (offset + count)
  length-grown = ground (arith, grown_eq, length-resize (offset + count) b)

  nth-grown : (i : ℕ) → nth i (grown b offset count) ≡ nth i b
  nth-grown i = ground (arith, grown_eq, nth-resize i (offset + count) b)

module _ (b p : List ℕ) (offset : ℕ) (h : offset + length p ≤ length b) where
  whole : take (length b - offset) p ≡ p
  whole = take_all p (length b - offset) (omega arith)

  splice_eq : splice b offset p ≡ take offset b ++ (p ++ drop (offset + length p) b)
  unfolding splice
  splice_eq = ap (λ x. take offset b ++ (x ++ drop (offset + length p) b)) whole

  nth-splice :
      (i : ℕ)
      → nth i (splice b offset p) ≡ (
          if ltb i offset
          then nth i b
          else if ltb i (offset + length p)
          then nth (i - offset) p
          else nth i b)
  nth-splice i = ground (
    arith,
    splice_eq,
    nth-append i (take offset b) (p ++ drop (offset + length p) b),
    nth-append (i - offset) p (drop (offset + length p) b),
    nth-take i offset b,
    nth-drop (i - offset - length p) (offset + length p) b,
    length-take offset b,
  )

  length-splice : length (splice b offset p) ≡ length b
  length-splice = omega (
    arith,
    ap length splice_eq,
    length-append (take offset b) (p ++ drop (offset + length p) b),
    length-append p (drop (offset + length p) b),
    length-take offset b (omega arith),
    length-drop (offset + length p) b,
  )

  -- What was copied in is there.
  drop-splice : take (length p) (drop offset (splice b offset p)) ≡ p
  drop-splice =
      ap (λ x. take (length p) (drop offset x)) splice_eq
      ∙ ap (take (length p)) (
          drop-append (take offset b) (p ++ drop (offset + length p) b) offset
            (length-take offset b (omega arith)))
      ∙ take-append p (drop (offset + length p) b) (length p) refl

module _ (w : Fs) (p offset : ℕ) (bytes : List ℕ) where
  after : Fs
  after = (mem_write w p offset bytes).0

  mem_write-file :
      (w.nodes p).dir ≡ false
      → offset + length bytes < 2 ^ 63
      → mem_write w p offset bytes
        ≡ (write_node w p (written (w.nodes p) offset bytes), okay (length bytes))
  unfolding mem_write slice_from
  mem_write-file file small =
      ground (arith, length-grown (w.nodes p).bytes offset (length bytes) small)

  -- file.Write on a file that is no directory, at an offset that is not negative, where the end is an
  -- int64. All bytes are written: from the offset on they are those given; before them and behind them
  -- the file is as it was, with zeros where there was nothing; the file is as long as before, or as
  -- far as the write goes if that is longer; and no other node changes.
  pub mem_write-bytes :
      (w.nodes p).dir ≡ false
      → offset + length bytes < 2 ^ 63
      → ((mem_write w p offset bytes).1 ≡ okay (length bytes))
        × ((i : ℕ)
            → nth i ((mem_write w p offset bytes).0.nodes p).bytes ≡ (
                if ltb i offset
                then nth i (w.nodes p).bytes
                else if ltb i (offset + length bytes)
                then nth (i - offset) bytes
                else nth i (w.nodes p).bytes))
        × (length ((mem_write w p offset bytes).0.nodes p).bytes
            ≡ max (length (w.nodes p).bytes) (offset + length bytes))
        × ((a : ℕ) → a ≢ p → (mem_write w p offset bytes).0.nodes a ≡ w.nodes a)
  unfolding write_node written
  mem_write-bytes file small =
      let e = mem_write-file file small in
      let old : List ℕ = (w.nodes p).bytes in
      let room : List ℕ = grown old offset (length bytes) in
      let size : length room ≡ max (length old) (offset + length bytes) =
        length-grown old offset (length bytes) small in
      let fits : offset + length bytes ≤ length room = omega (arith, size) in
      rw e (
        refl,
        (λ i. ground (
          arith,
          nth-splice room bytes offset fits i,
          nth-grown old offset (length bytes) small i,
        )),
        ground (arith, length-splice room bytes offset fits),
        (λ a other. ground arith),
      )

  written_there :
      (w.nodes p).dir ≡ false
      → offset + length bytes < 2 ^ 63
      → (mem_write w p offset bytes).0.nodes p ≡ written (w.nodes p) offset bytes
  unfolding write_node
  written_there file small = rw (mem_write-file file small) (ground arith)

mem_read-file :
    (u : Bool) (w : Fs) (p offset count : ℕ)
    → (w.nodes p).dir ≡ false
    → offset < 2 ^ 63
    → offset < length (w.nodes p).bytes
    → (mem_read u w p offset count).1 ≡ got (take count (drop offset (w.nodes p).bytes))
unfolding mem_read slice_from
mem_read-file u w p offset count file near inside = ground arith

-- Reading as many bytes as were written, one at least, at the offset of the write, gives those bytes.
mem_read-mem_write :
    (u : Bool) (w : Fs) (p offset : ℕ) (bytes : List ℕ)
    → (w.nodes p).dir ≡ false
    → offset + length bytes < 2 ^ 63
    → 0 < length bytes
    → (mem_read u (mem_write w p offset bytes).0 p offset (length bytes)).1 ≡ got bytes
mem_read-mem_write u w p offset bytes file small some_bytes =
    let old : List ℕ = (w.nodes p).bytes in
    let room : List ℕ = grown old offset (length bytes) in
    let fits : offset + length bytes ≤ length room =
      omega (arith, length-grown old offset (length bytes) small) in
    let node = written_there w p offset bytes file small in
    let there : ((mem_write w p offset bytes).0.nodes p).bytes ≡ splice room offset bytes =
      ap (λ (n : Node). n.bytes) node ∙ unfold written in refl in
    mem_read-file u (mem_write w p offset bytes).0 p offset (length bytes)
      (ap (λ (n : Node). n.dir) node ∙ unfold written in file) (omega arith)
      (omega (arith, ap length there, length-splice room bytes offset fits))
    ∙ ap got
        (ap (λ b. take (length bytes) (drop offset b)) there ∙ drop-splice room bytes offset fits)
