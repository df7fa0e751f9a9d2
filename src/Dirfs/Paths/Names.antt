-- ===== src/Dirfs/Paths/Names.antt =====
-- The paths below a directory as lists of names.
use p.Common.{
  ℕ, ◌≡◌, refl, sym, ap, ◌∙◌, inl, inr, List, [], ◌∷◌, ◌++◌, Bool, false, append_assoc, append-nil,
  arith,
}
use p.Common.Tests.{◌==◌, Bool-cases}
use p.Common.Names.{same_bytes}
use p.Common.Lists.{length, All}
use p.Common.Strings.{split_slash, join, has_slash, split_slash_one, split_slash-append}
use p.Wire.Types.{text}
use p.Dirfs.Paths.{
  drop_last, clean_step, clean_from, is_rooted, cons_unless_nil, path_of, clean, join_path,
  upto_slash, dir_of,
}

-- A name of an entry: not empty, without slashes, and neither "." nor "..".
pub record IsName (name : List ℕ) : Type 0 where
  pub some_bytes : (length name == 0) ≡ false
  pub one : has_slash name ≡ false
  pub not_dot : same_bytes name (text ".") ≡ false
  pub not_dotdot : same_bytes name (text "..") ≡ false

-- The path of a list of names splits into these; that of the directory itself is ".".
pub split_path_of :
    (n : List ℕ) (names : List (List ℕ))
    → All IsName (n ∷ names)
    → split_slash (path_of (n ∷ names)) ≡ n ∷ names
unfolding path_of join
split_path_of n [] h = split_slash_one n h.0.one
split_path_of n (m ∷ names) h =
    split_slash-append n (path_of (m ∷ names))
    ∙ rw (split_slash_one n h.0.one, split_path_of m names h.1) refl

-- A name is a further part.
pub clean_step-IsName :
    (r : Bool) (acc : List (List ℕ)) (n : List ℕ) → IsName n → clean_step r acc n ≡ acc ++ (n ∷ [])
unfolding clean_step
clean_step-IsName r acc n h = rw (h.some_bytes, h.not_dot, h.not_dotdot) refl

clean_from-IsName :
    (r : Bool) (acc names : List (List ℕ))
    → All IsName names
    → clean_from r acc names ≡ acc ++ names
unfolding clean_from
clean_from-IsName r acc [] h = sym (append-nil acc)
clean_from-IsName r acc (n ∷ names) h =
    rw (clean_step-IsName r acc n h.0)
      (clean_from-IsName r (acc ++ (n ∷ [])) names h.1 ∙ append_assoc acc (n ∷ []) names)

clean_from-append :
    (r : Bool) (acc xs ys : List (List ℕ))
    → clean_from r acc (xs ++ ys) ≡ clean_from r (clean_from r acc xs) ys
unfolding clean_from
clean_from-append r acc [] ys = refl
clean_from-append r acc (x ∷ xs) ys = clean_from-append r (clean_step r acc x) xs ys

clean_dot : clean_from false [] (split_slash (path_of [])) ≡ []
unfolding path_of clean_from clean_step split_slash same_bytes
clean_dot = refl

-- Cleaning the parts of a path gives the names.
clean_parts :
    (names : List (List ℕ))
    → All IsName names
    → clean_from false [] (split_slash (path_of names)) ≡ names
clean_parts [] h = clean_dot
clean_parts (n ∷ names) h = rw (split_path_of n names h) (clean_from-IsName false [] (n ∷ names) h)

-- A path has a first byte, which is no slash.
path_of_first :
    (names : List (List ℕ))
    → All IsName names
    → (c : ℕ) × (cs : List ℕ) × (path_of names ≡ c ∷ cs) × ((c == 47) ≡ false)
unfolding path_of join has_slash
path_of_first [] h = (46, [], refl, refl)
path_of_first ([] ∷ names) h = absurd (cc h.0.some_bytes)
path_of_first ((c ∷ cs) ∷ []) h = (c, cs, refl, ground (arith, h.0.one))
path_of_first ((c ∷ cs) ∷ (m ∷ names)) h = (c, _, refl, ground (arith, h.0.one))

clean_relative :
    (p : List ℕ) → is_rooted p ≡ false → clean p ≡ path_of (clean_from false [] (split_slash p))
unfolding clean
clean_relative p h = rw h refl

join_path-cons :
    (c : ℕ) (cs name : List ℕ) → join_path (c ∷ cs) name ≡ clean ((c ∷ cs) ++ (47 ∷ name))
unfolding join_path
join_path-cons c cs name = refl

-- Joining a path with a part is a step from its names.
pub join_path-path_of :
    (names : List (List ℕ)) (name : List ℕ)
    → All IsName names
    → has_slash name ≡ false
    → join_path (path_of names) name ≡ path_of (clean_step false names name)
join_path-path_of names name h one =
    let (c, cs, e, relative) = path_of_first names h in
    ap (λ p. join_path p name) e
    ∙ (join_path-cons c cs name
        ∙ (clean_relative ((c ∷ cs) ++ (47 ∷ name)) relative ∙ ap path_of (parts c cs e)))
  where
    stepped : clean_from false names (name ∷ []) ≡ clean_step false names name
    stepped = unfold clean_from in refl

    parts :
        (c : ℕ) (cs : List ℕ)
        → path_of names ≡ c ∷ cs
        → clean_from false [] (split_slash ((c ∷ cs) ++ (47 ∷ name))) ≡ clean_step false names name
    parts c cs e =
        rw
          (
            split_slash-append (c ∷ cs) name,
            split_slash_one name one,
            ← e,
            clean_from-append false [] (split_slash (path_of names)) (name ∷ []),
            clean_parts names h,
          )
          stepped

pub drop_last-snoc : (names : List (List ℕ)) (n : List ℕ) → drop_last (names ++ (n ∷ [])) ≡ names
unfolding drop_last
drop_last-snoc [] n = refl
drop_last-snoc (m ∷ []) n = refl
drop_last-snoc (m ∷ (k ∷ names)) n = ap (◌∷◌ m) (drop_last-snoc (k ∷ names) n)

pub drop_last-All : (names : List (List ℕ)) → All IsName names → All IsName (drop_last names)
unfolding drop_last
drop_last-All [] h = tt
drop_last-All (m ∷ []) h = tt
drop_last-All (m ∷ (k ∷ names)) h = (h.0, drop_last-All (k ∷ names) h.1)

cons_unless_nil-append :
    (c d : ℕ) (cs ds : List ℕ) → cons_unless_nil c (cs ++ (d ∷ ds)) ≡ c ∷ (cs ++ (d ∷ ds))
cons_unless_nil-append c d [] ds = refl
cons_unless_nil-append c d (e ∷ cs) ds = refl

upto_slash-append : (a b : List ℕ) → upto_slash (a ++ (47 ∷ b)) ≡ a ++ (47 ∷ upto_slash b)
unfolding upto_slash
upto_slash-append [] b = refl
upto_slash-append (c ∷ cs) b = elim (Bool-cases (c == 47)) [
  | inl slash ↦ rw (slash, upto_slash-append cs b) refl
  | inr other ↦ rw (other, upto_slash-append cs b) (cons_unless_nil-append c 47 cs (upto_slash b))
]

upto_slash_one : (name : List ℕ) → has_slash name ≡ false → upto_slash name ≡ []
unfolding upto_slash has_slash
upto_slash_one [] h = refl
upto_slash_one (c ∷ cs) h = elim (Bool-cases (c == 47)) [
  | inl slash ↦ absurd (ground (arith, slash))
  | inr other ↦ rw (other, upto_slash_one cs (ground (arith, other))) refl
]

-- The parts of a path up to its last slash: all names but the last.
split-upto_slash :
    (n : List ℕ) (names : List (List ℕ))
    → All IsName (n ∷ names)
    → split_slash (upto_slash (path_of (n ∷ names))) ≡ drop_last (n ∷ names) ++ ([] ∷ [])
unfolding path_of join drop_last
split-upto_slash n [] h = rw (upto_slash_one n h.0.one) (unfold split_slash in refl)
split-upto_slash n (m ∷ names) h =
    rw
      (
        upto_slash-append n (path_of (m ∷ names)),
        split_slash-append n (upto_slash (path_of (m ∷ names))),
        split_slash_one n h.0.one,
      )
      (ap (◌∷◌ n) (split-upto_slash m names h.1))

is_rooted-upto_slash :
    (c : ℕ) (cs : List ℕ) → (c == 47) ≡ false → is_rooted (upto_slash (c ∷ cs)) ≡ false
unfolding upto_slash
is_rooted-upto_slash c cs h = rw h (by_rest (upto_slash cs))
  where
    by_rest : (ds : List ℕ) → is_rooted (cons_unless_nil c ds) ≡ false
    by_rest [] = refl
    by_rest (d ∷ ds) = h

clean_step-nil : (acc : List (List ℕ)) → clean_step false acc [] ≡ acc
unfolding clean_step
clean_step-nil acc = refl

-- The directory of a path is that of all its names but the last.
pub dir_of-path_of :
    (names : List (List ℕ)) → All IsName names → dir_of (path_of names) ≡ path_of (drop_last names)
unfolding dir_of
dir_of-path_of [] h =
    unfold path_of clean upto_slash clean_from clean_step split_slash drop_last in refl
dir_of-path_of (n ∷ names) h =
    let (c, cs, e, relative) = path_of_first (n ∷ names) h in
    clean_relative (upto_slash (path_of (n ∷ names))) (rw e (is_rooted-upto_slash c cs relative))
    ∙ ap path_of parts
  where
    kept : All IsName (drop_last (n ∷ names))
    kept = drop_last-All (n ∷ names) h

    parts :
        clean_from false [] (split_slash (upto_slash (path_of (n ∷ names)))) ≡ drop_last (n ∷ names)
    parts =
        rw
          (
            split-upto_slash n names h,
            clean_from-append false [] (drop_last (n ∷ names)) ([] ∷ []),
            clean_from-IsName false [] (drop_last (n ∷ names)) kept,
          )
          (unfold clean_from in clean_step-nil (drop_last (n ∷ names)))
