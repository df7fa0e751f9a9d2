-- ===== src/Wire/Backward.antt =====
-- What a successful read of decode.go consumed: the bytes that the matching write would put.
use p.Common.{
  ℕ, ◌≤◌, ◌<◌, ◌^◌, ◌≡◌, refl, sym, ap, ◌∙◌, inl, inr, List, [], ◌++◌, Bool, true, false, Option,
  none, some, append_assoc, append-nil, arith,
}
use mathlib.Core.Path.{subst}
use p.Common.Tests.{Bool-cases, if◌then◌else◌}
use p.Common.Lists.{length, take, drop, take-append-drop, length-take, All-take, All-drop}
use p.Common.Bytes.{IsByte, IsBytes, le_bytes, le_bytes-le_value, le_value-lt}
use p.Wire.Encode.{put_string, put_qid}
use p.Wire.Decode.{
  Decoder, Read, pure, ◌>>=◌, done, on_unix, value_or_zero, bytes_or_nil, take_bytes, get_uint,
  get_bytes, get_string, get_qid,
}
use p.Wire.Forward.{IsQid, cut_string_short}

-- A read that started at `d` ended at `e`, having taken the bytes `bs`.
pub record Took (u : Bool) (d e : Decoder) (bs : List ℕ) : Type 0 where
  pub front : d.buf ≡ bs ++ e.buf
  pub unix : e.unix ≡ u
  pub rest : IsBytes e.buf

-- The read `r` keeps an earlier error, and whenever it succeeds, the value and the bytes that it
-- took are related by `R`.
pub record Consumes {A : Type 0} (u : Bool) (r : Read A) (R : A → List ℕ → Type 0) : Type 0 where
  pub sticky : (d : Decoder) → (r d).1.err ≡ none → d.err ≡ none
  pub run :
      (d : Decoder)
      → d.unix ≡ u
      → IsBytes d.buf
      → (r d).1.err ≡ none
      → (bs : List ℕ) × Took u d (r d).1 bs × R (r d).0 bs

module _ {A : Type 0} {u : Bool} where
  pub Consumes-pure : {S : A → List ℕ → Type 0} (a : A) → S a [] → Consumes u (pure a) S
  Consumes-pure a s = record {
    sticky = λ d e. e;
    run = λ d hu hb e. ([], record { front = refl; unix = hu; rest = hb }, s);
  }

  -- A weaker relation.
  pub Consumes-weaken :
      {r : Read A} {R S : A → List ℕ → Type 0}
      → Consumes u r R
      → ((a : A) (bs : List ℕ) → R a bs → S a bs)
      → Consumes u r S
  Consumes-weaken c f = record {
    sticky = c.sticky;
    run = λ d hu hb e. let (bs, t, h) = c.run d hu hb e in (bs, t, f _ bs h);
  }

took_both :
    {u : Bool} {d e g : Decoder} (bs cs : List ℕ)
    → Took u d e bs
    → Took u e g cs
    → Took u d g (bs ++ cs)
took_both {g = g} bs cs t t' = record {
  front = t.front ∙ ap (◌++◌ bs) t'.front ∙ sym (append_assoc bs cs g.buf);
  unix = t'.unix;
  rest = t'.rest;
}

module _ {A B : Type 0} {u : Bool} where
  pub Consumes->>= :
      {r : Read A} {k : A → Read B} {R : A → List ℕ → Type 0} {S : B → List ℕ → Type 0}
      → Consumes u r R
      → ((a : A) → Consumes u (k a) (λ b cs. (bs : List ℕ) → R a bs → S b (bs ++ cs)))
      → Consumes u (r >>= k) S
  Consumes->>= {r = r} {k = k} {R = R} {S = S} c f = record {
    sticky = λ d e. c.sticky d ((f (r d).0).sticky (r d).1 e);
    run = go;
  }
    where
      go :
          (d : Decoder)
          → d.unix ≡ u
          → IsBytes d.buf
          → ((r >>= k) d).1.err ≡ none
          → (bs : List ℕ) × Took u d ((r >>= k) d).1 bs × S ((r >>= k) d).0 bs
      go d hu hb e =
          let (bs, t, h) = c.run d hu hb ((f (r d).0).sticky (r d).1 e) in
          let (cs, t', g) = (f (r d).0).run (r d).1 t.unix t.rest e in
          (bs ++ cs, took_both bs cs t t', g bs h)

  -- The same where the bytes of the first read are known from its value.
  pub Consumes-then :
      {w : A → List ℕ} {P : A → Type 0} {r : Read A} {k : A → Read B} {S : B → List ℕ → Type 0}
      → Consumes u r (λ a bs. (bs ≡ w a) × P a)
      → ((a : A) → Consumes u (k a) (λ b cs. P a → S b (w a ++ cs)))
      → Consumes u (r >>= k) S
  Consumes-then {w = w} {S = S} c f =
      Consumes->>= c
        (λ a. Consumes-weaken (f a) (λ b cs h bs e. subst (λ x. S b (x ++ cs)) (sym e.0) (h e.1)))

on_unix_case :
    {A : Type 0} (r : Read A) (old : A) (d : Decoder) {b : Bool}
    → d.unix ≡ b
    → on_unix r old d ≡ (if b then r d else (old, d))
unfolding on_unix
on_unix_case r old d e = ap (λ x. if x then r d else (old, d)) e

-- A field that is read on a 9P2000.u connection only.
pub on_unix-Consumes :
    {A : Type 0} (S : Bool → A → List ℕ → Type 0) (u : Bool) (r : Read A) (old : A)
    → Consumes true r (S true)
    → S false old []
    → Consumes u (on_unix r old) (S u)
on_unix-Consumes {A} S u r old c s = record { sticky = stays; run = go u }
  where
    stays : (d : Decoder) → (on_unix r old d).1.err ≡ none → d.err ≡ none
    stays d = elim (Bool-cases d.unix) [
      | inl on ↦ rw (on_unix_case r old d on) (c.sticky d)
      | inr off ↦ rw (on_unix_case r old d off) (λ e. e)
    ]

    go :
        (v : Bool) (d : Decoder)
        → d.unix ≡ v
        → IsBytes d.buf
        → (on_unix r old d).1.err ≡ none
        → (bs : List ℕ) × Took v d (on_unix r old d).1 bs × S v (on_unix r old d).0 bs
    go true d hu = rw (on_unix_case r old d hu) (c.run d hu)
    go false d hu =
        rw (on_unix_case r old d hu)
          (λ hb e. ([], record { front = refl; unix = hu; rest = hb }, s))

-- decoder.done finds nothing wrong.
pub done-none : (d : Decoder) → done d ≡ none → (d.err ≡ none) × (d.buf ≡ [])
unfolding done
done-none d e = ground arith

take_bytes_success :
    (n : ℕ) (d : Decoder)
    → (take_bytes n d).1.err ≡ none
    → (d.err ≡ none)
      × (n ≤ length d.buf)
      × (take_bytes n d ≡ (some (take n d.buf), record d { buf = drop n d.buf }))
unfolding take_bytes
take_bytes_success n d e = ground arith

pub take_bytes-Consumes :
    (u : Bool) (n : ℕ)
    → Consumes u (take_bytes n) (λ p bs. (p ≡ some bs) × (length bs ≡ n) × IsBytes bs)
take_bytes-Consumes u n = record {
  sticky = λ d e. (take_bytes_success n d e).0;
  run = λ d hu hb e.
      let (_, le, eq) = take_bytes_success n d e in
      (
        take n d.buf,
        rw eq (record {
          front = sym (take-append-drop n d.buf);
          unix = hu;
          rest = All-drop IsByte n d.buf hb;
        }),
        (ap (λ x. x.0) eq, length-take n d.buf le, All-take IsByte n d.buf hb),
      );
}

uint_of_bytes :
    (k : ℕ) (p : Option (List ℕ)) (bs : List ℕ)
    → (p ≡ some bs) × (length bs ≡ k) × IsBytes bs
    → (bs ++ [] ≡ le_bytes k (value_or_zero p)) × (value_or_zero p < 256 ^ k)
uint_of_bytes k p bs (e, n, h) =
    rw (e, ← n, append-nil) (sym (le_bytes-le_value bs h), le_value-lt bs h)

string_of_bytes :
    (n : ℕ) (s : List ℕ)
    → n < 256 ^ 2
    → length s ≡ n
    → (le_bytes 2 n ++ (s ++ []) ≡ put_string s) × (length s ≤ 0xFFFF)
unfolding put_string
string_of_bytes n s h e =
    let le : length s ≤ 0xFFFF = omega arith in (rw (append-nil, cut_string_short s le, e), le)

-- An integer is read from its little-endian bytes, and fits them.
pub get_uint-Consumes :
    (u : Bool) (k : ℕ) → Consumes u (get_uint k) (λ v bs. (bs ≡ le_bytes k v) × (v < 256 ^ k))
unfolding get_uint
get_uint-Consumes u k =
    Consumes->>= (take_bytes-Consumes u k)
      (λ p. Consumes-pure (value_or_zero p) (λ bs h. uint_of_bytes k p bs h))

pub get_bytes-Consumes :
    (u : Bool) (n : ℕ) → Consumes u (get_bytes n) (λ v bs. (bs ≡ v) × (length v ≡ n))
unfolding get_bytes
get_bytes-Consumes u n =
    Consumes->>= (take_bytes-Consumes u n)
      (λ p. Consumes-pure (bytes_or_nil p) (λ bs h. ground (arith, append-nil bs)))

pub get_string-Consumes :
    (u : Bool) → Consumes u get_string (λ s bs. (bs ≡ put_string s) × (length s ≤ 0xFFFF))
unfolding get_string put_string
get_string-Consumes u = Consumes-then (get_uint-Consumes u 2) (λ n.
    Consumes-then (get_bytes-Consumes u n) (λ s. Consumes-pure s (λ e h. string_of_bytes n s h e)))

pub get_qid-Consumes : (u : Bool) → Consumes u get_qid (λ q bs. (bs ≡ put_qid q) × IsQid q)
unfolding get_qid put_qid
get_qid-Consumes u = Consumes-then (get_uint-Consumes u 1) (λ t.
    Consumes-then (get_uint-Consumes u 4) (λ v. Consumes-then (get_uint-Consumes u 8) (λ q.
      Consumes-pure (record { type = t; version = v; path = q })
        (λ hq hv ht. (rw append-nil, record { type = ht; version = hv; path = hq })))))

-- A decoding that ends well has consumed the whole buffer.
pub Consumes-done :
    {A : Type 0} {u : Bool} {r : Read A} {R : A → List ℕ → Type 0} (d : Decoder)
    → Consumes u r R
    → d.unix ≡ u
    → IsBytes d.buf
    → done (r d).1 ≡ none
    → R (r d).0 d.buf
Consumes-done {r = r} {R = R} d c hu hb fine =
    let (e, empty) = done-none _ fine in
    let (bs, t, h) = c.run d hu hb e in
    subst (R (r d).0) (sym (t.front ∙ ap (◌++◌ bs) empty ∙ append-nil bs)) h
