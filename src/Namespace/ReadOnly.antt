-- ===== src/Namespace/ReadOnly.antt =====
-- ns/rofile.go: what is reached through a read-only file cannot be changed through it.
use mathlib.Core.Path.{subst}
use p.Common.{ℕ, zero, suc, ◌≡◌, refl, sym, List, Bool, true, Option, none, some}
use p.Wire.Types.{Stat}
use p.Server.Backend.{Outcome, okay, failed}
use p.Namespace.{Outside, File, foreign, ro_file, unstamped, rooted, in_tree, bound, Ns}
use p.Namespace.Files.{
  pass, pass_on, as_ro, read_only_error, opens_for_write, ns_wstat, ns_open, ns_write, ns_remove,
  clone_file, ns_walk, ns_create,
}

module _ {N W : Type 0} (out : Outside N W) where
  -- The files that walks and clones lead to, in any states of the namespace.
  pub data Reaches (f : File N) : File N → Type 0 where
    here : Reaches f f
    walks :
        {g h : File N} (k : ℕ) (u : Bool) (s : Ns N × W) (name : List ℕ) (s' : Ns N × W)
        → Reaches f g
        → ns_walk out k u s g name ≡ some (s', okay h)
        → Reaches f h
    clones :
        {g h : File N} (u : Bool) (s s' : Ns N × W)
        → Reaches f g
        → clone_file out u s g ≡ (s', okay h)
        → Reaches f h

  -- Every method that changes something fails, and changes nothing, nor does it call anything.
  pub record Refuses (f : File N) : Type 0 where
    pub wstat :
        (u : Bool) (s : Ns N × W) (st : Stat) → ns_wstat out u s f st ≡ (s, failed read_only_error)
    pub open_file :
        (u : Bool) (s : Ns N × W) (mode : ℕ)
        → opens_for_write mode ≡ true
        → ns_open out u s f mode ≡ (s, failed read_only_error)
    pub create :
        (k : ℕ) (u : Bool) (s : Ns N × W) (name : List ℕ) (perm mode : ℕ)
        → ns_create out (suc k) u s f name perm mode ≡ some (s, failed read_only_error)
    pub write :
        (u : Bool) (s : Ns N × W) (offset : ℕ) (bytes : List ℕ)
        → ns_write out u s f offset bytes ≡ (s, failed read_only_error)
    pub remove : (u : Bool) (s : Ns N × W) → ns_remove out u s f ≡ (s, failed read_only_error)

  abbrev pub IsReadOnly : File N → Type 0
  IsReadOnly g = (h : File N) × (g ≡ ro_file h)

  as_ro-IsReadOnly : (f : File N) → IsReadOnly (as_ro f)
  unfolding as_ro
  as_ro-IsReadOnly (foreign n) = (foreign n, refl)
  as_ro-IsReadOnly (ro_file f) = (f, refl)
  as_ro-IsReadOnly (unstamped f) = (unstamped f, refl)
  as_ro-IsReadOnly (rooted f depth) = (rooted f depth, refl)
  as_ro-IsReadOnly (in_tree n) = (in_tree n, refl)
  as_ro-IsReadOnly (bound real dev) = (bound real dev, refl)

  -- A mapped result that is a file is the image of one.
  pass_on-some :
      (g : File N → File N) (o : Option ((Ns N × W) × Outcome (File N))) (s' : Ns N × W)
      (h : File N)
      → pass_on g o ≡ some (s', okay h)
      → (f : File N) × (h ≡ g f)
  pass_on-some g none s' h e = absurd (cc e)
  pass_on-some g (some (s, failed x)) s' h e = absurd (cc e)
  pass_on-some g (some (s, okay f)) s' h e = (f, cc e)

  pass-okay :
      (g : File N → File N) (r : (Ns N × W) × Outcome (File N)) (s' : Ns N × W) (h : File N)
      → pass g r ≡ (s', okay h)
      → (f : File N) × (h ≡ g f)
  pass-okay g (s, failed x) s' h e = absurd (cc e)
  pass-okay g (s, okay f) s' h e = (f, cc e)

  ns_walk-IsReadOnly :
      (k : ℕ) (u : Bool) (s : Ns N × W) (f : File N) (name : List ℕ) (s' : Ns N × W) (h : File N)
      → ns_walk out k u s (ro_file f) name ≡ some (s', okay h)
      → IsReadOnly h
  unfolding ns_walk
  ns_walk-IsReadOnly zero u s f name s' h e = absurd (cc e)
  ns_walk-IsReadOnly (suc k) u s f name s' h e =
      let q = pass_on-some as_ro (ns_walk out k u s f name) s' h e in
      subst IsReadOnly (sym q.1) (as_ro-IsReadOnly q.0)

  Reaches-IsReadOnly : (f g : File N) → Reaches (ro_file f) g → IsReadOnly g
  unfolding clone_file
  Reaches-IsReadOnly f g here = (f, refl)
  Reaches-IsReadOnly f h (walks {g} k u s name s' r e) =
      let ro = Reaches-IsReadOnly f g r in
      let e' = subst (λ x. ns_walk out k u s x name ≡ some (s', okay h)) ro.1 e in
      ns_walk-IsReadOnly k u s ro.0 name s' h e'
  Reaches-IsReadOnly f h (clones {g} u s s' r e) =
      let ro = Reaches-IsReadOnly f g r in
      let e' = subst (λ x. clone_file out u s x ≡ (s', okay h)) ro.1 e in
      pass-okay ro_file (clone_file out u s ro.0) s' h e'

  ro_file-Refuses : (f : File N) → Refuses (ro_file f)
  unfolding ns_wstat ns_open ns_write ns_remove ns_create
  ro_file-Refuses f = record {
    wstat = λ u s st. refl;
    open_file = λ u s mode h. rw h refl;
    create = λ k u s name perm mode. refl;
    write = λ u s offset bytes. refl;
    remove = λ u s. refl;
  }

  -- Every file that is reached from a read-only one by walks and clones, whatever the namespace does in
  -- between, refuses wstat, create, write, remove and every open for writing, truncating or removing;
  -- none of these changes anything.
  pub Reaches-Refuses : (f g : File N) → Reaches (ro_file f) g → Refuses g
  Reaches-Refuses f g r =
      let ro = Reaches-IsReadOnly f g r in subst Refuses (sym ro.1) (ro_file-Refuses ro.0)
