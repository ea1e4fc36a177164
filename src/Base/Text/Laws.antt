-- ===== src/Base/Text/Laws.antt =====
-- Laws of the searches in texts, and of `split`.
use Prim.Native.Nat.{ℕ}
use Prim.Native.Char.{Char, code}
use Prim.Native.String.{String, ◌++◌}
use Prim.Native.String.append
use mathlib.Core.Path.{◌≡◌, refl}
use mathlib.Core.Bool.{Bool, true, false, ◌||◌}
use mathlib.Core.List.{List, [], ◌∷◌}
use mathlib.Core.Logic.{◌≢◌}
use native.Mathlib.Omega.{arith}
use k8s_mcp.Base.Tests.{◌==◌, ==_iff, leb}
use k8s_mcp.Base.Lists.{any}
use k8s_mcp.Base.Text.{empty, cons, split, on_head}
use k8s_mcp.Base.Text.Search.{
  starts_with, count_chars, contains, all_chars, before, after, before_last, after_last,
}

pub contains-append : (c : ℕ) (s t : String) → contains c (s ++ t) ≡ (contains c s || contains c t)
unfolding contains
contains-append c String.[] t = rw append.nil
contains-append c (String.◌∷◌ d s) t = rw append.cons (ground (arith, contains-append c s t))

module _ (c : ℕ) (d : Char) (at : code d ≡ c) where
  same : (code d == c) ≡ true
  same = (==_iff (code d) c).1 at

  pub contains-middle : (s t : String) → contains c (s ++ cons d t) ≡ true
  unfolding contains
  contains-middle s t = rw contains-append (ground (arith, same))

  -- The last separator is the one in the middle where none follows.
  pub before_last-append : (s t : String) → contains c t ≡ false → before_last c (s ++ cons d t) ≡ s
  unfolding before_last
  before_last-append String.[] t h = rw append.nil (rw h refl)
  before_last-append (String.◌∷◌ e s) t h =
      rw append.cons (rw (contains-middle s t, before_last-append s t h) refl)

  pub after_last-append : (s t : String) → contains c t ≡ false → after_last c (s ++ cons d t) ≡ t
  unfolding after_last
  after_last-append String.[] t h = rw append.nil (rw h refl)
  after_last-append (String.◌∷◌ e s) t h =
      rw append.cons (rw (contains-middle s t, after_last-append s t h) refl)

  -- The first one is where none precedes.
  pub before-append : (s t : String) → contains c s ≡ false → before c (s ++ cons d t) ≡ s
  unfolding before contains
  before-append String.[] t h = rw append.nil (rw same refl)
  before-append (String.◌∷◌ e s) t h =
      rw append.cons (ground (arith, before-append s t (ground arith)))

  pub after-append : (s t : String) → contains c s ≡ false → after c (s ++ cons d t) ≡ t
  unfolding after contains
  after-append String.[] t h = rw append.nil (rw same refl)
  after-append (String.◌∷◌ e s) t h =
      rw append.cons (ground (arith, after-append s t (ground arith)))

pub before-none : (c : ℕ) (s : String) → contains c s ≡ false → before c s ≡ s
unfolding before contains
before-none c String.[] h = refl
before-none c (String.◌∷◌ e s) h = ground (arith, before-none c s (ground arith))

pub after-none : (c : ℕ) (s : String) → contains c s ≡ false → after c s ≡ empty
unfolding after contains
after-none c String.[] h = refl
after-none c (String.◌∷◌ e s) h = ground (arith, after-none c s (ground arith))

any-on_head :
    (c : ℕ) (d : Char) (ss : List String)
    → any (contains c) (on_head d ss) ≡ (code d == c || any (contains c) ss)
unfolding contains
any-on_head c d [] = ground arith
any-on_head c d (s ∷ ss) = ground arith

-- A character other than the separator occurs in a text exactly if it occurs in one of the parts.
pub contains-split :
    (c sep : ℕ) (s : String) → c ≢ sep → contains c s ≡ any (contains c) (split sep s)
unfolding split contains
contains-split c sep String.[] h = refl
contains-split c sep (String.◌∷◌ d s) h =
    ground (arith, contains-split c sep s h, any-on_head c d (split sep s))

-- A character that fails a test does not occur in a text whose characters all pass it.
pub contains-all_chars :
    (c : ℕ) (p : ℕ → Bool) (s : String) → p c ≡ false → all_chars p s ≡ true → contains c s ≡ false
unfolding contains all_chars
contains-all_chars c p String.[] h k = refl
contains-all_chars c p (String.◌∷◌ d s) h k =
    ground (arith, contains-all_chars c p s h, ==_iff (code d) c)

-- A text that is at least as long as the prefix decides it.
pub starts_with-append :
    (p s t : String)
    → leb (count_chars p) (count_chars s) ≡ true
    → starts_with p (s ++ t) ≡ starts_with p s
unfolding starts_with count_chars
starts_with-append String.[] s t h = refl
starts_with-append (String.◌∷◌ c p) String.[] t h = ground arith
starts_with-append (String.◌∷◌ c p) (String.◌∷◌ d s) t h =
    rw (append.cons, starts_with-append p s t (ground (arith, h))) refl
