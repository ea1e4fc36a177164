-- ===== src/Nodes/Taints/Found.antt =====
-- Lists of taints: where the search finds a taint, and the list without it.
use k8s_mcp.Base.{
  ℕ, zero, suc, ◌+◌, ◌<◌, ◌≡◌, refl, true, false, Option, none, some, List, [], ◌∷◌, ◌++◌, length,
  eq_refl, if◌then◌else◌, arith, any, Bool-cases, inl, inr, ap,
}
use k8s_mcp.Nodes.TaintSpec.{Taint}
use k8s_mcp.Nodes.Taints.{LiveTaint, is_taint, find_taint}

-- The list without its entry at an index.
abbrev pub remove_nth : ℕ → List LiveTaint → List LiveTaint
remove_nth i [] = []
remove_nth zero (t ∷ ts) = ts
remove_nth (suc i) (t ∷ ts) = t ∷ remove_nth i ts

-- The list without the first entry that is this taint.
abbrev pub without_first : Taint → List LiveTaint → List LiveTaint
without_first t [] = []
without_first t (l ∷ ls) = let rest = without_first t ls in if is_taint t l then ls else l ∷ rest

-- The entry that a new taint becomes.
abbrev pub live_of : Taint → LiveTaint
live_of t = record { key = t.key; value = some t.value; effect = t.effect }

is_taint-live_of : (t : Taint) → is_taint t (live_of t) ≡ true
unfolding is_taint
is_taint-live_of t = ground (arith, eq_refl t.key, eq_refl t.value, eq_refl t.effect)

pub any_last : (t : Taint) (ts : List LiveTaint) → any (is_taint t) (ts ++ live_of t ∷ []) ≡ true
any_last t [] = ground (arith, is_taint-live_of t)
any_last t (l ∷ ls) = ground (arith, any_last t ls)

pub without_first-last :
    (t : Taint) (ts : List LiveTaint)
    → any (is_taint t) ts ≡ false
    → without_first t (ts ++ live_of t ∷ []) ≡ ts
without_first-last t [] h = rw (is_taint-live_of t) refl
without_first-last t (l ∷ ls) h = ground (arith, without_first-last t ls)

-- What the search answers: where the first match is.
abbrev pub Found : Taint → List LiveTaint → ℕ → Option ℕ → Type 0
Found t ts base none = any (is_taint t) ts ≡ false
Found t ts base (some i) =
    (k : ℕ) × (i ≡ base + k)
    × (k < length ts)
    × (any (is_taint t) ts ≡ true)
    × (remove_nth k ts ≡ without_first t ts)

search_later :
    (t : Taint) (base : ℕ) (l : LiveTaint) (ls : List LiveTaint) (o : Option ℕ)
    → is_taint t l ≡ false
    → Found t ls (base + 1) o
    → Found t (l ∷ ls) base o
search_later t base l ls none other h = rw other h
search_later t base l ls (some i) other (k, at, inside, some_match, rest) = (
  suc k,
  omega (arith, at),
  omega (arith, inside),
  rw other some_match,
  rw other (ap (λ (r : List LiveTaint). l ∷ r) rest),
)

pub find_taint-Found :
    (t : Taint) (base : ℕ) (ts : List LiveTaint) → Found t ts base (find_taint t base ts)
unfolding find_taint
find_taint-Found t base [] = refl
find_taint-Found t base (l ∷ ls) = elim (Bool-cases (is_taint t l)) [
  | inl this ↦ rw this (0, omega arith, omega arith, rw this refl, rw this refl)
  | inr other ↦ rw other (
      search_later t base l ls (find_taint t (base + 1) ls) other
        (find_taint-Found t (base + 1) ls))
]
