-- ===== src/Config/Allowlist.antt =====
-- The allowlists that `split_allowlist` makes of a comma-separated value.
use k8s_mcp.Base.{
  String, ◌≡◌, refl, true, false, ◌||◌, not, Option, none, some, List, [], ◌∷◌, ◌++◌, map, elem,
  is_empty, select, str_eq, eq_iff, arith, Bool-cases, inl, inr, ◌≢◌, ◌↔◌, ◌⊎◌, ◌&&◌, sym, ◌∙◌, Any,
  here, there,
}
use k8s_mcp.Base.Text.{split, strip, empty}
use k8s_mcp.Config.{
  text, Checked, ok, value_error, Settings, add_key, fromkeys, pieces, split_allowlist, ns_allowed,
}
use k8s_mcp.Config.Policy.{IsListed, ns_allowed_iff}
use mathlib.Core.List.{foldl}

-- No text stands in the list twice.
abbrev pub IsDistinct : List String → Type 0
IsDistinct [] = Unit
IsDistinct (x ∷ xs) = (elem x xs ≡ false) × IsDistinct xs

pub elem-append : (k : String) (xs ys : List String) → elem k (xs ++ ys) ≡ (elem k xs || elem k ys)
elem-append k [] ys = refl
elem-append k (x ∷ xs) ys = ground (arith, elem-append k xs ys)

IsDistinct-append :
    (xs : List String) (y : String) → IsDistinct xs → elem y xs ≡ false → IsDistinct (xs ++ y ∷ [])
IsDistinct-append [] y d h = (refl, tt)
IsDistinct-append (x ∷ xs) y d h = (
  ground (arith, elem-append x xs (y ∷ []), eq_iff x y, eq_iff y x, d.0),
  IsDistinct-append xs y d.1 (ground arith),
)

add_key-IsDistinct : (xs : List String) (y : String) → IsDistinct xs → IsDistinct (add_key xs y)
unfolding add_key
add_key-IsDistinct xs y d = elim (Bool-cases (elem y xs)) [
  | inl old ↦ rw old d
  | inr new ↦ rw new (IsDistinct-append xs y d new)
]

elem-add_key :
    (k : String) (xs : List String) (y : String) → elem k (add_key xs y) ≡ (elem k xs || str_eq k y)
unfolding add_key
elem-add_key k xs y = ground (arith, elem-append k xs (y ∷ []), eq_iff k y)

fold-IsDistinct : (seen xs : List String) → IsDistinct seen → IsDistinct (foldl add_key seen xs)
fold-IsDistinct seen [] d = d
fold-IsDistinct seen (x ∷ xs) d = fold-IsDistinct (add_key seen x) xs (add_key-IsDistinct seen x d)

elem-fold :
    (k : String) (seen xs : List String)
    → elem k (foldl add_key seen xs) ≡ (elem k seen || elem k xs)
elem-fold k seen [] = ground arith
elem-fold k seen (x ∷ xs) = ground (arith, elem-fold k (add_key seen x) xs, elem-add_key k seen x)

pub fromkeys-IsDistinct : (xs : List String) → IsDistinct (fromkeys xs)
unfolding fromkeys
fromkeys-IsDistinct xs = fold-IsDistinct [] xs tt

pub elem-fromkeys : (k : String) (xs : List String) → elem k (fromkeys xs) ≡ elem k xs
unfolding fromkeys
elem-fromkeys k xs = elem-fold k [] xs

-- `k` is what is left of some comma-separated part of `v` without the blanks around it, and is
-- not empty.
pub record IsPiece (v k : String) : Type 0 where
  pub nonempty : k ≢ empty
  pub part : Any (λ s. strip s ≡ k) (split b',' v)

mem-select :
    (k : String) (xs : List String)
    → elem k (select (λ s. not (str_eq s empty)) xs) ≡ (elem k xs && not (str_eq k empty))
mem-select k [] = refl
mem-select k (x ∷ xs) = ground (arith, mem-select k xs, eq_iff k x, eq_iff x empty, eq_iff k empty)

Any-of_elem-map :
    (k : String) (xs : List String) → elem k (map strip xs) ≡ true → Any (λ s. strip s ≡ k) xs
Any-of_elem-map k [] h = cc
Any-of_elem-map k (x ∷ xs) h = elim (Bool-cases (str_eq k (strip x))) [
  | inl e ↦ here (sym ((eq_iff k (strip x)).0 e))
  | inr e ↦ there (Any-of_elem-map k xs (rw e at h))
]

elem-map_of_Any :
    (k : String) {xs : List String} → Any (λ s. strip s ≡ k) xs → elem k (map strip xs) ≡ true
elem-map_of_Any k (here {x} {xs} e) = rw ((eq_iff k (strip x)).1 (sym e))
elem-map_of_Any k (there {x} {xs} m) = ground (arith, elem-map_of_Any k m)

IsPiece-of_elem : (v k : String) → elem k (pieces v) ≡ true → IsPiece v k
unfolding pieces
IsPiece-of_elem v k h =
    let e = mem-select k (map strip (split b',' v)) in
    record {
      nonempty = ground (arith, e, eq_iff k empty);
      part = Any-of_elem-map k (split b',' v) (ground (arith, e));
    }

elem-of_IsPiece : (v k : String) → IsPiece v k → elem k (pieces v) ≡ true
unfolding pieces
elem-of_IsPiece v k p = ground (
  arith,
  mem-select k (map strip (split b',' v)),
  eq_iff k empty,
  elem-map_of_Any k p.part,
  p.nonempty,
)

-- What an accepted allowlist of a text is: no empty list, nothing twice, and the pieces of `v`.
pub record IsAllowlistOf (v : String) (items : List String) : Type 0 where
  pub nonempty : is_empty items ≡ false
  pub distinct : IsDistinct items
  pub same : (k : String) → (elem k items ≡ true) ↔ IsPiece v k

abbrev pub Outcome : String → Checked (Option (List String)) → Type 0
Outcome v (ok none) = v ≡ empty
Outcome v (ok (some items)) = IsAllowlistOf v items
Outcome v value_error = (v ≢ empty) × ((k : String) → ¬ IsPiece v k)

fromkeys-empty : (xs : List String) (k : String) → is_empty (fromkeys xs) ≡ true → elem k xs ≡ false
fromkeys-empty xs k h = go (fromkeys xs) refl
  where
    go : (ys : List String) → fromkeys xs ≡ ys → elem k xs ≡ false
    go [] e = ground (arith, elem-fromkeys k xs)
    go (y ∷ ys) e = ground arith

-- Every text has one of three outcomes. It is read as "no limit" only if it is the empty text. It
-- gives a list only if that list is not empty, has no repetitions and holds exactly the nonempty
-- stripped parts of the text between commas. It is refused with a `ValueError` only if it is not
-- empty and has no such part.
pub split_allowlist_text : (v : String) → Outcome v (split_allowlist (text v))
unfolding split_allowlist
split_allowlist_text v = elim (Bool-cases (str_eq v empty)) [
  | inl e ↦ rw e ((eq_iff v empty).0 e)
  | inr e ↦ rw e (elim (Bool-cases (is_empty (fromkeys (pieces v)))) [
    | inl none_left ↦ rw none_left (
      ground (arith, eq_iff v empty),
      λ k p. cc (elem-of_IsPiece v k p, fromkeys-empty (pieces v) k none_left),
    )
    | inr some_left ↦ rw some_left (record {
      nonempty = some_left;
      distinct = fromkeys-IsDistinct (pieces v);
      same = λ k. (
        λ h. IsPiece-of_elem v k (sym (elem-fromkeys k (pieces v)) ∙ h),
        λ p. rw elem-fromkeys (elem-of_IsPiece v k p),
      );
    })
  ])
]

listed-IsPiece :
    (v : String) (limit : Option (List String)) (namespace : Option String)
    → v ≢ empty
    → Outcome v (ok limit)
    → (limit ≡ none) ⊎ IsListed limit namespace
    → (ns : String) × (namespace ≡ some ns) × IsPiece v ns
listed-IsPiece v none namespace filled o m = absurd (filled o)
listed-IsPiece v (some items) namespace filled o (inl e) = cc
listed-IsPiece v (some items) namespace filled o (inr l) =
    (l.ns, l.namespace_is, (o.same l.ns).0 (ground (arith, l.limit_is, l.mem)))

-- Whatever text other than the empty one the namespace allowlist was configured with, if the
-- settings were accepted and the guard lets a write through, then the write names a namespace, and
-- that namespace is one of the text's parts.
pub configured_policy :
    (s : Settings) (v : String) (namespace : Option String)
    → v ≢ empty
    → split_allowlist (text v) ≡ ok s.namespace_allowlist
    → ns_allowed s namespace ≡ true
    → (ns : String) × (namespace ≡ some ns) × IsPiece v ns
configured_policy s v namespace filled loaded h =
    listed-IsPiece v s.namespace_allowlist namespace filled (rw loaded at (split_allowlist_text v))
      ((ns_allowed_iff s namespace).0 h).scoped
