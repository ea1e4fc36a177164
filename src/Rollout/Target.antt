-- ===== src/Rollout/Target.antt =====
-- Which revision an undo goes back to, and when it cannot.
use k8s_mcp.Base.{
  ℕ, ◌≤◌, String, ◌≡◌, refl, true, false, Option, none, some, List, [], ◌∷◌, All, Any, here, there,
  leb, leb→le, leb→lt, str_eq, Bool-cases, inl, inr, ◌⊎◌, arith,
}
use k8s_mcp.Base.Text.{empty}
use k8s_mcp.Config.{Settings, ns_allowed}
use k8s_mcp.Nodes.Taints.{answer}
use k8s_mcp.Rollout.{
  Revision, RolloutApi, value_error, insert_desc, sorted_desc, qualifies, first_target,
  current_text, current_number, undo_among, undo_stateful_set, rollout_undo,
}

-- The newest revision of a list that qualifies, if any does.
abbrev pub Newest : ℕ → Option ℕ → List Revision → Option Revision → Type 0
Newest current to_revision revs none =
    All (λ (x : Revision). qualifies current to_revision x ≡ false) revs
Newest current to_revision revs (some r) =
    (qualifies current to_revision r ≡ true)
    × Any (λ (x : Revision). x ≡ r) revs
    × All (λ (x : Revision). qualifies current to_revision x ≡ true → x.revision ≤ r.revision) revs

module _ (P : Revision → Type 0) where
  All-insert_desc : (r : Revision) (xs : List Revision) → P r → All P xs → All P (insert_desc r xs)
  unfolding insert_desc
  All-insert_desc r [] p ps = (p, tt)
  All-insert_desc r (x ∷ xs) p (q, ps) = elim (Bool-cases (leb x.revision r.revision)) [
    | inl e ↦ rw (insert_desc, e) (p, (q, ps))
    | inr e ↦ rw (insert_desc, e) (q, All-insert_desc r xs p ps)
  ]

  uninserted : (r : Revision) (xs : List Revision) → All P (insert_desc r xs) → P r × All P xs
  unfolding insert_desc
  uninserted r [] h = h
  uninserted r (x ∷ xs) h = elim (Bool-cases (leb x.revision r.revision)) [
    | inl e ↦ rw (insert_desc, e) at h
    | inr e ↦
        let (q, rest) : P x × All P (insert_desc r xs) = rw (insert_desc, e) at h in
        let (p, ps) = uninserted r xs rest in (p, (q, ps))
  ]

  some_inserted : (r : Revision) (xs : List Revision) → Any P (insert_desc r xs) → P r ⊎ Any P xs
  unfolding insert_desc
  some_inserted r [] (here p) = inl p
  some_inserted r [] (there h) = elim h [ ]
  some_inserted r (x ∷ xs) h = elim (Bool-cases (leb x.revision r.revision)) [
    | inl e ↦ some_cons r (x ∷ xs) (rw (insert_desc, e) at h)
    | inr e ↦ elim (some_cons x (insert_desc r xs) (rw (insert_desc, e) at h)) [
      | inl p ↦ inr (here p)
      | inr later ↦ elim (some_inserted r xs later) [ inl p ↦ inl p | inr q ↦ inr (there q) ]
    ]
  ]
    where
      some_cons : (y : Revision) (ys : List Revision) → Any P (y ∷ ys) → P y ⊎ Any P ys
      some_cons y ys (here p) = inl p
      some_cons y ys (there q) = inr q

  unsorted : (xs : List Revision) → All P (sorted_desc xs) → All P xs
  unfolding sorted_desc
  unsorted [] h = h
  unsorted (x ∷ xs) h = let (p, rest) = uninserted x (sorted_desc xs) h in (p, unsorted xs rest)

  some_unsorted : (xs : List Revision) → Any P (sorted_desc xs) → Any P xs
  unfolding sorted_desc
  some_unsorted [] h = h
  some_unsorted (x ∷ xs) h = elim (some_inserted x (sorted_desc xs) h) [
    | inl p ↦ here p
    | inr q ↦ there (some_unsorted xs q)
  ]

-- From the newest to the oldest.
abbrev Desc : List Revision → Type 0
Desc [] = Unit
Desc (x ∷ xs) = All (λ (y : Revision). y.revision ≤ x.revision) xs × Desc xs

All-trans :
    (a b : ℕ) (xs : List Revision)
    → a ≤ b
    → All (λ (y : Revision). y.revision ≤ a) xs
    → All (λ (y : Revision). y.revision ≤ b) xs
All-trans a b [] h ps = tt
All-trans a b (x ∷ xs) h (p, ps) = (omega (arith, p, h), All-trans a b xs h ps)

insert_desc-Desc : (r : Revision) (xs : List Revision) → Desc xs → Desc (insert_desc r xs)
unfolding insert_desc
insert_desc-Desc r [] d = (tt, tt)
insert_desc-Desc r (x ∷ xs) (top, d) = elim (Bool-cases (leb x.revision r.revision)) [
  | inl e ↦
      let low : x.revision ≤ r.revision = leb→le x.revision r.revision e in
      rw (insert_desc, e) ((low, All-trans x.revision r.revision xs low top), (top, d))
  | inr e ↦
      let high : r.revision ≤ x.revision = omega (arith, leb→lt x.revision r.revision e) in
      rw (insert_desc, e)
        (
          All-insert_desc (λ (y : Revision). y.revision ≤ x.revision) r xs high top,
          insert_desc-Desc r xs d,
        )
]

sorted_desc-Desc : (xs : List Revision) → Desc (sorted_desc xs)
unfolding sorted_desc
sorted_desc-Desc [] = tt
sorted_desc-Desc (x ∷ xs) = insert_desc-Desc x (sorted_desc xs) (sorted_desc-Desc xs)

module _ (current : ℕ) (to_revision : Option ℕ) where
  low_each :
      (n : ℕ) (xs : List Revision)
      → All (λ (y : Revision). y.revision ≤ n) xs
      → All (λ (x : Revision). qualifies current to_revision x ≡ true → x.revision ≤ n) xs
  low_each n [] ps = tt
  low_each n (x ∷ xs) (p, ps) = (λ q. p, low_each n xs ps)

  later :
      (x : Revision) (xs : List Revision) (o : Option Revision)
      → qualifies current to_revision x ≡ false
      → Newest current to_revision xs o
      → Newest current to_revision (x ∷ xs) o
  later x xs none miss h = (miss, h)
  later x xs (some r) miss (q, mem, rest) = (q, there mem, (λ hit. cc (hit, miss), rest))

  first_target-Newest :
      (xs : List Revision)
      → Desc xs
      → Newest current to_revision xs (first_target current to_revision xs)
  unfolding first_target
  first_target-Newest [] d = tt
  first_target-Newest (x ∷ xs) (top, d) = elim (Bool-cases (qualifies current to_revision x)) [
    | inl hit ↦ rw hit (hit, here refl, (λ q. omega arith, low_each x.revision xs top))
    | inr miss ↦
        rw miss (later x xs (first_target current to_revision xs) miss (first_target-Newest xs d))
  ]

  unsorted-Newest :
      (xs : List Revision) (o : Option Revision)
      → Newest current to_revision (sorted_desc xs) o
      → Newest current to_revision xs o
  unsorted-Newest xs none h =
      unsorted (λ (x : Revision). qualifies current to_revision x ≡ false) xs h
  unsorted-Newest xs (some r) (q, mem, rest) = (
    q,
    some_unsorted (λ (x : Revision). x ≡ r) xs mem,
    unsorted (λ (x : Revision). qualifies current to_revision x ≡ true → x.revision ≤ r.revision) xs
        rest,
  )

  -- The revision that an undo picks is the newest one of the list below the current one, or the
  -- one of the requested number below it; none is picked exactly if there is none.
  pub first_target_lem :
      (revs : List Revision)
      → Newest current to_revision revs (first_target current to_revision (sorted_desc revs))
  first_target_lem revs =
      unsorted-Newest revs (first_target current to_revision (sorted_desc revs))
        (first_target-Newest (sorted_desc revs) (sorted_desc-Desc revs))

undo_fails :
    (parse_int : String → Option ℕ) (api : RolloutApi) (s : api.Store) (name namespace : String)
    (to_revision : Option ℕ) (current : Option String) (r : Revision) (revs : List Revision)
    → api.read s namespace name ≡ answer current
    → api.revisions s namespace ≡ answer (r ∷ revs)
    → str_eq (current_text current) empty ≡ false
    → parse_int (current_text current) ≡ none
    → undo_stateful_set parse_int api s name namespace to_revision ≡ value_error
unfolding undo_stateful_set undo_among current_number
undo_fails parse_int api s name namespace to_revision current r revs now listed given named =
    rw (undo_stateful_set, now, listed, undo_among, current_number, given, named) refl

-- If the text of the current revision of a stateful set is not empty and not a number, as a
-- revision's name is not, a permitted undo raises `ValueError` whenever the namespace has any revision.
pub named_revision_fails :
    (parse_int : String → Option ℕ) (api : RolloutApi) (settings : Settings)
    (lower : String → String) (kind name namespace : String) (to_revision : Option ℕ)
    (s : api.Store) (current : Option String) (r : Revision) (revs : List Revision)
    → settings.read_only ≡ false
    → ns_allowed settings (some namespace) ≡ true
    → lower kind ≡ "statefulset"
    → api.read s namespace name ≡ answer current
    → api.revisions s namespace ≡ answer (r ∷ revs)
    → str_eq (current_text current) empty ≡ false
    → parse_int (current_text current) ≡ none
    → rollout_undo parse_int api settings lower kind name namespace to_revision s ≡ value_error
unfolding rollout_undo
named_revision_fails parse_int api settings lower kind name namespace to_revision s current r revs
      writable permitted stateful now listed given named =
    rw (permitted, writable, stateful)
      (undo_fails parse_int api s name namespace to_revision current r revs now listed given named)
