-- ===== src/Generic/Diff/Faithful.antt =====
-- The preview shows every difference that is not the server's own.
use Prim.Native.Nat.{Ordering}
use Prim.Native.String.{compare}
use k8s_mcp.Base.{
  String, ◌≡◌, ◌↔◌, refl, sym, ◌∙◌, Bool, true, false, ◌||◌, Option, none, some, List, [], ◌∷◌,
  ◌++◌, elem, str_eq, eq_iff, Bool-cases, inl, inr, arith,
}
use k8s_mcp.Base.Json.{Json, Fields, end, field, get, keys}
use k8s_mcp.Generic.Diff.{
  strip_server, insert_key, sorted_union, not_null, Line, line_for, diff_keys, structural_diff,
}

elem-insert_key :
    (x k : String) (js : List String) → elem x (insert_key k js) ≡ (str_eq x k || elem x js)
unfolding insert_key
elem-insert_key x k [] = refl
elem-insert_key x k (j ∷ js) =
    let rest = elem-insert_key x k js in
    elim (compare k j)
        as (λ o.
          compare k j ≡ o → elem x (insert_key k (j ∷ js)) ≡ (str_eq x k || elem x (j ∷ js))) [
            | Ordering.lt ↦ λ e. rw (insert_key, e) refl
            | Ordering.gt ↦ λ e. rw (insert_key, e) (ground (arith, rest))
            | Ordering.eq ↦ λ e.
                let same : str_eq k j ≡ true = rw e refl in
                rw (insert_key, e, (eq_iff k j).0 same) (ground arith)
          ]
      refl

elem-sorted_union :
    (x : String) (ks js : List String) → elem x (sorted_union ks js) ≡ (elem x ks || elem x js)
unfolding sorted_union
elem-sorted_union x [] [] = refl
elem-sorted_union x [] (j ∷ js) =
    ground (arith, elem-insert_key x j (sorted_union [] js), elem-sorted_union x [] js)
elem-sorted_union x (k ∷ ks) js =
    ground (arith, elem-insert_key x k (sorted_union ks js), elem-sorted_union x ks js)

-- A key that is not listed has no value.
get-keys : (k : String) (fs : Fields) → elem k (keys fs) ≡ false → get k fs ≡ none
get-keys k end h = refl
get-keys k (field j v fs) h = ground (arith, eq_iff j k, eq_iff k j, get-keys k fs)

module _ (same : Json → Json → Bool) where
  -- Two values that the preview takes as equal.
  abbrev pub agree : Option Json → Option Json → Bool
  agree none none = true
  agree none (some w) = false
  agree (some v) none = false
  agree (some v) (some w) = same v w

  -- All entries but the status agree, nulls being as good as missing.
  abbrev pub Agree : Fields → Fields → Type 0
  Agree old new =
      (k : String)
      → str_eq k "status" ≡ false
      → agree (not_null (get k old)) (not_null (get k new)) ≡ true

  line_for-agree : (k : String) (a b : Option Json) → agree a b ≡ true → line_for same k a b ≡ []
  unfolding line_for
  line_for-agree k none none h = refl
  line_for-agree k none (some w) h = cc
  line_for-agree k (some v) none h = cc
  line_for-agree k (some v) (some w) h = rw h refl

  agree-line_for :
      (k : String) (a b : Option Json) (rest : List Line)
      → line_for same k a b ++ rest ≡ []
      → agree a b ≡ true
  unfolding line_for
  agree-line_for k none none rest h = refl
  agree-line_for k none (some w) rest h = cc
  agree-line_for k (some v) none rest h = cc
  agree-line_for k (some v) (some w) rest h = elim (Bool-cases (same v w)) [
    | inl e ↦ e
    | inr e ↦ cc (rw (line_for, e) at h)
  ]

  no_lines : (old new : Fields) (ks : List String) → Agree old new → diff_keys same old new ks ≡ []
  unfolding diff_keys
  no_lines old new [] h = refl
  no_lines old new (k ∷ ks) h = elim (Bool-cases (str_eq k "status")) [
    | inl e ↦ rw e (no_lines old new ks h)
    | inr e ↦
        rw (e, line_for-agree k (not_null (get k old)) (not_null (get k new)) (h k e))
          (no_lines old new ks h)
  ]

  rest_nil : (xs ys : List Line) → xs ++ ys ≡ [] → ys ≡ []
  rest_nil [] ys h = h
  rest_nil (x ∷ xs) ys h = cc

  agree_at :
      (old new : Fields) (ks : List String) (k : String)
      → diff_keys same old new ks ≡ []
      → elem k ks ≡ true
      → str_eq k "status" ≡ false
      → agree (not_null (get k old)) (not_null (get k new)) ≡ true
  unfolding diff_keys
  agree_at old new [] k h listed plain = cc
  agree_at old new (j ∷ ks) k h listed plain = elim (Bool-cases (str_eq j "status")) [
    | inl e ↦ agree_at old new ks k (rw e at h) (ground (arith, eq_iff k j, e, plain)) plain
    | inr e ↦
        let shown = rw e at h in
        elim (Bool-cases (str_eq k j)) [
          | inl this ↦ rw ((eq_iff k j).0 this) (
              agree-line_for j (not_null (get j old)) (not_null (get j new))
                (diff_keys same old new ks) shown)
          | inr other ↦
              agree_at old new ks k
                (rest_nil (line_for same j (not_null (get j old)) (not_null (get j new)))
                  (diff_keys same old new ks) shown)
                (ground (arith, other)) plain
        ]
  ]

  -- The preview of a document shows no difference exactly if the document and the resource agree on
  -- every entry but the status, once the server's own metadata is taken out of both: each entry has
  -- equal values, or is missing or null in both.
  pub structural_diff_iff :
      (old new : Fields)
      → (structural_diff same old new ≡ []) ↔ Agree (strip_server old) (strip_server new)
  unfolding structural_diff
  structural_diff_iff old new =
      let a = strip_server old in
      let b = strip_server new in
      (
        λ h k plain. elim (Bool-cases (elem k (sorted_union (keys a) (keys b)))) [
          | inl listed ↦ agree_at a b (sorted_union (keys a) (keys b)) k h listed plain
          | inr unlisted ↦
              let nowhere : (elem k (keys a) || elem k (keys b)) ≡ false =
                sym (elem-sorted_union k (keys a) (keys b)) ∙ unlisted in
              rw (get-keys k a (ground (arith, nowhere)), get-keys k b (ground (arith, nowhere)))
                refl
        ],
        no_lines a b (sorted_union (keys a) (keys b)),
      )
