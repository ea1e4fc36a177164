-- ===== src/NetworkPolicy/Selectors.antt =====
-- The meaning of a label selector, and that the code decides it.
use k8s_mcp.Base.{
  String, ◌≡◌, ◌≢◌, ◌↔◌, inl, inr, refl, true, false, Option, none, some, List, [], ◌∷◌, all, elem,
  lookup, str_eq, eq_iff, eq_refl, arith, Bool-cases, Option-cases, All, and-eq-true, ap,
}
use k8s_mcp.NetworkPolicy.{
  Labels, Expr, Selector, or_nil, label, op_is, expr_matches, labels_match, selector_matches,
}

-- What a requirement asks of a pod's labels. An unknown operator asks nothing.
pub data Holds (labels : Labels) (e : Expr) : Type 0 where
  within :
      (v : String)
      → e.operator ≡ some "In"
      → label e.key labels ≡ some v
      → elem v (or_nil e.values) ≡ true
      → Holds labels e
  unlabelled : e.operator ≡ some "NotIn" → label e.key labels ≡ none → Holds labels e
  outside :
      (v : String)
      → e.operator ≡ some "NotIn"
      → label e.key labels ≡ some v
      → elem v (or_nil e.values) ≡ false
      → Holds labels e
  labelled :
      (v : String) → e.operator ≡ some "Exists" → label e.key labels ≡ some v → Holds labels e
  missing : e.operator ≡ some "DoesNotExist" → label e.key labels ≡ none → Holds labels e
  unknown :
      e.operator ≢ some "In"
      → e.operator ≢ some "NotIn"
      → e.operator ≢ some "Exists"
      → e.operator ≢ some "DoesNotExist"
      → Holds labels e

-- What a selector asks: the labels that it lists, with their values, and each of its requirements.
pub record Selects (s : Selector) (labels : Labels) : Type 0 where
  pub labels_are :
      All (λ (l : String × String). lookup l.0 labels ≡ some l.1) (or_nil s.match_labels)
  pub exprs_hold : All (Holds labels) (or_nil s.match_expressions)

eq_of_op_is : (o : Option String) (name : String) → op_is o name ≡ true → o ≡ some name
eq_of_op_is none name h = cc
eq_of_op_is (some s) name h = ap some ((eq_iff s name).0 h)

op_is_of_eq : (o : Option String) (name : String) → o ≡ some name → op_is o name ≡ true
op_is_of_eq o name h = rw h (eq_refl name)

op_is_of_ne : (o : Option String) (name : String) → o ≢ some name → op_is o name ≡ false
op_is_of_ne o name h = elim (Bool-cases (op_is o name)) [
  | inl e ↦ absurd (h (eq_of_op_is o name e))
  | inr e ↦ e
]

op_is_other :
    (o : Option String) (a b : String) → o ≡ some a → str_eq a b ≡ false → op_is o b ≡ false
op_is_other o a b h d = rw h d

module _ (labels : Labels) (e : Expr) where
  expr_matches_complete : Holds labels e → expr_matches e labels ≡ true
  unfolding expr_matches
  expr_matches_complete (within v o l m) = rw (o, l) m
  expr_matches_complete (unlabelled o l) = rw (o, l) refl
  expr_matches_complete (outside v o l m) = rw (o, l, m) refl
  expr_matches_complete (labelled v o l) = rw (o, l) refl
  expr_matches_complete (missing o l) = rw (o, l) refl
  expr_matches_complete (unknown a b c d) =
      rw
        (
          op_is_of_ne e.operator "In" a,
          op_is_of_ne e.operator "NotIn" b,
          op_is_of_ne e.operator "Exists" c,
          op_is_of_ne e.operator "DoesNotExist" d,
        )
        refl

  ne_of_op_is : (name : String) → op_is e.operator name ≡ false → e.operator ≢ some name
  ne_of_op_is name h p = cc (op_is_of_eq e.operator name p)

  expr_matches_sound : expr_matches e labels ≡ true → Holds labels e
  unfolding expr_matches
  expr_matches_sound h = elim (Bool-cases (op_is e.operator "In")) [
    | inl a ↦ elim (Option-cases (label e.key labels)) [
      | inl l ↦ cc (rw (a, l) at h)
      | inr (v, l) ↦ within v (eq_of_op_is e.operator "In" a) l (rw (a, l) at h)
    ]
    | inr a ↦ elim (Bool-cases (op_is e.operator "NotIn")) [
      | inl b ↦ elim (Option-cases (label e.key labels)) [
        | inl l ↦ unlabelled (eq_of_op_is e.operator "NotIn" b) l
        | inr (v, l) ↦ outside v (eq_of_op_is e.operator "NotIn" b) l (ground (arith, a, b, l, h))
      ]
      | inr b ↦ elim (Bool-cases (op_is e.operator "Exists")) [
        | inl c ↦ elim (Option-cases (label e.key labels)) [
          | inl l ↦ cc (rw (a, b, c, l) at h)
          | inr (v, l) ↦ labelled v (eq_of_op_is e.operator "Exists" c) l
        ]
        | inr c ↦ elim (Bool-cases (op_is e.operator "DoesNotExist")) [
          | inl d ↦ elim (Option-cases (label e.key labels)) [
            | inl l ↦ missing (eq_of_op_is e.operator "DoesNotExist" d) l
            | inr (v, l) ↦ cc (rw (a, b, c, d, l) at h)
          ]
          | inr d ↦
              unknown (ne_of_op_is "In" a) (ne_of_op_is "NotIn" b) (ne_of_op_is "Exists" c)
                (ne_of_op_is "DoesNotExist" d)
        ]
      ]
    ]
  ]

labels_match_sound :
    (want labels : Labels)
    → labels_match want labels ≡ true
    → All (λ (l : String × String). lookup l.0 labels ≡ some l.1) want
unfolding labels_match
labels_match_sound [] labels h = tt
labels_match_sound ((k, v) ∷ rest) labels h = elim (Option-cases (lookup k labels)) [
  | inl l ↦ cc (rw (l, labels_match) at h)
  | inr (w, l) ↦ (ground (arith, l, eq_iff w v), labels_match_sound rest labels (ground (arith, l)))
]

labels_match_complete :
    (want labels : Labels)
    → All (λ (l : String × String). lookup l.0 labels ≡ some l.1) want
    → labels_match want labels ≡ true
unfolding labels_match
labels_match_complete [] labels h = refl
labels_match_complete ((k, v) ∷ rest) labels (l, h) =
    ground (arith, l, eq_refl v, labels_match_complete rest labels h)

exprs_sound :
    (labels : Labels) (es : List Expr)
    → all (λ e. expr_matches e labels) es ≡ true
    → All (Holds labels) es
exprs_sound labels [] h = tt
exprs_sound labels (e ∷ es) h =
    let (a, b) = and-eq-true (expr_matches e labels) (all (λ x. expr_matches x labels) es) h in
    (expr_matches_sound labels e a, exprs_sound labels es b)

exprs_complete :
    (labels : Labels) (es : List Expr)
    → All (Holds labels) es
    → all (λ e. expr_matches e labels) es ≡ true
exprs_complete labels [] h = refl
exprs_complete labels (e ∷ es) (a, h) =
    rw (expr_matches_complete labels e a) (exprs_complete labels es h)

-- A selector is answered true exactly if it selects the labels: each label that it lists is there
-- with that value, and each of its requirements holds.
pub selector_matches_iff :
    (s : Selector) (labels : Labels) → (selector_matches (some s) labels ≡ true) ↔ Selects s labels
unfolding selector_matches
selector_matches_iff s labels = (
  λ h. elim (Bool-cases (labels_match (or_nil s.match_labels) labels)) [
    | inl a ↦ record {
      labels_are = labels_match_sound (or_nil s.match_labels) labels a;
      exprs_hold = exprs_sound labels (or_nil s.match_expressions) (rw a at h);
    }
    | inr a ↦ cc (rw a at h)
  ],
  λ m.
      rw (labels_match_complete (or_nil s.match_labels) labels m.labels_are)
        (exprs_complete labels (or_nil s.match_expressions) m.exprs_hold),
)
