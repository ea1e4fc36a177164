-- ===== src/NetworkPolicy/Isolation.antt =====
-- Which pods are isolated, by the rule of Kubernetes, and that both views report it.
use k8s_mcp.Base.{
  String, ◌≡◌, ◌↔◌, inl, inr, refl, true, false, not, Option, none, some, List, [], ◌∷◌, map, elem,
  is_empty, select, length, str_eq, eq_iff, arith, Bool-cases, Any, here, there,
}
use k8s_mcp.NetworkPolicy.{
  Labels, Selector, Spec, Policy, or_nil, is_falsy, spec_of, selector_matches, policy_types,
  selecting_policies, isolated, view_posture, pod_posture, Row, coverage_row, coverage_rows,
  deny_all, ingress_cell,
}
use k8s_mcp.NetworkPolicy.Selectors.{Selects, selector_matches_iff}

abbrev pub Selected : Option Selector → Labels → Type 0
Selected none labels = Unit
Selected (some s) labels = Selects s labels

-- The directions that a policy governs: those that it declares, or, where it declares none,
-- ingress, and egress if it has egress rules.
pub data Governs (s : Spec) : String → Type 0 where
  declared : (d : String) → elem d (or_nil s.policy_types) ≡ true → Governs s d
  by_default : is_falsy s.policy_types ≡ true → Governs s "Ingress"
  by_rules : is_falsy s.policy_types ≡ true → is_falsy s.egress ≡ false → Governs s "Egress"

-- The policy applies to the pod, in that direction.
pub record Isolates (direction : String) (labels : Labels) (p : Policy) : Type 0 where
  pub selected : Selected (spec_of p).pod_selector labels
  pub governed : Governs (spec_of p) direction

only : (d x : String) → elem d (x ∷ []) ≡ true → d ≡ x
only d x h = ground (arith, eq_iff d x)

elem_nonempty : (d : String) (xs : List String) → elem d xs ≡ true → is_empty xs ≡ false
elem_nonempty d [] h = cc
elem_nonempty d (x ∷ xs) h = refl

policy_types_sound :
    (d : String) (p : Policy) → elem d (policy_types p) ≡ true → Governs (spec_of p) d
unfolding policy_types
policy_types_sound d p h = elim (Bool-cases (is_falsy (spec_of p).policy_types)) [
  | inr given ↦ declared d (rw given at h)
  | inl absent ↦ elim (Bool-cases (is_falsy (spec_of p).egress)) [
    | inl none_out ↦
        let e : d ≡ "Ingress" = only d "Ingress" (rw (absent, none_out) at h) in
        rw e (by_default absent)
    | inr some_out ↦ elim (Bool-cases (str_eq d "Ingress")) [
      | inl i ↦ rw ((eq_iff d "Ingress").0 i) (by_default absent)
      | inr o ↦
          let e : d ≡ "Egress" = only d "Egress" (rw (absent, some_out, o) at h) in
          rw e (by_rules absent some_out)
    ]
  ]
]

policy_types_complete :
    (d : String) (p : Policy) → Governs (spec_of p) d → elem d (policy_types p) ≡ true
unfolding policy_types
policy_types_complete d p (declared d' m) =
    rw (elem_nonempty d (or_nil (spec_of p).policy_types) m) m
policy_types_complete d p (by_default m) =
    rw m (elim (Bool-cases (is_falsy (spec_of p).egress)) [ inl e ↦ rw e refl | inr e ↦ rw e refl ])
policy_types_complete d p (by_rules m r) = rw (m, r) refl

Selected-iff :
    (o : Option Selector) (labels : Labels) → (selector_matches o labels ≡ true) ↔ Selected o labels
unfolding selector_matches
Selected-iff none labels = (λ h. tt, λ h. refl)
Selected-iff (some s) labels = selector_matches_iff s labels

module _ (direction : String) (labels : Labels) where
  isolated_sound :
      (ps : List Policy)
      → isolated direction (selecting_policies ps labels) ≡ true
      → Any (Isolates direction labels) ps
  unfolding isolated selecting_policies
  isolated_sound [] h = cc
  isolated_sound (p ∷ ps) h = elim (Bool-cases (selector_matches (spec_of p).pod_selector labels)) [
    | inr out ↦ there (isolated_sound ps (rw out at h))
    | inl chosen ↦ elim (Bool-cases (elem direction (policy_types p))) [
      | inl listed ↦ here (record {
        selected = (Selected-iff (spec_of p).pod_selector labels).0 chosen;
        governed = policy_types_sound direction p listed;
      })
      | inr other ↦ there (isolated_sound ps (ground (arith, chosen, other, h)))
    ]
  ]

  isolated_complete :
      {ps : List Policy}
      → Any (Isolates direction labels) ps
      → isolated direction (selecting_policies ps labels) ≡ true
  unfolding isolated selecting_policies
  isolated_complete (here {x} {xs} i) = ground (
    arith,
    (Selected-iff (spec_of x).pod_selector labels).1 i.selected,
    policy_types_complete direction x i.governed,
  )
  isolated_complete (there {x} {xs} later) = ground (arith, isolated_complete later)

pub view_posture-eq-isolated :
    (ss : List Policy)
    → ((view_posture ss).ingress_isolated ≡ isolated "Ingress" ss)
      × ((view_posture ss).egress_isolated ≡ isolated "Egress" ss)
unfolding view_posture isolated
view_posture-eq-isolated [] = (refl, refl)
view_posture-eq-isolated (s ∷ ss) = (refl, refl)

-- The pod view calls a pod isolated for ingress exactly if some policy of the namespace selects it
-- and governs ingress, and likewise for egress: a policy governs the directions that it declares;
-- one that declares none governs ingress, and egress if it has egress rules.
pub pod_posture_iff :
    (ps : List Policy) (labels : Labels)
    → (((pod_posture ps labels).ingress_isolated ≡ true) ↔ Any (Isolates "Ingress" labels) ps)
      × (((pod_posture ps labels).egress_isolated ≡ true) ↔ Any (Isolates "Egress" labels) ps)
unfolding pod_posture
pod_posture_iff ps labels =
    let (i, e) = view_posture-eq-isolated (selecting_policies ps labels) in
    (
      (
        λ h. isolated_sound "Ingress" labels ps (rw i at h),
        λ a. rw i (isolated_complete "Ingress" labels a),
      ),
      (
        λ h. isolated_sound "Egress" labels ps (rw e at h),
        λ a. rw e (isolated_complete "Egress" labels a),
      ),
    )

-- The row that belongs to the pod view.
abbrev pub row_of : List Policy → String × Labels → Row
row_of ps pod = record {
  pod = pod.0;
  ingress_covered = (pod_posture ps pod.1).ingress_isolated;
  egress_covered = (pod_posture ps pod.1).egress_isolated;
}

coverage_row-eq-row_of :
    (ps : List Policy) (pod : String × Labels) → coverage_row ps pod ≡ row_of ps pod
unfolding coverage_row pod_posture
coverage_row-eq-row_of ps (name, labels) =
    let (i, e) = view_posture-eq-isolated (selecting_policies ps labels) in rw (i, e) refl

-- The coverage view has a row for each pod, in order, with the posture that the pod view gives for
-- that pod, and its exposure count is the number of pods that the pod view calls open for ingress.
pub coverage_rows-pod_posture :
    (ps : List Policy) (pods : List (String × Labels))
    → ((coverage_rows ps pods).0 ≡ map (row_of ps) pods)
      × ((coverage_rows ps pods).1
          ≡ length (select (λ pod. not (pod_posture ps pod.1).ingress_isolated) pods))
unfolding coverage_rows
coverage_rows-pod_posture ps [] = (refl, refl)
coverage_rows-pod_posture ps (pod ∷ pods) =
    let (rows, open_) = coverage_rows-pod_posture ps pods in
    let row = coverage_row-eq-row_of ps pod in (rw (row, rows) refl, rw (row, open_) (ground arith))

isolated_by_none :
    (p : Policy) (labels : Labels)
    → elem "Ingress" (policy_types p) ≡ false
    → (pod_posture (p ∷ []) labels).ingress_isolated ≡ false
unfolding pod_posture
isolated_by_none p labels h =
    rw (view_posture-eq-isolated (selecting_policies (p ∷ []) labels)).0
      (unfold isolated selecting_policies in ground arith)

-- A policy that declares directions, ingress not among them, and has an empty list of ingress rules
-- is listed as denying all ingress, and isolates no pod for ingress.
pub ingress_cell_misleads :
    (p : Policy) (labels : Labels)
    → is_falsy (spec_of p).policy_types ≡ false
    → elem "Ingress" (or_nil (spec_of p).policy_types) ≡ false
    → (spec_of p).ingress ≡ some []
    → (ingress_cell p ≡ deny_all) × ((pod_posture (p ∷ []) labels).ingress_isolated ≡ false)
unfolding ingress_cell
ingress_cell_misleads p labels given unlisted empty_rules =
    (rw empty_rules refl, isolated_by_none p labels (unfold policy_types in rw given unlisted))
