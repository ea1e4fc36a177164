-- ===== src/NetworkPolicy/Created.antt =====
-- The policies that `create_networkpolicy` builds.
use k8s_mcp.Base.{
  String, ◌≡◌, refl, Bool, true, false, ◌&&◌, ◌||◌, Option, none, some, List, [], ◌∷◌, all, elem,
  is_empty, is_some, arith, if◌then◌else◌, not, ◌∙◌,
}
use k8s_mcp.NetworkPolicy.{
  Labels, Selector, Rule, Policy, spec_of, selector_matches, labels_match, policy_types,
  selecting_policies, isolated, pod_posture, ok, value_error, normalize_rules, normalize_optional,
  create_networkpolicy,
}
use k8s_mcp.NetworkPolicy.Isolation.{view_posture-eq-isolated}

-- A rule restricts something: peers or ports.
abbrev pub restricts : Rule → Bool
restricts r = is_some r.from_peers || (is_some r.to_peers || is_some r.ports)

abbrev pub all_restrict : Option (List Rule) → Bool
all_restrict none = true
all_restrict (some rs) = all restricts rs

-- The policy that a valid request asks for, its rules as they were given.
abbrev pub requested :
    String → Selector → List String → Option (List Rule) → Option (List Rule) → Policy
requested name pod_selector types ingress egress = record {
  name = some name;
  spec = some (record {
    pod_selector = some pod_selector;
    policy_types = some types;
    ingress = ingress;
    egress = egress;
  });
}

abbrev pub is_direction : String → Bool
is_direction t = elem t ("Ingress" ∷ "Egress" ∷ [])

normalize_rules_lem :
    (rs : List Rule) → normalize_rules rs ≡ (if all restricts rs then ok rs else value_error)
unfolding normalize_rules
normalize_rules_lem [] = refl
normalize_rules_lem (r ∷ rs) = ground (arith, normalize_rules_lem rs)

normalize_optional_lem :
    (o : Option (List Rule)) → normalize_optional o ≡ (if all_restrict o then ok o else value_error)
normalize_optional_lem none = refl
normalize_optional_lem (some rs) = ground (arith, normalize_rules_lem rs)

-- A request is turned into the policy that it asks for, unchanged, exactly if it names at least one
-- direction, names no other word as a direction, and each of its rules has peers or ports. Any other
-- request raises `ValueError`.
create_networkpolicy_lem :
    (name : String) (pod_selector : Selector) (types : List String)
    (ingress egress : Option (List Rule))
    → create_networkpolicy name pod_selector types ingress egress ≡ (
        if (not (is_empty types) && all is_direction types)
          && (all_restrict ingress && all_restrict egress)
        then ok (requested name pod_selector types ingress egress)
        else value_error)
unfolding create_networkpolicy
create_networkpolicy_lem name pod_selector types ingress egress =
    ground (arith, normalize_optional_lem ingress, normalize_optional_lem egress)

isolated_by_one :
    (direction : String) (p : Policy) (labels : Labels)
    → isolated direction (selecting_policies (p ∷ []) labels)
      ≡ (selector_matches (spec_of p).pod_selector labels && elem direction (policy_types p))
unfolding isolated selecting_policies
isolated_by_one direction p labels = ground arith

isolated-requested :
    (direction name : String) (pod_selector : Selector) (types : List String)
    (ingress egress : Option (List Rule)) (labels : Labels)
    → is_empty types ≡ false
    → isolated direction
        (selecting_policies (requested name pod_selector types ingress egress ∷ []) labels)
      ≡ (selector_matches (some pod_selector) labels && elem direction types)
unfolding policy_types
isolated-requested direction name pod_selector types ingress egress labels given =
    rw isolated_by_one (rw given (ground arith))

if_ok :
    {A : Type 0} (b : Bool) (x y : A)
    → (if b then ok x else value_error) ≡ ok y
    → (b ≡ true) × (y ≡ x)
if_ok true x y h = (refl, cc)
if_ok false x y h = cc

-- A policy that `create_networkpolicy` builds isolates a pod, in the eyes of the analyzer, exactly
-- if the given dictionary, read as a selector, matches the pod, and in exactly the requested
-- directions.
created_posture :
    (name : String) (pod_selector : Selector) (types : List String)
    (ingress egress : Option (List Rule)) (p : Policy) (labels : Labels)
    → create_networkpolicy name pod_selector types ingress egress ≡ ok p
    → ((pod_posture (p ∷ []) labels).ingress_isolated
        ≡ (selector_matches (some pod_selector) labels && elem "Ingress" types))
      × ((pod_posture (p ∷ []) labels).egress_isolated
          ≡ (selector_matches (some pod_selector) labels && elem "Egress" types))
created_posture name pod_selector types ingress egress p labels h =
    let made = requested name pod_selector types ingress egress in
    let (valid, is_made) = if_ok _ made p (rw create_networkpolicy_lem at h) in
    let given : is_empty types ≡ false = ground arith in
    let (i, e) = view_posture-eq-isolated (selecting_policies (made ∷ []) labels) in
    rw is_made (
      unfold pod_posture in
      (
        i ∙ isolated-requested "Ingress" name pod_selector types ingress egress labels given,
        e ∙ isolated-requested "Egress" name pod_selector types ingress egress labels given,
      ))

-- A dictionary of labels, without the keys `matchLabels` and `matchExpressions`.
abbrev pub flat : Labels → Selector
flat labels = record { match_labels = none; match_expressions = none; others = labels }

flat-matches : (wanted labels : Labels) → selector_matches (some (flat wanted)) labels ≡ true
unfolding selector_matches labels_match
flat-matches wanted labels = refl

-- If the pod selector is given as plain labels, whatever they are, the policy that
-- `create_networkpolicy` builds selects every pod: in the eyes of the analyzer it isolates a pod with
-- any labels, in exactly the requested directions.
pub flat_selector_isolates_all :
    (name : String) (wanted : Labels) (types : List String) (ingress egress : Option (List Rule))
    (p : Policy) (labels : Labels)
    → create_networkpolicy name (flat wanted) types ingress egress ≡ ok p
    → ((pod_posture (p ∷ []) labels).ingress_isolated ≡ elem "Ingress" types)
      × ((pod_posture (p ∷ []) labels).egress_isolated ≡ elem "Egress" types)
flat_selector_isolates_all name wanted types ingress egress p labels h =
    let (i, e) = created_posture name (flat wanted) types ingress egress p labels h in
    (i ∙ rw (flat-matches wanted labels) refl, e ∙ rw (flat-matches wanted labels) refl)
