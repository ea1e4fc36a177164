-- ===== src/NetworkPolicy.antt =====
-- src/k8s_mcp/tools/networkpolicy.py: the label selectors, the posture of pods, and the policies
-- that `create_networkpolicy` builds. An absent key and a null one are both `none`, as the code
-- reads them by `.get`. Reports are the data that their lines are made of.
pub mod Selectors
pub mod Isolation
pub mod Created
mod Tests
use k8s_mcp.Base.{
  ℕ, ◌+◌, String, Bool, true, false, ◌&&◌, ◌||◌, not, Option, none, some, List, [], ◌∷◌, ◌++◌, map,
  any, all, elem, is_empty, is_some, select, length, lookup, str_eq, if◌then◌else◌,
}

abbrev pub Labels : Type 0
Labels = List (String × String)

-- One entry of `matchExpressions`.
pub record Expr : Type 0 where
  pub key : Option String
  pub operator : Option String
  pub values : Option (List String)

-- A selector: the two keys that the code reads, and the texts under its other keys.
pub record Selector : Type 0 where
  pub match_labels : Option Labels
  pub match_expressions : Option (List Expr)
  pub others : Labels

-- A peer of a rule: which of its three keys it has.
pub record Peer : Type 0 where
  pub pod_selector : Option Selector
  pub namespace_selector : Option Selector
  pub ip_block : Option String

pub record Port : Type 0 where
  pub protocol : Option String
  pub port : Option String

pub record Rule : Type 0 where
  pub from_peers : Option (List Peer)
  pub to_peers : Option (List Peer)
  pub ports : Option (List Port)

pub record Spec : Type 0 where
  pub pod_selector : Option Selector
  pub policy_types : Option (List String)
  pub ingress : Option (List Rule)
  pub egress : Option (List Rule)

pub record Policy : Type 0 where
  pub name : Option String
  pub spec : Option Spec

-- `x or []`
abbrev pub or_nil {ℓ} : {A : Type ℓ} → Option (List A) → List A
or_nil none = []
or_nil (some xs) = xs

-- `not x`, for a list that may be absent
abbrev pub is_falsy {ℓ} : {A : Type ℓ} → Option (List A) → Bool
is_falsy o = is_empty (or_nil o)

abbrev pub no_spec : Spec
no_spec = record { pod_selector = none; policy_types = none; ingress = none; egress = none }

abbrev pub spec_of : Policy → Spec
spec_of p = elim p.spec [ none ↦ no_spec | some s ↦ s ]

-- `labels.get(key)`, for a key that may be None
abbrev pub label : Option String → Labels → Option String
label none labels = none
label (some k) labels = lookup k labels

-- `value in values`, false of an absent value
abbrev pub value_in : Option String → List String → Bool
value_in none values = false
value_in (some v) values = elem v values

-- `op == name`
abbrev pub op_is : Option String → String → Bool
op_is none name = false
op_is (some op) name = str_eq op name

unfoldable pub expr_matches : Expr → Labels → Bool
expr_matches e labels =
    let value = label e.key labels in
    let present = is_some value in
    let values = or_nil e.values in
    if op_is e.operator "In"
    then present && value_in value values
    else if op_is e.operator "NotIn"
    then not present || not (value_in value values)
    else if op_is e.operator "Exists"
    then present
    else if op_is e.operator "DoesNotExist"
    then not present
    else true

-- The loop over `matchLabels`: `labels.get(k) != v` refuses.
unfoldable pub labels_match : Labels → Labels → Bool
labels_match [] labels = true
labels_match ((k, v) ∷ rest) labels =
    let later = labels_match rest labels in
    elim (lookup k labels) [ none ↦ false | some w ↦ if str_eq w v then later else false ]

unfoldable pub selector_matches : Option Selector → Labels → Bool
selector_matches none labels = true
selector_matches (some s) labels =
    if labels_match (or_nil s.match_labels) labels
    then all (λ e. expr_matches e labels) (or_nil s.match_expressions)
    else false

unfoldable pub policy_types : Policy → List String
policy_types p =
    let spec = spec_of p in
    if is_falsy spec.policy_types
    then (if is_falsy spec.egress then "Ingress" ∷ [] else "Ingress" ∷ "Egress" ∷ [])
    else or_nil spec.policy_types

unfoldable pub selecting_policies : List Policy → Labels → List Policy
selecting_policies policies labels =
    select (λ p. selector_matches (spec_of p).pod_selector labels) policies

-- `any(direction in _policy_types(p) for p in selecting)`
unfoldable pub isolated : String → List Policy → Bool
isolated direction selecting = any (λ p. elem direction (policy_types p)) selecting

-- The last two lines of the pod view.
pub record Posture : Type 0 where
  pub ingress_isolated : Bool
  pub egress_isolated : Bool

unfoldable pub view_posture : List Policy → Posture
view_posture selecting =
    if is_empty selecting
    then record { ingress_isolated = false; egress_isolated = false }
    else record {
      ingress_isolated = isolated "Ingress" selecting;
      egress_isolated = isolated "Egress" selecting;
    }

unfoldable pub pod_posture : List Policy → Labels → Posture
pod_posture policies labels = view_posture (selecting_policies policies labels)

-- A row of the coverage view, and its loop with `open_ingress`.
pub record Row : Type 0 where
  pub pod : String
  pub ingress_covered : Bool
  pub egress_covered : Bool

unfoldable pub coverage_row : List Policy → String × Labels → Row
coverage_row policies (name, labels) =
    let selecting = selecting_policies policies labels in
    record {
      pod = name;
      ingress_covered = isolated "Ingress" selecting;
      egress_covered = isolated "Egress" selecting;
    }

unfoldable pub coverage_rows : List Policy → List (String × Labels) → List Row × ℕ
coverage_rows policies [] = ([], 0)
coverage_rows policies (pod ∷ pods) =
    let row = coverage_row policies pod in
    let (rows, open_ingress) = coverage_rows policies pods in
    (row ∷ rows, (if row.ingress_covered then open_ingress else open_ingress + 1))

-- A cell of the inventory: `deny-all`, or the number of rules.
pub data Cell : Type 0 where
  deny_all : Cell
  rules : ℕ → Cell

-- `spec.get("ingress") == []`
abbrev pub is_nil {ℓ} : {A : Type ℓ} → Option (List A) → Bool
is_nil none = false
is_nil (some xs) = is_empty xs

unfoldable pub ingress_cell : Policy → Cell
ingress_cell p =
    let spec = spec_of p in
    if is_nil spec.ingress || (elem "Ingress" (policy_types p) && is_falsy spec.ingress)
    then deny_all
    else rules (length (or_nil spec.ingress))

unfoldable pub egress_cell : Policy → Cell
egress_cell p =
    let spec = spec_of p in
    if elem "Egress" (policy_types p) && is_falsy spec.egress
    then deny_all
    else rules (length (or_nil spec.egress))

-- `create_networkpolicy` up to the manifest that it hands to `apply_yaml`.
pub data Built {ℓ} (A : Type ℓ) : Type ℓ where
  ok : A → Built A
  value_error : Built A

unfoldable pub normalize_rule : Rule → Built Rule
normalize_rule r =
    if is_some r.from_peers || (is_some r.to_peers || is_some r.ports) then ok r else value_error

unfoldable pub normalize_rules : List Rule → Built (List Rule)
unfolding normalize_rule
normalize_rules [] = ok []
normalize_rules (r ∷ rs) =
    let rest = normalize_rules rs in
    elim (normalize_rule r) [
      | value_error ↦ value_error
      | ok out ↦ elim rest [ value_error ↦ value_error | ok outs ↦ ok (out ∷ outs) ]
    ]

abbrev pub normalize_optional : Option (List Rule) → Built (Option (List Rule))
normalize_optional none = ok none
normalize_optional (some rs) = elim (normalize_rules rs) [
  | value_error ↦ value_error
  | ok outs ↦ ok (some outs)
]

-- The dictionary `pod_selector` is put into the spec as it is.
unfoldable pub create_networkpolicy :
    String → Selector → List String → Option (List Rule) → Option (List Rule) → Built Policy
unfolding normalize_rules
create_networkpolicy name pod_selector types ingress egress =
    if is_empty types
    then value_error
    else if all (λ t. elem t ("Ingress" ∷ "Egress" ∷ [])) types
    then elim (normalize_optional ingress) [
      | value_error ↦ value_error
      | ok ins ↦ elim (normalize_optional egress) [
        | value_error ↦ value_error
        | ok outs ↦ ok (record {
          name = some name;
          spec = some (record {
            pod_selector = some pod_selector;
            policy_types = some types;
            ingress = ins;
            egress = outs;
          });
        })
      ]
    ]
    else value_error
