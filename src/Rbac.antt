-- ===== src/Rbac.antt =====
-- src/k8s_mcp/tools/rbac.py: the rules of roles, checked before a role is created and matched by the
-- analyzer, and the subjects of bindings.
pub mod Matching
mod Tests
use Prim.Native.String.{◌++◌}
use k8s_mcp.Base.{
  String, ◌≡◌, Bool, true, false, ◌&&◌, ◌||◌, not, Option, none, some, List, [], ◌∷◌, elem,
  is_empty, str_eq, if◌then◌else◌,
}
use k8s_mcp.Base.Text.{empty, strip}

pub record Rule : Type 0 where
  pub verbs : Option (List String)
  pub api_groups : Option (List String)
  pub resources : Option (List String)
  pub resource_names : Option (List String)

pub data Validated {ℓ} (A : Type ℓ) : Type ℓ where
  valid : A → Validated A
  value_error : Validated A
  permission_error : Validated A

-- `rule.get(key, default)`
abbrev pub get_or : List String → Option (List String) → List String
get_or default none = default
get_or default (some xs) = xs

-- `xs == ["*"]`
abbrev pub is_wildcard : List String → Bool
is_wildcard [] = false
is_wildcard (x ∷ xs) = str_eq x "*" && is_empty xs

unfoldable pub validate_rule : Rule → Bool → Validated Rule
validate_rule rule allow_wildcard =
    let verbs = get_or [] rule.verbs in
    let api_groups = get_or (empty ∷ []) rule.api_groups in
    let resources = get_or [] rule.resources in
    if is_empty verbs
    then value_error
    else if (not allow_wildcard && is_wildcard verbs)
        && (is_wildcard resources && is_wildcard api_groups)
    then permission_error
    else valid (record {
      verbs = some verbs;
      api_groups = some api_groups;
      resources = some resources;
      resource_names = rule.resource_names;
    })

-- `rule.get(key) or default`
abbrev pub truthy_or : List String → Option (List String) → List String
truthy_or default none = default
truthy_or default (some []) = default
truthy_or default (some (x ∷ xs)) = x ∷ xs

abbrev pub has : String → List String → Bool
has x xs = elem x xs || elem "*" xs

-- A test on an axis that the caller may leave out, by no text or an empty one.
abbrev pub axis : Option String → List String → Bool
axis none xs = true
axis (some x) xs = str_eq x empty || has x xs

-- The axis of API groups, where the empty text is the core group.
abbrev pub group_axis : Option String → List String → Bool
group_axis none xs = true
group_axis (some x) xs = has x xs

unfoldable pub rule_matches : Rule → Option String → Option String → Option String → Bool
rule_matches rule verb resource api_group =
    axis verb (truthy_or [] rule.verbs)
    && (axis resource (truthy_or [] rule.resources)
        && group_axis api_group (truthy_or (empty ∷ []) rule.api_groups))

-- A subject of a binding, as the caller gives it.
pub record Subject : Type 0 where
  pub kind : Option String
  pub name : Option String
  pub api_group : Option String
  pub namespace : Option String

abbrev pub or_empty : Option String → String
or_empty none = empty
or_empty (some s) = s

unfoldable pub normalize_subject : Subject → Validated Subject
normalize_subject s =
    let service_account = str_eq (or_empty s.kind) "ServiceAccount" in
    if str_eq (or_empty s.kind) empty || str_eq (or_empty s.name) empty
    then value_error
    else valid (record {
      kind = s.kind;
      name = s.name;
      api_group = elim s.api_group [
        | some g ↦ some g
        | none ↦ some (if service_account then empty else "rbac.authorization.k8s.io")
      ];
      namespace =
          if service_account && not (str_eq (or_empty s.namespace) empty)
          then s.namespace
          else none;
    })

abbrev pub is_text : Option String → String → Bool
is_text none t = false
is_text (some s) t = str_eq s t

unfoldable pub subject_matches : Subject → Option String → Bool
subject_matches subject needle_given =
    let needle = strip (or_empty needle_given) in
    not (str_eq needle empty)
    && (is_text subject.name needle
        || str_eq (or_empty subject.kind ++ (":" ++ or_empty subject.name)) needle)
