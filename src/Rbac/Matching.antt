-- ===== src/Rbac/Matching.antt =====
-- What a rule grants, what checking it changes, and what slips through the check.
use mathlib.Core.Path.{subst}
use k8s_mcp.Base.{
  String, ◌≡◌, ◌≢◌, ◌↔◌, ◌⊎◌, inl, inr, refl, Bool, true, false, Option, none, some, List, [], ◌∷◌,
  elem, str_eq, eq_iff, eq_refl, if◌then◌else◌, and-eq-true, Bool-cases, arith,
}
use k8s_mcp.Base.Text.{empty}
use k8s_mcp.Rbac.{
  Rule, valid, value_error, permission_error, get_or, validate_rule, truthy_or, has, axis,
  group_axis, rule_matches,
}

-- An axis of a rule covers a name by listing it or the wildcard.
abbrev pub Covers : List String → String → Type 0
Covers xs x = (elem x xs ≡ true) ⊎ (elem "*" xs ≡ true)

-- What a query asks of a rule.
pub record Grants (rule : Rule) (verb resource api_group : Option String) : Type 0 where
  pub on_verb : (v : String) → verb ≡ some v → v ≢ empty → Covers (truthy_or [] rule.verbs) v
  pub on_resource :
      (r : String) → resource ≡ some r → r ≢ empty → Covers (truthy_or [] rule.resources) r
  pub on_group :
      (g : String) → api_group ≡ some g → Covers (truthy_or (empty ∷ []) rule.api_groups) g

has_iff : (x : String) (xs : List String) → (has x xs ≡ true) ↔ Covers xs x
has_iff x xs = (
  λ h. elim (Bool-cases (elem x xs)) [ inl e ↦ inl e | inr e ↦ inr (ground (arith, e, h)) ],
  λ c. elim c [ inl e ↦ rw e refl | inr e ↦ ground (arith, e) ],
)

axis_iff :
    (o : Option String) (xs : List String)
    → (axis o xs ≡ true) ↔ ((x : String) → o ≡ some x → x ≢ empty → Covers xs x)
axis_iff none xs = (λ h x e n. cc e, λ h. refl)
axis_iff (some y) xs = (
  λ h x e n. (has_iff x xs).0 (ground (arith, h, e, n, eq_iff x empty)),
  λ h. elim (Bool-cases (str_eq y empty)) [
    | inl e ↦ rw e refl
    | inr e ↦ rw e ((has_iff y xs).1 (h y refl (λ p. cc ((eq_iff y empty).1 p, e))))
  ],
)

group_axis_iff :
    (o : Option String) (xs : List String)
    → (group_axis o xs ≡ true) ↔ ((x : String) → o ≡ some x → Covers xs x)
group_axis_iff none xs = (λ h x e. cc e, λ h. refl)
group_axis_iff (some y) xs =
    (λ h x e. (has_iff x xs).0 (ground (arith, h, e)), λ h. (has_iff y xs).1 (h y refl))

-- A rule matches a query exactly if it lists, or has a wildcard for, each verb, resource and API
-- group that the query names; the empty text names no verb and no resource, and the core group.
pub rule_matches_iff :
    (rule : Rule) (verb resource api_group : Option String)
    → (rule_matches rule verb resource api_group ≡ true) ↔ Grants rule verb resource api_group
unfolding rule_matches
rule_matches_iff rule verb resource api_group = (
  λ h.
      let (v, others) = and-eq-true _ _ h in
      let (r, g) = and-eq-true _ _ others in
      record {
        on_verb = (axis_iff verb _).0 v;
        on_resource = (axis_iff resource _).0 r;
        on_group = (group_axis_iff api_group _).0 g;
      },
  λ h.
      rw
        (
          (axis_iff verb (truthy_or [] rule.verbs)).1 h.on_verb,
          (axis_iff resource (truthy_or [] rule.resources)).1 h.on_resource,
        )
        ((group_axis_iff api_group (truthy_or (empty ∷ []) rule.api_groups)).1 h.on_group),
)

truthy_or-get_or :
    (d : List String) (o : Option (List String)) → truthy_or d (some (get_or d o)) ≡ truthy_or d o
truthy_or-get_or [] none = refl
truthy_or-get_or (x ∷ d) none = refl
truthy_or-get_or d (some xs) = refl

abbrev checked : Rule → Rule
checked rule = record {
  verbs = some (get_or [] rule.verbs);
  api_groups = some (get_or (empty ∷ []) rule.api_groups);
  resources = some (get_or [] rule.resources);
  resource_names = rule.resource_names;
}

validated :
    (bad wild : Bool) (r out : Rule)
    → (if bad then value_error else if wild then permission_error else valid r) ≡ valid out
    → r ≡ out
validated true wild r out h = cc
validated false true r out h = cc
validated false false r out h = cc

validate_rule-valid :
    (rule out : Rule) (allow_wildcard : Bool)
    → validate_rule rule allow_wildcard ≡ valid out
    → checked rule ≡ out
unfolding validate_rule
validate_rule-valid rule out allow_wildcard h = validated _ _ (checked rule) out h

-- The check of a rule does not change which queries it matches.
pub rule_matches-validate_rule :
    (rule out : Rule) (allow_wildcard : Bool) (verb resource api_group : Option String)
    → validate_rule rule allow_wildcard ≡ valid out
    → rule_matches out verb resource api_group ≡ rule_matches rule verb resource api_group
unfolding rule_matches
rule_matches-validate_rule rule out allow_wildcard verb resource api_group h =
    subst (λ r. rule_matches r verb resource api_group ≡ rule_matches rule verb resource api_group)
      (validate_rule-valid rule out allow_wildcard h)
      (rw
        (
          truthy_or-get_or [] rule.verbs,
          truthy_or-get_or [] rule.resources,
          truthy_or-get_or (empty ∷ []) rule.api_groups,
        )
        refl)

abbrev pub almost_admin : String → Rule
almost_admin other = record {
  verbs = some ("*" ∷ other ∷ []);
  api_groups = some ("*" ∷ []);
  resources = some ("*" ∷ []);
  resource_names = none;
}

-- A rule with the wildcard and another word as its verbs, and the wildcard as its resources and its
-- API groups, passes the check that refuses cluster-admin rules, and matches every query.
pub wildcard_slips_through :
    (other : String) (verb resource api_group : Option String)
    → (out : Rule) × (validate_rule (almost_admin other) false ≡ valid out)
      × (rule_matches out verb resource api_group ≡ true)
unfolding validate_rule rule_matches
wildcard_slips_through other verb resource api_group = (
  checked (almost_admin other),
  refl,
  (rule_matches_iff (checked (almost_admin other)) verb resource api_group).1 (record {
    on_verb = λ v e n. inr (ground (arith, eq_refl "*"));
    on_resource = λ r e n. inr refl;
    on_group = λ g e. inr refl;
  }),
)
