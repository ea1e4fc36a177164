-- ===== src/Rbac/Tests.antt =====
-- Runs of the rule matcher, and the theorems at concrete rules.
use k8s_mcp.Base.{◌≡◌, ◌↔◌, refl, true, false, none, some, [], ◌∷◌}
use k8s_mcp.Base.Text.{empty, strip, lstrip, rstrip}
use k8s_mcp.Rbac.{
  Rule, valid, permission_error, validate_rule, rule_matches, Subject, normalize_subject,
  subject_matches,
}
use k8s_mcp.Rbac.Matching.{Grants, rule_matches_iff, almost_admin, wildcard_slips_through}

abbrev read_pods : Rule
read_pods = record {
  verbs = some ("get" ∷ "list" ∷ []);
  api_groups = none;
  resources = some ("pods" ∷ []);
  resource_names = none;
}

abbrev stored : Rule
stored = record {
  verbs = some ("get" ∷ "list" ∷ []);
  api_groups = some (empty ∷ []);
  resources = some ("pods" ∷ []);
  resource_names = none;
}

abbrev admin : Rule
admin = record {
  verbs = some ("*" ∷ []);
  api_groups = some ("*" ∷ []);
  resources = some ("*" ∷ []);
  resource_names = none;
}

admin_run : validate_rule admin false ≡ permission_error
unfolding validate_rule
admin_run = refl

stored_run : validate_rule read_pods false ≡ valid stored
unfolding validate_rule
stored_run = refl

abbrev app : Subject
app = record {
  kind = some "ServiceAccount";
  name = some "app";
  api_group = none;
  namespace = some "shop";
}

subject_run :
    (subject_matches app (some " ServiceAccount:app ") ≡ true) × (subject_matches app none ≡ false)
unfolding subject_matches strip lstrip rstrip
subject_run = (refl, refl)

normalize_run :
    normalize_subject app
    ≡ valid (record {
      kind = some "ServiceAccount";
      name = some "app";
      api_group = some empty;
      namespace = some "shop";
    })
unfolding normalize_subject
normalize_run = refl

rule_matches_iff_example :
    (rule_matches read_pods (some "get") none none ≡ true) ↔ Grants read_pods (some "get") none none
rule_matches_iff_example = rule_matches_iff read_pods (some "get") none none

wildcard_slips_through_example :
    (out : Rule) × (validate_rule (almost_admin "get") false ≡ valid out)
    × (rule_matches out (some "delete") (some "secrets") (some empty) ≡ true)
wildcard_slips_through_example =
    wildcard_slips_through "get" (some "delete") (some "secrets") (some empty)
