-- ===== src/NetworkPolicy/Tests.antt =====
-- Runs of the analyzer, and the theorems at concrete policies.
use k8s_mcp.Base.{◌≡◌, refl, true, false, none, some, [], ◌∷◌, elem}
use k8s_mcp.NetworkPolicy.{
  Labels, Selector, Policy, selector_matches, expr_matches, labels_match, pod_posture, ingress_cell,
  deny_all, create_networkpolicy, ok, value_error, policy_types, selecting_policies, isolated,
  view_posture,
}
use k8s_mcp.NetworkPolicy.Isolation.{ingress_cell_misleads}
use k8s_mcp.NetworkPolicy.Created.{requested, flat, flat_selector_isolates_all}

abbrev db : Labels
db = ("app", "db") ∷ ("tier", "back") ∷ []

abbrev web : Labels
web = ("app", "web") ∷ []

abbrev not_web : Selector
not_web = record {
  match_labels = none;
  match_expressions =
      some (record { key = some "app"; operator = some "NotIn"; values = some ("web" ∷ []) } ∷ []);
  others = [];
}

abbrev egress_only : Policy
egress_only = record {
  name = some "out";
  spec = some (record {
    pod_selector = some not_web;
    policy_types = some ("Egress" ∷ []);
    ingress = some [];
    egress = none;
  });
}

abbrev db_selector : Selector
db_selector = record {
  match_labels = some (("app", "db") ∷ []);
  match_expressions = none;
  others = [];
}

abbrev deny_db : Policy
deny_db = requested "deny" db_selector ("Ingress" ∷ []) none none

matches_run :
    (selector_matches (some not_web) db ≡ true) × (selector_matches (some not_web) web ≡ false)
unfolding selector_matches expr_matches labels_match
matches_run = (refl, refl)

posture_run :
    pod_posture (egress_only ∷ deny_db ∷ []) db
    ≡ record { ingress_isolated = true; egress_isolated = true }
unfolding pod_posture view_posture isolated policy_types selecting_policies selector_matches
    expr_matches labels_match
posture_run = refl

bad_direction : create_networkpolicy "x" (flat []) ("ingress" ∷ []) none none ≡ value_error
unfolding create_networkpolicy
bad_direction = refl

ingress_cell_misleads_example :
    (ingress_cell egress_only ≡ deny_all)
    × ((pod_posture (egress_only ∷ []) db).ingress_isolated ≡ false)
ingress_cell_misleads_example = ingress_cell_misleads egress_only db refl refl refl

created_run : create_networkpolicy "deny" db_selector ("Ingress" ∷ []) none none ≡ ok deny_db
unfolding create_networkpolicy
created_run = refl

-- The example of the docstring: a policy meant for the database isolates the web pods.
abbrev meant_for_db : Policy
meant_for_db = requested "deny" (flat (("app", "db") ∷ [])) ("Ingress" ∷ []) none none

flat_run :
    create_networkpolicy "deny" (flat (("app", "db") ∷ [])) ("Ingress" ∷ []) none none
    ≡ ok meant_for_db
unfolding create_networkpolicy
flat_run = refl

flat_selector_isolates_all_example :
    ((pod_posture (meant_for_db ∷ []) web).ingress_isolated ≡ elem "Ingress" ("Ingress" ∷ []))
    × ((pod_posture (meant_for_db ∷ []) web).egress_isolated ≡ elem "Egress" ("Ingress" ∷ []))
flat_selector_isolates_all_example =
    flat_selector_isolates_all "deny" (("app", "db") ∷ []) ("Ingress" ∷ []) none none meant_for_db
      web flat_run
