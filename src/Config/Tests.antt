-- ===== src/Config/Tests.antt =====
-- Runs of config.py's guard and validators, and the theorems at concrete settings.
use k8s_mcp.Base.{String, ◌≡◌, ◌≢◌, ◌↔◌, refl, true, false, Option, some, [], ◌∷◌, arith, eq_iff}
use k8s_mcp.Base.Text.{empty}
use k8s_mcp.Config.{Settings, default_settings, text, ok, value_error, split_allowlist, ns_allowed}
use k8s_mcp.Config.Policy.{MayWrite, ns_allowed_iff}
use k8s_mcp.Config.Allowlist.{IsPiece, Outcome, split_allowlist_text, configured_policy}

abbrev staging_only : Settings
staging_only = record default_settings { namespace_allowlist = some ("staging" ∷ "preview" ∷ []) }

split_runs :
    split_allowlist (text " staging, preview,,staging ") ≡ ok (some ("staging" ∷ "preview" ∷ []))
unfolding split_allowlist
split_runs = refl

split_blank_runs : split_allowlist (text " , ") ≡ value_error
unfolding split_allowlist
split_blank_runs = refl

staging_allowed : ns_allowed staging_only (some "staging") ≡ true
unfolding ns_allowed
staging_allowed = refl

kube_system_refused : ns_allowed staging_only (some "kube-system") ≡ false
unfolding ns_allowed
kube_system_refused = refl

ns_allowed_iff_example :
    (ns_allowed staging_only (some "staging") ≡ true) ↔ MayWrite staging_only (some "staging")
ns_allowed_iff_example = ns_allowed_iff staging_only (some "staging")

split_allowlist_text_example :
    Outcome " staging, preview,,staging " (split_allowlist (text " staging, preview,,staging "))
split_allowlist_text_example = split_allowlist_text " staging, preview,,staging "

filled : ◌≢◌ {A = String} "staging, preview" empty
filled = ground (arith, eq_iff "staging, preview" empty)

loaded : split_allowlist (text "staging, preview") ≡ ok staging_only.namespace_allowlist
unfolding split_allowlist
loaded = refl

configured_policy_example :
    (ns : String) × (◌≡◌ {A = Option String} (some "staging") (some ns))
    × IsPiece "staging, preview" ns
configured_policy_example =
    configured_policy staging_only "staging, preview" (some "staging") filled loaded staging_allowed
