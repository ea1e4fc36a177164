-- ===== src/ToolGroups/Tests.antt =====
-- Runs of the tool registration, and the theorems at concrete settings.
use k8s_mcp.Base.{
  String, ◌≡◌, ◌≢◌, ◌↔◌, refl, true, some, List, [], ◌∷◌, arith, eq_iff, elem, length,
}
use k8s_mcp.Base.Text.{empty}
use k8s_mcp.Config.{Settings, default_settings, text, ok}
use k8s_mcp.ToolGroups.{
  tool_group_modules, registered, register_tools, registered_count, split_enabled_groups,
  validate_enabled_groups, all_groups, reported_groups, unknown_groups,
}
use k8s_mcp.ToolGroups.Registration.{IsSelected, register_tools_lem}
use k8s_mcp.ToolGroups.Validation.{blank_groups_misreported}

abbrev gpu_only : Settings
gpu_only = record default_settings { enabled_groups = some ("gpu" ∷ "security" ∷ []) }

abbrev blank_groups : Settings
blank_groups = record gpu_only { enabled_groups = some [] }

gpu_runs :
    register_tools gpu_only
    ≡ registered ("rbac" ∷ "networkpolicy" ∷ "nvidia_gpu" ∷ "nvidia_metrics" ∷ "gpu_capacity" ∷ [])
unfolding register_tools
gpu_runs = refl

unknown_runs : unknown_groups ("gpu" ∷ "zeta" ∷ "alpha" ∷ "zeta" ∷ []) ≡ "alpha" ∷ "zeta" ∷ []
unfolding unknown_groups
unknown_runs = refl

register_tools_lem_example :
    (names : List String) × (register_tools gpu_only ≡ registered names)
    × ((elem "rbac" names ≡ true) ↔ IsSelected gpu_only.enabled_groups tool_group_modules "rbac")
    × (registered_count gpu_only.enabled_groups tool_group_modules ≡ length names)
register_tools_lem_example = register_tools_lem gpu_only "rbac"

comma : ◌≢◌ {A = String} "," empty
comma = ground (arith, eq_iff "," empty)

split_comma : split_enabled_groups (λ s. s) (text ",") ≡ some []
unfolding split_enabled_groups
split_comma = refl

blank_groups_misreported_example :
    (validate_enabled_groups blank_groups.enabled_groups ≡ ok (some []))
    × (register_tools blank_groups ≡ registered [])
    × (reported_groups blank_groups ≡ all_groups)
unfolding split_enabled_groups
blank_groups_misreported_example =
    blank_groups_misreported (λ s. s) "," blank_groups comma refl refl
