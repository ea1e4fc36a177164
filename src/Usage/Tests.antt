-- ===== src/Usage/Tests.antt =====
-- Runs of the audit.
use k8s_mcp.Base.{
  ℕ, String, ◌≡◌, refl, true, Option, none, some, [], ◌∷◌, str_eq, arith, if◌then◌else◌,
}
use k8s_mcp.Base.Json.{Json, str, obj, arr, nil, cons, Fields, end, field}
use k8s_mcp.Base.Text.{lstrip, rstrip, strip}
use k8s_mcp.Base.Text.Search.{ends_with, count_chars}
use k8s_mcp.Logs.Lines.{take_chars}
use k8s_mcp.Usage.{
  issues, any_below, is_owned_by_workload, has_resources, issue_kind, container_issues,
  object_issues, all_issues, analyze_resource_usage,
}
use k8s_mcp.Usage.MixedUnits.{cores_below_millicores}

abbrev print : Json → String
print (str s) = s
print _ = "value"

abbrev whole : String → Option ℕ
whole s = if str_eq s "500" then some 500 else if str_eq s "1" then some 1 else none

half_core_reported :
    any_below print whole (field "cpu" (str "500m") end) (field "cpu" (str "1") end) ≡ true
unfolding strip lstrip rstrip ends_with count_chars take_chars
half_core_reported =
    cores_below_millicores print whole (str "500m") (str "1") 500 1 refl refl refl refl refl refl
      refl refl refl (omega arith)

abbrev bare : Fields
bare = field "name" (str "app") end

abbrev pod : Fields
pod = field "spec" (obj (field "containers" (arr (cons (obj bare) nil)) end)) end

bare_reported :
    analyze_resource_usage print whole (λ kind namespace. pod ∷ []) none "Pod" "missing_limits"
    ≡ issues (record { workload = pod; container = bare } ∷ [])
unfolding analyze_resource_usage all_issues object_issues container_issues issue_kind has_resources
    is_owned_by_workload
bare_reported = refl
