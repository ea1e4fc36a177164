-- ===== src/ToolGroups.antt =====
-- src/k8s_mcp/tool_groups.py, the validators of `enabled_groups` in config.py, and the tool
-- registration of server.py with what `doctor` reports of it.
pub mod Registration
pub mod Validation
mod Tests
use Prim.Native.String.{compare}
use Prim.Native.Nat.{Ordering}
use k8s_mcp.Base.{
  ℕ, ◌+◌, String, Bool, true, false, Option, none, some, List, [], ◌∷◌, ◌++◌, map, any, elem,
  is_empty, length, select, not, str_eq, if◌then◌else◌,
}
use k8s_mcp.Base.Text.{split, strip, empty}
use k8s_mcp.Config.{Raw, absent, text, list, Checked, ok, value_error, Settings, fromkeys}

-- `TOOL_GROUP_MODULES`
abbrev pub tool_group_modules : List (String × List String)
tool_group_modules =
    (
      "core",
      "generic" ∷ "logs" ∷ "events" ∷ "pods" ∷ "configmap" ∷ "namespace" ∷ "secret" ∷ "delete_tool"
          ∷ "jsonpath" ∷ "discovery" ∷ "wait_tool" ∷ "cluster_info" ∷ [],
    )
    ∷ (
      "workload",
      "workload" ∷ "service" ∷ "storage" ∷ "autoscale" ∷ "rollout" ∷ "node_ops" ∷ "certs"
          ∷ "serviceaccount" ∷ [],
    )
    ∷ (
      "observability",
      "metrics" ∷ "prometheus" ∷ "health" ∷ "diagnostics" ∷ "explain" ∷ "resource_usage" ∷ [],
    )
    ∷ ("security", "rbac" ∷ "networkpolicy" ∷ [])
    ∷ ("gpu", "nvidia_gpu" ∷ "nvidia_metrics" ∷ "gpu_capacity" ∷ [])
    ∷ ("notify", "notifier" ∷ [])
    ∷ []

-- The keys of `modules` in `_register_tools`, the modules that the server imports.
abbrev pub imported_modules : List String
imported_modules =
    "autoscale" ∷ "certs" ∷ "cluster_info" ∷ "configmap" ∷ "delete_tool" ∷ "diagnostics"
    ∷ "discovery" ∷ "events" ∷ "explain" ∷ "generic" ∷ "gpu_capacity" ∷ "health" ∷ "jsonpath"
    ∷ "logs" ∷ "metrics" ∷ "namespace" ∷ "networkpolicy" ∷ "node_ops" ∷ "notifier" ∷ "nvidia_gpu"
    ∷ "nvidia_metrics" ∷ "pods" ∷ "prometheus" ∷ "rbac" ∷ "resource_usage" ∷ "rollout" ∷ "secret"
    ∷ "service" ∷ "serviceaccount" ∷ "storage" ∷ "wait_tool" ∷ "workload" ∷ []

-- `ALL_TOOL_GROUPS`
abbrev pub all_tool_groups : List String
all_tool_groups = map (λ (g : String × List String). g.0) tool_group_modules

-- `sorted` on texts.
insert_sorted : String → List String → List String
insert_sorted x [] = x ∷ []
insert_sorted x (y ∷ ys) =
    let rest = insert_sorted x ys in elim (compare x y) [ Ordering.gt ↦ y ∷ rest | _ ↦ x ∷ y ∷ ys ]

unfoldable pub sorted : List String → List String
unfolding insert_sorted
sorted [] = []
sorted (x ∷ xs) = insert_sorted x (sorted xs)

-- `sorted(set(enabled) - ALL_TOOL_GROUPS)`
unfoldable pub unknown_groups : List String → List String
unfolding sorted fromkeys
unknown_groups enabled = sorted (select (λ g. not (elem g all_tool_groups)) (fromkeys enabled))

-- The "before" validator: `str.lower` is given as a function on texts.
module _ (lower : String → String) where
  unfoldable pub split_enabled_groups : Raw → Option (List String)
  unfolding split strip
  split_enabled_groups absent = none
  split_enabled_groups (list xs) = some xs
  split_enabled_groups (text v) =
      if str_eq v empty
      then none
      else some
          (map (λ s. lower (strip s)) (select (λ s. not (str_eq (strip s) empty)) (split b',' v)))

-- The "after" validator.
unfoldable pub validate_enabled_groups : Option (List String) → Checked (Option (List String))
unfolding unknown_groups
validate_enabled_groups none = ok none
validate_enabled_groups (some v) = if is_empty (unknown_groups v) then ok (some v) else value_error

-- `enabled is None or group in enabled`
abbrev pub is_enabled : Option (List String) → String → Bool
is_enabled none group = true
is_enabled (some enabled) group = elem group enabled

-- The loop over `TOOL_GROUP_MODULES`: the modules whose `register` is called, in order.
unfoldable pub register_groups : Option (List String) → List (String × List String) → List String
register_groups enabled [] = []
register_groups enabled ((group, names) ∷ rest) =
    let later = register_groups enabled rest in
    if is_enabled enabled group then names ++ later else later

unfoldable pub unmapped : List (String × List String) → List String → List String
unmapped [] modules = []
unmapped ((group, names) ∷ rest) modules =
    select (λ n. not (elem n modules)) names ++ unmapped rest modules

-- `registered_count`
unfoldable pub registered_count : Option (List String) → List (String × List String) → ℕ
registered_count enabled [] = 0
registered_count enabled ((group, names) ∷ rest) =
    let later = registered_count enabled rest in
    if is_enabled enabled group then length names + later else later

-- The result of `_register_tools`: the registered modules, or the `RuntimeError` on a module that
-- the server does not import.
pub data Registered : Type 0 where
  registered : List String → Registered
  runtime_error : List String → Registered

unfoldable pub register_tools : Settings → Registered
unfolding unmapped register_groups
register_tools settings =
    let missing = unmapped tool_group_modules imported_modules in
    if is_empty missing
    then registered (register_groups settings.enabled_groups tool_group_modules)
    else runtime_error missing

-- `settings.enabled_groups or "all"` in `_doctor_payload`.
pub data Report : Type 0 where
  all_groups : Report
  groups : List String → Report

unfoldable pub reported_groups : Settings → Report
reported_groups settings = elim settings.enabled_groups [
  | none ↦ all_groups
  | some gs ↦ if is_empty gs then all_groups else groups gs
]
