-- ===== src/Usage.antt =====
-- src/k8s_mcp/tools/resource_usage.py: the audit of requests and limits. The API, the printing of a value and `int` on a
-- text, of which quantities are not negative, are parameters.
pub mod MixedUnits
mod Tests
use k8s_mcp.Base.{
  ℕ, String, Bool, true, false, ◌&&◌, not, Option, none, some, List, [], ◌∷◌, ◌++◌, ◌*◌, ◌-◌, any,
  elem, map, ltb, str_eq, if◌then◌else◌,
}
use k8s_mcp.Base.Json.{
  Json, str, obj, Fields, end, field, get, dict_or_empty, list_or_empty, is_str,
}
use k8s_mcp.Base.Text.{empty, strip}
use k8s_mcp.Base.Text.Search.{count_chars, ends_with}
use k8s_mcp.Logs.Lines.{take_chars}

abbrev pub extract_pod_containers : Fields → List Json
extract_pod_containers pod = list_or_empty (get "containers" (dict_or_empty (get "spec" pod)))

abbrev pub extract_workload_containers : Fields → List Json
extract_workload_containers workload =
    extract_pod_containers (dict_or_empty (get "template" (dict_or_empty (get "spec" workload))))

-- One of the dictionaries under `resources` of a container.
abbrev pub resources_of : String → Fields → Fields
resources_of key c = dict_or_empty (get key (dict_or_empty (get "resources" c)))

abbrev pub is_end : Fields → Bool
is_end end = true
is_end (field k v fs) = false

unfoldable pub has_resources : Fields → String → Bool
has_resources c key = not (is_end (resources_of key c))

-- The number before a suffix, times a unit.
abbrev pub times : Option ℕ → ℕ → Option ℕ
times none unit = none
times (some n) unit = some (n * unit)

abbrev pub front : ℕ → String → String
front n s = take_chars (count_chars s - n) s

module _ (print : Json → String) (int_of : String → Option ℕ) where
  unfoldable pub quantity : String → Option ℕ
  quantity s =
      if ends_with "m" s
      then int_of (front 1 s)
      else if ends_with "Gi" s
      then times (int_of (front 2 s)) (1024 * 1024)
      else if ends_with "Mi" s
      then times (int_of (front 2 s)) 1024
      else if ends_with "G" s
      then times (int_of (front 1 s)) (1024 * 1024 * 1000)
      else if ends_with "M" s
      then times (int_of (front 1 s)) 1000
      else int_of s

  unfoldable pub cpu_or_mem_to_millicpus : Json → Option ℕ
  cpu_or_mem_to_millicpus v = quantity (strip (print v))

  -- The limit is less than the request, or one of the two is not read.
  abbrev pub below : Option ℕ → Option ℕ → Bool
  below (some l) (some r) = ltb l r
  below none r = true
  below (some l) none = true

  abbrev pub disagrees : Option Json → Json → Bool
  disagrees none v = false
  disagrees (some l) v =
      not (str_eq (print l) (print v))
      && below (cpu_or_mem_to_millicpus l) (cpu_or_mem_to_millicpus v)

  -- The loop over the requests.
  unfoldable pub any_below : Fields → Fields → Bool
  any_below end limits = false
  any_below (field k v fs) limits =
      let rest = any_below fs limits in if disagrees (get k limits) v then true else rest

  unfoldable pub issue_kind : String → Fields → Bool
  issue_kind mode c =
      if str_eq mode "missing_requests"
      then not (has_resources c "requests")
      else if str_eq mode "missing_limits"
      then not (has_resources c "limits")
      else if str_eq mode "inconsistent"
      then any_below (resources_of "requests" c) (resources_of "limits" c)
      else false

  abbrev pub owner_kinds_of_pods : List String
  owner_kinds_of_pods =
      "Deployment" ∷ "StatefulSet" ∷ "DaemonSet" ∷ "ReplicaSet" ∷ "Job" ∷ "CronJob" ∷ []

  unfoldable pub is_owned_by_workload : Fields → Bool
  is_owned_by_workload pod =
      any
        (λ owner. any (λ k. is_str (get "kind" (dict_or_empty (some owner))) k) owner_kinds_of_pods)
        (list_or_empty (get "ownerReferences" (dict_or_empty (get "metadata" pod))))

  -- A reported container, with the object that it belongs to.
  pub record Issue : Type 0 where
    pub workload : Fields
    pub container : Fields

  unfoldable pub container_issues : String → Fields → List Json → List Issue
  container_issues mode o [] = []
  container_issues mode o (c ∷ cs) =
      let rest = container_issues mode o cs in
      if issue_kind mode (dict_or_empty (some c))
      then record { workload = o; container = dict_or_empty (some c) } ∷ rest
      else rest

  unfoldable pub object_issues : String → String → Fields → List Issue
  object_issues kind mode o =
      if str_eq kind "Pod"
      then if is_owned_by_workload o then [] else container_issues mode o (extract_pod_containers o)
      else container_issues mode o (extract_workload_containers o)

  unfoldable pub all_issues : String → String → List Fields → List Issue
  all_issues kind mode [] = []
  all_issues kind mode (o ∷ os) = object_issues kind mode o ++ all_issues kind mode os

  pub data Audit : Type 0 where
    value_error : Audit
    nothing_found : Audit
    clean : Audit
    issues : List Issue → Audit

  abbrev pub report : List Issue → Audit
  report [] = clean
  report (i ∷ is) = issues (i ∷ is)

  -- The objects of the kind that the cluster lists in the namespace.
  unfoldable pub analyze_resource_usage :
      (String → Option String → List Fields) → Option String → String → String → Audit
  analyze_resource_usage list_of namespace kind mode =
      if not (elem mode ("missing_requests" ∷ "missing_limits" ∷ "inconsistent" ∷ []))
      then value_error
      else if not (elem kind ("Pod" ∷ "Deployment" ∷ "StatefulSet" ∷ "DaemonSet" ∷ []))
      then value_error
      else elim (list_of kind namespace) [
        | [] ↦ nothing_found
        | o ∷ os ↦ report (all_issues kind mode (o ∷ os))
      ]
