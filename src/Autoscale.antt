-- ===== src/Autoscale.antt =====
-- src/k8s_mcp/tools/autoscale.py and src/k8s_mcp/tools/serviceaccount.py, up to the call of `apply_yaml` on the manifest.
-- `str.lower` is a parameter.
pub mod Missed
mod Tests
use k8s_mcp.Base.{
  ℕ, String, Bool, true, false, ◌||◌, ◌&&◌, not, Option, none, some, List, [], ◌∷◌, ◌++◌, map, elem,
  is_empty, is_some, str_eq, if◌then◌else◌,
}
use k8s_mcp.Base.Json.{
  Json, null, int, str, arr, obj, Fields, items_of, text_fields, entry, dict, when,
}
use k8s_mcp.ConfigMap.{Data}
use k8s_mcp.Workload.Manifests.{
  Signed, int_of, filled, limit_value, text_value, metadata_of, job_metadata,
}

pub data Created : Type 0 where
  value_error : Created
  applied : Fields → Created

abbrev pub plain_metadata : String → String → Json
plain_metadata name namespace = obj (dict (("name", str name) ∷ ("namespace", str namespace) ∷ []))

abbrev pub resource_metric : String → List (String × Json) → Json
resource_metric name target = obj (
    dict (
      ("type", str "Resource")
      ∷ ("resource", obj (dict (("name", str name) ∷ ("target", obj (dict target)) ∷ [])))
      ∷ []))

abbrev pub metrics_of : Option Signed → Option String → List Json
metrics_of cpu_utilization memory_average_value =
    cpu_metric cpu_utilization ++ memory_metric memory_average_value
  where
    cpu_metric : Option Signed → List Json
    cpu_metric none = []
    cpu_metric (some n) =
        resource_metric "cpu" (("type", str "Utilization") ∷ ("averageUtilization", int_of n) ∷ [])
        ∷ []

    memory_metric : Option String → List Json
    memory_metric none = []
    memory_metric (some v) =
        resource_metric "memory" (("type", str "AverageValue") ∷ ("averageValue", str v) ∷ []) ∷ []

unfoldable pub create_hpa :
    (String → String)
    → String
    → String
    → String
    → String
    → Signed
    → Signed
    → Option Signed
    → Option String
    → Created
create_hpa lower name target_kind target_name namespace min_replicas max_replicas cpu_utilization
      memory_average_value =
    if not (elem (lower target_kind) ("deployment" ∷ "statefulset" ∷ []))
    then value_error
    else if not (is_some cpu_utilization) && not (is_some memory_average_value)
    then value_error
    else applied (
        dict (
          ("apiVersion", str "autoscaling/v2")
          ∷ ("kind", str "HorizontalPodAutoscaler")
          ∷ ("metadata", plain_metadata name namespace)
          ∷ (
            "spec",
            obj (
                dict (
                  (
                    "scaleTargetRef",
                    obj (
                        dict (
                          ("apiVersion", str "apps/v1")
                          ∷ ("kind", str target_kind)
                          ∷ ("name", str target_name)
                          ∷ [])),
                  )
                  ∷ ("minReplicas", int_of min_replicas)
                  ∷ ("maxReplicas", int_of max_replicas)
                  ∷ ("metrics", arr (items_of (metrics_of cpu_utilization memory_average_value)))
                  ∷ [])),
          )
          ∷ []))

-- A number of pods or a percentage.
pub data Amount : Type 0 where
  count : Signed → Amount
  share : String → Amount

abbrev pub minmax_value : Amount → Json
minmax_value (count n) = int_of n
minmax_value (share s) = str s

-- Exactly one of the two bounds, as an entry.
abbrev pub pdb_bound : Option Amount → Option Amount → Option (String × Json)
pdb_bound none none = none
pdb_bound (some a) (some b) = none
pdb_bound (some a) none = some ("minAvailable", minmax_value a)
pdb_bound none (some b) = some ("maxUnavailable", minmax_value b)

abbrev pub discovered_selector_label : String → Data
discovered_selector_label target_name = ("app.kubernetes.io/name", target_name) ∷ []

abbrev pub pdb_manifest : String → String → String → String × Json → Fields
pdb_manifest name target_name namespace bound = dict (
    ("apiVersion", str "policy/v1")
    ∷ ("kind", str "PodDisruptionBudget")
    ∷ ("metadata", plain_metadata name namespace)
    ∷ (
      "spec",
      obj (
          dict (
            (
              "selector",
              entry "matchLabels" (obj (text_fields (discovered_selector_label target_name))),
            )
            ∷ bound
            ∷ [])),
    )
    ∷ [])

unfoldable pub create_pdb :
    String → String → String → String → Option Amount → Option Amount → Created
create_pdb name target_kind target_name namespace min_available max_unavailable =
    if not (
      elem target_kind
        ("Deployment" ∷ "StatefulSet" ∷ "DaemonSet" ∷ "ReplicaSet" ∷ "ReplicationController" ∷ []))
    then value_error
    else elim (pdb_bound min_available max_unavailable) [
      | none ↦ value_error
      | some bound ↦ applied (pdb_manifest name target_name namespace bound)
    ]

unfoldable pub create_serviceaccount :
    String → String → Option (List String) → Option Data → Created
create_serviceaccount name namespace image_pull_secrets labels = applied (
    dict (
      ("apiVersion", str "v1")
      ∷ ("kind", str "ServiceAccount")
      ∷ ("metadata", job_metadata name namespace labels)
      ∷ when (not (is_empty (filled image_pull_secrets))) "imagePullSecrets"
          (arr (items_of (map (λ n. entry "name" (str n)) (filled image_pull_secrets))))))
