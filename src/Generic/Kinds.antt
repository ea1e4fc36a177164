-- ===== src/Generic/Kinds.antt =====
-- `_api_version_for` and `_resource_for_kind` of generic.py. The discovery of the dynamic client is a
-- parameter.
use k8s_mcp.Base.{String, Option, none, some, List, [], ◌∷◌, lookup, str_eq, if◌then◌else◌}
use k8s_mcp.Base.Text.{empty}

abbrev pub builtin_versions : List (String × String)
builtin_versions =
    ("Pod", "v1")
    ∷ ("Service", "v1")
    ∷ ("ConfigMap", "v1")
    ∷ ("Secret", "v1")
    ∷ ("Namespace", "v1")
    ∷ ("Node", "v1")
    ∷ ("PersistentVolume", "v1")
    ∷ ("PersistentVolumeClaim", "v1")
    ∷ ("ServiceAccount", "v1")
    ∷ ("Endpoints", "v1")
    ∷ ("Event", "v1")
    ∷ ("ReplicationController", "v1")
    ∷ ("ResourceQuota", "v1")
    ∷ ("LimitRange", "v1")
    ∷ ("Deployment", "apps/v1")
    ∷ ("StatefulSet", "apps/v1")
    ∷ ("DaemonSet", "apps/v1")
    ∷ ("ReplicaSet", "apps/v1")
    ∷ ("Ingress", "networking.k8s.io/v1")
    ∷ ("IngressClass", "networking.k8s.io/v1")
    ∷ ("NetworkPolicy", "networking.k8s.io/v1")
    ∷ ("HorizontalPodAutoscaler", "autoscaling/v2")
    ∷ ("Job", "batch/v1")
    ∷ ("CronJob", "batch/v1")
    ∷ ("StorageClass", "storage.k8s.io/v1")
    ∷ []

unfoldable pub api_version_for : String → Option String
api_version_for kind = lookup kind builtin_versions

-- What discovery gives for a kind: one resource, `ResourceNotFoundError` or `ResourceNotUniqueError`.
pub data Found (H : Type 0) : Type 0 where
  one : H → Found H
  resource_not_found : Found H
  resource_not_unique : Found H

-- Discovery in one API version, and in all groups.
pub record Discovery (H : Type 0) : Type 0 where
  pub at : String → String → Found H
  pub anywhere : String → Found H

pub data Resolved (H : Type 0) : Type 0 where
  resolved : H → Resolved H
  value_error : Resolved H
  not_unique : Resolved H

module _ {H : Type 0} (d : Discovery H) where
  -- The scan of all groups.
  unfoldable pub discover : String → Resolved H
  discover kind = elim (d.anywhere kind) [
    | one h ↦ resolved h
    | resource_not_found ↦ value_error
    | resource_not_unique ↦ value_error
  ]

  -- The built-in version first, if there is one.
  unfoldable pub resolve_builtin : String → Resolved H
  resolve_builtin kind = elim (api_version_for kind) [
    | none ↦ discover kind
    | some version ↦ elim (d.at version kind) [
      | one h ↦ resolved h
      | resource_not_found ↦ discover kind
      | resource_not_unique ↦ discover kind
    ]
  ]

  unfoldable pub resolve_at : String → String → Resolved H
  resolve_at version kind = elim (d.at version kind) [
    | one h ↦ resolved h
    | resource_not_found ↦ value_error
    | resource_not_unique ↦ not_unique
  ]

  unfoldable pub resource_for_kind : String → Option String → Resolved H
  resource_for_kind kind none = resolve_builtin kind
  resource_for_kind kind (some version) =
      if str_eq version empty then resolve_builtin kind else resolve_at version kind
