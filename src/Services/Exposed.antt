-- ===== src/Services/Exposed.antt =====
-- A service for a workload that the server itself created.
use k8s_mcp.Base.{
  ℕ, String, ◌≡◌, refl, sym, ◌∙◌, Bool-cases, inl, inr, Option, none, some, List, [], ◌∷◌, elem,
}
use k8s_mcp.Base.Json.{Json, Fields, obj, text_fields}
use k8s_mcp.Config.{Settings}
use k8s_mcp.ConfigMap.{Data, may_write}
use k8s_mcp.Waiting.Jsonpath.{Token, key, value, step, walk}
use k8s_mcp.Workload.Manifests.Selectors.{SelectsItself, pod_labels_path}
use k8s_mcp.Services.{
  applied, service_types, service_manifest, create_service, Read, match_labels, expose_workload,
}

abbrev pub service_selector_path : List Token
service_selector_path = key "spec" ∷ key "selector" ∷ []

create_service-selector :
    (settings : Settings) (name namespace : String) (selector : Data) (ports : List Json)
    (service_type : String) (cluster_ip : Option String) (labels : Option Data) (s : Fields)
    → create_service settings name namespace selector ports service_type cluster_ip labels
      ≡ applied s
    → walk (obj s) service_selector_path ≡ value (obj (text_fields selector))
unfolding create_service
create_service-selector settings name namespace selector ports service_type cluster_ip labels s h =
    elim (Bool-cases (may_write settings namespace)) [
      | inr e ↦ cc (rw (create_service, e) at h)
      | inl e ↦ elim (Bool-cases (elem service_type service_types)) [
        | inr f ↦ cc (rw (create_service, e, f) at h)
        | inl f ↦
            let same : service_manifest name namespace selector ports service_type cluster_ip labels
                ≡ s =
              cc (rw (create_service, e, f) at h) in
            rw (← same) (unfold walk step in refl)
      ]
    ]

-- If a workload that selects its own pods was created, as create_deployment and create_statefulset do it, and the cluster
-- reports its labels, then a service that exposes it selects exactly the labels of its pods.
pub exposed_selects_pods :
    (lower : String → String) (read : String → String → String → Read) (settings : Settings)
    (workload_kind workload_name namespace : String) (port : ℕ) (service_name : Option String)
    (target_port : Option ℕ) (service_type : String) (m s : Fields)
    (created : SelectsItself settings namespace m)
    → read (lower workload_kind) workload_name namespace ≡ match_labels (some created.labels)
    → expose_workload lower read settings workload_kind workload_name namespace port service_name
        target_port service_type
      ≡ applied s
    → walk (obj s) service_selector_path ≡ walk (obj m) pod_labels_path
unfolding expose_workload
exposed_selects_pods lower read settings workload_kind workload_name namespace port service_name
      target_port service_type m s created reported h =
    elim (Bool-cases (may_write settings namespace)) [
      | inr e ↦ cc (rw (expose_workload, e) at h)
      | inl e ↦
          elim (Bool-cases
            (elem (lower workload_kind) ("deployment" ∷ "statefulset" ∷ "daemonset" ∷ []))) [
              | inr f ↦ cc (rw (expose_workload, e, f) at h)
              | inl f ↦
                  create_service-selector settings _ namespace created.labels _ service_type none _
                    s (rw (expose_workload, e, f, reported, created.some_label) at h)
                  ∙ sym created.pod_labels_are
            ]
    ]
