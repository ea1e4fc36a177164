-- ===== src/Autoscale/Missed.antt =====
-- A disruption budget for a deployment that the server itself created.
use k8s_mcp.Base.{
  String, ◌≡◌, refl, false, Bool-cases, Option-cases, inl, inr, Option, none, List, [], ◌∷◌, elem,
}
use k8s_mcp.Base.Json.{Fields, obj, text_fields}
use k8s_mcp.Config.{Settings}
use k8s_mcp.ConfigMap.{Data}
use k8s_mcp.NetworkPolicy.{labels_match}
use k8s_mcp.Waiting.Jsonpath.{Token, key, value, step, walk}
use k8s_mcp.Workload.Manifests as Manifests
use k8s_mcp.Workload.Manifests.{Signed, or_app, create_deployment}
use k8s_mcp.Workload.Manifests.Selectors.{pod_labels_path, guarded-applied}
use k8s_mcp.Autoscale.{
  applied, Amount, pdb_bound, pdb_manifest, discovered_selector_label, create_pdb,
}

abbrev pub budget_selector_path : List Token
budget_selector_path = key "spec" ∷ key "selector" ∷ key "matchLabels" ∷ []

-- The selector of a budget.
budget_selector :
    (name target_kind target_name namespace : String)
    (min_available max_unavailable : Option Amount) (b : Fields)
    → create_pdb name target_kind target_name namespace min_available max_unavailable ≡ applied b
    → walk (obj b) budget_selector_path
      ≡ value (obj (text_fields (discovered_selector_label target_name)))
unfolding create_pdb
budget_selector name target_kind target_name namespace min_available max_unavailable b h =
    elim (Bool-cases (
      elem target_kind (
        "Deployment" ∷ "StatefulSet" ∷ "DaemonSet" ∷ "ReplicaSet" ∷ "ReplicationController"
        ∷ []))) [
          | inr e ↦ cc (rw (create_pdb, e) at h)
          | inl e ↦ elim (Option-cases (pdb_bound min_available max_unavailable)) [
            | inl n ↦ cc (rw (create_pdb, e, n) at h)
            | inr (bound, n) ↦
                let same : pdb_manifest name target_name namespace bound ≡ b =
                  cc (rw (create_pdb, e, n) at h) in
                rw (← same) (unfold walk step in refl)
          ]
        ]

-- A budget for a deployment that create_deployment made without given labels selects none of its pods.
pub pdb_misses_created_pods :
    (settings : Settings) (name image namespace budget : String) (replicas : Signed)
    (container_name : Option String) (ports : Option (List Signed)) (env : Option Data)
    (resources : Option Fields) (image_pull_policy : Option String)
    (min_available max_unavailable : Option Amount) (m b : Fields)
    → create_deployment settings name image namespace replicas container_name ports env none
        resources image_pull_policy
      ≡ Manifests.applied m
    → create_pdb budget "Deployment" name namespace min_available max_unavailable ≡ applied b
    → (pods : Data) × (selector : Data) × (walk (obj m) pod_labels_path
        ≡ value (obj (text_fields pods)))
      × (walk (obj b) budget_selector_path ≡ value (obj (text_fields selector)))
      × (labels_match selector pods ≡ false)
unfolding create_deployment or_app
pdb_misses_created_pods settings name image namespace budget replicas container_name ports env
      resources image_pull_policy min_available max_unavailable m b h k =
    let (may, same) = guarded-applied settings namespace m _ h in
    let pods_are : walk (obj m) pod_labels_path ≡ value (obj (text_fields (("app", name) ∷ []))) =
      rw (← same) (unfold walk step in refl) in
    (
      ("app", name) ∷ [],
      discovered_selector_label name,
      pods_are,
      budget_selector budget "Deployment" name namespace min_available max_unavailable b k,
      unfold labels_match in refl,
    )
