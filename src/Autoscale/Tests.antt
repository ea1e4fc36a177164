-- ===== src/Autoscale/Tests.antt =====
-- Runs of the tools of autoscale.py.
use k8s_mcp.Base.{◌≡◌, refl, false, none, some}
use k8s_mcp.Base.Json.{Fields, end, obj, text_fields}
use k8s_mcp.Config.{default_settings, ns_allowed}
use k8s_mcp.ConfigMap.{Data}
use k8s_mcp.NetworkPolicy.{labels_match}
use k8s_mcp.Waiting.Jsonpath.{value, walk}
use k8s_mcp.Workload.Manifests as Manifests
use k8s_mcp.Workload.Manifests.{create_deployment}
use k8s_mcp.Workload.Manifests.Selectors.{pod_labels_path}
use k8s_mcp.Autoscale.{Created, value_error, applied, count, create_pdb, create_hpa}
use k8s_mcp.Autoscale.Missed.{budget_selector_path, pdb_misses_created_pods}

abbrev deployed : Manifests.Created → Fields
deployed (Manifests.applied m) = m
deployed Manifests.permission_error = end

abbrev budgeted : Created → Fields
budgeted (applied m) = m
budgeted value_error = end

abbrev web : Fields
web = deployed (
    create_deployment default_settings "web" "nginx" "shop" (false, 3) none none none none none
      none)

abbrev web_budget : Fields
web_budget =
    budgeted (create_pdb "web-budget" "Deployment" "web" "shop" (some (count (false, 1))) none)

no_metric :
    create_hpa (λ s. s) "web" "deployment" "web" "shop" (false, 1) (false, 3) none none
    ≡ value_error
unfolding create_hpa
no_metric = refl

pdb_misses_created_pods_example :
    (pods : Data) × (selector : Data) × (walk (obj web) pod_labels_path
      ≡ value (obj (text_fields pods)))
    × (walk (obj web_budget) budget_selector_path ≡ value (obj (text_fields selector)))
    × (labels_match selector pods ≡ false)
unfolding create_deployment create_pdb ns_allowed
pdb_misses_created_pods_example =
    pdb_misses_created_pods default_settings "web" "nginx" "shop" "web-budget" (false, 3) none none
      none none none (some (count (false, 1))) none web web_budget refl refl
