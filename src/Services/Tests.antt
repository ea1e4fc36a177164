-- ===== src/Services/Tests.antt =====
-- Runs of the tools of service.py.
use k8s_mcp.Base.{String, ◌≡◌, refl, false, none, some, [], ◌∷◌}
use k8s_mcp.Base.Json.{Fields, end, obj, text_fields}
use k8s_mcp.Config.{default_settings, ns_allowed}
use k8s_mcp.Config.Policy.{MayWrite, ns_allowed_iff}
use k8s_mcp.Waiting.Jsonpath.{walk, step, value}
use k8s_mcp.Workload.Manifests as Manifests
use k8s_mcp.Workload.Manifests.{or_app, create_deployment}
use k8s_mcp.Workload.Manifests.Selectors.{SelectsItself, selector_path, pod_labels_path}
use k8s_mcp.Services.{Created, applied, Read, match_labels, create_service, expose_workload}
use k8s_mcp.Services.Exposed.{service_selector_path, exposed_selects_pods}

abbrev deployed : Manifests.Created → Fields
deployed (Manifests.applied m) = m
deployed Manifests.permission_error = end

abbrev exposed : Created → Fields
exposed (applied m) = m
exposed _ = end

abbrev web : Fields
web = deployed (
    create_deployment default_settings "web" "nginx" "shop" (false, 3) none none none none none
      none)

-- A cluster with that deployment.
abbrev cluster : String → String → String → Read
cluster kind name namespace = match_labels (some (("app", "web") ∷ []))

abbrev web_service : Fields
web_service = exposed (
    expose_workload (λ s. s) cluster default_settings "deployment" "web" "shop" 80 none none
      "ClusterIP")

web_IsPermitted : MayWrite default_settings (some "shop")
web_IsPermitted = (ns_allowed_iff default_settings (some "shop")).0 (unfold ns_allowed in refl)

web_selector : walk (obj web) selector_path ≡ value (obj (text_fields (("app", "web") ∷ [])))
unfolding create_deployment or_app ns_allowed walk step
web_selector = refl

web_labels : walk (obj web) pod_labels_path ≡ value (obj (text_fields (("app", "web") ∷ [])))
unfolding create_deployment or_app ns_allowed walk step
web_labels = refl

abbrev web_selects : SelectsItself default_settings "shop" web
web_selects = record {
  may = web_IsPermitted;
  labels = ("app", "web") ∷ [];
  selector_is = web_selector;
  pod_labels_are = web_labels;
  some_label = refl;
}

exposed_selects_pods_example :
    walk (obj web_service) service_selector_path ≡ walk (obj web) pod_labels_path
unfolding create_deployment or_app expose_workload create_service ns_allowed
exposed_selects_pods_example =
    exposed_selects_pods (λ s. s) cluster default_settings "deployment" "web" "shop" 80 none none
      "ClusterIP" web web_service web_selects refl refl
