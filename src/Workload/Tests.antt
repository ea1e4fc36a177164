-- ===== src/Workload/Tests.antt =====
-- Runs of the tools for workloads.
use k8s_mcp.Base.{
  inr, ℕ, String, ◌≡◌, refl, true, false, Option, none, some, List, [], ◌∷◌, map, str_eq,
  if◌then◌else◌,
}
use k8s_mcp.Base.Json.{Fields, end, obj, get}
use k8s_mcp.Config.{default_settings, ns_allowed}
use k8s_mcp.Waiting.Jsonpath.{value, walk}
use k8s_mcp.Workload.Patches.{
  Patch, Names, several, names_of, patch_for, scale_body, restart_body, image_body, scale_workload,
  restart_workload, set_image, run_names, patch_workloads, lookup_error,
}
use k8s_mcp.Workload.Patches.Batches.{Written, workload_writes}
use k8s_mcp.Workload.Manifests.{Created, applied, create_statefulset}
use k8s_mcp.Workload.Manifests.Selectors.{
  SelectsItself, container_path, created_selects_its_pods, create_statefulset_mounts_nothing,
}

abbrev same : String → String
same s = s

-- An API without the workload `gone`.
abbrev no_gone : List Patch → Patch → Option ℕ
no_gone sent p = if str_eq p.name "gone" then some 404 else none

abbrev three : Names
three = several ("web" ∷ "gone" ∷ "db" ∷ [])

two_patches :
    scale_workload same no_gone default_settings "deployment" three "shop" (false, 3) ≡ record {
      sent =
          map
            (patch_for same no_gone "deployment" "shop" true (scale_body (false, 3)))
            ("web" ∷ "gone" ∷ []);
      result = lookup_error;
    }
unfolding scale_workload patch_workloads run_names ns_allowed
two_patches = refl

workload_writes_example :
    Written same no_gone default_settings "deployment" "shop"
      (patch_for same no_gone "deployment" "shop" true (scale_body (false, 3)))
      (names_of three)
      (scale_workload same no_gone default_settings "deployment" three "shop" (false, 3))
    × Written same no_gone default_settings "deployment" "shop"
        (patch_for same no_gone "deployment" "shop" false (restart_body "now"))
        (names_of three)
        (restart_workload same no_gone default_settings "now" "deployment" three "shop")
    × Written same no_gone default_settings "deployment" "shop"
        (patch_for same no_gone "deployment" "shop" false (image_body "app" "nginx"))
        (names_of three)
        (set_image same no_gone default_settings "deployment" three "shop" "app" "nginx")
workload_writes_example =
    workload_writes same no_gone default_settings "deployment" three "shop" "now" "app" "nginx"
      (false, 3)

abbrev manifest_of : Created → Fields
manifest_of (applied m) = m
manifest_of _ = end

abbrev deployed : Fields
deployed = manifest_of (
    create_statefulset default_settings "db" "postgres" "db" "shop" (false, 1) none none none none
      (some ("data" ∷ [])) none "1Gi")

created_selects_its_pods_example : SelectsItself default_settings "shop" deployed
unfolding create_statefulset ns_allowed
created_selects_its_pods_example =
    created_selects_its_pods default_settings "db" "postgres" "db" "shop" "1Gi" (false, 1) none none
      none none none none (some ("data" ∷ [])) none deployed (inr refl)

create_statefulset_mounts_nothing_example :
    (c : Fields) × (walk (obj deployed) container_path ≡ value (obj c))
    × (get "volumeMounts" c ≡ none)
unfolding create_statefulset ns_allowed
create_statefulset_mounts_nothing_example =
    create_statefulset_mounts_nothing default_settings "db" "postgres" "db" "shop" "1Gi" (false, 1)
      none none none none (some ("data" ∷ [])) none deployed refl
