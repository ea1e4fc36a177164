-- ===== src/Workload/Manifests/Selectors.antt =====
-- What the manifests of deployments and stateful sets select and mount.
use k8s_mcp.Base.{
  String, ◌≡◌, refl, ◌⊎◌, false, Bool-cases, inl, inr, Option, none, some, List, [], ◌∷◌, is_empty,
  arith,
}
use k8s_mcp.Base.Json.{obj, Fields, get, text_fields}
use k8s_mcp.Config.{Settings}
use k8s_mcp.Config.Policy.{MayWrite}
use k8s_mcp.ConfigMap.{Data, may_write}
use k8s_mcp.Waiting.Jsonpath.{Token, key, index, value, step, walk, at_index}
use k8s_mcp.Workload.Patches.Batches.{may_write_iff}
use k8s_mcp.Workload.Manifests.{
  applied, Signed, guarded, or_app, or_else, build_container, create_deployment, create_statefulset,
}

-- The paths of the selector and of the labels that the pods get.
abbrev pub selector_path : List Token
selector_path = key "spec" ∷ key "selector" ∷ key "matchLabels" ∷ []

abbrev pub pod_labels_path : List Token
pod_labels_path = key "spec" ∷ key "template" ∷ key "metadata" ∷ key "labels" ∷ []

abbrev pub container_path : List Token
container_path = key "spec" ∷ key "template" ∷ key "spec" ∷ key "containers" ∷ index false 0 ∷ []

-- A manifest that may be written and whose selector is the labels of its pods, of which there is one at least.
pub record SelectsItself (settings : Settings) (namespace : String) (m : Fields) : Type 0 where
  pub may : MayWrite settings (some namespace)
  pub labels : Data
  pub selector_is : walk (obj m) selector_path ≡ value (obj (text_fields labels))
  pub pod_labels_are : walk (obj m) pod_labels_path ≡ value (obj (text_fields labels))
  pub some_label : is_empty labels ≡ false

or_app-filled : (labels : Option Data) (name : String) → is_empty (or_app labels name) ≡ false
unfolding or_app
or_app-filled none name = refl
or_app-filled (some []) name = refl
or_app-filled (some (kv ∷ d)) name = refl

pub guarded-applied :
    (settings : Settings) (namespace : String) (m n : Fields)
    → guarded settings namespace n ≡ applied m
    → MayWrite settings (some namespace) × (n ≡ m)
guarded-applied settings namespace m n h = elim (Bool-cases (may_write settings namespace)) [
  | inl e ↦ ((may_write_iff settings namespace).0 e, cc (rw e at h))
  | inr e ↦ cc (rw e at h)
]

-- A deployment or stateful set that is handed to the cluster is in a namespace that may be written, and its
-- selector is exactly the labels of its pods, which are not empty.
pub created_selects_its_pods :
    (settings : Settings) (name image service_name namespace storage_size : String)
    (replicas : Signed) (container_name : Option String) (ports : Option (List Signed))
    (env labels : Option Data) (resources : Option Fields) (image_pull_policy : Option String)
    (volume_mounts : Option (List String)) (storage_class : Option String) (m : Fields)
    → (create_deployment settings name image namespace replicas container_name ports env labels
          resources image_pull_policy
        ≡ applied m)
      ⊎ (create_statefulset settings name image service_name namespace replicas container_name ports
            env labels volume_mounts storage_class storage_size
          ≡ applied m)
    → SelectsItself settings namespace m
unfolding create_deployment create_statefulset
created_selects_its_pods settings name image service_name namespace storage_size replicas
      container_name ports env labels resources image_pull_policy volume_mounts storage_class m
      (inl h) =
    let (may, same) = guarded-applied settings namespace m _ h in
    rw (← same) (record {
      may = may;
      labels = or_app labels name;
      selector_is = unfold walk step in refl;
      pod_labels_are = unfold walk step in refl;
      some_label = or_app-filled labels name;
    })
created_selects_its_pods settings name image service_name namespace storage_size replicas
      container_name ports env labels resources image_pull_policy volume_mounts storage_class m
      (inr h) =
    let (may, same) = guarded-applied settings namespace m _ h in
    rw (← same) (record {
      may = may;
      labels = or_app labels name;
      selector_is = unfold walk step in refl;
      pod_labels_are = unfold walk step in refl;
      some_label = or_app-filled labels name;
    })

unmounted :
    (name image : String) (ports : Option (List Signed)) (env : Option Data)
    (resources : Option Fields) (policy : Option String)
    → get "volumeMounts" (build_container name image ports env resources policy) ≡ none
unfolding build_container
unmounted name image ports env resources policy = ground arith

-- The container of a stateful set that is handed to the cluster has no volume mounts, whatever mounts and storage were asked for.
pub create_statefulset_mounts_nothing :
    (settings : Settings) (name image service_name namespace storage_size : String)
    (replicas : Signed) (container_name : Option String) (ports : Option (List Signed))
    (env labels : Option Data) (volume_mounts : Option (List String))
    (storage_class : Option String) (m : Fields)
    → create_statefulset settings name image service_name namespace replicas container_name ports
        env labels volume_mounts storage_class storage_size
      ≡ applied m
    → (c : Fields) × (walk (obj m) container_path ≡ value (obj c)) × (get "volumeMounts" c ≡ none)
unfolding create_statefulset
create_statefulset_mounts_nothing settings name image service_name namespace storage_size replicas
      container_name ports env labels volume_mounts storage_class m h =
    let (may, same) = guarded-applied settings namespace m _ h in
    let name' = or_else container_name name in
    rw (← same) (
      build_container name' image ports env none none,
      unfold walk step at_index in refl,
      unmounted name' image ports env none none,
    )
