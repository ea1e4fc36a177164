-- ===== src/Workload/Manifests.antt =====
-- `create_deployment`, `create_statefulset`, `create_job`, `create_cronjob` and the builders of containers
-- and pods, up to the call of `apply_yaml` on the manifest.
pub mod Selectors
use k8s_mcp.Base.{
  ℕ, String, Bool, true, false, not, Option, none, some, List, [], ◌∷◌, ◌++◌, map, is_empty,
  is_some, str_eq, if◌then◌else◌,
}
use Prim.Native.String.{◌++◌ as ◌+++◌}
use k8s_mcp.Base.Json.{
  Json, null, int, str, arr, obj, Fields, end, items_of, text_fields, entry, dict, when, truthy,
}
use k8s_mcp.Base.Text.{empty}
use k8s_mcp.Config.{Settings}
use k8s_mcp.ConfigMap.{Data, may_write}

-- A call is refused, or hands a manifest to `apply_yaml`.
pub data Created : Type 0 where
  permission_error : Created
  applied : Fields → Created

-- An integer is its sign and its size.
abbrev pub Signed : Type 0
Signed = Bool × ℕ

abbrev pub int_of : Signed → Json
int_of (negative, n) = int negative n

-- `s or t`, and the truth and the value of an optional argument.
abbrev pub or_else : Option String → String → String
or_else none t = t
or_else (some s) t = if str_eq s empty then t else s

abbrev pub filled {ℓ} : {A : Type ℓ} → Option (List A) → List A
filled none = []
filled (some xs) = xs

abbrev pub text_given : Option String → Bool
text_given none = false
text_given (some s) = not (str_eq s empty)

abbrev pub text_value : Option String → Json
text_value none = null
text_value (some s) = str s

abbrev pub value_of : Option Fields → Json
value_of none = null
value_of (some fs) = obj fs

abbrev pub texts_value : Option (List String) → Json
texts_value none = null
texts_value (some ts) = arr (items_of (map str ts))

-- `labels or {"app": name}`
unfoldable pub or_app : Option Data → String → Data
or_app none name = ("app", name) ∷ []
or_app (some []) name = ("app", name) ∷ []
or_app (some (kv ∷ d)) name = kv ∷ d

abbrev pub env_value : Data → Json
env_value d =
    arr (items_of (map (λ kv. obj (dict (("name", str kv.0) ∷ ("value", str kv.1) ∷ []))) d))

abbrev pub ports_value : List Signed → Json
ports_value ps = arr (items_of (map (λ p. entry "containerPort" (int_of p)) ps))

-- The entries `env`, `resources` and `imagePullPolicy` that both builders of a container end with.
abbrev pub container_rest : Option Data → Option Fields → Option String → List (String × Json)
container_rest env resources image_pull_policy =
    when (not (is_empty (filled env))) "env" (env_value (filled env))
    ++ (when (truthy (value_of resources)) "resources" (value_of resources)
        ++ when (text_given image_pull_policy) "imagePullPolicy" (text_value image_pull_policy))

unfoldable pub build_container :
    String → String → Option (List Signed) → Option Data → Option Fields → Option String → Fields
build_container name image ports env resources image_pull_policy = dict (
    ("name", str name)
    ∷ ("image", str image)
    ∷ (when (not (is_empty (filled ports))) "ports" (ports_value (filled ports))
        ++ container_rest env resources image_pull_policy))

unfoldable pub build_pod_spec :
    String
    → String
    → Option (List String)
    → Option (List String)
    → Option Data
    → Option Fields
    → Option String
    → String
    → Fields
build_pod_spec image container_name command args env resources image_pull_policy restart_policy =
    dict (
      ("restartPolicy", str restart_policy)
      ∷ (
        "containers",
        arr (
            items_of (
              obj (
                dict (
                  ("name", str container_name)
                  ∷ ("image", str image)
                  ∷ (when (is_some command) "command" (texts_value command)
                      ++ (when (is_some args) "args" (texts_value args)
                          ++ container_rest env resources image_pull_policy))))
              ∷ [])),
      )
      ∷ [])

abbrev pub metadata_of : String → String → Data → Json
metadata_of name namespace labels = obj (
    dict (
      ("name", str name)
      ∷ ("namespace", str namespace)
      ∷ ("labels", obj (text_fields labels))
      ∷ []))

abbrev pub guarded : Settings → String → Fields → Created
guarded settings namespace manifest =
    if may_write settings namespace then applied manifest else permission_error

unfoldable pub create_deployment :
    Settings
    → String
    → String
    → String
    → Signed
    → Option String
    → Option (List Signed)
    → Option Data
    → Option Data
    → Option Fields
    → Option String
    → Created
create_deployment settings name image namespace replicas container_name ports env labels resources
      image_pull_policy =
    let chosen = or_app labels name in
    guarded settings namespace (
      dict (
        ("apiVersion", str "apps/v1")
        ∷ ("kind", str "Deployment")
        ∷ ("metadata", metadata_of name namespace chosen)
        ∷ (
          "spec",
          obj (
              dict (
                ("replicas", int_of replicas)
                ∷ ("selector", entry "matchLabels" (obj (text_fields chosen)))
                ∷ (
                  "template",
                  obj (
                      dict (
                        ("metadata", entry "labels" (obj (text_fields chosen)))
                        ∷ (
                          "spec",
                          entry "containers" (
                              arr (
                                items_of (
                                  obj (
                                    build_container (or_else container_name name) image ports env
                                      resources image_pull_policy)
                                  ∷ []))),
                        )
                        ∷ [])),
                )
                ∷ [])),
        )
        ∷ []))

-- A volume mount of the caller, of which the code reads the name only.
abbrev pub volumes_value : List String → Json
volumes_value ns = arr (
    items_of (
      map
        (λ n.
          obj (dict (("name", str n) ∷ ("persistentVolumeClaim", entry "claimName" (str n)) ∷ [])))
        ns))

abbrev pub claim_template : String → Option String → String → Json
claim_template name storage_class storage_size = obj (
    dict (
      ("metadata", entry "name" (str (name +++ "-data")))
      ∷ (
        "spec",
        obj (
            dict (
              ("accessModes", arr (items_of (str "ReadWriteOnce" ∷ [])))
              ∷ ("resources", entry "requests" (entry "storage" (str storage_size)))
              ∷ when (text_given storage_class) "storageClassName" (text_value storage_class))),
      )
      ∷ []))

unfoldable pub create_statefulset :
    Settings
    → String
    → String
    → String
    → String
    → Signed
    → Option String
    → Option (List Signed)
    → Option Data
    → Option Data
    → Option (List String)
    → Option String
    → String
    → Created
create_statefulset settings name image service_name namespace replicas container_name ports env
      labels volume_mounts storage_class storage_size =
    let chosen = or_app labels name in
    guarded settings namespace (
      dict (
        ("apiVersion", str "apps/v1")
        ∷ ("kind", str "StatefulSet")
        ∷ ("metadata", metadata_of name namespace chosen)
        ∷ (
          "spec",
          obj (
              dict (
                ("serviceName", str service_name)
                ∷ ("replicas", int_of replicas)
                ∷ ("selector", entry "matchLabels" (obj (text_fields chosen)))
                ∷ (
                  "template",
                  obj (
                      dict (
                        ("metadata", entry "labels" (obj (text_fields chosen)))
                        ∷ (
                          "spec",
                          obj (
                              dict (
                                (
                                  "containers",
                                  arr (
                                      items_of (
                                        obj (
                                          build_container (or_else container_name name) image ports
                                            env none none)
                                        ∷ [])),
                                )
                                ∷ when (not (is_empty (filled volume_mounts))) "volumes"
                                    (volumes_value (filled volume_mounts)))),
                        )
                        ∷ [])),
                )
                ∷ (
                  "volumeClaimTemplates",
                  arr (items_of (claim_template name storage_class storage_size ∷ [])),
                )
                ∷ [])),
        )
        ∷ []))

-- `md` of a job: labels only if some are given.
abbrev pub job_metadata : String → String → Option Data → Json
job_metadata name namespace labels = obj (
    dict (
      ("name", str name)
      ∷ ("namespace", str namespace)
      ∷ when (not (is_empty (filled labels))) "labels" (obj (text_fields (filled labels)))))

abbrev pub limit_value : Option Signed → Json
limit_value none = null
limit_value (some n) = int_of n

unfoldable pub create_job :
    Settings
    → String
    → String
    → String
    → Option String
    → Option (List String)
    → Option (List String)
    → Option Data
    → Option Fields
    → Option String
    → String
    → Option Signed
    → Option Data
    → Created
create_job settings name image namespace container_name command args env resources image_pull_policy
      restart_policy backoff_limit labels =
    guarded settings namespace (
      dict (
        ("apiVersion", str "batch/v1")
        ∷ ("kind", str "Job")
        ∷ ("metadata", job_metadata name namespace labels)
        ∷ (
          "spec",
          obj (
              dict (
                (
                  "template",
                  entry "spec" (
                      obj (
                        build_pod_spec image (or_else container_name name) command args env
                          resources image_pull_policy restart_policy)),
                )
                ∷ when (is_some backoff_limit) "backoffLimit" (limit_value backoff_limit))),
        )
        ∷ []))

unfoldable pub create_cronjob :
    Settings
    → String
    → String
    → String
    → String
    → Option String
    → Option (List String)
    → Option (List String)
    → Option Data
    → Option Fields
    → Option String
    → String
    → Option Data
    → Created
create_cronjob settings name image schedule namespace container_name command args env resources
      image_pull_policy restart_policy labels =
    guarded settings namespace (
      dict (
        ("apiVersion", str "batch/v1")
        ∷ ("kind", str "CronJob")
        ∷ ("metadata", job_metadata name namespace labels)
        ∷ (
          "spec",
          obj (
              dict (
                ("schedule", str schedule)
                ∷ (
                  "jobTemplate",
                  entry "spec" (
                      entry "template" (
                        entry "spec" (
                          obj (
                            build_pod_spec image (or_else container_name name) command args env
                              resources image_pull_policy restart_policy)))),
                )
                ∷ [])),
        )
        ∷ []))
