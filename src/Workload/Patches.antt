-- ===== src/Workload/Patches.antt =====
-- `scale_workload`, `restart_workload`, `set_image` and `set_resources`.
pub mod Batches
pub mod Quotas
use k8s_mcp.Base.{
  ℕ, String, Bool, true, false, ◌&&◌, ◌||◌, not, Option, none, some, List, [], ◌∷◌, ◌++◌, select,
  is_empty, ◌==◌, str_eq, if◌then◌else◌,
}
use k8s_mcp.Base.Json.{
  Json, int, str, arr, obj, Items, nil, cons, Fields, end, field, entry, text_fields,
}
use k8s_mcp.Base.Text.{empty}
use k8s_mcp.Config.{Settings}
use k8s_mcp.ConfigMap.{Data, may_write}

-- One patch that is sent: of a deployment or a stateful set, or of its scale.
pub record Patch : Type 0 where
  pub is_deployment : Bool
  pub of_scale : Bool
  pub name : String
  pub namespace : String
  pub body : Json

pub data Result : Type 0 where
  done : List String → Result
  permission_error : Result
  value_error : Result
  lookup_error : Result
  raised : ℕ → Result

-- How a tool ends, and all that it sent.
pub record Outcome : Type 0 where
  pub sent : List Patch
  pub result : Result

abbrev pub refused : Result → Outcome
refused r = record { sent = []; result = r }

-- `name if isinstance(name, list) else [name]`
pub data Names : Type 0 where
  one : String → Names
  several : List String → Names

abbrev pub names_of : Names → List String
names_of (one n) = n ∷ []
names_of (several ns) = ns

abbrev pub failure : ℕ → Result
failure status = if status == 404 then lookup_error else raised status

-- `containers[0]` of a patch of the pod template.
abbrev pub container_patch : Fields → Json
container_patch c =
    entry "spec" (entry "template" (entry "spec" (entry "containers" (arr (cons (obj c) nil)))))

abbrev pub scale_body : Bool × ℕ → Json
scale_body (negative, replicas) = entry "spec" (entry "replicas" (int negative replicas))

abbrev pub restart_body : String → Json
restart_body now = entry "spec" (
    entry "template" (
      entry "metadata" (entry "annotations" (entry "kubectl.kubernetes.io/restartedAt" (str now)))))

abbrev pub image_body : String → String → Json
image_body container image =
    container_patch (field "name" (str container) (field "image" (str image) end))

-- `{k: str(v) for k, v in d.items() if v != ""}`
unfoldable pub nonempty : Data → Data
nonempty d = select (λ kv. not (str_eq kv.1 empty)) d

abbrev pub quota : String → Option Data → Fields → Fields
quota key none fs = fs
quota key (some d) fs = field key (obj (text_fields (nonempty d))) fs

abbrev pub no_quota : Option Data → Bool
no_quota none = true
no_quota (some d) = is_empty d

-- How the API answers a patch after those sent before: nothing, or the status of an exception.
module _ (lower : String → String) (refuses : List Patch → Patch → Option ℕ) where
  -- The loop over the names, with the names patched so far.
  unfoldable pub run_names : (String → Patch) → List Patch → List String → List String → Outcome
  run_names patch_of sent patched [] = record { sent = sent; result = done patched }
  run_names patch_of sent patched (n ∷ ns) = elim (refuses sent (patch_of n)) [
    | none ↦ run_names patch_of (sent ++ patch_of n ∷ []) (patched ++ n ∷ []) ns
    | some status ↦ record { sent = sent ++ patch_of n ∷ []; result = failure status }
  ]

  abbrev pub supported : String → Bool
  supported kind = str_eq (lower kind) "deployment" || str_eq (lower kind) "statefulset"

  abbrev pub patch_for : String → String → Bool → Json → String → Patch
  patch_for kind namespace of_scale body n = record {
    is_deployment = str_eq (lower kind) "deployment";
    of_scale = of_scale;
    name = n;
    namespace = namespace;
    body = body;
  }

  -- What the tools for one or more names share: the guards and the loop.
  unfoldable pub patch_workloads : Settings → String → Names → String → Bool → Json → Outcome
  patch_workloads settings kind name namespace of_scale body =
      if may_write settings namespace
      then if supported kind
        then run_names (patch_for kind namespace of_scale body) [] [] (names_of name)
        else refused value_error
      else refused permission_error

  -- The number of replicas with its sign.
  unfoldable pub scale_workload : Settings → String → Names → String → Bool × ℕ → Outcome
  scale_workload settings kind name namespace replicas =
      patch_workloads settings kind name namespace true (scale_body replicas)

  unfoldable pub restart_workload : Settings → String → String → Names → String → Outcome
  restart_workload settings now kind name namespace =
      patch_workloads settings kind name namespace false (restart_body now)

  unfoldable pub set_image : Settings → String → Names → String → String → String → Outcome
  set_image settings kind name namespace container image =
      patch_workloads settings kind name namespace false (image_body container image)

  unfoldable pub set_resources :
      Settings → String → String → String → String → Option Data → Option Data → Outcome
  set_resources settings kind name namespace container requests limits =
      if may_write settings namespace
      then if no_quota requests && no_quota limits
        then refused value_error
        else patch_workloads settings kind (one name) namespace false (
            container_patch (
              field "name" (str container) (
                field "resources" (obj (quota "requests" requests (quota "limits" limits end)))
                  end)))
      else refused permission_error
