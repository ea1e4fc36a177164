-- ===== src/Services.antt =====
-- src/k8s_mcp/tools/service.py: `create_service`, `create_ingress`, `expose_workload`, up to the call of `apply_yaml` on the
-- manifest. The reads of workloads and `str.lower` are parameters.
pub mod Exposed
mod Tests
use Prim.Native.String.{◌++◌ as ◌+++◌}
use k8s_mcp.Base.{
  ℕ, String, Bool, true, false, ◌||◌, not, Option, none, some, List, [], ◌∷◌, ◌++◌, ◌==◌, map, elem,
  is_empty, is_some, str_eq, if◌then◌else◌,
}
use k8s_mcp.Base.Json.{
  Json, null, int, str, arr, obj, Fields, get, items_of, text_fields, entry, dict, when, as_dict,
}
use k8s_mcp.Base.Text.{empty}
use k8s_mcp.Base.Text.Decimal.{show}
use k8s_mcp.Config.{Settings}
use k8s_mcp.ConfigMap.{Data, may_write}
use k8s_mcp.Workload.Manifests.{filled, or_else, text_value}

pub data Created : Type 0 where
  permission_error : Created
  value_error : Created
  -- An exception of the API while the workload was read.
  raised : ℕ → Created
  applied : Fields → Created

abbrev pub service_types : List String
service_types = "ClusterIP" ∷ "NodePort" ∷ "LoadBalancer" ∷ []

abbrev pub service_manifest :
    String → String → Data → List Json → String → Option String → Option Data → Fields
service_manifest name namespace selector ports service_type cluster_ip labels = dict (
    ("apiVersion", str "v1")
    ∷ ("kind", str "Service")
    ∷ (
      "metadata",
      obj (
          dict (
            ("name", str name)
            ∷ ("namespace", str namespace)
            ∷ when (not (is_empty (filled labels))) "labels" (obj (text_fields (filled labels))))),
    )
    ∷ (
      "spec",
      obj (
          dict (
            ("selector", obj (text_fields selector))
            ∷ ("ports", arr (items_of ports))
            ∷ ("type", str service_type)
            ∷ when (is_some cluster_ip) "clusterIP" (text_value cluster_ip))),
    )
    ∷ [])

unfoldable pub create_service :
    Settings → String → String → Data → List Json → String → Option String → Option Data → Created
create_service settings name namespace selector ports service_type cluster_ip labels =
    if may_write settings namespace
    then if not (elem service_type service_types)
      then value_error
      else applied (service_manifest name namespace selector ports service_type cluster_ip labels)
    else permission_error

-- A port of a service is a number or a name.
pub data Port : Type 0 where
  numbered : ℕ → Port
  named : String → Port

abbrev pub service_port : Port → Json
service_port (numbered n) = entry "number" (int false n)
service_port (named s) = entry "name" (str s)

-- A rule, with the entries that it may leave out.
pub record Rule : Type 0 where
  pub host : Option String
  pub path : Option String
  pub path_type : Option String
  pub service_name : String
  pub service_port_of : Port

abbrev pub text_or : String → Option String → Json
text_or t none = str t
text_or t (some s) = str s

abbrev pub ingress_rule : Rule → Json
ingress_rule r = obj (
    dict (
      ("host", text_value r.host)
      ∷ (
        "http",
        entry "paths" (
            arr (
              items_of (
                obj (
                  dict (
                    ("path", text_or "/" r.path)
                    ∷ ("pathType", text_or "Prefix" r.path_type)
                    ∷ (
                      "backend",
                      entry "service" (
                          obj (
                            dict (
                              ("name", str r.service_name)
                              ∷ ("port", service_port r.service_port_of)
                              ∷ []))),
                    )
                    ∷ []))
                ∷ []))),
      )
      ∷ []))

unfoldable pub create_ingress :
    Settings
    → String
    → String
    → List Rule
    → Option (List Json)
    → String
    → Option Data
    → Option Data
    → Created
create_ingress settings name namespace rules tls ingress_class_name annotations labels =
    if may_write settings namespace
    then applied (
        dict (
          ("apiVersion", str "networking.k8s.io/v1")
          ∷ ("kind", str "Ingress")
          ∷ (
            "metadata",
            obj (
                dict (
                  ("name", str name)
                  ∷ ("namespace", str namespace)
                  ∷ (when (not (is_empty (filled labels))) "labels"
                        (obj (text_fields (filled labels)))
                      ++ when (not (is_empty (filled annotations))) "annotations"
                          (obj (text_fields (filled annotations)))))),
          )
          ∷ (
            "spec",
            obj (
                dict (
                  ("ingressClassName", str ingress_class_name)
                  ∷ ("rules", arr (items_of (map ingress_rule rules)))
                  ∷ when (not (is_empty (filled tls))) "tls" (arr (items_of (filled tls))))),
          )
          ∷ []))
    else permission_error

-- The match labels of a workload that is read, or the status of an exception.
pub data Read : Type 0 where
  match_labels : Option Data → Read
  api_exception : ℕ → Read

-- `target_port or port`
abbrev pub target_or : Option ℕ → ℕ → ℕ
target_or none port = port
target_or (some t) port = if t == 0 then port else t

abbrev pub exposed_port : ℕ → Option ℕ → Json
exposed_port port target_port = obj (
    dict (
      ("port", int false port)
      ∷ ("targetPort", int false (target_or target_port port))
      ∷ ("protocol", str "TCP")
      ∷ ("name", str ("http-" +++ show port))
      ∷ []))

module _ (lower : String → String) (read : String → String → String → Read) where
  abbrev pub expose_read :
      Settings → String → String → ℕ → Option String → Option ℕ → String → Read → Created
  expose_read settings workload_name namespace port service_name target_port service_type
        (api_exception status) =
      raised status
  expose_read settings workload_name namespace port service_name target_port service_type
        (match_labels labels) =
      if is_empty (filled labels)
      then value_error
      else create_service settings (or_else service_name workload_name) namespace (filled labels)
          (exposed_port port target_port ∷ []) service_type none
          (some (("app.kubernetes.io/managed-by", "k8s-mcp") ∷ []))

  unfoldable pub expose_workload :
      Settings → String → String → String → ℕ → Option String → Option ℕ → String → Created
  expose_workload settings workload_kind workload_name namespace port service_name target_port
        service_type =
      if may_write settings namespace
      then if elem (lower workload_kind) ("deployment" ∷ "statefulset" ∷ "daemonset" ∷ [])
        then expose_read settings workload_name namespace port service_name target_port service_type
            (read (lower workload_kind) workload_name namespace)
        else value_error
      else permission_error
