-- ===== src/Safety/Errors.antt =====
-- `safe_apiserver_error` of src/k8s_mcp/safety.py.
pub mod Secrecy
use Prim.Native.String.{◌++◌}
use k8s_mcp.Base.{
  ℕ, String, Bool, true, false, ◌&&◌, Option, none, some, List, [], ◌∷◌, str_eq, ◌==◌,
  if◌then◌else◌,
}
use k8s_mcp.Base.Text.{empty}
use k8s_mcp.Base.Text.Decimal.{show}

-- `kubernetes.client.rest.ApiException`: its status, its reason, and all else that it carries.
pub record ApiException : Type 0 where
  pub status : Option ℕ
  pub reason : Option String
  pub body : String

-- An exception: the client's, or another with its class's name and its arguments.
pub data Exn : Type 0 where
  api : ApiException → Exn
  other : String → String → Exn

pub record SafeApiError : Type 0 where
  pub status : ℕ
  pub reason : String
  pub message : String
  pub hint : Option String

-- One entry of `_API_ERROR_TABLE`.
pub record Entry : Type 0 where
  pub status : ℕ
  pub reason : String
  pub one_liner : String
  pub hint : Option String

abbrev pub api_error_table : List Entry
api_error_table =
    record {
      status = 401;
      reason = "";
      one_liner = "unauthenticated request to apiserver";
      hint = some "check KUBECONFIG / K8S_MCP_API_TOKEN validity";
    }
    ∷ record {
      status = 403;
      reason = "";
      one_liner = "RBAC denied";
      hint = some "use `whoami` to see effective permissions for the current identity";
    }
    ∷ record { status = 404; reason = ""; one_liner = "resource not found"; hint = none }
    ∷ record {
      status = 409;
      reason = "";
      one_liner = "resource version conflict (concurrent modification)";
      hint = some "re-read the resource and retry";
    }
    ∷ record {
      status = 422;
      reason = "";
      one_liner = "manifest validation error";
      hint = some "diff against the live resource with `diff_resource`";
    }
    ∷ record {
      status = 429;
      reason = "";
      one_liner = "apiserver rate-limited this client";
      hint = some "back off and retry after a few seconds";
    }
    ∷ record {
      status = 500;
      reason = "";
      one_liner = "apiserver internal error";
      hint = some "this is an operator-side issue, not the manifest";
    }
    ∷ record {
      status = 503;
      reason = "";
      one_liner = "apiserver temporarily unavailable";
      hint = some "retry with backoff";
    }
    ∷ record {
      status = 504;
      reason = "";
      one_liner = "apiserver timeout";
      hint = some "the cluster may be under load; retry with backoff";
    }
    ∷ []

-- `_API_ERROR_TABLE.get((status, reason))`
unfoldable pub table_get : ℕ → String → List Entry → Option (String × Option String)
table_get status reason [] = none
table_get status reason (e ∷ es) =
    let rest = table_get status reason es in
    if e.status == status && str_eq e.reason reason then some (e.one_liner, e.hint) else rest

-- `x or 0`, `x or ""`
abbrev pub or_zero : Option ℕ → ℕ
or_zero none = 0
or_zero (some n) = n

abbrev pub or_empty : Option String → String
or_empty none = empty
or_empty (some s) = s

-- The identifier of the resource.
unfoldable pub who : String → String → String → String
who kind name namespace =
    let w = (if str_eq name empty then kind else kind ++ ("/" ++ name)) in
    if str_eq namespace empty then w else namespace ++ ("/" ++ w)

-- The two nested `get`s.
unfoldable pub describe : ℕ → String → String × Option String
describe status reason = elim (table_get status empty api_error_table) [
  | some found ↦ found
  | none ↦ elim (table_get status reason api_error_table) [
    | some found ↦ found
    | none ↦ ("apiserver returned HTTP " ++ show status, none)
  ]
]

unfoldable pub safe_apiserver_error : Exn → String → String → String → String → SafeApiError
safe_apiserver_error (api e) op kind name namespace =
    let status = or_zero e.status in
    let reason = or_empty e.reason in
    let (one_liner, hint) = describe status reason in
    record {
      status = status;
      reason = reason;
      message = op ++ (" " ++ (who kind name namespace ++ (" failed: " ++ one_liner)));
      hint = hint;
    }
safe_apiserver_error (other cls args) op kind name namespace = record {
  status = 0;
  reason = cls;
  message = op ++ (" " ++ (who kind name namespace ++ (" failed: internal " ++ cls)));
  hint = some "this is an internal error; check the server logs for details";
}
