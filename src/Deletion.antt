-- ===== src/Deletion.antt =====
-- src/k8s_mcp/tools/delete_tool.py: `delete_resource` and `_execute`. Discovery of the kind and the
-- API server are parameters.
pub mod Scope
mod Tests
use k8s_mcp.Base.{ℕ, String, ◌≡◌, Bool, true, false, not, Option, none, some, str_eq, if◌then◌else◌}
use k8s_mcp.Config.{Settings, ns_allowed}

-- What the client's `delete` does: it answers, or raises one of the two errors that are caught, or
-- another with its status.
pub data Reply : Type 0 where
  done : Reply
  not_found : Reply
  conflict : Reply
  api_exception : ℕ → Reply

-- One request: kind, name, the namespace if it is namespaced, and the grace period.
pub record Request : Type 0 where
  pub kind : String
  pub name : String
  pub namespace : Option String
  pub grace_period_seconds : ℕ

pub data Outcome : Type 0 where
  deleted : Outcome
  lookup_error : Outcome
  runtime_error : Outcome
  raised : ℕ → Outcome

-- How a call ends: refused, with an unknown kind, or with the one request that it sent.
pub data Ended : Type 0 where
  permission_error : Ended
  value_error : Ended
  sent : Request → Outcome → Ended

-- `if namespace:`
unfoldable pub scope_of : Option String → Option String
scope_of none = none
scope_of (some ns) = if str_eq ns "" then none else some ns

unfoldable pub outcome_of : Reply → Outcome
outcome_of done = deleted
outcome_of not_found = lookup_error
outcome_of conflict = runtime_error
outcome_of (api_exception status) = raised status

module _ (is_known : String → Bool) (send : Request → Reply) where
  unfoldable pub execute : String → String → Option String → ℕ → Ended
  execute kind name namespace grace_period_seconds =
      let request : Request = record {
        kind = kind;
        name = name;
        namespace = scope_of namespace;
        grace_period_seconds = grace_period_seconds;
      } in
      if is_known kind then sent request (outcome_of (send request)) else value_error

  unfoldable pub delete_resource : Settings → String → String → Option String → ℕ → Ended
  delete_resource settings kind name namespace grace_period_seconds =
      if settings.read_only
      then permission_error
      else if not (ns_allowed settings namespace)
      then permission_error
      else execute kind name namespace grace_period_seconds
