-- ===== src/Nodes/Taints.antt =====
-- `taint_node` and `untaint_node` of node_ops.py. The client and the API server are a parameter.
pub mod Found
pub mod Laws
use k8s_mcp.Base.{
  ℕ, suc, ◌+◌, ◌<◌, String, ◌≡◌, Bool, true, false, ◌&&◌, not, Option, none, some, List, [], ◌∷◌,
  ◌++◌, length, is_some, str_eq, ◌==◌, if◌then◌else◌,
}
use k8s_mcp.Base.Text.{empty}
use k8s_mcp.Config.{Settings}
use k8s_mcp.Nodes.TaintSpec.{Taint, Parsed, ok, value_error, is_node_name, parse_taint_spec}

-- A taint as the API server returns it.
pub record LiveTaint : Type 0 where
  pub key : String
  pub value : Option String
  pub effect : String

-- An answer, or an `ApiException` with its status.
pub data Reply {ℓ} (A : Type ℓ) : Type ℓ where
  answer : A → Reply A
  api_exception : ℕ → Reply A

-- The requests on one cluster that the two tools make: read `spec.taints` of a node, which may be
-- absent, add one at the path `/spec/taints/-`, replace them all by none, remove the one at an index.
pub record NodeApi : Type 1 where
  pub Store : Type 0
  pub read : Store → String → Reply (Option (List LiveTaint))
  pub append : Store → String → Taint → Reply Store
  pub clear : Store → String → Reply Store
  pub remove_at : Store → String → ℕ → Reply Store

-- How a tool call ends.
pub data Ended (S : Type 0) : Type 0 where
  changed : S → Ended S
  no_op : Ended S
  permission_error : Ended S
  invalid : Ended S
  lookup_error : Ended S
  raised : ℕ → Ended S

-- `except ApiException`: 404 becomes `LookupError`, the others propagate.
unfoldable pub or_lookup_error : {S : Type 0} → Reply S → Ended S
or_lookup_error (answer s) = changed s
or_lookup_error (api_exception status) = if status == 404 then lookup_error else raised status

-- `_read_only_guard`, and the refusal of cluster-scoped writes under an allowlist.
abbrev pub may_write_nodes : Settings → Bool
may_write_nodes s = not s.read_only && not (is_some s.namespace_allowlist)

-- `_validate_node_name`
unfoldable pub valid_node_name : String → Bool
valid_node_name name = not (str_eq name empty) && is_node_name name

-- `t.value or ""`
abbrev pub live_value : LiveTaint → String
live_value t = elim t.value [ none ↦ empty | some v ↦ v ]

unfoldable pub is_taint : Taint → LiveTaint → Bool
is_taint t live =
    (str_eq live.key t.key && str_eq (live_value live) t.value) && str_eq live.effect t.effect

-- `node.spec.taints or []`
abbrev pub or_no_taints : Option (List LiveTaint) → List LiveTaint
or_no_taints none = []
or_no_taints (some ts) = ts

-- The loop for `target_idx`.
unfoldable pub find_taint : Taint → ℕ → List LiveTaint → Option ℕ
find_taint t idx [] = none
find_taint t idx (live ∷ rest) =
    let later = find_taint t (idx + 1) rest in if is_taint t live then some idx else later

module _ (api : NodeApi) where
  open api use {Store, read, append, clear, remove_at}

  unfoldable pub taint_node : Settings → String → String → Store → Ended Store
  taint_node settings name spec s =
      if may_write_nodes settings
      then (if valid_node_name name
          then elim (parse_taint_spec spec) [
            | value_error ↦ invalid
            | ok t ↦ or_lookup_error (append s name t)
          ]
          else invalid)
      else permission_error

  -- The second half of `untaint_node`, on the taints that it read. The last request has no handler.
  unfoldable pub remove_found : String → Taint → List LiveTaint → Store → Ended Store
  remove_found name t current s = elim (find_taint t 0 current) [
    | none ↦ no_op
    | some idx ↦ elim (remove_at s name idx) [
      | answer s' ↦ changed s'
      | api_exception status ↦ raised status
    ]
  ]

  unfoldable pub untaint_node : Settings → String → Option String → Store → Ended Store
  untaint_node settings name taint s =
      if may_write_nodes settings
      then (if valid_node_name name
          then elim taint [
            | none ↦ or_lookup_error (clear s name)
            | some spec ↦ elim (parse_taint_spec spec) [
              | value_error ↦ invalid
              | ok t ↦ elim (read s name) [
                | answer current ↦ remove_found name t (or_no_taints current) s
                | api_exception status ↦ if status == 404 then lookup_error else raised status
              ]
            ]
          ]
          else invalid)
      else permission_error
