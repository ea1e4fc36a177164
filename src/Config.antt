-- ===== src/Config.antt =====
-- src/k8s_mcp/config.py: the settings that guard writes, and the validators of their values.
pub mod Allowlist
pub mod Policy
mod Tests
use k8s_mcp.Base.{
  ℕ, String, Bool, true, false, Option, none, some, List, [], ◌∷◌, ◌++◌, map, any, elem, is_empty,
  select, not, str_eq, if◌then◌else◌,
}
use k8s_mcp.Base.Text.{split, strip, empty}
use mathlib.Core.List.{foldl}

-- The fields that the modelled code reads.
pub record Settings : Type 0 where
  pub api_server : Option String
  pub api_token : Option String
  pub api_ca_cert : Option String
  pub api_insecure : Bool
  pub kubeconfig : Option String
  pub read_only : Bool
  pub namespace_allowlist : Option (List String)
  pub enabled_groups : Option (List String)
  pub rate_limit_rpm : ℕ
  -- Whole seconds; the source takes a float.
  pub tool_timeout : ℕ
  pub max_concurrent_tools : ℕ
  pub notifier_url_allow_http : Bool
  pub notifier_url_allowlist : Option (List String)
  pub notifier_allow_private_hosts : Bool

-- `Settings()` where no environment variable is set.
abbrev pub default_settings : Settings
default_settings = record {
  api_server = none;
  api_token = none;
  api_ca_cert = none;
  api_insecure = false;
  kubeconfig = none;
  read_only = false;
  namespace_allowlist = none;
  enabled_groups = none;
  rate_limit_rpm = 120;
  tool_timeout = 60;
  max_concurrent_tools = 8;
  notifier_url_allow_http = false;
  notifier_url_allowlist = none;
  notifier_allow_private_hosts = false;
}

-- What a validator is handed before pydantic looks at the type.
pub data Raw : Type 0 where
  absent : Raw
  text : String → Raw
  list : List String → Raw

-- `ok` is the validator's value, `value_error` its `raise ValueError`.
pub data Checked {ℓ} (A : Type ℓ) : Type ℓ where
  ok : A → Checked A
  value_error : Checked A

-- `dict.fromkeys(xs)` read as a list: first-seen order, each once.
unfoldable pub add_key : List String → String → List String
add_key seen x = if elem x seen then seen else seen ++ x ∷ []

unfoldable pub fromkeys : List String → List String
unfolding add_key
fromkeys = foldl add_key []

abbrev nonblank : String → Bool
nonblank s = not (str_eq s empty)

-- `[s.strip() for s in v.split(",") if s.strip()]`
unfoldable pub pieces : String → List String
unfolding split strip
pieces v = select nonblank (map strip (split b',' v))

unfoldable pub split_allowlist : Raw → Checked (Option (List String))
unfolding fromkeys pieces
split_allowlist absent = ok none
split_allowlist (list xs) = ok (some xs)
split_allowlist (text v) =
    if str_eq v empty
    then ok none
    else let items = fromkeys (pieces v) in if is_empty items then value_error else ok (some items)

-- `self.ns_allowed(namespace)`
unfoldable pub ns_allowed : Settings → Option String → Bool
ns_allowed s namespace = if s.read_only then false else elim s.namespace_allowlist [
  | none ↦ true
  | some allowed ↦ elim namespace [ none ↦ false | some ns ↦ elem ns allowed ]
]
