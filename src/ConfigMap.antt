-- ===== src/ConfigMap.antt =====
-- src/k8s_mcp/tools/configmap.py: the guards, `update_configmap` and `create_configmap`. The API and
-- `apply_yaml` on a rendered manifest are parameters.
pub mod Update
mod Tests
use k8s_mcp.Base.{
  ℕ, String, ◌≡◌, Bool, true, false, ◌&&◌, not, Option, none, some, List, [], ◌∷◌, insert, is_some,
  is_empty, ◌==◌, if◌then◌else◌,
}
use k8s_mcp.Config.{Settings, ns_allowed}
use k8s_mcp.Nodes.Taints.{Reply, answer, api_exception}

-- `dict[str, str]`
abbrev pub Data : Type 0
Data = List (String × String)

-- `{**m, **d}`
unfoldable pub union : Data → Data → Data
union m [] = m
union m ((k, v) ∷ d) = union (insert k v m) d

-- The two requests on one cluster: the data of a config map, absent or not, and the patch.
pub record ConfigMapApi : Type 1 where
  pub Store : Type 0
  pub read : Store → String → String → Reply (Option Data)
  pub patch : Store → String → String → Data → Reply Store

pub data Ended (S : Type 0) : Type 0 where
  changed : S → Ended S
  permission_error : Ended S
  value_error : Ended S
  lookup_error : Ended S
  raised : ℕ → Ended S

-- `_read_only_guard` and `_ensure_ns`
abbrev pub may_write : Settings → String → Bool
may_write settings namespace = not settings.read_only && ns_allowed settings (some namespace)

-- `existing.data or {}`
abbrev pub or_no_data : Option Data → Data
or_no_data none = []
or_no_data (some d) = d

abbrev pub final_data : Data → Data → Bool → Data
final_data existing data_ merge = if merge then union existing data_ else data_

module _ (api : ConfigMapApi) where
  open api use {Store, read, patch}

  unfoldable pub update_configmap : Settings → String → String → Data → Bool → Store → Ended Store
  update_configmap settings name namespace data_ merge s =
      if may_write settings namespace
      then elim (read s namespace name) [
        | api_exception status ↦ if status == 404 then lookup_error else raised status
        | answer existing ↦
            elim (patch s namespace name (final_data (or_no_data existing) data_ merge)) [
              | answer s' ↦ changed s'
              | api_exception status ↦ raised status
            ]
      ]
      else permission_error

-- What `create_configmap` hands to `apply_yaml`: the caller's text, or a manifest of its own.
pub data Applied : Type 0 where
  given_yaml : String → Applied
  manifest : String → String → Option Data → Data → Applied

pub data Created : Type 0 where
  apply : Applied → Created
  refused : Created
  invalid : Created

-- `if labels: md["labels"] = labels`
abbrev pub truthy : Option Data → Option Data
truthy none = none
truthy (some []) = none
truthy (some (l ∷ ls)) = some (l ∷ ls)

unfoldable pub create_configmap :
    Settings → String → String → Option Data → Option String → Option Data → Created
create_configmap settings name namespace data_ yaml_content labels =
    if may_write settings namespace
    then elim yaml_content [
      | some text ↦ if is_some data_ then invalid else apply (given_yaml text)
      | none ↦ elim data_ [
        | none ↦ invalid
        | some d ↦ if is_empty d then invalid else apply (manifest name namespace (truthy labels) d)
      ]
    ]
    else refused
