-- ===== src/Generic/Yaml.antt =====
-- `_fetch`, `_strip_managed_metadata`, `get_resource` and `get_resource_yaml` of generic.py. The dynamic
-- client, `str.lower` and the YAML writer are parameters.
pub mod Secrecy
use k8s_mcp.Base.{
  ℕ, String, ◌≡◌, Bool, true, false, ◌&&◌, not, Option, none, some, List, [], ◌∷◌, elem, any,
  str_eq, if◌then◌else◌,
}
use k8s_mcp.Base.Json.{
  Json, obj, Fields, end, field, get, keys, put, as_dict, dict_or_empty, is_str,
}
use k8s_mcp.Deletion.{scope_of}
use k8s_mcp.Formatters.Mask.{mask_secret_data}
use k8s_mcp.Generic.Kinds.{Discovery, Resolved, resolved, resource_for_kind}

abbrev pub yaml_noise_metadata_keys : List String
yaml_noise_metadata_keys =
    "managedFields" ∷ "resourceVersion" ∷ "uid" ∷ "generation" ∷ "selfLink" ∷ []

-- `{k: v for k, v in md.items() if k not in …}`
unfoldable pub without_keys : List String → Fields → Fields
without_keys ks end = end
without_keys ks (field k v fs) =
    let rest = without_keys ks fs in if elem k ks then rest else field k v rest

unfoldable pub strip_metadata : Fields → Fields → Fields
strip_metadata o md =
    if any (λ k. elem k yaml_noise_metadata_keys) (keys md)
    then put "metadata" (obj (without_keys yaml_noise_metadata_keys md)) o
    else o

-- `isinstance(md, dict)` for `md = obj.get("metadata")`.
abbrev pub as_metadata : Option Json → Option Fields
as_metadata none = none
as_metadata (some v) = as_dict v

unfoldable pub strip_managed_metadata : Bool → Fields → Fields
strip_managed_metadata include_managed_fields o =
    if include_managed_fields
    then o
    else elim (as_metadata (get "metadata" o)) [ none ↦ o | some md ↦ strip_metadata o md ]

-- A read of one resource: its entries, `NotFoundError`, or another exception.
pub data Read : Type 0 where
  item : Fields → Read
  not_found : Read
  api_exception : ℕ → Read

pub data Fetched : Type 0 where
  got : Fields → Fetched
  lookup_error : Fetched
  value_error : Fetched
  not_unique : Fetched
  raised : ℕ → Fetched

-- The check of the name that came back.
unfoldable pub checked_name : String → Fields → Fetched
checked_name name o =
    if is_str (get "name" (dict_or_empty (get "metadata" o))) name then got o else lookup_error

abbrev pub after_read : String → Read → Fetched
after_read name (item o) = checked_name name o
after_read name not_found = lookup_error
after_read name (api_exception status) = raised status

module _ {H : Type 0} (d : Discovery H) (read : H → String → Option String → Read) where
  unfoldable pub fetch : String → String → Option String → Option String → Fetched
  fetch kind name namespace api_version = elim (resource_for_kind d kind api_version) [
    | Resolved.value_error ↦ value_error
    | Resolved.not_unique ↦ not_unique
    | resolved h ↦ after_read name (read h name (scope_of namespace))
  ]

-- The object that `get_resource_yaml` prints.
unfoldable pub yaml_object : Bool → Bool → Bool → Fields → Fields
yaml_object is_secret reveal_secrets include_managed_fields o =
    strip_managed_metadata include_managed_fields
      (if is_secret && not reveal_secrets then mask_secret_data o else o)

abbrev pub map_got : (Fields → Fields) → Fetched → Fetched
map_got f (got o) = got (f o)
map_got f lookup_error = lookup_error
map_got f value_error = value_error
map_got f not_unique = not_unique
map_got f (raised status) = raised status

-- `get_resource_yaml`, up to the writing of the object.
unfoldable pub get_resource_yaml :
    {H : Type 0}
    → Discovery H
    → (H → String → Option String → Read)
    → (String → String)
    → String
    → String
    → Option String
    → Bool
    → Option String
    → Bool
    → Fetched
get_resource_yaml d read lower kind name namespace reveal_secrets api_version
      include_managed_fields =
    map_got (yaml_object (str_eq (lower kind) "secret") reveal_secrets include_managed_fields)
      (fetch d read kind name namespace api_version)
