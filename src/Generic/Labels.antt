-- ===== src/Generic/Labels.antt =====
-- `_jsonpatch_escape`, `add_label` and `remove_label` of generic.py. Discovery and the patch requests are
-- parameters.
pub mod Pointer
pub mod Sent
use Prim.Native.Char.{code}
use Prim.Native.String.{◌++◌}
use k8s_mcp.Base.{ℕ, String, Bool, true, false, not, Option, none, some, str_eq, if◌then◌else◌}
use k8s_mcp.Base.Text.{empty}
use k8s_mcp.Base.Text.Search.{replace_char}
use k8s_mcp.Config.{Settings, ns_allowed}
use k8s_mcp.Deletion.{scope_of}
use k8s_mcp.Generic.Kinds.{Discovery, Resolved, resolved, resource_for_kind}

unfoldable pub jsonpatch_escape : String → String
jsonpatch_escape token = replace_char b'/' "~1" (replace_char b'~' "~0" token)

-- A patch of one resource: a JSON Patch `add` at a path, or a merge patch that takes a label away.
pub data Body : Type 0 where
  add_at : String → String → Body
  label_null : String → Body

pub record Patch (H : Type 0) : Type 0 where
  pub resource : H
  pub name : String
  pub namespace : Option String
  pub body : Body

pub data Ended (H : Type 0) : Type 0 where
  value_error : Ended H
  not_unique : Ended H
  permission_error : Ended H
  labelled : Patch H → Ended H
  runtime_error : Patch H → Ended H

module _ {H : Type 0} (d : Discovery H) (refuses : Patch H → Bool) where
  unfoldable pub send_patch : Patch H → Ended H
  send_patch p = if refuses p then runtime_error p else labelled p

  unfoldable pub patch_resolved : String → Option String → Body → Resolved H → Ended H
  patch_resolved name namespace body Resolved.value_error = value_error
  patch_resolved name namespace body Resolved.not_unique = not_unique
  patch_resolved name namespace body (resolved h) =
      send_patch (record { resource = h; name = name; namespace = scope_of namespace; body = body })

  -- The guards and the lookup that both tools make, after the checks of their arguments.
  unfoldable pub patch_labels :
      Settings → String → String → Option String → Option String → Body → Ended H
  patch_labels settings kind name namespace api_version body =
      if settings.read_only
      then permission_error
      else if not (ns_allowed settings namespace)
      then permission_error
      else patch_resolved name namespace body (resource_for_kind d kind api_version)

  unfoldable pub add_label :
      Settings → String → String → String → String → Option String → Option String → Ended H
  add_label settings kind name key value namespace api_version =
      if str_eq key empty
      then value_error
      else patch_labels settings kind name namespace api_version
          (add_at ("/metadata/labels/" ++ jsonpatch_escape key) value)

  unfoldable pub remove_label :
      Settings → String → String → String → Option String → Option String → Ended H
  remove_label settings kind name key namespace api_version =
      if str_eq key empty
      then value_error
      else patch_labels settings kind name namespace api_version (label_null key)
