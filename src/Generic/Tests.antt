-- ===== src/Generic/Tests.antt =====
-- Runs of the generic tools, and the theorems at concrete manifests and resources.
use k8s_mcp.Base.{
  String, ◌≡◌, ◌↔◌, ◌≢◌, refl, Bool, true, false, Option, none, some, List, [], ◌∷◌, is_empty,
  str_eq, if◌then◌else◌,
}
use Prim.Native.String.{◌++◌ as ◌&◌}
use k8s_mcp.Base.Text.{empty}
use k8s_mcp.Base.Text.Search.{contains, replace_char}
use k8s_mcp.Base.Json.{Json, str, obj, Fields, end, field}
use k8s_mcp.Config.{default_settings, ns_allowed}
use k8s_mcp.Deletion.{scope_of}
use k8s_mcp.Formatters.Mask.{
  mask_secret_data, mask_fields, mask_values, no_keys, next_key, Veiled, all_veiled, shown, hidden,
}
use k8s_mcp.Generic.Kinds.{
  one, resource_not_found, Discovery, resource_for_kind, resolve_builtin, resolve_at,
  api_version_for,
}
use k8s_mcp.Generic.Labels.{
  jsonpatch_escape, add_at, Patch, add_label, patch_labels, patch_resolved, send_patch,
}
use k8s_mcp.Generic.Labels.Pointer.{decode}
use k8s_mcp.Generic.Labels.Sent.{Permitted, sent_patch, add_label_lem}
use k8s_mcp.Generic.Yaml.{
  Read, item, got, fetch, checked_name, yaml_object, strip_managed_metadata, strip_metadata,
  without_keys, get_resource_yaml,
}
use k8s_mcp.Generic.Yaml.Secrecy.{both_items, get_resource_yaml_secrecy}
use k8s_mcp.Generic.Diff.{
  structural_diff, diff_keys, line_for, changed, strip_server, insert_key, sorted_union,
}
use k8s_mcp.Generic.Diff.Faithful.{Agree, structural_diff_iff}
use k8s_mcp.Generic.Writes.{
  Doc, answer, not_found, conflict, World, error, patch, create, write_of, apply_yaml_records,
  guarded, run_docs, apply_doc, apply_write, runtime_error,
}

abbrev doc_named : String → Doc (Unit {0})
doc_named name = record {
  api_version = some "v1";
  kind = some "ConfigMap";
  name = some name;
  namespace = some "shop";
  resource_version = none;
  rest = tt;
}

-- A cluster with the config map "old", where a second write in one call meets a conflict.
abbrev cluster : World (Unit {0})
cluster = record {
  serves = λ version kind. true;
  read = λ sent doc. elim doc.name [
    | none ↦ not_found
    | some n ↦ if str_eq n "old" then answer (some "7") else not_found
  ];
  send = λ sent w. if is_empty sent then answer tt else conflict;
}

abbrev manifest : List (Doc (Unit {0}))
manifest = doc_named "old" ∷ doc_named "new" ∷ []

apply_run : apply_yaml_records default_settings cluster manifest ≡ record {
  sent = write_of patch (doc_named "old") ∷ write_of create (doc_named "new") ∷ [];
  result = error runtime_error;
}
unfolding apply_yaml_records guarded run_docs apply_doc apply_write ns_allowed
apply_run = refl

-- Handles are the versions that serve a kind.
abbrev built_in : Discovery String
built_in = record {
  at = λ version kind. if str_eq version "v1" then one "v1" else resource_not_found;
  anywhere = λ kind. resource_not_found;
}

abbrev role_key : String
role_key = "node-role.kubernetes.io/a~b"

escape_run : jsonpatch_escape role_key ≡ "node-role.kubernetes.io~1a~0b"
unfolding jsonpatch_escape replace_char
escape_run = refl

abbrev node_patch : Patch String
node_patch = record {
  resource = "v1";
  name = "n1";
  namespace = none;
  body = add_at "/metadata/labels/node-role.kubernetes.io~1a~0b" "yes";
}

abbrev willing : Patch String → Bool
willing p = false

label_run :
    sent_patch (add_label built_in willing default_settings "Node" "n1" role_key "yes" none none)
    ≡ some node_patch
unfolding add_label patch_labels patch_resolved send_patch resource_for_kind resolve_builtin
    api_version_for ns_allowed scope_of jsonpatch_escape replace_char
label_run = refl

add_label_lem_example :
    Permitted built_in willing default_settings "Node" "n1" none none node_patch
    × (role_key ≢ empty)
    × ((token : String) × (node_patch.body ≡ add_at ("/metadata/labels/" & token) "yes")
        × (decode token ≡ role_key)
        × (contains b'/' token ≡ false))
add_label_lem_example =
    add_label_lem built_in willing default_settings "Node" "n1" role_key "yes" none none node_patch
      label_run

abbrev secret_with : String → Fields
secret_with password = field "kind" (str "Secret") (
    field "metadata" (obj (field "name" (str "db") (field "uid" (str "u1") end)))
      (field "data" (obj (field "password" (str password) end)) end))

abbrev reads : Fields → String → String → Option String → Read
reads o h name namespace = item o

abbrev same : String → String
same s = s

yaml_run :
    get_resource_yaml built_in
      (reads (secret_with "aGk="))
      same
      "secret"
      "db"
      none
      false
      (some "v1")
      false
    ≡ got (
        field "kind" (str "Secret") (
          field "metadata"
            (obj (field "name" (str "db") end))
            (field "data" (obj (field "password" (str "***") end)) end)))
unfolding get_resource_yaml fetch checked_name yaml_object strip_managed_metadata strip_metadata
    without_keys mask_secret_data mask_fields mask_values resource_for_kind resolve_at
yaml_run = refl

secret_with-Veiled : (a b : String) → Veiled (secret_with a) (secret_with b)
secret_with-Veiled a b = shown (shown (hidden refl (next_key no_keys) all_veiled))

get_resource_yaml_secrecy_example :
    get_resource_yaml built_in
      (reads (secret_with "aGk="))
      same
      "secret"
      "db"
      none
      false
      (some "v1")
      false
    ≡ get_resource_yaml built_in
        (reads (secret_with "eW8="))
        same
        "secret"
        "db"
        none
        false
        (some "v1")
        false
get_resource_yaml_secrecy_example =
    get_resource_yaml_secrecy built_in (reads (secret_with "aGk=")) (reads (secret_with "eW8="))
      same "secret" "db" none (some "v1") false
      (λ h n s. both_items refl (secret_with-Veiled "aGk=" "eW8=")) refl

-- Equality of texts, which is all that the example holds.
abbrev text_eq : Json → Json → Bool
text_eq (str s) (str t) = str_eq s t
text_eq _ _ = false

abbrev before : Fields
before =
    field "kind" (str "A")
      (field "status" (str "old") (field "metadata" (obj (field "uid" (str "1") end)) end))

abbrev after : Fields
after = field "kind" (str "B") end

diff_run :
    structural_diff text_eq (field "kind" (str "A") (field "status" (str "old") end)) after
    ≡ changed "kind" (str "A") (str "B") ∷ []
unfolding structural_diff diff_keys line_for strip_server sorted_union insert_key
diff_run = refl

structural_diff_iff_example :
    (structural_diff text_eq before after ≡ [])
    ↔ Agree text_eq (strip_server before) (strip_server after)
structural_diff_iff_example = structural_diff_iff text_eq before after
