-- ===== src/Generic/Yaml/Secrecy.antt =====
-- What the YAML of a secret shows.
use k8s_mcp.Base.{String, ◌≡◌, refl, sym, ap, ◌∙◌, Bool, true, false, Option, Bool-cases, inl, inr}
use k8s_mcp.Base.Json.{Fields, get, is_str, dict_or_empty}
use k8s_mcp.Deletion.{scope_of}
use k8s_mcp.Formatters.Mask.{mask_secret_data, Veiled, mask_fields-Veiled, get-Veiled}
use k8s_mcp.Generic.Kinds.{Discovery, Resolved, resolved, resource_for_kind}
use k8s_mcp.Generic.Yaml.{
  Read, item, got, checked_name, after_read, fetch, strip_managed_metadata, yaml_object, map_got,
  get_resource_yaml,
}

-- Two answers to a read that differ at most in what a secret holds.
pub data SameButSecret : Read → Read → Type 0 where
  both_items :
      {o p : Fields}
      → is_str (get "kind" o) "Secret" ≡ true
      → Veiled o p
      → SameButSecret (item o) (item p)
  same_read : (r : Read) → SameButSecret r r

yaml_object-Veiled :
    {o p : Fields} (include : Bool)
    → is_str (get "kind" o) "Secret" ≡ true
    → Veiled o p
    → yaml_object true false include o ≡ yaml_object true false include p
unfolding yaml_object mask_secret_data
yaml_object-Veiled {o} {p} include secret v =
    let same_kind : is_str (get "kind" p) "Secret" ≡ true =
      ap (λ k. is_str k "Secret") (sym (get-Veiled "kind" refl v)) ∙ secret in
    rw (secret, same_kind) (ap (strip_managed_metadata include) (mask_fields-Veiled v))

printed_read :
    (name : String) (include : Bool) {r r' : Read}
    → SameButSecret r r'
    → map_got (yaml_object true false include) (after_read name r)
      ≡ map_got (yaml_object true false include) (after_read name r')
unfolding checked_name
printed_read name include (same_read r) = refl
printed_read name include (both_items {o} {p} secret v) =
    let md : get "metadata" o ≡ get "metadata" p = get-Veiled "metadata" refl v in
    let same = yaml_object-Veiled include secret v in
    elim (Bool-cases (is_str (get "name" (dict_or_empty (get "metadata" p))) name)) [
      | inl e ↦ rw (md, e) (ap got same)
      | inr e ↦ rw (md, e) refl
    ]

-- The YAML of a secret that is printed without revealing it does not depend on any value under its
-- `data` and `stringData`: two clusters that differ only in those give the same answer, whatever the
-- name, the namespace, the version and the other option.
pub get_resource_yaml_secrecy :
    {H : Type 0} (d : Discovery H) (read read' : H → String → Option String → Read)
    (lower : String → String) (kind name : String) (namespace api_version : Option String)
    (include_managed_fields : Bool)
    → ((h : H) (n : String) (s : Option String) → SameButSecret (read h n s) (read' h n s))
    → lower kind ≡ "secret"
    → get_resource_yaml d read lower kind name namespace false api_version include_managed_fields
      ≡ get_resource_yaml d read' lower kind name namespace false api_version include_managed_fields
unfolding get_resource_yaml fetch
get_resource_yaml_secrecy d read read' lower kind name namespace api_version include same secret =
    elim (resource_for_kind d kind api_version)
        as (λ r.
          resource_for_kind d kind api_version ≡ r
          → get_resource_yaml d read lower kind name namespace false api_version include
            ≡ get_resource_yaml d read' lower kind name namespace false api_version include) [
              | Resolved.value_error ↦ λ e. rw (get_resource_yaml, fetch, e) refl
              | Resolved.not_unique ↦ λ e. rw (get_resource_yaml, fetch, e) refl
              | resolved h ↦ λ e.
                  rw (get_resource_yaml, fetch, e, secret)
                    (printed_read name include (same h name (scope_of namespace)))
            ]
      refl
