-- ===== src/ConfigMap/Update.antt =====
-- What a config map holds after an update, if the API merges a patch as documented.
use k8s_mcp.Base.{
  ℕ, String, ◌≡◌, refl, ◌∙◌, Bool, true, false, Option, none, some, [], ◌∷◌, insert, lookup,
  lookup-insert, eq_iff, arith,
}
use k8s_mcp.Config.{Settings}
use k8s_mcp.Nodes.Taints.{answer, api_exception}
use k8s_mcp.ConfigMap.{
  Data, union, final_data, ConfigMapApi, Ended, changed, raised, may_write, or_no_data,
  update_configmap,
}

-- No key occurs twice.
abbrev pub IsDict : Data → Type 0
IsDict [] = Unit
IsDict ((k, v) ∷ d) = (lookup k d ≡ none) × IsDict d

-- The value of a key in one dictionary laid over another.
abbrev pub over : String → Data → Data → Option String
over j d m = elim (lookup j d) [ some v ↦ some v | none ↦ lookup j m ]

pub lookup-union : (j : String) (m d : Data) → IsDict d → lookup j (union m d) ≡ over j d m
unfolding union
lookup-union j m [] u = refl
lookup-union j m ((k, v) ∷ d) (fresh, u) =
    ground (arith, lookup-union j (insert k v m) d u, lookup-insert k j v m, eq_iff k j, fresh)

-- What is assumed of the API server: a patch of `data` that it grants is merged, key by key, into what
-- there is.
pub record IsMergePatch (api : ConfigMapApi) : Type 0 where
  pub merges :
      (s s' : api.Store) (namespace name : String) (old : Option Data) (d : Data)
      → api.read s namespace name ≡ answer old
      → api.patch s namespace name d ≡ answer s'
      → (new : Option Data) × (api.read s' namespace name ≡ answer new)
        × ((j : String) → lookup j (or_no_data new) ≡ over j d (or_no_data old))

over-union : (j : String) (m d : Data) → IsDict d → over j (union m d) m ≡ over j d m
over-union j m d u = ground (arith, lookup-union j m d u)

module _ (api : ConfigMapApi) (merging : IsMergePatch api) where
  open api use {Store, read, patch}

  -- An update by one patch: it was refused, and the refusal passed on, or it was granted and left each
  -- key of the given dictionary with the given value and each other key with the value that it had.
  pub data LaidOver (s : Store) (namespace name : String) (sent d old : Data) (result : Ended Store)
      : Type 0 where
    refused :
        (status : ℕ)
        → patch s namespace name sent ≡ api_exception status
        → result ≡ raised status
        → LaidOver s namespace name sent d old result
    laid_over :
        (s' : Store) (new : Option Data)
        → patch s namespace name sent ≡ answer s'
        → result ≡ changed s'
        → read s' namespace name ≡ answer new
        → ((j : String) → lookup j (or_no_data new) ≡ over j d old)
        → LaidOver s namespace name sent d old result

  module _ (settings : Settings) (name namespace : String) (d : Data) (s : Store)
      (old : Option Data) (permitted : may_write settings namespace ≡ true)
      (now : read s namespace name ≡ answer old) where
    patched :
        (merge : Bool)
        → ((j : String)
            → over j (final_data (or_no_data old) d merge) (or_no_data old)
              ≡ over j d (or_no_data old))
        → LaidOver s namespace name
            (final_data (or_no_data old) d merge)
            d
            (or_no_data old)
            (update_configmap api settings name namespace d merge s)
    unfolding update_configmap
    patched merge same =
        elim (patch s namespace name (final_data (or_no_data old) d merge))
            as (λ a.
              patch s namespace name (final_data (or_no_data old) d merge) ≡ a
              → LaidOver s namespace name (final_data (or_no_data old) d merge) d (or_no_data old)
                  (update_configmap api settings name namespace d merge s)) [
                    | api_exception status ↦ λ failed.
                        refused status failed (rw (update_configmap, permitted, now, failed) refl)
                    | answer s' ↦ λ granted.
                        let (new, later, values) =
                          merging.merges s s' namespace name old
                            (final_data (or_no_data old) d merge) now granted in
                        laid_over s' new granted
                          (rw (update_configmap, permitted, now, granted) refl) later
                          (λ j. values j ∙ same j)
                  ]
          refl

    -- With `merge` the keys that are not given are kept, as they are meant to be.
    merge_keeps_other_keys :
        IsDict d
        → LaidOver s namespace name
            (union (or_no_data old) d)
            d
            (or_no_data old)
            (update_configmap api settings name namespace d true s)
    merge_keeps_other_keys u = patched true (λ j. over-union j (or_no_data old) d u)

    -- Without `merge` they are kept as well: a permitted update of a config map that exists sends one
    -- patch with the given dictionary, and if the API grants it, each key that is not given still has
    -- the value that it had, and each given key has the given value; a refusal is passed on.
    pub replace_keeps_other_keys :
        LaidOver s namespace name d d
          (or_no_data old)
          (update_configmap api settings name namespace d false s)
    replace_keeps_other_keys = patched false (λ j. refl)
