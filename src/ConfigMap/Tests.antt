-- ===== src/ConfigMap/Tests.antt =====
-- Runs of the config map tools, and the theorem at a concrete config map.
use k8s_mcp.Base.{
  String, ◌≡◌, refl, ap, sym, ◌∙◌, true, false, Option, none, some, [], ◌∷◌, lookup, insert,
  lookup-insert, arith,
}
use k8s_mcp.Config.{default_settings, ns_allowed}
use k8s_mcp.Nodes.Taints.{answer}
use k8s_mcp.ConfigMap.{
  Data, ConfigMapApi, changed, may_write, or_no_data, update_configmap, apply, invalid, manifest,
  create_configmap,
}
use k8s_mcp.ConfigMap.Update.{over, IsMergePatch, LaidOver, replace_keeps_other_keys}

-- One config map, patched by inserting keys from the last to the first.
abbrev pub lay : Data → Data → Data
lay [] m = m
lay ((k, v) ∷ d) m = insert k v (lay d m)

lookup-lay : (j : String) (d m : Data) → lookup j (lay d m) ≡ over j d m
lookup-lay j [] m = refl
lookup-lay j ((k, v) ∷ d) m = ground (arith, lookup-insert k j v (lay d m), lookup-lay j d m)

abbrev one_map : ConfigMapApi
one_map = record {
  Store = Option Data;
  read = λ s namespace name. answer s;
  patch = λ s namespace name d. answer (some (lay d (or_no_data s)));
}

answered : (s old : Option Data) → answer s ≡ answer old → s ≡ old
answered s old h = cc h

merge_run :
    (s s' old : Option Data) (d : Data)
    → answer s ≡ answer old
    → answer (some (lay d (or_no_data s))) ≡ answer s'
    → (j : String) → lookup j (or_no_data s') ≡ over j d (or_no_data old)
merge_run s s' old d now granted j =
    let left : some (lay d (or_no_data s)) ≡ s' = cc in
    ap (λ (o : Option Data). lookup j (or_no_data o)) (sym left)
    ∙ lookup-lay j d (or_no_data s)
    ∙ ap (λ (o : Option Data). over j d (or_no_data o)) (answered s old now)

one_map-IsMergePatch : IsMergePatch one_map
one_map-IsMergePatch = record {
  merges = λ s s' namespace name old d now granted. (s', refl, merge_run s s' old d now granted);
}

abbrev old_data : Data
old_data = ("mode", "slow") ∷ ("level", "3") ∷ []

abbrev new_data : Data
new_data = ("mode", "fast") ∷ []

update_run :
    update_configmap one_map default_settings "cm" "shop" new_data false (some old_data)
    ≡ changed (some (("mode", "fast") ∷ ("level", "3") ∷ []))
unfolding update_configmap ns_allowed
update_run = refl

both_inputs :
    create_configmap default_settings "cm" "shop" (some new_data) (some "kind: ConfigMap") none
    ≡ invalid
unfolding create_configmap ns_allowed
both_inputs = refl

created_run :
    create_configmap default_settings "cm" "shop" (some new_data) none (some [])
    ≡ apply (manifest "cm" "shop" none new_data)
unfolding create_configmap ns_allowed
created_run = refl

shop_writable : may_write default_settings "shop" ≡ true
unfolding ns_allowed
shop_writable = refl

replace_keeps_other_keys_example :
    LaidOver one_map one_map-IsMergePatch
      (some old_data)
      "shop"
      "cm"
      new_data
      new_data
      old_data
      (update_configmap one_map default_settings "cm" "shop" new_data false (some old_data))
replace_keeps_other_keys_example =
    replace_keeps_other_keys one_map one_map-IsMergePatch default_settings "cm" "shop" new_data
      (some old_data) (some old_data) shop_writable refl
