-- ===== src/ToolGroups/Registration.antt =====
-- What is registered for which groups.
use k8s_mcp.Base.{
  String, ◌≡◌, refl, ◌↔◌, inl, inr, true, Option, List, [], ◌∷◌, elem, length, length-append, arith,
  Bool-cases, Any, here, there,
}
use k8s_mcp.Config.{Settings}
use k8s_mcp.Config.Allowlist.{elem-append}
use k8s_mcp.ToolGroups.{
  tool_group_modules, is_enabled, register_groups, registered_count, registered, register_tools,
}

-- Some enabled group lists the module.
abbrev pub IsSelected : Option (List String) → List (String × List String) → String → Type 0
IsSelected enabled catalog m =
    Any (λ (g : String × List String). (is_enabled enabled g.0 ≡ true) × (elem m g.1 ≡ true))
      catalog

register_sound :
    (enabled : Option (List String)) (catalog : List (String × List String)) (m : String)
    → elem m (register_groups enabled catalog) ≡ true
    → IsSelected enabled catalog m
unfolding register_groups
register_sound enabled [] m h = cc
register_sound enabled ((g, names) ∷ rest) m h = elim (Bool-cases (is_enabled enabled g)) [
  | inr off ↦ there (register_sound enabled rest m (rw off at h))
  | inl on ↦ elim (Bool-cases (elem m names)) [
    | inl listed ↦ here (on, listed)
    | inr other ↦ there (
        register_sound enabled rest m
          (ground (arith, on, other, elem-append m names (register_groups enabled rest))))
  ]
]

register_complete :
    (enabled : Option (List String)) (m : String) {catalog : List (String × List String)}
    → IsSelected enabled catalog m
    → elem m (register_groups enabled catalog) ≡ true
unfolding register_groups
register_complete enabled m (here {x = (g, names)} {xs} (on, listed)) =
    ground (arith, on, listed, elem-append m names (register_groups enabled xs))
register_complete enabled m (there {x = (g, names)} {xs} later) =
    ground
      (arith, register_complete enabled m later, elem-append m names (register_groups enabled xs))

registered_count-eq-length :
    (enabled : Option (List String)) (catalog : List (String × List String))
    → registered_count enabled catalog ≡ length (register_groups enabled catalog)
unfolding register_groups registered_count
registered_count-eq-length enabled [] = refl
registered_count-eq-length enabled ((g, names) ∷ rest) = ground (
  arith,
  registered_count-eq-length enabled rest,
  length-append names (register_groups enabled rest),
)

-- Registration never fails with the `RuntimeError`; it registers a module exactly if some enabled
-- group lists it; and the count that the server logs is the number of registered modules.
pub register_tools_lem :
    (s : Settings) (m : String)
    → (names : List String) × (register_tools s ≡ registered names)
      × ((elem m names ≡ true) ↔ IsSelected s.enabled_groups tool_group_modules m)
      × (registered_count s.enabled_groups tool_group_modules ≡ length names)
unfolding register_tools
register_tools_lem s m = (
  register_groups s.enabled_groups tool_group_modules,
  refl,
  (register_sound s.enabled_groups tool_group_modules m, register_complete s.enabled_groups m),
  registered_count-eq-length s.enabled_groups tool_group_modules,
)
