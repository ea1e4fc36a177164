-- ===== src/Deletion/Tests.antt =====
-- A run of the deletion, and the theorem at a concrete call.
use k8s_mcp.Base.{String, ◌≡◌, refl, Bool, true, none, some, [], ◌∷◌, elem, str_eq}
use k8s_mcp.Config.{Settings, default_settings, ns_allowed}
use k8s_mcp.Deletion.{
  Reply, done, Request, deleted, permission_error, sent, scope_of, outcome_of, execute,
  delete_resource,
}
use k8s_mcp.Deletion.Scope.{delete_resource_scope}

abbrev shop_only : Settings
shop_only = record default_settings { namespace_allowlist = some ("shop" ∷ []) }

abbrev known : String → Bool
known kind = str_eq kind "Pod"

abbrev granted : Request → Reply
granted r = done

abbrev web_pod : Request
web_pod = record { kind = "Pod"; name = "web"; namespace = some "shop"; grace_period_seconds = 30 }

web_run :
    delete_resource known granted shop_only "Pod" "web" (some "shop") 30 ≡ sent web_pod deleted
unfolding delete_resource execute scope_of outcome_of ns_allowed
web_run = refl

cluster_run : delete_resource known granted shop_only "Pod" "web" none 30 ≡ permission_error
unfolding delete_resource ns_allowed
cluster_run = refl

delete_resource_scope_example :
    (ns : String) × (some "shop" ≡ some ns)
    × (elem ns ("shop" ∷ []) ≡ true)
    × (web_pod.kind ≡ "Pod")
    × (web_pod.name ≡ "web")
    × (web_pod.namespace ≡ some ns)
delete_resource_scope_example =
    delete_resource_scope known granted shop_only "Pod" "web" (some "shop") 30 web_pod deleted
      ("shop" ∷ []) refl refl web_run
