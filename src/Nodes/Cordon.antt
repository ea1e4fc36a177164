-- ===== src/Nodes/Cordon.antt =====
-- `cordon_node` and `uncordon_node` of node_ops.py. The patch of `spec.unschedulable` is a parameter.
use k8s_mcp.Base.{String, ◌≡◌, refl, Bool, true, false, if◌then◌else◌}
use k8s_mcp.Config.{Settings, default_settings}
use k8s_mcp.Nodes.Taints.{
  Reply, answer, api_exception, Ended, changed, permission_error, lookup_error, or_lookup_error,
}

module _ {S : Type 0} (patch_unschedulable : String → Bool → S → Reply S) where
  unfoldable pub cordon_node : Settings → String → S → Ended S
  cordon_node settings name s =
      if settings.read_only
      then permission_error
      else or_lookup_error (patch_unschedulable name true s)

  unfoldable pub uncordon_node : Settings → String → S → Ended S
  uncordon_node settings name s =
      if settings.read_only
      then permission_error
      else or_lookup_error (patch_unschedulable name false s)

-- A node that is cordoned and uncordoned is schedulable.
cordon_run :
    (cordon_node (λ name flag s. answer flag) default_settings "n1" false ≡ changed true)
    × (uncordon_node (λ name flag s. answer flag) default_settings "n1" true ≡ changed false)
unfolding cordon_node uncordon_node or_lookup_error
cordon_run = (refl, refl)

missing_run :
    cordon_node (λ name flag s. api_exception 404) default_settings "n1" false ≡ lookup_error
unfolding cordon_node or_lookup_error
missing_run = refl
