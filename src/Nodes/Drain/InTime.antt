-- ===== src/Nodes/Drain/InTime.antt =====
-- A drain that does not run out of time asks to remove every pod that its flags do not keep, whatever
-- namespaces the settings allow.
use k8s_mcp.Base.{
  ℕ, String, ◌≡◌, refl, ◌∙◌, sym, ap, true, false, none, some, List, [], ◌∷◌, ◌++◌, map, select,
  Any, here, there, Bool-cases, Option-cases, inl, inr, if◌then◌else◌,
}
use mathlib.Core.List.{append-nil}
use k8s_mcp.Config.{Settings, ns_allowed}
use k8s_mcp.Nodes.Taints.{answer}
use k8s_mcp.Nodes.Drain.{
  Pod, Flags, Request, cordon, World, Progress, past_deadline, request_for, keeps_daemonset,
  keeps_emptydir, attempt, drain_pod, drain_pods, drained, begun, drain_known, drain_node,
}
use k8s_mcp.Nodes.Drain.Accounting.{append_snoc}
use k8s_mcp.Nodes.Drain.Removals.{removable}

module _ (world : World) (flags : Flags) (start : ℕ)
    (in_time : (n : ℕ)
      → past_deadline start flags.timeout_seconds (world.monotonic n) ≡ false) where
  attempt-sent :
      (pod : Pod) (p : Progress)
      → (attempt world flags start pod p).sent ≡ p.sent ++ request_for flags pod ∷ []
  unfolding attempt
  attempt-sent pod p = elim (Option-cases (world.send p.sent (request_for flags pod))) [
    | inl ok ↦ rw (ok, attempt) refl
    | inr (e, failed) ↦ rw (failed, attempt) refl
  ]

  drain_pod-sent :
      (pod : Pod) (p : Progress)
      → (drain_pod world flags start pod p).sent
        ≡ (if removable flags pod then p.sent ++ request_for flags pod ∷ [] else p.sent)
  unfolding drain_pod
  drain_pod-sent pod p = elim (Bool-cases (keeps_daemonset flags pod)) [
    | inl ds ↦ rw (ds, drain_pod) refl
    | inr ds ↦ elim (Bool-cases (keeps_emptydir flags pod)) [
      | inl ed ↦ rw (ds, ed, drain_pod) refl
      | inr ed ↦ rw (ds, ed, in_time p.readings, drain_pod) (attempt-sent pod p)
    ]
  ]

  drain_pods-sent :
      (pods : List Pod) (p : Progress)
      → (drain_pods world flags start pods p).sent
        ≡ p.sent ++ map (request_for flags) (select (removable flags) pods)
  unfolding drain_pods
  drain_pods-sent [] p = sym (append-nil p.sent)
  drain_pods-sent (pod ∷ pods) p =
      let rest = map (request_for flags) (select (removable flags) pods) in
      let step = drain_pod-sent pod p in
      let later = drain_pods-sent pods (drain_pod world flags start pod p) in
      elim (Bool-cases (removable flags pod)) [
        | inl go ↦
            later
            ∙ ap (λ (s : List Request). s ++ rest) (rw go at step)
            ∙ rw go (append_snoc p.sent (request_for flags pod) rest)
        | inr stay ↦ later ∙ ap (λ (s : List Request). s ++ rest) (rw stay at step) ∙ rw stay refl
      ]

-- A request for a pod in a namespace that the settings do not allow.
abbrev pub Outside : Settings → Flags → Request → Type 0
Outside settings flags r =
    (pod : Pod) × (ns_allowed settings (some pod.namespace) ≡ false) × (r ≡ request_for flags pod)

some_sent :
    (settings : Settings) (flags : Flags) (pods : List Pod)
    → Any
        (λ (pod : Pod).
          (removable flags pod ≡ true) × (ns_allowed settings (some pod.namespace) ≡ false))
        pods
    → Any (Outside settings flags) (map (request_for flags) (select (removable flags) pods))
some_sent settings flags [] x = elim x [ ]
some_sent settings flags (pod ∷ pods) (here (go, out)) = rw go (here (pod, out, refl))
some_sent settings flags (pod ∷ pods) (there later) = elim (Bool-cases (removable flags pod)) [
  | inl go ↦ rw go (there (some_sent settings flags pods later))
  | inr stay ↦ rw stay (some_sent settings flags pods later)
]

module _ (settings : Settings) (world : World) (flags : Flags) (node : String)
    (pods : List Pod) where
  -- What the tool meets when nothing stops it before its loop and it never runs out of time.
  pub record Unhindered : Type 0 where
    pub writes : settings.read_only ≡ false
    pub known : world.read_node node ≡ none
    pub cordoned : world.send [] (cordon node) ≡ none
    pub listed : world.list_pods (cordon node ∷ []) node ≡ answer pods
    pub in_time :
        (n : ℕ)
        → past_deadline (world.monotonic 0) flags.timeout_seconds (world.monotonic n) ≡ false

  -- Unhindered, the requests are the cordon and, in the API's order, one for each pod that the flags do
  -- not keep, whether or not the earlier ones failed.
  pub drain_node-sent :
      Unhindered
      → (q : Progress) × (drain_node settings world flags node ≡ drained q)
        × (q.sent ≡ cordon node ∷ map (request_for flags) (select (removable flags) pods))
  unfolding drain_node drain_known begun
  drain_node-sent u = (
    drain_pods world flags (world.monotonic 0) pods (begun (cordon node ∷ [])),
    rw (drain_node, u.writes, u.known, drain_known, u.cordoned, u.listed) refl,
    drain_pods-sent world flags (world.monotonic 0) u.in_time pods (begun (cordon node ∷ [])),
  )

  -- On a writable server, where the node is known, the cordon is granted, the pods are listed and no
  -- reading of the clock is past the deadline: if one of the pods that the flags do not keep is in a
  -- namespace that the write guard refuses, the tool sends a request to remove such a pod.
  pub allowlist_ignored :
      Unhindered
      → Any
          (λ (pod : Pod).
            (removable flags pod ≡ true) × (ns_allowed settings (some pod.namespace) ≡ false))
          pods
      → (q : Progress) × (drain_node settings world flags node ≡ drained q)
        × Any (Outside settings flags) q.sent
  allowlist_ignored u some_pod =
      let (q, through, sent) = drain_node-sent u in
      (q, through, rw sent (there (some_sent settings flags pods some_pod)))
