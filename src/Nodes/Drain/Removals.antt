-- ===== src/Nodes/Drain/Removals.antt =====
-- What should become of the pods of a node, by the flags, the deadline and the answers of the API.
use k8s_mcp.Base.{
  ℕ, suc, ◌≡◌, Bool, true, false, ◌&&◌, not, none, some, List, [], ◌∷◌, ◌++◌, select,
}
use k8s_mcp.Nodes.Drain.{
  Pod, Flags, Request, World, Fault, drain_timeout, ApiError, refused, Progress, past_deadline,
  request_for, keeps_daemonset, keeps_emptydir,
}

module _ (flags : Flags) where
  -- Pods that the flags keep for their `emptyDir`, of those that are not kept for their daemon set.
  abbrev pub kept_emptydir : Pod → Bool
  kept_emptydir pod = not (keeps_daemonset flags pod) && keeps_emptydir flags pod

  -- Pods that the flags allow to remove.
  abbrev pub removable : Pod → Bool
  removable pod = not (keeps_daemonset flags pod) && not (keeps_emptydir flags pod)

module _ (world : World) (flags : Flags) (start : ℕ) where
  -- What becomes of pods that may be removed, in order, after the requests sent and the readings of the
  -- clock: those that go, those that are listed with a fault, and the requests for them. The clock is
  -- read once for each. A pod past the deadline is not asked for. For any other there is one request,
  -- and it goes or is listed with the error as the request is granted or not.
  pub data Removals
      : List Request → ℕ → List Pod → List Pod → List (Pod × Fault) → List Request → Type 0 where
    none_left : {sent : List Request} {n : ℕ} → Removals sent n [] [] [] []
    late :
        {sent : List Request} {n : ℕ} {pod : Pod} {pods gone : List Pod}
        {faults : List (Pod × Fault)} {requests : List Request}
        → past_deadline start flags.timeout_seconds (world.monotonic n) ≡ true
        → Removals sent (suc n) pods gone faults requests
        → Removals sent n (pod ∷ pods) gone ((pod, drain_timeout) ∷ faults) requests
    goes :
        {sent : List Request} {n : ℕ} {pod : Pod} {pods gone : List Pod}
        {faults : List (Pod × Fault)} {requests : List Request}
        → past_deadline start flags.timeout_seconds (world.monotonic n) ≡ false
        → world.send sent (request_for flags pod) ≡ none
        → Removals (sent ++ request_for flags pod ∷ []) (suc n) pods gone faults requests
        → Removals sent n (pod ∷ pods) (pod ∷ gone) faults (request_for flags pod ∷ requests)
    stays :
        {sent : List Request} {n : ℕ} {pod : Pod} {pods gone : List Pod}
        {faults : List (Pod × Fault)} {requests : List Request} (e : ApiError)
        → past_deadline start flags.timeout_seconds (world.monotonic n) ≡ false
        → world.send sent (request_for flags pod) ≡ some e
        → Removals (sent ++ request_for flags pod ∷ []) (suc n) pods gone faults requests
        → Removals sent n
            (pod ∷ pods)
            gone
            ((pod, refused e) ∷ faults)
            (request_for flags pod ∷ requests)

  -- Between two points of the loop: who was skipped and for which reason, who went, who is listed with
  -- which fault, and who was asked to go.
  pub record Accounted (pods : List Pod) (p q : Progress) : Type 0 where
    pub daemonset : q.skipped_daemonset ≡ p.skipped_daemonset ++ select (keeps_daemonset flags) pods
    pub emptydir : q.skipped_emptydir ≡ p.skipped_emptydir ++ select (kept_emptydir flags) pods
    pub gone : List Pod
    pub faults : List (Pod × Fault)
    pub requests : List Request
    pub evicted : q.evicted ≡ p.evicted ++ gone
    pub errors : q.errors ≡ p.errors ++ faults
    pub sent : q.sent ≡ p.sent ++ requests
    pub removals : Removals p.sent p.readings (select (removable flags) pods) gone faults requests
