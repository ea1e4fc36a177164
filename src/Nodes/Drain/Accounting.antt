-- ===== src/Nodes/Drain/Accounting.antt =====
-- Which pods the drain asks to remove, and where it lists each of them.
use k8s_mcp.Base.{
  ℕ, suc, String, ◌≡◌, refl, ◌∙◌, sym, true, false, none, some, List, [], ◌∷◌, ◌++◌, select,
  Bool-cases, Option-cases, inl, inr,
}
use mathlib.Core.List.{append_assoc, append-nil}
use k8s_mcp.Nodes.Taints.{answer}
use k8s_mcp.Nodes.Drain.{
  Pod, Flags, cordon, World, drain_timeout, ApiError, refused, Progress, past_deadline, request_for,
  keeps_daemonset, keeps_emptydir, attempt, drain_pod, drain_pods, drained, begun, drain_known,
}
use k8s_mcp.Nodes.Drain.Removals.{kept_emptydir, none_left, late, goes, stays, Accounted}

pub append_snoc :
    {A : Type 0} (xs : List A) (x : A) (ys : List A) → (xs ++ x ∷ []) ++ ys ≡ xs ++ x ∷ ys
append_snoc xs x ys = append_assoc xs (x ∷ []) ys

module _ (world : World) (flags : Flags) (start : ℕ) (pod : Pod) (pods : List Pod)
    (p r : Progress) where
  abbrev Next : Type 0
  Next =
      Accounted world flags start pods (drain_pod world flags start pod p) r
      → Accounted world flags start (pod ∷ pods) p r

  after_daemonset : keeps_daemonset flags pod ≡ true → Next
  unfolding drain_pod
  after_daemonset ds a =
      let b : Accounted world flags start pods
          (record p { skipped_daemonset = p.skipped_daemonset ++ pod ∷ [] }) r =
        rw (ds, drain_pod) at a in
      record {
        daemonset = rw ds (
            b.daemonset
            ∙ append_snoc p.skipped_daemonset pod (select (keeps_daemonset flags) pods));
        emptydir = rw ds b.emptydir;
        gone = b.gone;
        faults = b.faults;
        requests = b.requests;
        evicted = b.evicted;
        errors = b.errors;
        sent = b.sent;
        removals = rw ds b.removals;
      }

  after_emptydir : keeps_daemonset flags pod ≡ false → keeps_emptydir flags pod ≡ true → Next
  unfolding drain_pod
  after_emptydir ds ed a =
      let b : Accounted world flags start pods
          (record p { skipped_emptydir = p.skipped_emptydir ++ pod ∷ [] }) r =
        rw (ds, ed, drain_pod) at a in
      record {
        daemonset = rw ds b.daemonset;
        emptydir =
            rw (ds, ed)
              (b.emptydir ∙ append_snoc p.skipped_emptydir pod (select (kept_emptydir flags) pods));
        gone = b.gone;
        faults = b.faults;
        requests = b.requests;
        evicted = b.evicted;
        errors = b.errors;
        sent = b.sent;
        removals = rw (ds, ed) b.removals;
      }

  module _ (ds : keeps_daemonset flags pod ≡ false) (ed : keeps_emptydir flags pod ≡ false) where
    after_late :
        past_deadline start flags.timeout_seconds (world.monotonic p.readings) ≡ true → Next
    unfolding drain_pod
    after_late is_late a =
        let b : Accounted world flags start pods
            (record p { errors = p.errors ++ (pod, drain_timeout) ∷ []; readings = suc p.readings })
            r =
          rw (ds, ed, is_late, drain_pod) at a in
        record {
          daemonset = rw ds b.daemonset;
          emptydir = rw (ds, ed) b.emptydir;
          gone = b.gone;
          faults = (pod, drain_timeout) ∷ b.faults;
          requests = b.requests;
          evicted = b.evicted;
          errors = b.errors ∙ append_snoc p.errors (pod, drain_timeout) b.faults;
          sent = b.sent;
          removals = rw (ds, ed) (late is_late b.removals);
        }

    module _
        (on_time : past_deadline start flags.timeout_seconds (world.monotonic p.readings)
          ≡ false) where
      after_gone : world.send p.sent (request_for flags pod) ≡ none → Next
      unfolding drain_pod attempt
      after_gone granted a =
          let b : Accounted world flags start pods
              (record p {
                evicted = p.evicted ++ pod ∷ [];
                sent = p.sent ++ request_for flags pod ∷ [];
                readings = suc p.readings;
              })
              r =
            rw (ds, ed, on_time, drain_pod, granted, attempt) at a in
          record {
            daemonset = rw ds b.daemonset;
            emptydir = rw (ds, ed) b.emptydir;
            gone = pod ∷ b.gone;
            faults = b.faults;
            requests = request_for flags pod ∷ b.requests;
            evicted = b.evicted ∙ append_snoc p.evicted pod b.gone;
            errors = b.errors;
            sent = b.sent ∙ append_snoc p.sent (request_for flags pod) b.requests;
            removals = rw (ds, ed) (goes on_time granted b.removals);
          }

      after_refusal : (e : ApiError) → world.send p.sent (request_for flags pod) ≡ some e → Next
      unfolding drain_pod attempt
      after_refusal e failed a =
          let b : Accounted world flags start pods
              (record p {
                errors = p.errors ++ (pod, refused e) ∷ [];
                sent = p.sent ++ request_for flags pod ∷ [];
                readings = suc p.readings;
              })
              r =
            rw (ds, ed, on_time, drain_pod, failed, attempt) at a in
          record {
            daemonset = rw ds b.daemonset;
            emptydir = rw (ds, ed) b.emptydir;
            gone = b.gone;
            faults = (pod, refused e) ∷ b.faults;
            requests = request_for flags pod ∷ b.requests;
            evicted = b.evicted;
            errors = b.errors ∙ append_snoc p.errors (pod, refused e) b.faults;
            sent = b.sent ∙ append_snoc p.sent (request_for flags pod) b.requests;
            removals = rw (ds, ed) (stays e on_time failed b.removals);
          }

module _ (world : World) (flags : Flags) (start : ℕ) where
  loop_step :
      (pod : Pod) (pods : List Pod) (p r : Progress)
      → Accounted world flags start pods (drain_pod world flags start pod p) r
      → Accounted world flags start (pod ∷ pods) p r
  loop_step pod pods p r a = elim (Bool-cases (keeps_daemonset flags pod)) [
    | inl ds ↦ after_daemonset world flags start pod pods p r ds a
    | inr ds ↦ elim (Bool-cases (keeps_emptydir flags pod)) [
      | inl ed ↦ after_emptydir world flags start pod pods p r ds ed a
      | inr ed ↦
          elim (Bool-cases
            (past_deadline start flags.timeout_seconds (world.monotonic p.readings))) [
              | inl is_late ↦ after_late world flags start pod pods p r ds ed is_late a
              | inr on_time ↦ elim (Option-cases (world.send p.sent (request_for flags pod))) [
                | inl granted ↦ after_gone world flags start pod pods p r ds ed on_time granted a
                | inr (e, failed) ↦
                    after_refusal world flags start pod pods p r ds ed on_time e failed a
              ]
            ]
    ]
  ]

  pub drain_pods-Accounted :
      (pods : List Pod) (p : Progress)
      → Accounted world flags start pods p (drain_pods world flags start pods p)
  unfolding drain_pods
  drain_pods-Accounted [] p = record {
    daemonset = sym (append-nil p.skipped_daemonset);
    emptydir = sym (append-nil p.skipped_emptydir);
    gone = [];
    faults = [];
    requests = [];
    evicted = sym (append-nil p.evicted);
    errors = sym (append-nil p.errors);
    sent = sym (append-nil p.sent);
    removals = none_left;
  }
  drain_pods-Accounted (pod ∷ pods) p =
      loop_step pod pods p (drain_pods world flags start pods (drain_pod world flags start pod p))
        (drain_pods-Accounted pods (drain_pod world flags start pod p))

-- Of the pods that the API lists on the node, a drain that gets to its loop lists those that the flags
-- keep under their reason, in order. Of the others it asks, in order and after the cordon, for exactly
-- those that come up before the deadline, once each; it lists as evicted exactly those whose request
-- was granted, and under the errors each other one, with the timeout or with the error of its request.
pub drain_known_lem :
    (world : World) (flags : Flags) (node : String) (pods : List Pod)
    → world.send [] (cordon node) ≡ none
    → world.list_pods (cordon node ∷ []) node ≡ answer pods
    → (q : Progress) × (drain_known world flags node ≡ drained q)
      × Accounted world flags (world.monotonic 0) pods (begun (cordon node ∷ [])) q
unfolding drain_known
drain_known_lem world flags node pods cordoned listed = (
  drain_pods world flags (world.monotonic 0) pods (begun (cordon node ∷ [])),
  rw (drain_known, cordoned, listed) refl,
  drain_pods-Accounted world flags (world.monotonic 0) pods (begun (cordon node ∷ [])),
)
