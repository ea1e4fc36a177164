-- ===== src/Nodes/Drain.antt =====
-- `drain_node` of node_ops.py. The API server and the clock are parameters: what they answer may
-- depend on the requests and the readings that came before. Time is counted in nanoseconds.
pub mod Accounting
pub mod InTime
pub mod Removals
use k8s_mcp.Base.{
  ℕ, suc, ◌+◌, ◌*◌, String, Bool, true, false, ◌&&◌, not, Option, none, some, List, [], ◌∷◌, ◌++◌,
  any, str_eq, ◌==◌, ltb, if◌then◌else◌,
}
use k8s_mcp.Config.{Settings}
use k8s_mcp.Nodes.Taints.{Reply, answer, api_exception}

-- Python's integers.
pub data ℤ : Type 0 where
  pos : ℕ → ℤ
  negsuc : ℕ → ℤ

-- What the drain reads of a pod. A volume is whether its `empty_dir` is set.
pub record Pod : Type 0 where
  pub namespace : String
  pub name : String
  pub owner_references : Option (List (Option String))
  pub volumes : Option (List Bool)

-- The arguments of the tool.
pub record Flags : Type 0 where
  pub ignore_daemonsets : Bool
  pub delete_emptydir_data : Bool
  pub force : Bool
  pub grace_period_seconds : ℤ
  pub timeout_seconds : ℤ

-- The requests that change the cluster, with the pod's name before its namespace.
pub data Request : Type 0 where
  cordon : String → Request
  delete_pod : String → String → Option ℤ → Request
  evict_pod : String → String → ℤ → Request

-- An `ApiException`: its status and its reason.
pub record ApiError : Type 0 where
  pub status : ℕ
  pub reason : Option String

-- What stands outside: the answers to reads, whether a request fails after those sent before, and
-- the clock at its n-th reading.
pub record World : Type 0 where
  pub read_node : String → Option ApiError
  pub send : List Request → Request → Option ApiError
  pub list_pods : List Request → String → Reply (List Pod)
  pub monotonic : ℕ → ℕ

-- `[r.kind for r in refs if r.kind]`
abbrev pub kinds : List (Option String) → List String
kinds [] = []
kinds (none ∷ refs) = kinds refs
kinds (some kind ∷ refs) = let rest = kinds refs in if str_eq kind "" then rest else kind ∷ rest

unfoldable pub owner_kinds : Pod → List String
owner_kinds pod = elim pod.owner_references [ none ↦ [] | some refs ↦ kinds refs ]

unfoldable pub has_emptydir : Pod → Bool
has_emptydir pod = elim pod.volumes [ none ↦ false | some volumes ↦ any (λ (v : Bool). v) volumes ]

-- Why a pod is listed under the errors.
pub data Fault : Type 0 where
  drain_timeout : Fault
  refused : ApiError → Fault

-- The lists that the loop fills, with the requests sent and the readings of the clock.
pub record Progress : Type 0 where
  pub evicted : List Pod
  pub skipped_daemonset : List Pod
  pub skipped_emptydir : List Pod
  pub errors : List (Pod × Fault)
  pub sent : List Request
  pub readings : ℕ

-- `time.monotonic() > deadline`, for a deadline `timeout` seconds after `start`.
unfoldable pub past_deadline : ℕ → ℤ → ℕ → Bool
past_deadline start (pos n) now = ltb (start + n * 1000000000) now
past_deadline start (negsuc n) now = ltb start (now + suc n * 1000000000)

-- `delete_options.grace_period_seconds`, left unset where the argument is negative.
unfoldable pub forced_grace : ℤ → Option ℤ
forced_grace (pos n) = some (pos n)
forced_grace (negsuc n) = none

unfoldable pub request_for : Flags → Pod → Request
request_for flags pod =
    if flags.force
    then delete_pod pod.name pod.namespace (forced_grace flags.grace_period_seconds)
    else evict_pod pod.name pod.namespace flags.grace_period_seconds

unfoldable pub keeps_daemonset : Flags → Pod → Bool
keeps_daemonset flags pod =
    any (λ kind. str_eq "DaemonSet" kind) (owner_kinds pod) && not flags.ignore_daemonsets

unfoldable pub keeps_emptydir : Flags → Pod → Bool
keeps_emptydir flags pod = not flags.delete_emptydir_data && has_emptydir pod

module _ (world : World) (flags : Flags) (start : ℕ) where
  -- The `try` block: one request, and where the pod is recorded.
  unfoldable pub attempt : Pod → Progress → Progress
  attempt pod p =
      let sent = p.sent ++ request_for flags pod ∷ [] in
      elim (world.send p.sent (request_for flags pod)) [
        | none ↦ record {
          evicted = p.evicted ++ pod ∷ [];
          skipped_daemonset = p.skipped_daemonset;
          skipped_emptydir = p.skipped_emptydir;
          errors = p.errors;
          sent = sent;
          readings = suc p.readings;
        }
        | some e ↦ record {
          evicted = p.evicted;
          skipped_daemonset = p.skipped_daemonset;
          skipped_emptydir = p.skipped_emptydir;
          errors = p.errors ++ (pod, refused e) ∷ [];
          sent = sent;
          readings = suc p.readings;
        }
      ]

  -- The body of the loop.
  unfoldable pub drain_pod : Pod → Progress → Progress
  drain_pod pod p =
      if keeps_daemonset flags pod
      then record {
        evicted = p.evicted;
        skipped_daemonset = p.skipped_daemonset ++ pod ∷ [];
        skipped_emptydir = p.skipped_emptydir;
        errors = p.errors;
        sent = p.sent;
        readings = p.readings;
      }
      else if keeps_emptydir flags pod
      then record {
        evicted = p.evicted;
        skipped_daemonset = p.skipped_daemonset;
        skipped_emptydir = p.skipped_emptydir ++ pod ∷ [];
        errors = p.errors;
        sent = p.sent;
        readings = p.readings;
      }
      else if past_deadline start flags.timeout_seconds (world.monotonic p.readings)
      then record {
        evicted = p.evicted;
        skipped_daemonset = p.skipped_daemonset;
        skipped_emptydir = p.skipped_emptydir;
        errors = p.errors ++ (pod, drain_timeout) ∷ [];
        sent = p.sent;
        readings = suc p.readings;
      }
      else attempt pod p

  unfoldable pub drain_pods : List Pod → Progress → Progress
  drain_pods [] p = p
  drain_pods (pod ∷ pods) p = drain_pods pods (drain_pod pod p)

-- How the call ends: refused, failed before the loop with the requests sent so far, or through.
pub data Drained : Type 0 where
  permission_error : Drained
  lookup_error : Drained
  raised : List Request → ℕ → Drained
  drained : Progress → Drained

unfoldable pub begun : List Request → Progress
begun sent = record {
  evicted = [];
  skipped_daemonset = [];
  skipped_emptydir = [];
  errors = [];
  sent = sent;
  readings = 1;
}

-- The node is known: cordon, list, take the deadline, loop.
unfoldable pub drain_known : World → Flags → String → Drained
drain_known world flags node = elim (world.send [] (cordon node)) [
  | some e ↦ raised (cordon node ∷ []) e.status
  | none ↦ elim (world.list_pods (cordon node ∷ []) node) [
    | api_exception status ↦ raised (cordon node ∷ []) status
    | answer pods ↦
        drained (drain_pods world flags (world.monotonic 0) pods (begun (cordon node ∷ [])))
  ]
]

unfoldable pub drain_node : Settings → World → Flags → String → Drained
drain_node settings world flags node =
    if settings.read_only then permission_error else elim (world.read_node node) [
      | some e ↦ if e.status == 404 then lookup_error else raised [] e.status
      | none ↦ drain_known world flags node
    ]
