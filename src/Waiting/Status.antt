-- ===== src/Waiting/Status.antt =====
-- `rollout_status`, `_status_once` and `_is_done` of rollout.py. The API, `str.lower`, the clock and the
-- sleeps, which are seen in the clock only, are parameters. Time is in milliseconds.
pub mod Ending
use Prim.Native.Char.{code}
use Prim.Native.String.{◌++◌}
use k8s_mcp.Base.{
  ℕ, String, Bool, true, false, ◌&&◌, ◌||◌, not, Option, none, some, List, [], ◌∷◌, ◌+◌, ◌*◌, ◌==◌,
  str_eq, if◌then◌else◌,
}
use k8s_mcp.Base.Text.{empty}
use k8s_mcp.Base.Text.Decimal.{show}
use k8s_mcp.Base.Text.Search.{starts_with}
use k8s_mcp.Waiting.Poll.{Round, finish, again, poll}

pub record Condition : Type 0 where
  pub type_of : String
  pub status : String
  pub reason : Option String
  pub message : Option String

pub record Live : Type 0 where
  pub generation : Option ℕ
  pub observed_generation : Option ℕ
  pub conditions : List Condition

pub data Read : Type 0 where
  item : Live → Read
  api_exception : ℕ → Read

abbrev pub or_zero : Option ℕ → ℕ
or_zero none = 0
or_zero (some n) = n

-- `{x}` and `{x or t}` for an optional text.
abbrev pub or_none : Option String → String
or_none none = "None"
or_none (some s) = s

abbrev pub or_text : String → Option String → String
or_text t none = t
or_text t (some s) = if str_eq s empty then t else s

-- The first condition of the type `Progressing`.
unfoldable pub progressing_of : List Condition → Option Condition
progressing_of [] = none
progressing_of (c ∷ cs) =
    let rest = progressing_of cs in if str_eq c.type_of "Progressing" then some c else rest

abbrev pub is_complete : Condition → Bool
is_complete c = str_eq c.status "True" && str_eq (or_text "" c.reason) "NewReplicaSetAvailable"

unfoldable pub progress_text : Condition → String
progress_text c =
    if is_complete c
    then "Rollout complete: " ++ or_text "ok" c.message
    else if str_eq c.status "False"
    then "Rollout stalled: " ++ ((or_none c.reason ++ " — ") ++ or_none c.message)
    else "Rollout in progress: " ++ ((or_text "..." c.reason ++ " — ") ++ or_text "" c.message)

unfoldable pub live_text : Live → String
live_text o =
    if not (or_zero o.generation == or_zero o.observed_generation)
    then "Waiting for rollout to start: spec gen "
      ++ (show (or_zero o.generation) ++ (" != observed " ++ show (or_zero o.observed_generation)))
    else elim (progressing_of o.conditions) [
      | none ↦
          "No Progressing condition found (current observed gen "
          ++ (show (or_zero o.observed_generation) ++ ")")
      | some c ↦ progress_text c
    ]

-- A message, or an exception other than a 404.
pub data Once : Type 0 where
  message : String → Once
  raised : ℕ → Once

-- `kind_lower.capitalize()` for the two kinds.
abbrev pub capitalized : Bool → String
capitalized true = "Deployment"
capitalized false = "Statefulset"

unfoldable pub status_once : Bool → String → String → Read → Once
status_once is_deployment name namespace (item o) = message (live_text o)
status_once is_deployment name namespace (api_exception status) =
    if status == 404
    then message (
        "Error: "
        ++ (capitalized is_deployment ++ (" '" ++ (namespace ++ ("/" ++ (name ++ "' not found"))))))
    else raised status

unfoldable pub is_done : String → Bool
is_done msg =
    starts_with "Rollout complete" msg
    || starts_with "Error:" msg
    || starts_with "Rollout stalled" msg

pub data Ended : Type 0 where
  value_error : Ended
  snapshot : String → Ended
  -- The last message, and the note that time was up.
  timed_out : String → Ended
  api_error : ℕ → Ended

unfoldable pub round : Bool → Once → Round Ended
round watch (raised status) = finish (api_error status)
round watch (message msg) =
    if not watch
    then finish (snapshot msg)
    else if is_done msg
    then finish (snapshot msg)
    else again (timed_out msg)

-- `kind_lower`, if it is one of the two kinds: whether it is a deployment.
abbrev pub kind_of : String → Option Bool
kind_of kind_lower =
    if str_eq kind_lower "deployment"
    then some true
    else if str_eq kind_lower "statefulset"
    then some false
    else none

module _ (lower : String → String) (read : Bool → String → String → ℕ → Read) (clock : ℕ → ℕ) where
  abbrev pub ask : Bool → String → String → Bool → ℕ → Round Ended
  ask is_deployment name namespace watch i =
      round watch (status_once is_deployment name namespace (read is_deployment name namespace i))

  unfoldable pub rollout_status : ℕ → ℕ → String → String → String → ℕ → Bool → Option Ended
  rollout_status fuel start kind name namespace timeout_seconds watch =
      elim (kind_of (lower kind)) [
        | none ↦ some value_error
        | some is_deployment ↦
            elim (poll (ask is_deployment name namespace watch) clock
              (start + timeout_seconds * 1000) fuel 0) [ none ↦ none | some (i, r) ↦ some r ]
      ]
