-- ===== src/Server.antt =====
-- `_K8sMCP.call_tool` of src/k8s_mcp/server.py, with `in_flight_inc` and `in_flight_dec`.
-- The method runs on the event loop, which other calls enter only at its `await`: its text before
-- the `await` is one step, the done callback of the future another, the timeout a third. The
-- executor, the tool registry and FastMCP's own `call_tool` are not in the repository: what they
-- answer is an argument of the steps.
pub mod Slots
pub mod Interleavings
pub mod Responses
mod Tests
use k8s_mcp.Base.{
  ℕ, ◌+◌, ◌-◌, String, Bool, true, false, Option, none, some, List, [], ◌∷◌, ltb, leb, ◌==◌,
  if◌then◌else◌,
}
use k8s_mcp.Base.Text.{empty}
use k8s_mcp.Safety.RateLimit.{
  RateLimiter, new_limiter, Verdict, allowed, limited, Call, check, Wait,
}
use k8s_mcp.Safety.Errors.{ApiException, Exn, api, SafeApiError, safe_apiserver_error}
use k8s_mcp.Config.{Settings}
use Prim.Native.String.{◌++◌}

-- A future that the executor has not finished; `awaited` is false once its call has timed out.
pub record Job : Type 0 where
  pub id : ℕ
  pub tool : String
  pub awaited : Bool

-- The server's state: `slots` is the semaphore's value, `in_flight` the module's counter.
pub record Server : Type 0 where
  pub limiter : RateLimiter
  pub tool_timeout : ℕ
  pub max_concurrent_tools : ℕ
  pub slots : ℕ
  pub in_flight : ℕ
  pub running : List Job
  pub next_id : ℕ

-- `_K8sMCP.__init__`
unfoldable pub new_server : Settings → Server
new_server s = record {
  limiter = new_limiter s.rate_limit_rpm;
  tool_timeout = s.tool_timeout;
  max_concurrent_tools = s.max_concurrent_tools;
  slots = s.max_concurrent_tools;
  in_flight = 0;
  running = [];
  next_id = 0;
}

unfoldable pub in_flight_inc : Server → Server
in_flight_inc s = record s { in_flight = s.in_flight + 1 }

-- `if _in_flight > 0`
unfoldable pub in_flight_dec : Server → Server
in_flight_dec s = if ltb 0 s.in_flight then record s { in_flight = s.in_flight - 1 } else s

-- `BoundedSemaphore.release`: `none` is its `ValueError` where the value would pass the initial one.
unfoldable pub release : Server → Option Server
release s =
    if ltb s.slots s.max_concurrent_tools then some (record s { slots = s.slots + 1 }) else none

-- How the text before the `await` ends: `delegated` hands an unknown name to FastMCP.
pub data Started : Type 0 where
  rate_limited : String → Wait → ℕ → Started
  delegated : Started
  tool_busy : ℕ → Started
  submit_failed : Started
  started : ℕ → Started

-- `run_in_executor` and the `except` of its failure. A failed release would raise, and is kept as it is.
unfoldable pub submit : String → Bool → Server → Server × Started
unfolding release in_flight_inc in_flight_dec
submit name accepted s =
    let busy = in_flight_inc s in
    if accepted
    then (
      record busy {
        running = record { id = s.next_id; tool = name; awaited = true } ∷ s.running;
        next_id = s.next_id + 1;
      },
      started s.next_id,
    )
    else let undone = in_flight_dec busy in
      elim (release undone) [
        | none ↦ (undone, submit_failed)
        | some released ↦ (released, submit_failed)
      ]

-- `acquire(blocking=False)`
unfoldable pub acquire_and_submit : String → Bool → Server → Server × Started
unfolding submit
acquire_and_submit name accepted s =
    if ltb 0 s.slots
    then submit name accepted (record s { slots = s.slots - 1 })
    else (s, tool_busy s.max_concurrent_tools)

abbrev pub after_limit : Verdict → (Server × Started) → Server → Server × Started
after_limit allowed next s = next
after_limit (limited tool retry rpm) next s = (s, rate_limited tool retry rpm)

-- `tools.get(name)`: an unknown tool goes to FastMCP.
unfoldable pub dispatch : String → Bool → Bool → Server → Server × Started
unfolding acquire_and_submit
dispatch name known accepted s =
    if known then acquire_and_submit name accepted s else (s, delegated)

-- A call up to its `await`. `known` is whether the registry has the tool, `accepted` whether the
-- executor takes the job.
unfoldable pub start_call : ℕ → Call → Bool → Bool → Server → Server × Started
unfolding dispatch
start_call tps c known accepted s =
    if ltb 0 s.limiter.rpm
    then (let (limiter, verdict) = check tps c s.limiter in
        let s' = record s { limiter = limiter } in
        after_limit verdict (dispatch c.tool known accepted s') s')
    else dispatch c.tool known accepted s

abbrev pub without : ℕ → List Job → List Job
without id [] = []
without id (j ∷ js) = let rest = without id js in if j.id == id then js else j ∷ rest

abbrev pub is_running : ℕ → List Job → Bool
is_running id [] = false
is_running id (j ∷ js) = let rest = is_running id js in if j.id == id then true else rest

-- The done callback of a future: `release`, then `in_flight_dec`.
unfoldable pub finish_call : ℕ → Server → Option Server
unfolding release in_flight_dec
finish_call id s = elim (release (record s { running = without id s.running })) [
  | none ↦ none
  | some released ↦ some (in_flight_dec released)
]

abbrev pub forsake : ℕ → List Job → List Job
forsake id [] = []
forsake id (j ∷ js) =
    let rest = forsake id js in if j.id == id then record j { awaited = false } ∷ js else j ∷ rest

-- `wait_for` gives up on a shielded future, which runs on.
unfoldable pub expire_call : ℕ → Server → Server
expire_call id s = record s { running = forsake id s.running }

-- An exception with its `__cause__` and its `__context__`. `safe` and `permission` stand for
-- `SafeApiError` and `PermissionError`, `timeout` for the builtin `TimeoutError`.
pub data Kind : Type 0 where
  timeout : String → Kind
  safe : SafeApiError → Kind
  permission : String → Kind
  apiserver : ApiException → Kind
  other : String → String → Kind

mutual
  pub data Raised : Type 0 where
    raised : Kind → Link → Link → Raised

  pub data Link : Type 0 where
    unlinked : Link
    link : Raised → Link

abbrev pub kind_of : Raised → Kind
kind_of (raised k cause context) = k

-- `e.__cause__ or e.__context__ or e`
abbrev pub root : Raised → Raised
root (raised k (link e) context) = e
root (raised k unlinked (link e)) = e
root (raised k unlinked unlinked) = raised k unlinked unlinked

-- `type(e).__name__`
abbrev pub class_name : Kind → String
class_name (timeout m) = "TimeoutError"
class_name (safe e) = "SafeApiError"
class_name (permission m) = "PermissionError"
class_name (apiserver e) = "ApiException"
class_name (other cls args) = cls

-- What the client is answered.
pub data Response : Type 0 where
  tool_timeout_error : String → ℕ → Response
  safe_error : SafeApiError → Response
  permission_error : String → Response

-- The body of the last `except`, on the root exception.
unfoldable pub sanitize : String → Kind → SafeApiError
sanitize name (apiserver e) = safe_apiserver_error (api e) "call" name empty empty
sanitize name k = record {
  status = 0;
  reason = class_name k;
  message = "call " ++ (name ++ (" failed: internal " ++ class_name k));
  hint = some "this is an internal error; check the server logs for details";
}

-- The `except` clauses, for what the body or the wait raised.
unfoldable pub handle : String → ℕ → Raised → Response
unfolding sanitize
handle name limit (raised (timeout m) cause context) = tool_timeout_error name limit
handle name limit (raised (safe e) cause context) = safe_error e
handle name limit (raised (permission m) cause context) = permission_error m
handle name limit e = safe_error (sanitize name (kind_of (root e)))
