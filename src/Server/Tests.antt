-- ===== src/Server/Tests.antt =====
-- Runs of `call_tool`, and the theorems at concrete states.
use k8s_mcp.Base.{◌≤◌, String, ◌≡◌, refl, true, some, [], length, ◌+◌, ◌<◌, ◌⊎◌, All}
use k8s_mcp.Config.{Settings, default_settings}
use k8s_mcp.Safety.RateLimit.{Call}
use k8s_mcp.Server.{
  Server, Job, finish_call, new_server, tool_busy, start_call, dispatch, expire_call, raised, other,
  link, unlinked, Raised, handle,
}
use k8s_mcp.Server.Slots.{IsBalanced}
use k8s_mcp.Server.Interleavings.{
  Reach, stay, next, call, expire, reachable_capacity, admit, dispatch-eq-admit, drains, Settling,
  none_yet, ended, IsIdle,
}
use k8s_mcp.Server.Responses.{visible, handle_secrecy}

abbrev one_slot : Settings
one_slot = record default_settings { rate_limit_rpm = 0; max_concurrent_tools = 1 }

abbrev list_pods : Call
list_pods = record { tool = "list_pods"; made = 0; now = 0 }

abbrev after_one : Server
after_one = (start_call 10 list_pods true true (new_server one_slot)).0

abbrev after_timeout : Server
after_timeout = expire_call 0 after_one

-- The call that has timed out still holds the only slot.
second_busy : (start_call 10 list_pods true true after_timeout).1 ≡ tool_busy 1
unfolding start_call new_server expire_call k8s_mcp.Safety.RateLimit.new_limiter
second_busy = refl

reached : Reach 10 (new_server one_slot) after_timeout
reached = next (next stay (call list_pods true true)) (expire 0)

reachable_capacity_example :
    IsBalanced after_timeout × (length after_timeout.running ≤ one_slot.max_concurrent_tools)
reachable_capacity_example = reachable_capacity 10 one_slot reached

balanced : IsBalanced after_timeout
balanced = reachable_capacity_example_part.0
  where
    reachable_capacity_example_part : IsBalanced after_timeout × (length after_timeout.running ≤ 1)
    reachable_capacity_example_part = reachable_capacity 10 one_slot reached

dispatch-eq-admit_example :
    dispatch "list_pods" true true after_timeout ≡ admit "list_pods" true after_timeout
dispatch-eq-admit_example = dispatch-eq-admit "list_pods" true after_timeout balanced

abbrev after_end : Server
after_end = record after_timeout { slots = 1; in_flight = 0; running = [] }

one_ending : Settling after_timeout 1 after_end
unfolding start_call finish_call new_server expire_call k8s_mcp.Safety.RateLimit.new_limiter
one_ending = ended 0 none_yet refl refl

drains_example :
    (length after_end.running + 1 ≡ length after_timeout.running)
    × All (λ (j : Job). (u : Server) × (finish_call j.id after_end ≡ some u)) after_end.running
    × ((1 < length after_timeout.running) ⊎ IsIdle after_end)
drains_example = drains balanced one_ending

abbrev wrapped : String → Raised
wrapped secret =
    raised (other "RuntimeError" secret) (link (raised (other "KeyError" secret) unlinked unlinked))
      unlinked

handle_secrecy_example :
    visible (handle "get_secret" 60 (wrapped "hunter2"))
    ≡ visible (handle "get_secret" 60 (wrapped ""))
handle_secrecy_example = handle_secrecy "get_secret" 60 (wrapped "hunter2") (wrapped "") refl
