-- ===== src/Waiting/Tests.antt =====
-- Runs of the waiting tools.
use k8s_mcp.Base.{
  All, ℕ, String, ◌≡◌, refl, ◌⊎◌, inr, Bool, true, false, Option, none, some, List, [], ◌∷◌, suc,
  ◌+◌, ◌-◌, ◌*◌, ◌/◌, ◌≤◌, ◌<◌, leb, arith, if◌then◌else◌,
}
use Prim.Native.String.{◌++◌ as ◌+++◌}
use k8s_mcp.Base.Text.Search.{contains, before, after}
use k8s_mcp.Waiting.Poll.{poll}
use k8s_mcp.Base.Json.{Json, str, obj, arr, Fields, end, field, nil, cons}
use k8s_mcp.Generic.Kinds.{api_version_for, Discovery, one, resource_not_found}
use k8s_mcp.Waiting.Jsonpath.{
  scan, advance, step, at_index, Token, key, index, walk, value, jsonpath,
}
use k8s_mcp.Waiting.Jsonpath.RoundTrip.{IsPlain, render, jsonpath-render}
use k8s_mcp.Waiting.Wait as Wait
use k8s_mcp.Waiting.Wait.{
  look, check_condition, Waited, value_error, checked_goal, given, served, wait_resource,
}
use k8s_mcp.Waiting.Wait.Ending.{Asked, wait_resource_lem}
use k8s_mcp.Waiting.Status as Status
use k8s_mcp.Waiting.Status.{
  Condition, Live, Ended, timed_out, progressing_of, live_text, is_done, rollout_status,
}
use k8s_mcp.Waiting.Status.Ending.{Watched, rollout_status_lem, no_progressing_times_out}

-- The digits of ASCII.
abbrev decimal : ℕ → Option ℕ
decimal c = if leb 48 c then (if leb c 57 then some (c - 48) else none) else none

abbrev pod : Json
pod = obj (
    field "spec"
      (obj (field "containers" (arr (cons (obj (field "image" (str "nginx") end)) nil)) end)) end)

abbrev to_image : List Token
to_image = key "containers" ∷ index true 1 ∷ key "image" ∷ []

jsonpath_runs : jsonpath decimal pod "spec.containers[-1].image" ≡ value (str "nginx")
unfolding jsonpath scan advance step walk at_index before after
jsonpath_runs = refl

decimal_ascii : (d : ℕ) → d < 10 → decimal (48 + d) ≡ some d
decimal_ascii d h = ground arith

jsonpath-render_example :
    jsonpath decimal pod ("spec" +++ render to_image) ≡ walk pod (key "spec" ∷ to_image)
jsonpath-render_example =
    jsonpath-render decimal decimal_ascii pod "spec" to_image ("spec" +++ render to_image)
      to_image_plain (inr (refl, refl))
  where
    to_image_plain : All IsPlain (key "spec" ∷ to_image)
    to_image_plain = (
      (refl, unfold contains in refl, unfold contains in refl),
      (
        (refl, unfold contains in refl, unfold contains in refl),
        (tt, ((refl, unfold contains in refl, unfold contains in refl), tt)),
      ),
    )

-- A pod that is ready from the third read on, read once a second.
abbrev with_ready : String → Fields
with_ready s =
    field "status"
      (obj (
        field "conditions"
          (arr (cons (obj (field "type" (str "Ready") (field "status" (str s) end))) nil)) end))
      end

abbrev third_ready : String → String → Option String → ℕ → Wait.Read
third_ready h name namespace i =
    Wait.item (if leb 2 i then with_ready "True" else with_ready "False")

abbrev pods : Discovery String
pods = record { at = λ version kind. one kind; anywhere = λ kind. resource_not_found }

abbrev seconds : ℕ → ℕ
seconds j = 1005 * (j + 1)

abbrev plain : Json → String
plain v = "value"

wait_resource_lem_example :
    (w : Waited) × (wait_resource decimal plain pods third_ready seconds
        (suc (10 + 1))
        1000
        "Pod"
        "web"
        none
        (some "Ready")
        none
        none
        10
      ≡ some w)
    × (((w ≡ value_error)
          × ((checked_goal (given (some "Ready")) (given none) none ≡ none)
              ⊎ (served decimal plain pods third_ready seconds "Pod" ≡ none)))
        ⊎ Asked decimal plain pods third_ready seconds 1000 "Pod" "web" none
            (checked_goal (given (some "Ready")) (given none) none)
            10
            w)
wait_resource_lem_example =
    wait_resource_lem decimal plain pods third_ready seconds 1000 "Pod" "web" none (some "Ready")
      none none 10 (λ j. omega arith) (omega arith)

wait_resource_runs :
    wait_resource decimal plain pods third_ready seconds 12 1000 "Pod" "web" none
      (some "Ready")
      none
      none
      10
    ≡ some Wait.condition_met
unfolding wait_resource poll look check_condition api_version_for
wait_resource_runs = refl

abbrev available : Condition
available = record {
  type_of = "Progressing";
  status = "True";
  reason = some "NewReplicaSetAvailable";
  message = some "ok";
}

abbrev done_live : Live
done_live = record {
  generation = some 2;
  observed_generation = some 2;
  conditions = available ∷ [];
}

abbrev bare_live : Live
bare_live = record { generation = some 2; observed_generation = some 2; conditions = [] }

abbrev slow_rollout : Bool → String → String → ℕ → Status.Read
slow_rollout d name namespace i = Status.item (if leb 3 i then done_live else bare_live)

abbrev bare : Bool → String → String → ℕ → Status.Read
bare d name namespace i = Status.item bare_live

abbrev same : String → String
same s = s

abbrev pairs : ℕ → ℕ
pairs j = 2005 * (j + 1)

rollout_status_lem_example :
    (last : ℕ) × (e : Ended) × (rollout_status same slow_rollout pairs
        (suc (20 / 2 + 1))
        1000
        "deployment"
        "web"
        "shop"
        20
        true
      ≡ some e)
    × (last ≤ 20 / 2 + 1)
    × Watched same slow_rollout pairs 1000
        (slow_rollout true "web" "shop")
        (1000 + 20 * 1000)
        last
        e
rollout_status_lem_example =
    rollout_status_lem same slow_rollout pairs 1000 "deployment" "web" "shop" true 20 refl
      (λ j. omega arith) (omega arith)

no_progressing_times_out_example :
    (msg : String) × (rollout_status same bare pairs
        (suc (20 / 2 + 1))
        1000
        "statefulset"
        "web"
        "shop"
        20
        true
      ≡ some (timed_out msg))
no_progressing_times_out_example =
    no_progressing_times_out same bare pairs 1000 "statefulset" "web" "shop" false 20 refl
      (λ j. omega arith) (omega arith) (λ j. (bare_live, refl, unfold progressing_of in refl))
