-- ===== src/Waiting/Wait/Ending.antt =====
-- How `wait_resource` ends, and that it does.
use k8s_mcp.Base.{
  ℕ, String, ◌≡◌, refl, ◌⊎◌, inl, inr, Option, none, some, suc, ◌+◌, ◌*◌, ◌≤◌, arith, Option-cases,
}
use k8s_mcp.Base.Json.{Json}
use k8s_mcp.Generic.Kinds.{Discovery}
use k8s_mcp.Waiting.Poll.{Answered, poll-Answered}
use k8s_mcp.Waiting.Wait.{
  Read, Waited, value_error, Goal, given, checked_goal, ask, served, wait_resource,
}

module _ (decimal : ℕ → Option ℕ) (print : Json → String) {H : Type 0} (d : Discovery H)
    (read : H → String → Option String → ℕ → Read) (clock : ℕ → ℕ) (start : ℕ) where
  -- A wait for a goal that was checked, of a kind that is served.
  pub record Asked (kind name : String) (namespace : Option String) (wanted : Option Goal)
      (timeout_seconds : ℕ) (w : Waited) : Type 0 where
    pub goal : Goal
    pub resource : H
    pub last : ℕ
    pub goal_is : wanted ≡ some goal
    pub resource_is : served decimal print d read clock kind ≡ some resource
    pub answered :
        Answered
          (ask decimal print d read clock resource name namespace goal)
          clock
          (start + timeout_seconds * 1000)
          0
          last
          w
    pub in_time : last ≤ timeout_seconds + 1

  -- If each sleep takes at least a second and the first round ends after the start, a wait answers, after at most two
  -- rounds more than the timeout has seconds: with a ValueError where the arguments name no goal or the kind is not
  -- served, and else with what the first round finds that settles it, or with a TimeoutError from the first
  -- round that ends past the deadline.
  pub wait_resource_lem :
      (kind name : String) (namespace for_condition for_jsonpath jsonpath_value : Option String)
      (timeout_seconds : ℕ)
      → ((j : ℕ) → clock j + 1000 ≤ clock (j + 1))
      → start ≤ clock 0
      → (w : Waited) × (wait_resource decimal print d read clock
            (suc (timeout_seconds + 1))
            start
            kind
            name
            namespace
            for_condition
            for_jsonpath
            jsonpath_value
            timeout_seconds
          ≡ some w)
        × (((w ≡ value_error)
              × ((checked_goal (given for_condition) (given for_jsonpath) jsonpath_value ≡ none)
                  ⊎ (served decimal print d read clock kind ≡ none)))
            ⊎ Asked kind name namespace
                (checked_goal (given for_condition) (given for_jsonpath) jsonpath_value)
                timeout_seconds
                w)
  unfolding wait_resource
  wait_resource_lem kind name namespace for_condition for_jsonpath jsonpath_value timeout_seconds
        slow first =
      elim (Option-cases (checked_goal (given for_condition) (given for_jsonpath) jsonpath_value)) [
        | inl e ↦ (value_error, rw (wait_resource, e) refl, inl (refl, inl e))
        | inr (goal, e) ↦ elim (Option-cases (served decimal print d read clock kind)) [
          | inl u ↦ (value_error, rw (wait_resource, e, u) refl, inl (refl, inr u))
          | inr (h, u) ↦
              let (last, w, run, answered, bound) =
                poll-Answered (ask decimal print d read clock h name namespace goal) clock
                  (start + timeout_seconds * 1000) 1000 (timeout_seconds + 1) 0 slow
                  (omega arith) in
              (
                w,
                rw (wait_resource, e, u, run) refl,
                inr (record {
                  goal = goal;
                  resource = h;
                  last = last;
                  goal_is = e;
                  resource_is = u;
                  answered = answered;
                  in_time = omega arith;
                }),
              )
        ]
      ]
