-- ===== src/Safety/Tests.antt =====
-- Runs of safety.py, and the theorems at concrete inputs.
use k8s_mcp.Base.{
  ℕ, ◌+◌, ◌-◌, ◌*◌, ◌≤◌, String, ◌≡◌, ◌↔◌, refl, true, false, none, some, List, [], ◌∷◌, arith,
}
use k8s_mcp.Safety.RateLimit.{unit, TokenBucket, new_bucket, try_consume, new_limiter, Call, check}
use k8s_mcp.Safety.RateLimit.Bucket.{retry_exact}
use k8s_mcp.Safety.RateLimit.Budget.{granted, burst, rate_limit_window}
use k8s_mcp.Safety.Errors.{api, safe_apiserver_error}

-- 60 calls a minute on a clock of ten ticks a second: one token flows in each ten ticks.
abbrev drained : TokenBucket
drained = record { capacity = 10; refill = 60; tokens = 0; last_refill = 100 }

abbrev five_calls : List Call
five_calls =
    record { tool = "ping"; made = 0; now = 0 }
    ∷ record { tool = "notify"; made = 1; now = 1 }
    ∷ record { tool = "ping"; made = 2; now = 2 }
    ∷ record { tool = "ping"; made = 3; now = 4 }
    ∷ record { tool = "ping"; made = 15; now = 15 }
    ∷ []

-- At six calls a minute the burst is one call: the first one is granted, the others come too soon.
granted_runs : granted 10 "ping" five_calls (new_limiter 6) ≡ 1
unfolding granted check try_consume k8s_mcp.Safety.RateLimit.refilled
    k8s_mcp.Safety.RateLimit.take_tokens new_limiter k8s_mcp.Safety.RateLimit.bucket_for
granted_runs = refl

refused : (try_consume 10 1 105 drained).1 ≡ false
unfolding try_consume k8s_mcp.Safety.RateLimit.refilled k8s_mcp.Safety.RateLimit.take_tokens
refused = refl

forbidden_message :
    (safe_apiserver_error
      (api (record { status = some 403; reason = some "Forbidden"; body = "secret" }))
      "read"
      "Pod"
      "web"
      "prod").message
    ≡ "read prod/Pod/web failed: RBAC denied"
unfolding safe_apiserver_error k8s_mcp.Safety.Errors.describe k8s_mcp.Safety.Errors.table_get
    k8s_mcp.Safety.Errors.who
forbidden_message = refl

teapot_message :
    (safe_apiserver_error
      (api (record { status = some 418; reason = none; body = "" }))
      "read"
      "Pod"
      ""
      "").message
    ≡ "read Pod failed: apiserver returned HTTP 418"
unfolding safe_apiserver_error k8s_mcp.Safety.Errors.describe k8s_mcp.Safety.Errors.table_get
    k8s_mcp.Safety.Errors.who k8s_mcp.Base.Text.Decimal.show
teapot_message = refl

retry_exact_example :
    ((try_consume 10 1 110 (try_consume 10 1 105 drained).0).1 ≡ true)
    ↔ ((try_consume 10 1 105 drained).2.ticks ≤ (110 - 105) * (try_consume 10 1 105 drained).2.per)
retry_exact_example =
    retry_exact 10 1 105 110 drained (omega arith) (omega arith) (omega arith) (omega arith) refused

rate_limit_window_example :
    granted 10 "ping" five_calls (new_limiter 6) * unit 10 + 0 * 6 ≤ burst 6 * unit 10 + 20 * 6
rate_limit_window_example =
    rate_limit_window 10 6 0 20 "ping" five_calls (omega arith) (omega arith) (omega arith)
