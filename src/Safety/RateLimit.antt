-- ===== src/Safety/RateLimit.antt =====
-- `TokenBucket` and `RateLimiter` of src/k8s_mcp/safety.py.
-- Times are whole ticks of a clock that ticks `tps` times a second, and tokens are counted in
-- `unit tps` parts of one token, so that the program's rate of `rpm / 60` tokens a second is `rpm`
-- parts a tick, and nothing is rounded. The program computes the same values in floats.
pub mod Bucket
pub mod Budget
pub mod Pace
use k8s_mcp.Base.{
  ℕ, ◌+◌, ◌-◌, ◌*◌, ◌/◌, ◌≤◌, String, Bool, true, false, Option, none, some, List, [], min, max,
  leb, ltb, lookup, insert, if◌then◌else◌,
}

-- Parts of a token; also the ticks of 60 seconds.
abbrev pub unit : ℕ → ℕ
unit tps = 60 * tps

pub record TokenBucket : Type 0 where
  pub capacity : ℕ
  pub refill : ℕ
  pub tokens : ℕ
  pub last_refill : ℕ

-- A waiting time of `ticks / per` ticks.
pub record Wait : Type 0 where
  pub ticks : ℕ
  pub per : ℕ

-- `TokenBucket(capacity, refill_per_sec)` at the clock's `now`.
unfoldable pub new_bucket : ℕ → ℕ → ℕ → ℕ → TokenBucket
new_bucket tps capacity refill now = record {
  capacity = capacity;
  refill = refill;
  tokens = capacity * unit tps;
  last_refill = now;
}

-- The refill at the head of `try_consume`, under `if elapsed > 0`.
unfoldable pub refilled : ℕ → ℕ → TokenBucket → TokenBucket
refilled tps now b =
    if ltb b.last_refill now
    then record b {
      tokens = min (b.capacity * unit tps) (b.tokens + (now - b.last_refill) * b.refill);
      last_refill = now;
    }
    else b

-- `if self.tokens >= n`, on the refilled bucket.
unfoldable pub take_tokens : ℕ → ℕ → TokenBucket → TokenBucket × Bool × Wait
take_tokens tps n b =
    if leb (n * unit tps) b.tokens
    then (record b { tokens = b.tokens - n * unit tps }, true, record { ticks = 0; per = 1 })
    else (
      b,
      false,
      (if ltb 0 b.refill
          then record { ticks = n * unit tps - b.tokens; per = b.refill }
          else record { ticks = unit tps; per = 1 }),
    )

unfoldable pub try_consume : ℕ → ℕ → ℕ → TokenBucket → TokenBucket × Bool × Wait
try_consume tps n now b = take_tokens tps n (refilled tps now b)

pub record RateLimiter : Type 0 where
  pub rpm : ℕ
  pub capacity : ℕ
  pub refill : ℕ
  pub buckets : List (String × TokenBucket)

-- `RateLimiter(rpm)`
unfoldable pub new_limiter : ℕ → RateLimiter
new_limiter rpm = record {
  rpm = rpm;
  capacity = (if ltb 0 rpm then max 1 (rpm / 6) else 0);
  refill = (if ltb 0 rpm then rpm else 0);
  buckets = [];
}

-- `limited` is `RateLimitedError(tool, retry_after_seconds, limit_rpm)`.
pub data Verdict : Type 0 where
  allowed : Verdict
  limited : String → Wait → ℕ → Verdict

-- One call of `check`: the clock reads `made` where a new bucket is made, and `now` in `try_consume`.
pub record Call : Type 0 where
  pub tool : String
  pub made : ℕ
  pub now : ℕ

-- `self._buckets.get(tool)`, or a new bucket.
unfoldable pub bucket_for : ℕ → Call → RateLimiter → TokenBucket
unfolding new_bucket
bucket_for tps c l = elim (lookup c.tool l.buckets) [
  | some b ↦ b
  | none ↦ new_bucket tps l.capacity l.refill c.made
]

unfoldable pub check : ℕ → Call → RateLimiter → RateLimiter × Verdict
check tps c l =
    if leb l.rpm 0
    then (l, allowed)
    else let (b, granted, retry) = try_consume tps 1 c.now (bucket_for tps c l) in
      (
        record l { buckets = insert c.tool b l.buckets },
        (if granted then allowed else limited c.tool retry l.rpm),
      )
