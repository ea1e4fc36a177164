-- ===== src/Safety/RateLimit/Bucket.antt =====
-- One bucket: its bound, what it grants over any sequence of calls, and the waiting time it reports.
use native.Mathlib.Nat.{mul-le-mul_right}
use k8s_mcp.Base.{
  ℕ, ◌+◌, ◌-◌, ◌*◌, ◌≤◌, ◌<◌, ◌≡◌, ap, ◌↔◌, Bool, true, false, arith, if◌then◌else◌, ltb,
}
use k8s_mcp.Safety.RateLimit.{unit, TokenBucket, refilled, take_tokens, try_consume}

-- A bucket never holds more than its capacity.
pub record IsBounded (tps : ℕ) (b : TokenBucket) : Type 0 where
  pub bounded : b.tokens ≤ b.capacity * unit tps

sub_mul : (l n r : ℕ) → l ≤ n → (n - l) * r + l * r ≡ n * r
sub_mul l n r h = let e : n ≡ n - l + l = omega arith in omega (arith, ap (λ (t : ℕ). t * r) e)

no_time : (l n r : ℕ) → n ≤ l → (n - l) * r ≡ 0
no_time l n r h = let e : n - l ≡ 0 = omega arith in rw e (omega arith)

module _ (tps : ℕ) where
  pub try_consume-IsBounded :
      (n now : ℕ) (b : TokenBucket) → IsBounded tps b → IsBounded tps (try_consume tps n now b).0
  unfolding try_consume refilled take_tokens
  try_consume-IsBounded n now b h = record { bounded = ground (arith, h.bounded) }

  pub refill-try_consume :
      (n now : ℕ) (b : TokenBucket) → (try_consume tps n now b).0.refill ≡ b.refill
  unfolding try_consume refilled take_tokens
  refill-try_consume n now b = ground arith

  pub capacity-try_consume :
      (n now : ℕ) (b : TokenBucket) → (try_consume tps n now b).0.capacity ≡ b.capacity
  unfolding try_consume refilled take_tokens
  capacity-try_consume n now b = ground arith

  -- The units that a call takes.
  abbrev pub cost : Bool → ℕ → ℕ
  cost granted n = if granted then n * unit tps else 0

  refilled_budget :
      (now : ℕ) (b : TokenBucket)
      → (refilled tps now b).tokens + b.last_refill * b.refill
        ≤ b.tokens + (refilled tps now b).last_refill * b.refill
  unfolding refilled
  refilled_budget now b = ground (arith, sub_mul b.last_refill now b.refill)

  take_budget :
      (n : ℕ) (b : TokenBucket)
      → cost (take_tokens tps n b).1 n + (take_tokens tps n b).0.tokens ≤ b.tokens
  unfolding take_tokens
  take_budget n b = ground arith

  last_refill-take_tokens :
      (n : ℕ) (b : TokenBucket) → (take_tokens tps n b).0.last_refill ≡ b.last_refill
  unfolding take_tokens
  last_refill-take_tokens n b = ground arith

  -- What a call takes and leaves is covered by what was there and what flowed in since.
  pub try_consume_budget :
      (n now : ℕ) (b : TokenBucket)
      → cost (try_consume tps n now b).1 n
          + (try_consume tps n now b).0.tokens
          + b.last_refill * b.refill
        ≤ b.tokens + (try_consume tps n now b).0.last_refill * b.refill
  unfolding try_consume
  try_consume_budget n now b =
      rw last_refill-take_tokens
        (omega (arith, refilled_budget now b, take_budget n (refilled tps now b)))

  pub last_refill-try_consume :
      (n now : ℕ) (b : TokenBucket)
      → (try_consume tps n now b).0.last_refill
        ≡ (if ltb b.last_refill now then now else b.last_refill)
  unfolding try_consume refilled
  last_refill-try_consume n now b = rw last_refill-take_tokens (ground arith)

  take_denied :
      (n : ℕ) (b : TokenBucket)
      → (take_tokens tps n b).1 ≡ false
      → 0 < b.refill
      → ((take_tokens tps n b).0 ≡ b)
        × ((take_tokens tps n b).2 ≡ record { ticks = n * unit tps - b.tokens; per = b.refill })
        × (b.tokens < n * unit tps)
  unfolding take_tokens
  take_denied n b h pos = ground arith

  take_granted_iff :
      (n : ℕ) (b : TokenBucket) → ((take_tokens tps n b).1 ≡ true) ↔ (n * unit tps ≤ b.tokens)
  unfolding take_tokens
  take_granted_iff n b = ground arith

  refilled_enough :
      (n later : ℕ) (b : TokenBucket)
      → b.last_refill ≤ later
      → n ≤ b.capacity
      → b.tokens < n * unit tps
      → (n * unit tps ≤ (refilled tps later b).tokens)
        ↔ (n * unit tps - b.tokens ≤ (later - b.last_refill) * b.refill)
  unfolding refilled
  refilled_enough n later b after fits short = (
    λ h. ground (arith, no_time b.last_refill later b.refill, room, h),
    λ h. ground (arith, no_time b.last_refill later b.refill, room, h),
  )
    where
      room : n * unit tps ≤ b.capacity * unit tps
      room = mul-le-mul_right (unit tps) fits

  after_refusal :
      (n now later : ℕ) (b : TokenBucket)
      → b.last_refill ≡ now
      → now ≤ later
      → n ≤ b.capacity
      → b.tokens < n * unit tps
      → ((take_tokens tps n (refilled tps later b)).1 ≡ true)
        ↔ (n * unit tps - b.tokens ≤ (later - now) * b.refill)
  after_refusal n now later b at_now after fits short =
      let granted = take_granted_iff n (refilled tps later b) in
      let enough = refilled_enough n later b (rw at_now after) fits short in
      rw (← at_now) (λ h. enough.0 (granted.0 h), λ h. granted.1 (enough.1 h))

  capacity-refilled : (now : ℕ) (b : TokenBucket) → (refilled tps now b).capacity ≡ b.capacity
  unfolding refilled
  capacity-refilled now b = ground arith

  refill-refilled : (now : ℕ) (b : TokenBucket) → (refilled tps now b).refill ≡ b.refill
  unfolding refilled
  refill-refilled now b = ground arith

  last_refill-refilled :
      (now : ℕ) (b : TokenBucket) → b.last_refill ≤ now → (refilled tps now b).last_refill ≡ now
  unfolding refilled
  last_refill-refilled now b h = ground arith

  -- The waiting time in a refusal is exact. Where `n` tokens are refused at `now`, by a bucket
  -- that refills and whose capacity `n` does not pass, with the waiting time `ticks / per`, the
  -- same request to the same bucket is granted at a later time exactly if at least that time has
  -- passed since `now`.
  pub retry_exact :
      (n now later : ℕ) (b : TokenBucket)
      → b.last_refill ≤ now
      → now ≤ later
      → n ≤ b.capacity
      → 0 < b.refill
      → (try_consume tps n now b).1 ≡ false
      → ((try_consume tps n later (try_consume tps n now b).0).1 ≡ true)
        ↔ ((try_consume tps n now b).2.ticks ≤ (later - now) * (try_consume tps n now b).2.per)
  unfolding try_consume
  retry_exact n now later b before after fits pos refused =
      let c = refilled tps now b in
      let (same, wait, short) = take_denied n c refused (ground (arith, refill-refilled now b)) in
      let at_now : c.last_refill ≡ now = last_refill-refilled now b before in
      let wide : n ≤ c.capacity = rw capacity-refilled fits in
      rw (same, wait) (after_refusal n now later c at_now after wide short)
