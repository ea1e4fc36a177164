-- ===== src/Safety/RateLimit/Pace.antt =====
-- Calls that the rate limit never touches, and what one tool's calls leave of another's bucket.
use native.Mathlib.Nat.{mul-le-mul_right}
use k8s_mcp.Base.{
  ℕ, ◌-◌, ◌*◌, ◌≤◌, ◌<◌, ◌≡◌, refl, Bool, true, false, List, [], ◌∷◌, arith, if◌then◌else◌,
}
use k8s_mcp.Safety.RateLimit.{unit, TokenBucket, refilled, take_tokens, try_consume}
use k8s_mcp.Safety.RateLimit.Bucket.{
  capacity-try_consume, refill-try_consume, last_refill-try_consume,
}

-- Each time lies at least the time in which one token flows in after the one before.
abbrev pub IsPaced : ℕ → ℕ → ℕ → List ℕ → Type 0
IsPaced tps rate last [] = Unit
IsPaced tps rate last (now ∷ times) =
    (last ≤ now) × (unit tps ≤ (now - last) * rate) × IsPaced tps rate now times

-- One call at each of the times is granted.
unfoldable pub all_granted : ℕ → List ℕ → TokenBucket → Bool
all_granted tps [] b = true
all_granted tps (now ∷ times) b =
    let (b', granted, retry) = try_consume tps 1 now b in
    let rest = all_granted tps times b' in if granted then rest else false

module _ (tps : ℕ) where
  paced_granted :
      (now : ℕ) (b : TokenBucket)
      → 1 ≤ b.capacity
      → b.last_refill ≤ now
      → unit tps ≤ (now - b.last_refill) * b.refill
      → 0 < unit tps
      → (try_consume tps 1 now b).1 ≡ true
  unfolding try_consume refilled take_tokens
  paced_granted now b room after flow pos = ground (arith, mul-le-mul_right (unit tps) room)

  -- Where a bucket can hold a token, calls that come at least the time apart in which one token
  -- flows in, and as long after the bucket's last refill, are all granted.
  pub paced_calls_granted :
      (times : List ℕ) (b : TokenBucket)
      → 0 < tps
      → 1 ≤ b.capacity
      → IsPaced tps b.refill b.last_refill times
      → all_granted tps times b ≡ true
  unfolding all_granted
  paced_calls_granted [] b tick room paced = refl
  paced_calls_granted (now ∷ times) b tick room (after, flow, later) =
      let (b', g, w) = try_consume tps 1 now b in
      let at_now : b'.last_refill ≡ now = ground (arith, last_refill-try_consume tps 1 now b) in
      rw (paced_granted now b room after flow (omega arith)) (
        paced_calls_granted times b' tick (rw capacity-try_consume room)
          (rw (refill-try_consume tps 1 now b, at_now) later))
