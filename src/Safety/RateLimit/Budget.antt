-- ===== src/Safety/RateLimit/Budget.antt =====
-- The rate limit of one tool over any sequence of calls of all tools.
use native.Mathlib.Nat.{mul-le-mul_right}
use k8s_mcp.Base.{
  ℕ, ◌+◌, ◌*◌, ◌/◌, ◌≤◌, ◌<◌, suc, String, ◌≡◌, refl, Bool, true, false, ◌&&◌, Option, none, some,
  List, [], ◌∷◌, arith, if◌then◌else◌, str_eq, eq_iff, lookup, lookup-insert, max, Bool-cases,
  lt→leb, inl, inr,
}
use k8s_mcp.Safety.RateLimit.{
  unit, TokenBucket, Wait, new_bucket, try_consume, RateLimiter, new_limiter, Verdict, allowed,
  limited, Call, bucket_for, check,
}
use k8s_mcp.Safety.RateLimit.Bucket.{
  cost, try_consume_budget, refill-try_consume, capacity-try_consume, last_refill-try_consume,
}

abbrev pub is_allowed : Verdict → Bool
is_allowed allowed = true
is_allowed (limited tool retry rpm) = false

allowed_if :
    (g : Bool) (tool : String) (w : Wait) (rpm : ℕ)
    → is_allowed (if g then allowed else limited tool w rpm) ≡ g
allowed_if true tool w rpm = refl
allowed_if false tool w rpm = refl

-- The number of calls of `tool` that were let through.
unfoldable pub granted : ℕ → String → List Call → RateLimiter → ℕ
granted tps tool [] l = 0
granted tps tool (c ∷ cs) l =
    let (l', v) = check tps c l in
    let later = granted tps tool cs l' in
    if str_eq c.tool tool && is_allowed v then suc later else later

-- Every reading of the clock lies between `from` and `upto`, and `made` before `now`.
abbrev pub AllWithin : ℕ → ℕ → List Call → Type 0
AllWithin from upto [] = Unit
AllWithin from upto (c ∷ cs) =
    ((from ≤ c.made) × (c.made ≤ c.now) × (c.now ≤ upto)) × AllWithin from upto cs

-- The limiter was made for this rate, as its later states were.
record IsFor (rpm cap : ℕ) (l : RateLimiter) : Type 0 where
  pub rpm_is : l.rpm ≡ rpm
  pub cap_is : l.capacity ≡ cap
  pub refill_is : l.refill ≡ rpm

module _ (tps rpm cap from upto : ℕ) where
  budget_step :
      (g : Bool) (used t t' last last' : ℕ)
      → cost tps g 1 + t' + last ≤ t + last'
      → used * unit tps + t + from * rpm ≤ cap * unit tps + last
      → (if g then suc used else used) * unit tps + t' + from * rpm ≤ cap * unit tps + last'
  budget_step true used t t' last last' p q = omega arith
  budget_step false used t t' last last' p q = omega arith

  carry :
      (g : Bool) (later used : ℕ)
      → (later + (if g then suc used else used)) * unit tps + from * rpm
        ≤ cap * unit tps + upto * rpm
      → ((if g then suc later else later) + used) * unit tps + from * rpm
        ≤ cap * unit tps + upto * rpm
  carry true later used h = omega arith
  carry false later used h = omega arith

  -- `used` calls were granted, and what the bucket still holds is what they left over.
  record Covers (used : ℕ) (b : TokenBucket) : Type 0 where
    pub refill_is : b.refill ≡ rpm
    pub cap_is : b.capacity ≡ cap
    pub after : from ≤ b.last_refill
    pub before : b.last_refill ≤ upto
    pub budget : used * unit tps + b.tokens + from * rpm ≤ cap * unit tps + b.last_refill * rpm

  abbrev CoversSlot : ℕ → Option TokenBucket → Type 0
  CoversSlot used none = used ≡ 0
  CoversSlot used (some b) = Covers used b

  Covers-try_consume :
      (used now : ℕ) (b : TokenBucket)
      → now ≤ upto
      → Covers used b
      → Covers (if (try_consume tps 1 now b).1 then suc used else used) (try_consume tps 1 now b).0
  Covers-try_consume used now b h c = record {
    refill_is = ground (arith, refill-try_consume tps 1 now b, c.refill_is);
    cap_is = ground (arith, capacity-try_consume tps 1 now b, c.cap_is);
    after = ground (arith, last_refill-try_consume tps 1 now b, c.after);
    before = ground (arith, last_refill-try_consume tps 1 now b, c.before);
    budget =
        budget_step (try_consume tps 1 now b).1 used b.tokens (try_consume tps 1 now b).0.tokens
          (b.last_refill * rpm) ((try_consume tps 1 now b).0.last_refill * rpm)
          (rw (← c.refill_is) (try_consume_budget tps 1 now b)) c.budget;
  }

  -- The bucket that a call finds or makes.
  Covers-bucket_for :
      (used : ℕ) (c : Call) (l : RateLimiter)
      → IsFor rpm cap l
      → from ≤ c.made
      → c.made ≤ upto
      → CoversSlot used (lookup c.tool l.buckets)
      → Covers used (bucket_for tps c l)
  unfolding bucket_for
  Covers-bucket_for used c l f lo hi h = go (lookup c.tool l.buckets) h
    where
      go :
          (o : Option TokenBucket)
          → CoversSlot used o
          → Covers used (elim o [ some b ↦ b | none ↦ new_bucket tps l.capacity l.refill c.made ])
      go (some b) k = k
      go none k = record {
        refill_is = f.refill_is;
        cap_is = f.cap_is;
        after = lo;
        before = hi;
        budget = rw (k, f.cap_is) (omega (arith, mul-le-mul_right rpm lo));
      }

  -- What a call of `check` does to the slot of the tool that it names, and to those of others.
  Covers-check :
      (used : ℕ) (c : Call) (l : RateLimiter) (tool : String)
      → 0 < rpm
      → IsFor rpm cap l
      → (from ≤ c.made) × (c.made ≤ c.now) × (c.now ≤ upto)
      → CoversSlot used (lookup tool l.buckets)
      → CoversSlot
          (if str_eq c.tool tool && is_allowed (check tps c l).1 then suc used else used)
          (lookup tool (check tps c l).0.buckets)
  unfolding check
  Covers-check used c l tool pos f (lo, mid, hi) h =
      let b = bucket_for tps c l in
      rw (lt→leb l.rpm 0 (rw f.rpm_is pos), lookup-insert, allowed_if)
        (elim (Bool-cases (str_eq c.tool tool)) [
          | inl same ↦
              let mine : CoversSlot used (lookup c.tool l.buckets) =
                rw ((eq_iff c.tool tool).0 same) h in
              rw same (
                Covers-try_consume used c.now b hi
                  (Covers-bucket_for used c l f lo (omega arith) mine))
          | inr other ↦ rw other h
        ])

  IsFor-check : (c : Call) (l : RateLimiter) → IsFor rpm cap l → IsFor rpm cap (check tps c l).0
  unfolding check
  IsFor-check c l f = record {
    rpm_is = ground (arith, f.rpm_is);
    cap_is = ground (arith, f.cap_is);
    refill_is = ground (arith, f.refill_is);
  }

  slot_budget :
      (used : ℕ) (o : Option TokenBucket)
      → from ≤ upto
      → CoversSlot used o
      → used * unit tps + from * rpm ≤ cap * unit tps + upto * rpm
  slot_budget used none le h = rw h (omega (arith, mul-le-mul_right rpm le))
  slot_budget used (some b) le h = omega (arith, h.budget, mul-le-mul_right rpm h.before)

  granted_budget :
      (used : ℕ) (tool : String) (cs : List Call) (l : RateLimiter)
      → 0 < rpm
      → IsFor rpm cap l
      → AllWithin from upto cs
      → from ≤ upto
      → CoversSlot used (lookup tool l.buckets)
      → (granted tps tool cs l + used) * unit tps + from * rpm ≤ cap * unit tps + upto * rpm
  unfolding granted
  granted_budget used tool [] l pos f w le h =
      omega (arith, slot_budget used (lookup tool l.buckets) le h)
  granted_budget used tool (c ∷ cs) l pos f (here, later) le h =
      let ih =
        granted_budget
          (if str_eq c.tool tool && is_allowed (check tps c l).1 then suc used else used) tool cs
          (check tps c l).0 pos (IsFor-check c l f) later le
          (Covers-check used c l tool pos f here h) in
      carry (str_eq c.tool tool && is_allowed (check tps c l).1)
        (granted tps tool cs (check tps c l).0) used ih

-- The burst that the limiter allows: a sixth of the rate, and at least one call.
abbrev pub burst : ℕ → ℕ
burst rpm = max 1 (rpm / 6)

IsFor-new_limiter : (rpm : ℕ) → 0 < rpm → IsFor rpm (burst rpm) (new_limiter rpm)
unfolding new_limiter
IsFor-new_limiter rpm pos = record {
  rpm_is = refl;
  cap_is = ground arith;
  refill_is = ground arith;
}

-- A limiter made for `rpm` calls a minute, `rpm` positive, that handles any calls of any tools, all
-- between the ticks `from` and `upto` of a clock that ticks `tps` times a second, lets through at
-- most so many calls of one tool that `granted * 60 tps ≤ burst * 60 tps + rpm * (upto - from)`: a
-- burst of a sixth of `rpm`, at least one, and `rpm` calls for each 60 seconds.
pub rate_limit_window :
    (tps rpm from upto : ℕ) (tool : String) (calls : List Call)
    → 0 < rpm
    → from ≤ upto
    → AllWithin from upto calls
    → granted tps tool calls (new_limiter rpm) * unit tps + from * rpm
      ≤ burst rpm * unit tps + upto * rpm
unfolding new_limiter
rate_limit_window tps rpm from upto tool calls pos le w = omega (
  arith,
  granted_budget tps rpm (burst rpm) from upto 0 tool calls (new_limiter rpm) pos
      (IsFor-new_limiter rpm pos) w le refl,
)
