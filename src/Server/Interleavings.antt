-- ===== src/Server/Interleavings.antt =====
-- Any order of calls, endings and timeouts.
use k8s_mcp.Base.{
  ℕ, suc, ◌+◌, ◌-◌, ◌≤◌, ◌<◌, String, ◌≡◌, refl, Bool, true, some, List, [], ◌∷◌, length, ltb, leb,
  arith, if◌then◌else◌, ap, ◌∙◌, Bool-cases, ==_iff, inl, inr, ◌⊎◌, All,
}
use mathlib.Core.Path.{subst}
use k8s_mcp.Config.{Settings}
use k8s_mcp.Safety.RateLimit.{Call, check, Verdict, allowed, limited}
use k8s_mcp.Server.{
  Job, Server, new_server, Started, tool_busy, submit_failed, started, after_limit, dispatch,
  start_call, is_running, finish_call, expire_call,
}
use k8s_mcp.Server.Slots.{
  IsBalanced, start_call-IsBalanced, finish_call-IsBalanced, expire-IsBalanced, max-start_call,
  max-finish_call, length-forsake,
}

-- One event at the server: a call, the end of a running job, or a timeout of one.
pub data Step (tps : ℕ) : Server → Server → Type 0 where
  call :
      {s : Server} (c : Call) (known accepted : Bool)
      → Step tps s (start_call tps c known accepted s).0
  finish :
      {s t : Server} (id : ℕ)
      → is_running id s.running ≡ true
      → finish_call id s ≡ some t
      → Step tps s t
  expire : {s : Server} (id : ℕ) → Step tps s (expire_call id s)

pub data Reach (tps : ℕ) (s : Server) : Server → Type 0 where
  stay : Reach tps s s
  next : {t u : Server} → Reach tps s t → Step tps t u → Reach tps s u

finish-IsBalanced :
    (id : ℕ) (s t : Server)
    → is_running id s.running ≡ true
    → finish_call id s ≡ some t
    → IsBalanced s
    → IsBalanced t
finish-IsBalanced id s t h e b =
    let (t', e', b', l, r) = finish_call-IsBalanced id s b h in
    let same : t' ≡ t = cc in subst IsBalanced same b'

Step-IsBalanced : {tps : ℕ} {s t : Server} → Step tps s t → IsBalanced s → IsBalanced t
Step-IsBalanced {tps} (call {s} c known accepted) b = start_call-IsBalanced tps c known accepted s b
Step-IsBalanced (finish {s} {t} id h e) b = finish-IsBalanced id s t h e b
Step-IsBalanced (expire {s} id) b = expire-IsBalanced id s b

Step-max : {tps : ℕ} {s t : Server} → Step tps s t → t.max_concurrent_tools ≡ s.max_concurrent_tools
unfolding expire_call
Step-max {tps} (call {s} c known accepted) = max-start_call tps c known accepted s
Step-max (finish {s} {t} id h e) = max-finish_call id s t e
Step-max (expire {s} id) = refl

Reach-IsBalanced :
    {tps : ℕ} {s t : Server}
    → IsBalanced s
    → Reach tps s t
    → IsBalanced t × (t.max_concurrent_tools ≡ s.max_concurrent_tools)
Reach-IsBalanced b stay = (b, refl)
Reach-IsBalanced b (next r st) =
    let (c, e) = Reach-IsBalanced b r in (Step-IsBalanced st c, Step-max st ∙ e)

new_server-IsBalanced : (s : Settings) → IsBalanced (new_server s)
unfolding new_server
new_server-IsBalanced s = record { held = omega arith; counted = refl }

-- After any sequence of calls, endings and timeouts from the start of the server, every execution
-- slot is free or held by exactly one running call, the in-flight counter is the number of running
-- calls, and that number is at most the configured one.
pub reachable_capacity :
    (tps : ℕ) (s : Settings) {t : Server}
    → Reach tps (new_server s) t
    → IsBalanced t × (length t.running ≤ s.max_concurrent_tools)
unfolding new_server
reachable_capacity tps s r =
    let (b, e) = Reach-IsBalanced (new_server-IsBalanced s) r in (b, omega (arith, b.held, e))

-- What a call that the rate limit lets through should do.
abbrev pub admit : String → Bool → Server → Server × Started
admit name accepted s =
    if leb s.max_concurrent_tools (length s.running)
    then (s, tool_busy s.max_concurrent_tools)
    else if accepted
    then (
      record s {
        slots = s.slots - 1;
        in_flight = s.in_flight + 1;
        running = record { id = s.next_id; tool = name; awaited = true } ∷ s.running;
        next_id = s.next_id + 1;
      },
      started s.next_id,
    )
    else (s, submit_failed)

-- In a balanced state a call of a known tool that passed the rate limit is refused as busy exactly
-- if as many calls as are configured are running, whether or not they have timed out. Otherwise it
-- takes a slot and runs, or, if the executor refuses the job, leaves the state as it was.
pub dispatch-eq-admit :
    (name : String) (accepted : Bool) (s : Server)
    → IsBalanced s
    → dispatch name true accepted s ≡ admit name accepted s
unfolding dispatch
dispatch-eq-admit name accepted s b = ground (arith, b.held, b.counted)

outcome-dispatch :
    (name : String) (known accepted : Bool) (id : ℕ) (s : Server)
    → (dispatch name known accepted (expire_call id s)).1 ≡ (dispatch name known accepted s).1
unfolding dispatch expire_call
outcome-dispatch name known accepted id s = ground arith

outcome-after_limit :
    (v : Verdict) (m n : Server × Started) (s t : Server)
    → m.1 ≡ n.1
    → (after_limit v m s).1 ≡ (after_limit v n t).1
outcome-after_limit allowed m n s t e = e
outcome-after_limit (limited tool retry rpm) m n s t e = refl

-- A call's timeout frees nothing: it changes the outcome of no later call.
pub start_call-expire_call :
    (tps id : ℕ) (c : Call) (known accepted : Bool) (s : Server)
    → (start_call tps c known accepted (expire_call id s)).1 ≡ (start_call tps c known accepted s).1
unfolding start_call
start_call-expire_call tps id c known accepted s =
    let s' = record s { limiter = (check tps c s.limiter).0 } in
    unfold expire_call in
    elim (Bool-cases (ltb 0 s.limiter.rpm)) [
      | inr off ↦ rw off (outcome-dispatch c.tool known accepted id s)
      | inl on ↦ rw on (
          outcome-after_limit (check tps c s.limiter).1
            (dispatch c.tool known accepted (expire_call id s')) (dispatch c.tool known accepted s')
            (expire_call id s') s' (outcome-dispatch c.tool known accepted id s'))
    ]

-- `n` endings of running calls, in any order, with timeouts of calls between them, and nothing else.
pub data Settling (s : Server) : ℕ → Server → Type 0 where
  none_yet : Settling s 0 s
  ended :
      {n : ℕ} {t u : Server} (id : ℕ)
      → Settling s n t
      → is_running id t.running ≡ true
      → finish_call id t ≡ some u
      → Settling s (suc n) u
  expired : {n : ℕ} {t : Server} (id : ℕ) → Settling s n t → Settling s n (expire_call id t)

-- What holds after some endings: the balance, the number of slots, and how many calls are left.
record Settled (s t : Server) (n : ℕ) : Type 0 where
  balanced : IsBalanced t
  same_max : t.max_concurrent_tools ≡ s.max_concurrent_tools
  left : length t.running + n ≡ length s.running

running_after :
    (id : ℕ) (t u : Server)
    → is_running id t.running ≡ true
    → finish_call id t ≡ some u
    → IsBalanced t
    → length t.running ≡ suc (length u.running)
running_after id t u h e b =
    let (t', e', b', l, r) = finish_call-IsBalanced id t b h in
    let same : t' ≡ u = cc in
    subst (λ (v : Server). length t.running ≡ suc (length v.running)) same l

Settling-Settled : {s t : Server} {n : ℕ} → IsBalanced s → Settling s n t → Settled s t n
unfolding expire_call
Settling-Settled b none_yet = record { balanced = b; same_max = refl; left = omega arith }
Settling-Settled b (ended {n} {t} {u} id r h e) =
    let was = Settling-Settled b r in
    record {
      balanced = finish-IsBalanced id t u h e was.balanced;
      same_max = max-finish_call id t u e ∙ was.same_max;
      left = omega (arith, was.left, running_after id t u h e was.balanced);
    }
Settling-Settled b (expired {n} {t} id r) =
    let was = Settling-Settled b r in
    record {
      balanced = expire-IsBalanced id t was.balanced;
      same_max = was.same_max;
      left = omega (arith, was.left, length-forsake id t.running);
    }

finishes :
    (id : ℕ) (t : Server)
    → IsBalanced t
    → is_running id t.running ≡ true
    → (u : Server) × (finish_call id t ≡ some u)
finishes id t b h = let (u, e, b', l, r) = finish_call-IsBalanced id t b h in (u, e)

still_running :
    (id : ℕ) (j : Job) (js : List Job) → is_running id js ≡ true → is_running id (j ∷ js) ≡ true
still_running id j js h = ground arith

each_running :
    (P : ℕ → Type 0) (js : List Job)
    → ((id : ℕ) → is_running id js ≡ true → P id)
    → All (λ (j : Job). P j.id) js
each_running P [] f = tt
each_running P (j ∷ js) f = (
  f j.id (ground (arith, ==_iff j.id j.id)),
  each_running P js (λ id h. f id (still_running id j js h)),
)

-- No call runs, all slots are free and the counter is at zero.
abbrev pub IsIdle : Server → Type 0
IsIdle s = (s.running ≡ []) × (s.slots ≡ s.max_concurrent_tools) × (s.in_flight ≡ 0)

-- After some endings of running calls from a balanced state, in any order and with timeouts between
-- them: the calls that run are those that ran less one for each ending; the ending of each of them
-- succeeds; and either fewer have ended than were running, or no call runs, all slots are free and the
-- counter is at zero.
pub drains :
    {s t : Server} {n : ℕ}
    → IsBalanced s
    → Settling s n t
    → (length t.running + n ≡ length s.running)
      × All (λ (j : Job). (u : Server) × (finish_call j.id t ≡ some u)) t.running
      × ((n < length s.running) ⊎ IsIdle t)
drains {s} {t} {n} b r =
    let now = Settling-Settled b r in
    (
      now.left,
      each_running (λ id. (u : Server) × (finish_call id t ≡ some u)) t.running
          (λ id h. finishes id t now.balanced h),
      idle_or_left t.running refl now,
    )
  where
    idle_or_left :
        (js : List Job) → t.running ≡ js → Settled s t n → (n < length s.running) ⊎ IsIdle t
    idle_or_left [] e now =
        let none_left = ap (length {A = Job}) e in
        inr (
          e,
          omega (arith, now.balanced.held, none_left),
          omega (arith, now.balanced.counted, none_left),
        )
    idle_or_left (j ∷ js) e now =
        let some_left = ap (length {A = Job}) e in inl (omega (arith, now.left, some_left))
