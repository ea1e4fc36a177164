-- ===== src/Server/Slots.antt =====
-- The execution slots: how many calls run at once, whatever the order of calls, endings and timeouts.
use k8s_mcp.Base.{
  ℕ, ◌+◌, ◌-◌, suc, String, ◌≡◌, refl, Bool, true, false, some, List, [], ◌∷◌, length, ltb, arith,
  Bool-cases, inl, inr,
}
use k8s_mcp.Safety.RateLimit.{Call, check, Verdict, allowed, limited}
use k8s_mcp.Server.{
  Job, Server, Started, submit, acquire_and_submit, after_limit, dispatch, start_call, without,
  is_running, finish_call, forsake, expire_call,
}

-- Every slot is free or held by exactly one running call, and the counter counts the running calls.
pub record IsBalanced (s : Server) : Type 0 where
  pub held : s.slots + length s.running ≡ s.max_concurrent_tools
  pub counted : s.in_flight ≡ length s.running

length-without :
    (id : ℕ) (js : List Job) → is_running id js ≡ true → length js ≡ suc (length (without id js))
length-without id [] h = cc
length-without id (j ∷ js) h = ground (arith, length-without id js)

pub length-forsake : (id : ℕ) (js : List Job) → length (forsake id js) ≡ length js
length-forsake id [] = refl
length-forsake id (j ∷ js) = ground (arith, length-forsake id js)

submit-IsBalanced :
    (name : String) (accepted : Bool) (s : Server)
    → s.slots + length s.running + 1 ≡ s.max_concurrent_tools
    → s.in_flight ≡ length s.running
    → IsBalanced (submit name accepted s).0
unfolding submit
submit-IsBalanced name true s h k = record { held = omega arith; counted = omega arith }
submit-IsBalanced name false s h k = record { held = ground arith; counted = ground arith }

acquire-IsBalanced :
    (name : String) (accepted : Bool) (s : Server)
    → IsBalanced s
    → IsBalanced (acquire_and_submit name accepted s).0
unfolding acquire_and_submit
acquire-IsBalanced name accepted s b = elim (Bool-cases (ltb 0 s.slots)) [
  | inl free ↦ rw free (
      submit-IsBalanced name accepted (record s { slots = s.slots - 1 }) (ground (arith, b.held))
        b.counted)
  | inr busy ↦ rw busy b
]

dispatch-IsBalanced :
    (name : String) (known accepted : Bool) (s : Server)
    → IsBalanced s
    → IsBalanced (dispatch name known accepted s).0
unfolding dispatch
dispatch-IsBalanced name true accepted s b = acquire-IsBalanced name accepted s b
dispatch-IsBalanced name false accepted s b = b

after_limit-IsBalanced :
    (v : Verdict) (next : Server × Started) (s : Server)
    → IsBalanced next.0
    → IsBalanced s
    → IsBalanced (after_limit v next s).0
after_limit-IsBalanced allowed next s b c = b
after_limit-IsBalanced (limited tool retry rpm) next s b c = c

pub start_call-IsBalanced :
    (tps : ℕ) (c : Call) (known accepted : Bool) (s : Server)
    → IsBalanced s
    → IsBalanced (start_call tps c known accepted s).0
unfolding start_call
start_call-IsBalanced tps c known accepted s b = elim (Bool-cases (ltb 0 s.limiter.rpm)) [
  | inr off ↦ rw off (dispatch-IsBalanced c.tool known accepted s b)
  | inl on ↦
      let s' = record s { limiter = (check tps c s.limiter).0 } in
      let b' : IsBalanced s' = record { held = b.held; counted = b.counted } in
      rw on (
        after_limit-IsBalanced (check tps c s.limiter).1 (dispatch c.tool known accepted s') s'
          (dispatch-IsBalanced c.tool known accepted s' b') b')
]

-- The release in the callback of a running call never fails, and keeps the balance.
pub finish_call-IsBalanced :
    (id : ℕ) (s : Server)
    → IsBalanced s
    → is_running id s.running ≡ true
    → (t : Server) × (finish_call id s ≡ some t)
      × IsBalanced t
      × (length s.running ≡ suc (length t.running))
      × (t.running ≡ without id s.running)
unfolding finish_call
finish_call-IsBalanced id s b h =
    let e = length-without id s.running h in
    (
      record s { slots = s.slots + 1; in_flight = s.in_flight - 1; running = without id s.running },
      ground (arith, e, b.held, b.counted),
      record { held = omega (arith, e, b.held); counted = omega (arith, e, b.counted) },
      e,
      refl,
    )

pub expire-IsBalanced : (id : ℕ) (s : Server) → IsBalanced s → IsBalanced (expire_call id s)
unfolding expire_call
expire-IsBalanced id s b = record {
  held = omega (arith, length-forsake id s.running, b.held);
  counted = omega (arith, length-forsake id s.running, b.counted);
}

max-acquire :
    (name : String) (accepted : Bool) (s : Server)
    → (acquire_and_submit name accepted s).0.max_concurrent_tools ≡ s.max_concurrent_tools
unfolding acquire_and_submit
max-acquire name accepted s = ground arith

max-dispatch :
    (name : String) (known accepted : Bool) (s : Server)
    → (dispatch name known accepted s).0.max_concurrent_tools ≡ s.max_concurrent_tools
unfolding dispatch
max-dispatch name true accepted s = max-acquire name accepted s
max-dispatch name false accepted s = refl

max-after_limit :
    (v : Verdict) (next : Server × Started) (s : Server) (n : ℕ)
    → next.0.max_concurrent_tools ≡ n
    → s.max_concurrent_tools ≡ n
    → (after_limit v next s).0.max_concurrent_tools ≡ n
max-after_limit allowed next s n h k = h
max-after_limit (limited tool retry rpm) next s n h k = k

pub max-start_call :
    (tps : ℕ) (c : Call) (known accepted : Bool) (s : Server)
    → (start_call tps c known accepted s).0.max_concurrent_tools ≡ s.max_concurrent_tools
unfolding start_call
max-start_call tps c known accepted s = elim (Bool-cases (ltb 0 s.limiter.rpm)) [
  | inr off ↦ rw off (max-dispatch c.tool known accepted s)
  | inl on ↦
      let s' = record s { limiter = (check tps c s.limiter).0 } in
      rw on (
        max-after_limit (check tps c s.limiter).1 (dispatch c.tool known accepted s') s'
          s.max_concurrent_tools (max-dispatch c.tool known accepted s') refl)
]

pub max-finish_call :
    (id : ℕ) (s t : Server)
    → finish_call id s ≡ some t
    → t.max_concurrent_tools ≡ s.max_concurrent_tools
unfolding finish_call
max-finish_call id s t e = ground arith
