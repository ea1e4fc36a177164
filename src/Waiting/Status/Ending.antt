-- ===== src/Waiting/Status/Ending.antt =====
-- How `rollout_status` ends, and that it does.
use Prim.Native.String.{◌++◌}
use k8s_mcp.Base.{
  ℕ, String, ◌≡◌, refl, ap, ◌∙◌, Bool, true, false, ◌&&◌, ◌||◌, leb, ◌==◌, str_eq, Bool-cases,
  Option-cases, inl, inr, none, some, suc, ◌+◌, ◌*◌, ◌/◌, ◌⊎◌, ◌≤◌, ◌<◌, arith,
}
use k8s_mcp.Base.Text.Search.{starts_with, count_chars}
use k8s_mcp.Base.Text.Laws.{starts_with-append}
use k8s_mcp.Waiting.Poll.{finish, again, Answered, settled, late, Pending, poll-Answered}
use k8s_mcp.Waiting.Status.{
  Condition, Live, Read, item, api_exception, or_zero, or_text, progressing_of, is_complete,
  progress_text, live_text, status_once, is_done, Ended, snapshot, timed_out, api_error, round,
  kind_of, ask, capitalized, rollout_status,
}

short_enough :
    (s : String)
    → leb 16 (count_chars s) ≡ true
    → leb (count_chars "Rollout complete") (count_chars s) ≡ true
unfolding count_chars
short_enough s h = h

shorter :
    (s : String) → leb 16 (count_chars s) ≡ true → leb (count_chars "Error:") (count_chars s) ≡ true
unfolding count_chars
shorter s h = ground arith

short :
    (s : String)
    → leb 16 (count_chars s) ≡ true
    → leb (count_chars "Rollout stalled") (count_chars s) ≡ true
unfolding count_chars
short s h = ground arith

is_done-append : (s t : String) → leb 16 (count_chars s) ≡ true → is_done (s ++ t) ≡ is_done s
unfolding is_done
is_done-append s t h =
    rw
      (
        starts_with-append "Rollout complete" s t (short_enough s h),
        starts_with-append "Error:" s t (shorter s h),
        starts_with-append "Rollout stalled" s t (short s h),
      )
      refl

-- Whether the rollout came to an end, in the fields of the object.
abbrev pub is_over : Live → Bool
is_over o =
    (or_zero o.generation == or_zero o.observed_generation) && elim (progressing_of o.conditions) [
      | none ↦ false
      | some c ↦ is_complete c || str_eq c.status "False"
    ]

is_done-progress_text :
    (c : Condition) → is_done (progress_text c) ≡ (is_complete c || str_eq c.status "False")
unfolding progress_text
is_done-progress_text c = elim (Bool-cases (is_complete c)) [
  | inl e ↦ rw e (
      is_done-append "Rollout complete: " (or_text "ok" c.message) (unfold count_chars in refl)
      ∙ unfold is_done starts_with in refl)
  | inr e ↦ elim (Bool-cases (str_eq c.status "False")) [
    | inl f ↦
        rw (e, f)
          (is_done-append "Rollout stalled: " _ (unfold count_chars in refl)
            ∙ unfold is_done starts_with in refl)
    | inr f ↦
        rw (e, f)
          (is_done-append "Rollout in progress: " _ (unfold count_chars in refl)
            ∙ unfold is_done starts_with in refl)
  ]
]

-- The test of the message sees the end of a rollout exactly if the object shows it, whatever the texts in
-- its conditions are.
pub is_done-live_text : (o : Live) → is_done (live_text o) ≡ is_over o
unfolding live_text
is_done-live_text o = elim (Bool-cases (or_zero o.generation == or_zero o.observed_generation)) [
  | inl e ↦ elim (Option-cases (progressing_of o.conditions)) [
    | inl f ↦
        rw (e, f)
          (is_done-append "No Progressing condition found (current observed gen " _
              (unfold count_chars in refl)
            ∙ unfold is_done starts_with in refl)
    | inr (c, f) ↦ rw (e, f) (is_done-progress_text c)
  ]
  | inr e ↦ rw e (
      is_done-append "Waiting for rollout to start: spec gen " _ (unfold count_chars in refl)
      ∙ unfold is_done starts_with in refl)
]

abbrev pub is_last : Read → Bool
is_last (item o) = is_over o
is_last (api_exception status) = true

is_done-error : (t : String) → is_done ("Error: " ++ t) ≡ true
unfolding is_done
is_done-error t =
    let found : starts_with "Error:" ("Error: " ++ t) ≡ true =
      starts_with-append "Error:" "Error: " t (unfold count_chars in refl)
      ∙ unfold starts_with in refl in
    ground (arith, found)

-- A watched round asks again exactly where the object does not show the end.
round_over :
    (is_deployment : Bool) (name namespace : String) (r : Read)
    → ((e : Ended) × (round true (status_once is_deployment name namespace r) ≡ finish e)
        × (is_last r ≡ true))
      ⊎ ((msg : String) × (round true (status_once is_deployment name namespace r)
            ≡ again (timed_out msg))
          × (is_last r ≡ false))
unfolding round status_once
round_over is_deployment name namespace (item o) = elim (Bool-cases (is_over o)) [
  | inl e ↦ inl (snapshot (live_text o), rw (is_done-live_text o, e) refl, e)
  | inr e ↦ inr (live_text o, rw (is_done-live_text o, e) refl, e)
]
round_over is_deployment name namespace (api_exception status) = elim (Bool-cases (status == 404)) [
  | inl e ↦ inl (
    snapshot (
        "Error: "
        ++ (capitalized is_deployment
            ++ (" '" ++ (namespace ++ ("/" ++ (name ++ "' not found")))))),
    rw
        (
          e,
          is_done-error (
              capitalized is_deployment
              ++ (" '" ++ (namespace ++ ("/" ++ (name ++ "' not found"))))),
        )
        refl,
    refl,
  )
  | inr e ↦ inl (api_error status, rw e refl, refl)
]

module _ (lower : String → String) (read : Bool → String → String → ℕ → Read) (clock : ℕ → ℕ)
    (start : ℕ) where
  -- A watch of a rollout that ended at a round: no earlier round showed the end or was past the
  -- deadline, and this one shows the end or is past it.
  pub record Watched (r : ℕ → Read) (deadline : ℕ) (last : ℕ) (e : Ended) : Type 0 where
    pub before : (j : ℕ) → j < last → (is_last (r j) ≡ false) × (clock j ≤ deadline)
    pub ends :
        (is_last (r last) ≡ true)
        ⊎ ((is_last (r last) ≡ false)
            × (deadline < clock last)
            × ((msg : String) × (e ≡ timed_out msg)))

  earlier :
      (is_deployment : Bool) (name namespace : String) (deadline last : ℕ)
      → ((j : ℕ)
          → 0 ≤ j
          → j < last
          → Pending (ask lower read clock is_deployment name namespace true) clock deadline j)
      → (j : ℕ) → j < last
      → (is_last (read is_deployment name namespace j) ≡ false) × (clock j ≤ deadline)
  earlier is_deployment name namespace deadline last before j lt =
      let (e, a, soon) = before j (omega arith) lt in
      elim (round_over is_deployment name namespace (read is_deployment name namespace j)) [
        | inl (f, finished, over) ↦ cc (a, finished)
        | inr (msg, asked, open_still) ↦ (open_still, soon)
      ]

  watched :
      (is_deployment : Bool) (name namespace : String) (deadline last : ℕ) (e : Ended)
      → Answered (ask lower read clock is_deployment name namespace true) clock deadline 0 last e
      → Watched (read is_deployment name namespace) deadline last e
  watched is_deployment name namespace deadline last e (settled a before) =
      elim (round_over is_deployment name namespace (read is_deployment name namespace last)) [
        | inl (f, finished, over) ↦ record {
          before = earlier is_deployment name namespace deadline last before;
          ends = inl over;
        }
        | inr (msg, asked, open_still) ↦ cc (a, asked)
      ]
  watched is_deployment name namespace deadline last e (late a past before) =
      elim (round_over is_deployment name namespace (read is_deployment name namespace last)) [
        | inl (f, finished, over) ↦ cc (a, finished)
        | inr (msg, asked, open_still) ↦ record {
          before = earlier is_deployment name namespace deadline last before;
          ends = inr (open_still, past, (msg, cc (a, asked)));
        }
      ]

  -- If each sleep takes at least two seconds and the first round ends after the start, then a watch of a
  -- deployment or stateful set answers, after at most two rounds more than half the seconds of the
  -- timeout, in the first round in which the object shows the end of the rollout, an exception is
  -- raised, or the deadline is past.
  pub rollout_status_lem :
      (kind name namespace : String) (is_deployment : Bool) (timeout_seconds : ℕ)
      → kind_of (lower kind) ≡ some is_deployment
      → ((j : ℕ) → clock j + 2000 ≤ clock (j + 1))
      → start ≤ clock 0
      → (last : ℕ) × (e : Ended) × (rollout_status lower read clock
            (suc (timeout_seconds / 2 + 1))
            start
            kind
            name
            namespace
            timeout_seconds
            true
          ≡ some e)
        × (last ≤ timeout_seconds / 2 + 1)
        × Watched (read is_deployment name namespace) (start + timeout_seconds * 1000) last e
  unfolding rollout_status round
  rollout_status_lem kind name namespace is_deployment timeout_seconds known slow first =
      let (last, e, run, answered, bound) =
        poll-Answered (ask lower read clock is_deployment name namespace true) clock
          (start + timeout_seconds * 1000) 2000 (timeout_seconds / 2 + 1) 0 slow (omega arith) in
      (
        last,
        e,
        rw (rollout_status, known, run) refl,
        omega arith,
        watched is_deployment name namespace _ last e answered,
      )

  -- A watch of an object whose conditions never include one of the type Progressing ends with the note
  -- that time was up, if the sleeps and the first round take their time.
  pub no_progressing_times_out :
      (kind name namespace : String) (is_deployment : Bool) (timeout_seconds : ℕ)
      → kind_of (lower kind) ≡ some is_deployment
      → ((j : ℕ) → clock j + 2000 ≤ clock (j + 1))
      → start ≤ clock 0
      → ((j : ℕ)
          → (o : Live) × (read is_deployment name namespace j ≡ item o)
            × (progressing_of o.conditions ≡ none))
      → (msg : String) × (rollout_status lower read clock
            (suc (timeout_seconds / 2 + 1))
            start
            kind
            name
            namespace
            timeout_seconds
            true
          ≡ some (timed_out msg))
  no_progressing_times_out kind name namespace is_deployment timeout_seconds known slow first
        none_there =
      let (last, e, run, _, w) =
        rollout_status_lem kind name namespace is_deployment timeout_seconds known slow first in
      let (o, r, p) = none_there last in
      let never : is_last (read is_deployment name namespace last) ≡ false =
        rw (r, p) (ground arith) in
      elim w.ends [
        | inl over ↦ cc (over, never)
        | inr (_, _, (msg, same)) ↦ (msg, run ∙ ap (λ u. some u) same)
      ]
