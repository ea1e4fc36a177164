-- ===== src/Logs/Merge.antt =====
-- `_fetch_logs_multi` of logs.py. What `_fetch_logs_single` gives for a pod is a parameter; so is the
-- order in which the pool runs its workers.
use k8s_mcp.Base.{
  ℕ, String, ◌≡◌, refl, ap, ◌∙◌, true, Option, none, some, List, [], ◌∷◌, ◌++◌, map, length, elem,
  lookup, insert, lookup-insert, All, ltb, is_empty, if◌then◌else◌, str_eq, eq_iff, eq_refl,
  Bool-cases, Option-cases, inl, inr, arith,
}
use Prim.Native.String.{◌++◌ as ◌&◌}
use mathlib.Core.Path.{subst}
use k8s_mcp.Logs.{Record}

-- What one fetch gives: records, a `LookupError` or `ValueError` with its text, or another exception.
pub data Fetched : Type 0 where
  fetched : List Record → Fetched
  skipped : String → Fetched
  failed : ℕ → Fetched

pub data Collected : Type 0 where
  records : List Record → Collected
  raised : ℕ → Collected

abbrev pub prepend : List Record → Collected → Collected
prepend rs (records more) = records (rs ++ more)
prepend rs (raised e) = raised e

-- The dictionaries that the workers fill.
pub record Results : Type 0 where
  pub per_pod : List (String × List Record)
  pub errors : List (String × String)

module _ (fetch : String → Fetched) (container : String) where
  -- The record that stands for a pod whose log could not be read.
  abbrev pub error_record : String → String → Record
  error_record pn text = record {
    pod = pn;
    container = container;
    time = "";
    line = "[error: " & (text & "]");
  }

  -- The loop for few pods.
  unfoldable pub serial : List String → Collected
  serial [] = records []
  serial (pn ∷ pod_names) = elim (fetch pn) [
    | failed e ↦ raised e
    | fetched rs ↦ prepend rs (serial pod_names)
    | skipped text ↦ prepend (error_record pn text ∷ []) (serial pod_names)
  ]

  -- `_worker`
  unfoldable pub worker : String → Results → Results
  worker pn s = elim (fetch pn) [
    | failed e ↦ s
    | fetched rs ↦ record { per_pod = insert pn rs s.per_pod; errors = s.errors }
    | skipped text ↦ record { per_pod = s.per_pod; errors = insert pn text s.errors }
  ]

  unfoldable pub run_workers : List String → Results → Results
  run_workers [] s = s
  run_workers (pn ∷ order) s = run_workers order (worker pn s)

  -- `list(ex.map(...))` raises what the first failed worker, in the order of the names, raised.
  unfoldable pub first_failure : List String → Option ℕ
  first_failure [] = none
  first_failure (pn ∷ pod_names) =
      let later = first_failure pod_names in
      elim (fetch pn) [ failed e ↦ some e | fetched rs ↦ later | skipped text ↦ later ]

  -- The records of one pod in the merge.
  unfoldable pub merged : Results → String → List Record
  merged s pn = elim (lookup pn s.errors) [
    | some text ↦ error_record pn text ∷ []
    | none ↦ elim (lookup pn s.per_pod) [ some rs ↦ rs | none ↦ [] ]
  ]

  unfoldable pub merge : Results → List String → List Record
  merge s [] = []
  merge s (pn ∷ pod_names) = merged s pn ++ merge s pod_names

  unfoldable pub parallel : List String → List String → Collected
  parallel order pod_names = elim (first_failure pod_names) [
    | some e ↦ raised e
    | none ↦ records (
        merge (run_workers order (record { per_pod = map (λ pn. (pn, [])) pod_names; errors = [] }))
          pod_names)
  ]

  -- Below `_MULTI_PARALLEL_THRESHOLD` pods the loop, else the pool.
  unfoldable pub fetch_logs_multi : List String → List String → Collected
  fetch_logs_multi order pod_names =
      if is_empty pod_names
      then records []
      else if ltb (length pod_names) 5
      then serial pod_names
      else parallel order pod_names

  -- What the dictionaries hold for a pod whose worker is done.
  pub data Settled (pn : String) (s : Results) : Type 0 where
    read_log :
        (rs : List Record)
        → fetch pn ≡ fetched rs
        → lookup pn s.per_pod ≡ some rs
        → lookup pn s.errors ≡ none
        → Settled pn s
    wrote_error :
        (text : String) → fetch pn ≡ skipped text → lookup pn s.errors ≡ some text → Settled pn s
    broke : (e : ℕ) → fetch pn ≡ failed e → Settled pn s

  -- What they hold before: no error that the pod's own worker does not write.
  abbrev Untouched : String → Results → Type 0
  Untouched pn s = (rs : List Record) → fetch pn ≡ fetched rs → lookup pn s.errors ≡ none

  worker-Untouched : (pn q : String) (s : Results) → Untouched pn s → Untouched pn (worker q s)
  unfolding worker
  worker-Untouched pn q s h rs f =
      elim (fetch q) as (λ o. fetch q ≡ o → lookup pn (worker q s).errors ≡ none) [
        | failed e ↦ λ g. rw (worker, g) (h rs f)
        | fetched other ↦ λ g. rw (worker, g) (h rs f)
        | skipped text ↦
            λ g. ground (arith, worker, g, f, lookup-insert q pn text s.errors, eq_iff q pn, h rs f)
      ]
        refl

  own_worker : (pn : String) (s : Results) → Untouched pn s → Settled pn (worker pn s)
  unfolding worker
  own_worker pn s h =
      elim (fetch pn) as (λ o. fetch pn ≡ o → Settled pn (worker pn s)) [
        | failed e ↦ λ g. broke e g
        | fetched rs ↦ λ g.
            read_log rs g (ground (arith, worker, g, lookup-insert pn pn rs s.per_pod, eq_refl pn))
              (rw (worker, g) (h rs g))
        | skipped text ↦ λ g.
            wrote_error text g
              (ground (arith, worker, g, lookup-insert pn pn text s.errors, eq_refl pn))
      ]
        refl

  module _ (pn q : String) (s : Results) where
    still_read :
        (rs : List Record)
        → fetch pn ≡ fetched rs
        → lookup pn s.per_pod ≡ some rs
        → lookup pn (worker q s).per_pod ≡ some rs
    unfolding worker
    still_read rs f l =
        elim (fetch q) as (λ o. fetch q ≡ o → lookup pn (worker q s).per_pod ≡ some rs) [
          | failed e ↦ λ g. rw (worker, g) l
          | skipped text ↦ λ g. rw (worker, g) l
          | fetched other ↦
              λ g. ground (arith, worker, g, f, l, lookup-insert q pn other s.per_pod, eq_iff q pn)
        ]
          refl

    still_error :
        (text : String)
        → fetch pn ≡ skipped text
        → lookup pn s.errors ≡ some text
        → lookup pn (worker q s).errors ≡ some text
    unfolding worker
    still_error text f l =
        elim (fetch q) as (λ o. fetch q ≡ o → lookup pn (worker q s).errors ≡ some text) [
          | failed e ↦ λ g. rw (worker, g) l
          | fetched rs ↦ λ g. rw (worker, g) l
          | skipped other ↦
              λ g. ground (arith, worker, g, f, l, lookup-insert q pn other s.errors, eq_iff q pn)
        ]
          refl

    worker-Settled : Settled pn s → Settled pn (worker q s)
    worker-Settled (read_log rs f l none_yet) =
        read_log rs f (still_read rs f l) (worker-Untouched pn q s (λ rs' f'. none_yet) rs f)
    worker-Settled (wrote_error text f l) = wrote_error text f (still_error text f l)
    worker-Settled (broke e f) = broke e f

  run_workers-Settled :
      (pn : String) (order : List String) (s : Results)
      → Settled pn s
      → Settled pn (run_workers order s)
  unfolding run_workers
  run_workers-Settled pn [] s h = h
  run_workers-Settled pn (q ∷ order) s h =
      run_workers-Settled pn order (worker q s) (worker-Settled pn q s h)

  run_workers_settle :
      (pn : String) (order : List String) (s : Results)
      → elem pn order ≡ true
      → Untouched pn s
      → Settled pn (run_workers order s)
  unfolding run_workers
  run_workers_settle pn [] s listed h = cc
  run_workers_settle pn (q ∷ order) s listed h = elim (Bool-cases (str_eq pn q)) [
    | inl same ↦
        run_workers-Settled pn order (worker q s)
          (subst (λ x. Settled pn (worker x s)) ((eq_iff pn q).0 same) (own_worker pn s h))
    | inr other ↦
        run_workers_settle pn order (worker q s) (ground (arith, other)) (worker-Untouched pn q s h)
  ]

  abbrev outcome : Option ℕ → List Record → Collected
  outcome (some e) rs = raised e
  outcome none rs = records rs

  prepend-outcome :
      (rs more : List Record) (o : Option ℕ) → prepend rs (outcome o more) ≡ outcome o (rs ++ more)
  prepend-outcome rs more (some e) = refl
  prepend-outcome rs more none = refl

  serial-merge :
      (pod_names : List String) (s : Results)
      → All (λ pn. Settled pn s) pod_names
      → serial pod_names ≡ outcome (first_failure pod_names) (merge s pod_names)
  unfolding serial first_failure merge merged
  serial-merge [] s settled = refl
  serial-merge (pn ∷ pod_names) s (read_log rs f l n, settled) =
      let m : merged s pn ≡ rs = rw (merged, n, l) refl in
      let rest = serial-merge pod_names s settled in
      rw (serial, first_failure, merge, f, m)
        (ap (prepend rs) rest ∙ prepend-outcome rs (merge s pod_names) (first_failure pod_names))
  serial-merge (pn ∷ pod_names) s (wrote_error text f l, settled) =
      let m : merged s pn ≡ error_record pn text ∷ [] = rw (merged, l) refl in
      let rest = serial-merge pod_names s settled in
      rw (serial, first_failure, merge, f, m)
        (ap (prepend (error_record pn text ∷ [])) rest
          ∙ prepend-outcome (error_record pn text ∷ []) (merge s pod_names)
              (first_failure pod_names))
  serial-merge (pn ∷ pod_names) s (broke e f, settled) = rw (serial, first_failure, f) refl

  each_is_done :
      (order pod_names : List String) (s : Results)
      → s.errors ≡ []
      → All (λ pn. elem pn order ≡ true) pod_names
      → All (λ pn. Settled pn (run_workers order s)) pod_names
  each_is_done order [] s clean listed = listed
  each_is_done order (pn ∷ pod_names) s clean (this, listed) = (
    run_workers_settle pn order s this (λ rs f. rw clean refl),
    each_is_done order pod_names s clean listed,
  )

  parallel-eq-serial :
      (order pod_names : List String)
      → All (λ pn. elem pn order ≡ true) pod_names
      → parallel order pod_names ≡ serial pod_names
  unfolding parallel
  parallel-eq-serial order pod_names listed =
      let s : Results = record { per_pod = map (λ pn. (pn, [])) pod_names; errors = [] } in
      let same =
        serial-merge pod_names (run_workers order s) (each_is_done order pod_names s refl listed) in
      elim (Option-cases (first_failure pod_names)) [
        | inl e ↦ rw (same, parallel, e) refl
        | inr (x, e) ↦ rw (same, parallel, e) refl
      ]

  -- In whatever order the workers of the pool run, provided that each pod's worker does, the records
  -- of several pods are those of the loop that reads one after the other, with the same error in
  -- their place if a read fails.
  pub fetch_logs_multi-eq-serial :
      (order pod_names : List String)
      → All (λ pn. elem pn order ≡ true) pod_names
      → fetch_logs_multi order pod_names ≡ serial pod_names
  unfolding fetch_logs_multi
  fetch_logs_multi-eq-serial order [] listed = unfold serial in refl
  fetch_logs_multi-eq-serial order (pn ∷ pod_names) listed =
      rw (parallel-eq-serial order (pn ∷ pod_names) listed) (ground arith)
