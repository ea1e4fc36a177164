-- ===== src/Workload/Patches/Batches.antt =====
-- What the tools that change one or more workloads send, and when they stop.
use mathlib.Core.List.{append_assoc, append-nil}
use k8s_mcp.Base.{
  ℕ, String, ◌≡◌, refl, ap, ◌∙◌, Bool, true, false, Option, none, some, Option-cases, Bool-cases,
  inl, inr, List, [], ◌∷◌, ◌++◌, map, arith,
}
use k8s_mcp.Base.Json.{Json}
use k8s_mcp.Config.{Settings}
use k8s_mcp.Config.Policy.{MayWrite, ns_allowed_iff}
use k8s_mcp.ConfigMap.{may_write}
use k8s_mcp.Workload.Patches.{
  Patch, done, permission_error, value_error, Outcome, refused, Names, names_of, failure, run_names,
  supported, patch_for, patch_workloads, scale_body, restart_body, image_body, scale_workload,
  restart_workload, set_image,
}

pub may_write_iff :
    (settings : Settings) (namespace : String)
    → (may_write settings namespace ≡ true → MayWrite settings (some namespace))
      × (MayWrite settings (some namespace) → may_write settings namespace ≡ true)
may_write_iff settings namespace =
    let rule = ns_allowed_iff settings (some namespace) in
    (λ h. rule.0 (ground (arith, h)), λ m. ground (arith, rule.1 m, m.writable))

module _ (lower : String → String) (refuses : List Patch → Patch → Option ℕ) where
  -- The patches of some names are taken one after the other, after those of other names.
  abbrev pub Accepted : (String → Patch) → List String → List String → Type 0
  Accepted patch_of before [] = Unit {0}
  Accepted patch_of before (n ∷ ns) =
      (refuses (map patch_of before) (patch_of n) ≡ none) × Accepted patch_of (before ++ n ∷ []) ns

  -- All names are patched in order, or the names up to the first whose patch is refused.
  pub data Batched (patch_of : String → Patch) (before ns : List String) (o : Outcome)
      : Type 0 where
    all_patched :
        Accepted patch_of before ns
        → o ≡ record { sent = map patch_of (before ++ ns); result = done (before ++ ns) }
        → Batched patch_of before ns o
    stopped :
        (init : List String) (n : String) (later : List String) (status : ℕ)
        → ns ≡ init ++ n ∷ later
        → Accepted patch_of before init
        → refuses (map patch_of (before ++ init)) (patch_of n) ≡ some status
        → o ≡ record { sent = map patch_of ((before ++ init) ++ n ∷ []); result = failure status }
        → Batched patch_of before ns o

  map-snoc :
      (f : String → Patch) (xs : List String) (x : String)
      → map f (xs ++ x ∷ []) ≡ map f xs ++ f x ∷ []
  map-snoc f [] x = refl
  map-snoc f (y ∷ ys) x = ap (λ zs. f y ∷ zs) (map-snoc f ys x)

  Batched-later :
      (patch_of : String → Patch) (before : List String) (n : String) (ns : List String)
      (o : Outcome)
      → refuses (map patch_of before) (patch_of n) ≡ none
      → Batched patch_of (before ++ n ∷ []) ns o
      → Batched patch_of before (n ∷ ns) o
  Batched-later patch_of before n ns o e (all_patched a same) =
      all_patched (e, a) (same ∙ rw (append_assoc before (n ∷ []) ns) refl)
  Batched-later patch_of before n ns o e (stopped init m later status split a r same) =
      stopped (n ∷ init) m later status (ap (λ ms. n ∷ ms) split) (e, a)
        (rw (← append_assoc before (n ∷ []) init) r)
        (same ∙ rw (append_assoc before (n ∷ []) init) refl)

  run_names-Batched :
      (patch_of : String → Patch) (before ns : List String)
      → Batched patch_of before ns
          (run_names lower refuses patch_of (map patch_of before) before ns)
  unfolding run_names
  run_names-Batched patch_of before [] = all_patched tt (rw (append-nil before) refl)
  run_names-Batched patch_of before (n ∷ ns) =
      elim (Option-cases (refuses (map patch_of before) (patch_of n))) [
        | inl e ↦
            rw (run_names, e)
              (rw (← map-snoc patch_of before n) (
                Batched-later patch_of before n ns _ e
                  (run_names-Batched patch_of (before ++ n ∷ []) ns)))
        | inr (status, e) ↦
            rw (run_names, e)
              (stopped [] n ns status refl tt (rw (append-nil before) e)
                (rw (append-nil before, map-snoc patch_of before n) refl))
      ]

  -- What a call of one of the tools did.
  pub data Written (settings : Settings) (kind namespace : String) (patch_of : String → Patch)
      (ns : List String) (o : Outcome) : Type 0 where
    forbidden :
        ¬ MayWrite settings (some namespace)
        → o ≡ refused permission_error
        → Written settings kind namespace patch_of ns o
    unsupported :
        MayWrite settings (some namespace)
        → supported lower refuses kind ≡ false
        → o ≡ refused value_error
        → Written settings kind namespace patch_of ns o
    batch :
        MayWrite settings (some namespace)
        → supported lower refuses kind ≡ true
        → Batched patch_of [] ns o
        → Written settings kind namespace patch_of ns o

  pub patch_workloads-Written :
      (settings : Settings) (kind : String) (name : Names) (namespace : String) (of_scale : Bool)
      (body : Json)
      → Written settings kind namespace
          (patch_for lower refuses kind namespace of_scale body)
          (names_of name)
          (patch_workloads lower refuses settings kind name namespace of_scale body)
  unfolding patch_workloads
  patch_workloads-Written settings kind name namespace of_scale body =
      elim (Bool-cases (may_write settings namespace)) [
        | inr e ↦
            forbidden (λ m. cc (e, (may_write_iff settings namespace).1 m))
              (rw (patch_workloads, e) refl)
        | inl e ↦ elim (Bool-cases (supported lower refuses kind)) [
          | inr f ↦
              unsupported ((may_write_iff settings namespace).0 e) f
                (rw (patch_workloads, e, f) refl)
          | inl f ↦ batch ((may_write_iff settings namespace).0 e) f (
              rw (patch_workloads, e, f)
                (run_names-Batched (patch_for lower refuses kind namespace of_scale body) []
                  (names_of name)))
        ]
      ]

  -- Scaling, restarting and changing the image of workloads is a PermissionError without a request where the
  -- policy does not let a write to the namespace through, a ValueError without a request for another kind than the
  -- two, and else patches the named workloads in their order, each in the namespace and with the body of the tool,
  -- up to and with the first that the API refuses, whose status decides the error.
  pub workload_writes :
      (settings : Settings) (kind : String) (name : Names) (namespace now container image : String)
      (replicas : Bool × ℕ)
      → Written settings kind namespace
          (patch_for lower refuses kind namespace true (scale_body replicas))
          (names_of name)
          (scale_workload lower refuses settings kind name namespace replicas)
        × Written settings kind namespace
            (patch_for lower refuses kind namespace false (restart_body now))
            (names_of name)
            (restart_workload lower refuses settings now kind name namespace)
        × Written settings kind namespace
            (patch_for lower refuses kind namespace false (image_body container image))
            (names_of name)
            (set_image lower refuses settings kind name namespace container image)
  unfolding scale_workload restart_workload set_image
  workload_writes settings kind name namespace now container image replicas = (
    patch_workloads-Written settings kind name namespace true (scale_body replicas),
    patch_workloads-Written settings kind name namespace false (restart_body now),
    patch_workloads-Written settings kind name namespace false (image_body container image),
  )
