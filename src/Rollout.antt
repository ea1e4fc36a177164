-- ===== src/Rollout.antt =====
-- `rollout_undo` of src/k8s_mcp/tools/rollout.py. The API, `str.lower` and `int` on a text are
-- parameters.
pub mod Target
mod Tests
use k8s_mcp.Base.{
  ℕ, String, ◌≡◌, Bool, true, false, ◌&&◌, not, Option, none, some, List, [], ◌∷◌, str_eq, ◌==◌,
  leb, ltb, if◌then◌else◌,
}
use k8s_mcp.Base.Text.{empty, strip}
use k8s_mcp.Base.Text.Search.{before}
use k8s_mcp.Config.{Settings, ns_allowed}
use k8s_mcp.Nodes.Taints.{Reply, answer, api_exception}

-- A controller revision: its number, and its pod template as a text if it has one.
pub record Revision : Type 0 where
  pub revision : ℕ
  pub template : Option String

-- The requests of the tool. `read` gives `status.current_revision`.
pub record RolloutApi : Type 1 where
  pub Store : Type 0
  pub rollback : Store → String → String → Option ℕ → Reply Store
  pub read : Store → String → String → Reply (Option String)
  pub revisions : Store → String → Reply (List Revision)
  pub patch : Store → String → String → String → Reply Store

pub data Ended (S : Type 0) : Type 0 where
  changed : S → Ended S
  permission_error : Ended S
  value_error : Ended S
  lookup_error : Ended S
  runtime_error : Ended S
  raised : ℕ → Ended S

-- `sorted(xs, key=lambda r: r.revision, reverse=True)`, which keeps the order of equal keys.
unfoldable pub insert_desc : Revision → List Revision → List Revision
insert_desc r [] = r ∷ []
insert_desc r (x ∷ xs) =
    let rest = insert_desc r xs in if leb x.revision r.revision then r ∷ x ∷ xs else x ∷ rest

unfoldable pub sorted_desc : List Revision → List Revision
sorted_desc [] = []
sorted_desc (r ∷ rs) = insert_desc r (sorted_desc rs)

-- `to_revision in (None, r.revision)`
abbrev pub wanted : Option ℕ → ℕ → Bool
wanted none n = true
wanted (some m) n = m == n

abbrev pub qualifies : ℕ → Option ℕ → Revision → Bool
qualifies current to_revision r = ltb r.revision current && wanted to_revision r.revision

-- The loop that looks for `target_rev`, on the sorted list.
unfoldable pub first_target : ℕ → Option ℕ → List Revision → Option Revision
first_target current to_revision [] = none
first_target current to_revision (r ∷ rs) =
    let rest = first_target current to_revision rs in
    if qualifies current to_revision r then some r else rest

-- `(ss.status.current_revision or "").split(",")[0].strip()`
unfoldable pub current_text : Option String → String
current_text none = empty
current_text (some s) = strip (before b',' s)

module _ (parse_int : String → Option ℕ) where
  -- `int(cur_rev or 0)`. A negative number is read as 0: no revision is below either.
  unfoldable pub current_number : String → Option ℕ
  current_number text = if str_eq text empty then some 0 else parse_int text

  module _ (api : RolloutApi) where
    open api use {Store, rollback, read, revisions, patch}

    unfoldable pub patch_to : Store → String → String → Option Revision → Ended Store
    patch_to s name namespace none = lookup_error
    patch_to s name namespace (some r) = elim r.template [
      | none ↦ runtime_error
      | some template ↦
          if str_eq template empty then runtime_error else elim (patch s namespace name template) [
            | answer s' ↦ changed s'
            | api_exception status ↦ raised status
          ]
    ]

    -- `int` is only called when there is a revision to compare with.
    unfoldable pub undo_among :
        Store → String → String → Option ℕ → Option String → List Revision → Ended Store
    undo_among s name namespace to_revision current [] = lookup_error
    undo_among s name namespace to_revision current (r ∷ rs) =
        elim (current_number (current_text current)) [
          | none ↦ value_error
          | some cur ↦
              patch_to s name namespace (first_target cur to_revision (sorted_desc (r ∷ rs)))
        ]

    unfoldable pub undo_stateful_set : Store → String → String → Option ℕ → Ended Store
    undo_stateful_set s name namespace to_revision = elim (read s namespace name) [
      | api_exception status ↦ if status == 404 then lookup_error else raised status
      | answer current ↦ elim (revisions s namespace) [
        | api_exception status ↦ raised status
        | answer revs ↦ undo_among s name namespace to_revision current revs
      ]
    ]

    unfoldable pub undo_deployment : Store → String → String → Option ℕ → Ended Store
    undo_deployment s name namespace to_revision = elim (rollback s namespace name to_revision) [
      | answer s' ↦ changed s'
      | api_exception status ↦ if status == 404 then lookup_error else raised status
    ]

    unfoldable pub rollout_undo :
        Settings → (String → String) → String → String → String → Option ℕ → Store → Ended Store
    rollout_undo settings lower kind name namespace to_revision s =
        if settings.read_only
        then permission_error
        else if not (ns_allowed settings (some namespace))
        then permission_error
        else if str_eq (lower kind) "deployment"
        then undo_deployment s name namespace to_revision
        else if str_eq (lower kind) "statefulset"
        then undo_stateful_set s name namespace to_revision
        else value_error
