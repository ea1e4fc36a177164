-- ===== src/Safety/Errors/Secrecy.antt =====
-- What a sanitized error can show of the exception.
use k8s_mcp.Base.{ℕ, String, ◌≡◌, refl, none, List, [], ◌∷◌, eq_iff, arith, Option-cases, inl, inr}
use k8s_mcp.Base.Text.{empty}
use k8s_mcp.Safety.Errors.{
  Exn, api, other, Entry, api_error_table, table_get, or_zero, or_empty, describe,
  safe_apiserver_error,
}

-- What the message may depend on: the HTTP status, or the exception's class.
pub data Public : Type 0 where
  http : ℕ → Public
  internal : String → Public

abbrev pub public_part : Exn → Public
public_part (api e) = http (or_zero e.status)
public_part (other cls args) = internal cls

abbrev AllBlank : List Entry → Type 0
AllBlank [] = Unit
AllBlank (e ∷ es) = (e.reason ≡ empty) × AllBlank es

-- An entry for any reason would be found under the blank one.
table_get-eq-none :
    (status : ℕ) (reason : String) (es : List Entry)
    → AllBlank es
    → table_get status empty es ≡ none
    → table_get status reason es ≡ none
unfolding table_get
table_get-eq-none status reason [] blank h = refl
table_get-eq-none status reason (e ∷ es) (b, blank) h = ground (
  arith,
  b,
  h,
  eq_iff e.reason reason,
  eq_iff e.reason empty,
  table_get-eq-none status reason es blank,
)

table-AllBlank : AllBlank api_error_table
table-AllBlank = (refl, (refl, (refl, (refl, (refl, (refl, (refl, (refl, (refl, tt)))))))))

describe_reason : (status : ℕ) (r₁ r₂ : String) → describe status r₁ ≡ describe status r₂
unfolding describe
describe_reason status r₁ r₂ = elim (Option-cases (table_get status empty api_error_table)) [
  | inr (found, e) ↦ cc e
  | inl e ↦ ground (
    arith,
    e,
    table_get-eq-none status r₁ api_error_table table-AllBlank e,
    table_get-eq-none status r₂ api_error_table table-AllBlank e,
  )
]

-- Two exceptions that agree on their public part, the HTTP status of the client's exceptions or the
-- class of any other, give the same message, hint and status for the same operation, whatever
-- their reasons, bodies and arguments.
pub safe_apiserver_error_secrecy :
    (e₁ e₂ : Exn) (op kind name namespace : String)
    → public_part e₁ ≡ public_part e₂
    → ((safe_apiserver_error e₁ op kind name namespace).message
        ≡ (safe_apiserver_error e₂ op kind name namespace).message)
      × ((safe_apiserver_error e₁ op kind name namespace).hint
          ≡ (safe_apiserver_error e₂ op kind name namespace).hint)
      × ((safe_apiserver_error e₁ op kind name namespace).status
          ≡ (safe_apiserver_error e₂ op kind name namespace).status)
unfolding safe_apiserver_error
safe_apiserver_error_secrecy (api a) (api b) op kind name namespace h =
    let e : or_zero a.status ≡ or_zero b.status = cc in
    let same = describe_reason (or_zero b.status) (or_empty a.reason) (or_empty b.reason) in
    (rw (e, same), rw (e, same), e)
safe_apiserver_error_secrecy (other c x) (other d y) op kind name namespace h =
    let e : c ≡ d = cc in (rw e, refl, refl)
safe_apiserver_error_secrecy (api a) (other d y) op kind name namespace h = cc
safe_apiserver_error_secrecy (other c x) (api b) op kind name namespace h = cc
