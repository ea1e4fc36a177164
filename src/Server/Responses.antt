-- ===== src/Server/Responses.antt =====
-- What a client can learn of an exception, and a timeout that did not happen.
use Prim.Native.String.{◌++◌}
use k8s_mcp.Base.{ℕ, String, ◌≡◌, refl, some}
use k8s_mcp.Base.Text.{empty}
use k8s_mcp.Safety.Errors.{ApiException, api, SafeApiError, safe_apiserver_error, or_zero}
use k8s_mcp.Safety.Errors.Secrecy.{Public, http, internal, safe_apiserver_error_secrecy}
use k8s_mcp.Server.{
  Kind, timeout, safe, permission, apiserver, other, Raised, raised, Link, kind_of, root,
  class_name, Response, tool_timeout_error, safe_error, permission_error, sanitize, handle,
}

-- What the answer may show of an exception: nothing of a timeout, the message of the errors that
-- the tools write for the client, and of any other the HTTP status or the class of its root.
pub data Shown : Type 0 where
  timed_out : Shown
  curated : SafeApiError → Shown
  denied : String → Shown
  root_of : Public → Shown

abbrev pub public_kind : Kind → Public
public_kind (apiserver e) = http (or_zero e.status)
public_kind k = internal (class_name k)

abbrev pub shown : Raised → Shown
shown (raised (timeout m) cause context) = timed_out
shown (raised (safe e) cause context) = curated e
shown (raised (permission m) cause context) = denied m
shown e = root_of (public_kind (kind_of (root e)))

-- The answer without the `reason` field, which is logged and not sent.
abbrev pub visible : Response → Response
visible (safe_error e) = safe_error (record e { reason = empty })
visible r = r

internal_error : String → String → SafeApiError
internal_error name cls = record {
  status = 0;
  reason = cls;
  message = "call " ++ (name ++ (" failed: internal " ++ cls));
  hint = some "this is an internal error; check the server logs for details";
}

sanitize_internal :
    (name cls : String) (k : Kind)
    → public_kind k ≡ internal cls
    → sanitize name k ≡ internal_error name cls
unfolding sanitize internal_error
sanitize_internal name cls (apiserver a) h = cc
sanitize_internal name cls (timeout m) h = let e : cls ≡ "TimeoutError" = cc in rw e
sanitize_internal name cls (safe x) h = let e : cls ≡ "SafeApiError" = cc in rw e
sanitize_internal name cls (permission m) h = let e : cls ≡ "PermissionError" = cc in rw e
sanitize_internal name cls (other c args) h = let e : cls ≡ c = cc in rw e

sanitize_http :
    (name : String) (status : ℕ) (k : Kind)
    → public_kind k ≡ http status
    → (a : ApiException) × (k ≡ apiserver a) × (or_zero a.status ≡ status)
sanitize_http name status (apiserver a) h = (a, refl, cc)
sanitize_http name status (timeout m) h = cc
sanitize_http name status (safe x) h = cc
sanitize_http name status (permission m) h = cc
sanitize_http name status (other c args) h = cc

safe_error_path :
    (d e : SafeApiError)
    → (d.message ≡ e.message) × (d.hint ≡ e.hint) × (d.status ≡ e.status)
    → visible (safe_error d) ≡ visible (safe_error e)
safe_error_path d e (m, h, s) = cc

sanitize_secrecy :
    (name : String) (p : Public) (j k : Kind)
    → public_kind j ≡ p
    → public_kind k ≡ p
    → visible (safe_error (sanitize name j)) ≡ visible (safe_error (sanitize name k))
sanitize_secrecy name (internal cls) j k h i =
    cc (sanitize_internal name cls j h, sanitize_internal name cls k i)
sanitize_secrecy name (http status) j k h i =
    let (a, is_a, e) = sanitize_http name status j h in
    let (b, is_b, f) = sanitize_http name status k i in
    rw (is_a, is_b)
      (unfold sanitize in
        safe_error_path (safe_apiserver_error (api a) "call" name empty empty)
          (safe_apiserver_error (api b) "call" name empty empty)
          (safe_apiserver_error_secrecy (api a) (api b) "call" name empty empty (cc)))

-- The answer that belongs to what is shown.
abbrev Answers : String → ℕ → Shown → Raised → Type 0
Answers name limit timed_out d = handle name limit d ≡ tool_timeout_error name limit
Answers name limit (curated e) d = handle name limit d ≡ safe_error e
Answers name limit (denied m) d = handle name limit d ≡ permission_error m
Answers name limit (root_of p) d =
    (k : Kind) × (handle name limit d ≡ safe_error (sanitize name k)) × (public_kind k ≡ p)

answers : (name : String) (limit : ℕ) (d : Raised) → Answers name limit (shown d) d
unfolding handle
answers name limit (raised (timeout m) cause context) = refl
answers name limit (raised (safe e) cause context) = refl
answers name limit (raised (permission m) cause context) = refl
answers name limit (raised (apiserver a) cause context) =
    (kind_of (root (raised (apiserver a) cause context)), refl, refl)
answers name limit (raised (other c args) cause context) =
    (kind_of (root (raised (other c args) cause context)), refl, refl)

same_answer :
    (name : String) (limit : ℕ) (s : Shown) (d e : Raised)
    → Answers name limit s d
    → Answers name limit s e
    → visible (handle name limit d) ≡ visible (handle name limit e)
same_answer name limit timed_out d e p q = rw (p, q)
same_answer name limit (curated x) d e p q = rw (p, q)
same_answer name limit (denied m) d e p q = rw (p, q)
same_answer name limit (root_of x) d e (j, p, u) (k, q, v) =
    rw (p, q) (sanitize_secrecy name x j k u v)

-- Two exceptions that agree on what may be shown of them get the same answer, whatever their
-- arguments, their bodies and the rest of their chains: a timeout shows nothing, `SafeApiError` and
-- `PermissionError` show themselves, and any other shows the HTTP status of its root, or the root's
-- class.
pub handle_secrecy :
    (name : String) (limit : ℕ) (d e : Raised)
    → shown d ≡ shown e
    → visible (handle name limit d) ≡ visible (handle name limit e)
handle_secrecy name limit d e h =
    same_answer name limit (shown e) d e (rw h at (answers name limit d)) (answers name limit e)

-- A `TimeoutError` is answered as the expiry of the limit, whoever raised it.
pub handle-timeout :
    (name message : String) (limit : ℕ) (cause context : Link)
    → handle name limit (raised (timeout message) cause context) ≡ tool_timeout_error name limit
unfolding handle
handle-timeout name message limit cause context = refl
