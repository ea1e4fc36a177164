-- ===== src/Generic/Labels/Sent.antt =====
-- Where a label patch goes, and what it asks for.
use Prim.Native.String.{◌++◌}
use k8s_mcp.Base.{
  String, ◌≡◌, refl, sym, ap, Bool, true, false, if◌then◌else◌, Bool-cases, inl, inr,
}
use k8s_mcp.Base.Text.{empty}
use k8s_mcp.Base.Text.Search.{contains}
use k8s_mcp.Generic.Labels.Pointer.{decode, decode-jsonpatch_escape}
use k8s_mcp.Base.{Option, none, some, str_eq, eq_iff, ◌≢◌, not}
use k8s_mcp.Config.{Settings, ns_allowed}
use k8s_mcp.Config.Policy.{MayWrite, ns_allowed_iff}
use k8s_mcp.Deletion.{scope_of}
use k8s_mcp.Generic.Kinds.{Discovery, Resolved, resolved, resource_for_kind}
use k8s_mcp.Generic.Labels.{
  jsonpatch_escape, Body, add_at, Patch, Ended, value_error, not_unique, permission_error, labelled,
  runtime_error, send_patch, patch_resolved, patch_labels, add_label,
}

-- The patch that a call sent, whether or not the API took it.
abbrev pub sent_patch : {H : Type 0} → Ended H → Option (Patch H)
sent_patch value_error = none
sent_patch not_unique = none
sent_patch permission_error = none
sent_patch (labelled p) = some p
sent_patch (runtime_error p) = some p

module _ {H : Type 0} (d : Discovery H) (refuses : Patch H → Bool) where
  -- A patch for the named resource, where writes to its namespace are permitted.
  pub record Permitted (settings : Settings) (kind name : String)
      (namespace api_version : Option String) (p : Patch H) : Type 0 where
    pub may_write : MayWrite settings namespace
    pub resource_is : resource_for_kind d kind api_version ≡ resolved p.resource
    pub name_is : p.name ≡ name
    pub scope_is : p.namespace ≡ scope_of namespace

  send_patch-sent : (q p : Patch H) → sent_patch (send_patch d refuses q) ≡ some p → q ≡ p
  unfolding send_patch
  send_patch-sent q p h = elim (Bool-cases (refuses q)) [
    | inl e ↦ cc (rw e at h)
    | inr e ↦ cc (rw e at h)
  ]

  patch_resolved-sent :
      (name : String) (namespace : Option String) (body : Body) (p : Patch H) (r : Resolved H)
      → sent_patch (patch_resolved d refuses name namespace body r) ≡ some p
      → (r ≡ resolved p.resource)
        × (p.name ≡ name)
        × (p.namespace ≡ scope_of namespace)
        × (p.body ≡ body)
  unfolding patch_resolved
  patch_resolved-sent name namespace body p Resolved.value_error h = cc
  patch_resolved-sent name namespace body p Resolved.not_unique h = cc
  patch_resolved-sent name namespace body p (resolved x) h =
      let same =
        send_patch-sent
          (record { resource = x; name = name; namespace = scope_of namespace; body = body }) p h in
      (
        ap (λ (q : Patch H). resolved q.resource) same,
        sym (ap (λ (q : Patch H). q.name) same),
        sym (ap (λ (q : Patch H). q.namespace) same),
        sym (ap (λ (q : Patch H). q.body) same),
      )

  past_guards :
      (read_only allowed : Bool) (e : Ended H) (p : Patch H)
      → sent_patch
          (if read_only then permission_error else if not allowed then permission_error else e)
        ≡ some p
      → (allowed ≡ true) × (sent_patch e ≡ some p)
  past_guards true allowed e p h = cc
  past_guards false false e p h = cc
  past_guards false true e p h = (refl, h)

  patch_labels-Permitted :
      (settings : Settings) (kind name : String) (namespace api_version : Option String)
      (body : Body) (p : Patch H)
      → sent_patch (patch_labels d refuses settings kind name namespace api_version body) ≡ some p
      → Permitted settings kind name namespace api_version p × (p.body ≡ body)
  unfolding patch_labels
  patch_labels-Permitted settings kind name namespace api_version body p h =
      let (passed, rest) = past_guards settings.read_only (ns_allowed settings namespace) _ p h in
      let (r, n, s, b) =
        patch_resolved-sent name namespace body p (resource_for_kind d kind api_version) rest in
      (
        record {
          may_write = (ns_allowed_iff settings namespace).0 passed;
          resource_is = r;
          name_is = n;
          scope_is = s;
        },
        b,
      )

  past_empty :
      (blank : Bool) (e : Ended H) (p : Patch H)
      → sent_patch (if blank then value_error else e) ≡ some p
      → (blank ≡ false) × (sent_patch e ≡ some p)
  past_empty true e p h = cc
  past_empty false e p h = (refl, h)

  -- A patch that adding a label sends goes to the named resource, of the kind that was looked up, in
  -- the caller's namespace, which may be written; its path is that of the labels and one more token,
  -- and this token decodes to the key, which is not empty.
  pub add_label_lem :
      (settings : Settings) (kind name key value : String) (namespace api_version : Option String)
      (p : Patch H)
      → sent_patch (add_label d refuses settings kind name key value namespace api_version) ≡ some p
      → Permitted settings kind name namespace api_version p
        × (key ≢ empty)
        × ((token : String) × (p.body ≡ add_at ("/metadata/labels/" ++ token) value)
            × (decode token ≡ key)
            × (contains b'/' token ≡ false))
  unfolding add_label
  add_label_lem settings kind name key value namespace api_version p h =
      let (filled, rest) = past_empty (str_eq key empty) _ p h in
      let (permitted, body) =
        patch_labels-Permitted settings kind name namespace api_version _ p rest in
      let (back, single) = decode-jsonpatch_escape key in
      (
        permitted,
        λ e. cc (filled, (eq_iff key empty).1 e),
        (jsonpatch_escape key, body, back, single),
      )
