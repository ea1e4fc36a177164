-- ===== src/Deletion/Scope.antt =====
-- Where a deletion can reach.
use k8s_mcp.Base.{
  ℕ, String, ◌≡◌, refl, ap, sym, ◌∙◌, Bool, true, false, not, Option, some, List, elem, str_eq,
  eq_iff, if◌then◌else◌, Bool-cases, inl, inr, arith,
}
use k8s_mcp.Config.{Settings, ns_allowed}
use k8s_mcp.Config.Policy.{ns_allowed_iff}
use k8s_mcp.Deletion.{
  Reply, Request, Outcome, Ended, permission_error, value_error, sent, scope_of, execute,
  delete_resource,
}

past_guards :
    (read_only allowed : Bool) (run : Ended) (r : Request) (o : Outcome)
    → (if read_only then permission_error else if not allowed then permission_error else run)
      ≡ sent r o
    → (allowed ≡ true) × (run ≡ sent r o)
past_guards true allowed run r o h = cc
past_guards false false run r o h = cc
past_guards false true run r o h = (refl, h)

request_of :
    (known : Bool) (q r : Request) (a o : Outcome)
    → (if known then sent q a else value_error) ≡ sent r o
    → q ≡ r
request_of true q r a o h = cc
request_of false q r a o h = cc

scope_of-listed :
    (ns : String) (allowed : List String)
    → elem ns allowed ≡ true
    → elem "" allowed ≡ false
    → scope_of (some ns) ≡ some ns
unfolding scope_of
scope_of-listed ns allowed listed proper = elim (Bool-cases (str_eq ns "")) [
  | inl blank ↦ cc (listed, proper, (eq_iff ns "").0 blank)
  | inr other ↦ rw other refl
]

module _ (is_known : String → Bool) (send : Request → Reply) where
  -- Under an allowlist that does not list the empty name, a request to delete that is sent is for the
  -- kind and the name that were given, and its namespace is the one that was given and is on the list.
  -- Nothing is said of whether the kind has namespaces.
  pub delete_resource_scope :
      (settings : Settings) (kind name : String) (namespace : Option String) (grace : ℕ)
      (r : Request) (o : Outcome) (allowed : List String)
      → settings.namespace_allowlist ≡ some allowed
      → elem "" allowed ≡ false
      → delete_resource is_known send settings kind name namespace grace ≡ sent r o
      → (ns : String) × (namespace ≡ some ns)
        × (elem ns allowed ≡ true)
        × (r.kind ≡ kind)
        × (r.name ≡ name)
        × (r.namespace ≡ some ns)
  unfolding delete_resource execute
  delete_resource_scope settings kind name namespace grace r o allowed limit proper h =
      let (ok, ran) = past_guards settings.read_only (ns_allowed settings namespace) _ r o h in
      let same = request_of (is_known kind) _ r _ o ran in
      elim ((ns_allowed_iff settings namespace).0 ok).scoped [
        | inl unlimited ↦ cc (unlimited, limit)
        | inr l ↦
            let list_is : l.allowed ≡ allowed = ground (arith, l.limit_is, limit) in
            let listed : elem l.ns allowed ≡ true = ap (elem l.ns) (sym list_is) ∙ l.mem in
            (
              l.ns,
              l.namespace_is,
              listed,
              sym (ap (λ (q : Request). q.kind) same),
              sym (ap (λ (q : Request). q.name) same),
              sym (ap (λ (q : Request). q.namespace) same)
                  ∙ ap scope_of l.namespace_is
                  ∙ scope_of-listed l.ns allowed listed proper,
            )
      ]
