-- ===== src/Config/Policy.antt =====
-- Who may write where, described without the code's branches.
use k8s_mcp.Base.{
  String, ◌≡◌, ◌↔◌, ◌⊎◌, inl, inr, true, false, Option, none, some, List, arith, elem, refl,
}
use k8s_mcp.Config.{Settings, ns_allowed}

-- `namespace` names an entry of the allowlist.
pub record IsListed (limit : Option (List String)) (namespace : Option String) : Type 0 where
  pub allowed : List String
  pub ns : String
  pub limit_is : limit ≡ some allowed
  pub namespace_is : namespace ≡ some ns
  pub mem : elem ns allowed ≡ true

-- The server is not read-only, and either no allowlist is set or the namespace is named and on it.
pub record MayWrite (s : Settings) (namespace : Option String) : Type 0 where
  pub writable : s.read_only ≡ false
  pub scoped : (s.namespace_allowlist ≡ none) ⊎ IsListed s.namespace_allowlist namespace

ns_allowed_scoped :
    (s : Settings) (limit : Option (List String)) (namespace : Option String)
    → s.namespace_allowlist ≡ limit
    → ns_allowed s namespace ≡ true
    → (limit ≡ none) ⊎ IsListed limit namespace
unfolding ns_allowed
ns_allowed_scoped s none namespace e h = inl refl
ns_allowed_scoped s (some l) none e h = ground arith
ns_allowed_scoped s (some l) (some ns) e h =
    inr (record { allowed = l; ns = ns; limit_is = refl; namespace_is = refl; mem = ground arith })

ns_allowed_complete :
    (s : Settings) (namespace : Option String)
    → MayWrite s namespace
    → ns_allowed s namespace ≡ true
unfolding ns_allowed
ns_allowed_complete s namespace m = elim m.scoped [
  | inl e ↦ ground (arith, m.writable)
  | inr l ↦ ground (arith, m.writable, l.limit_is, l.namespace_is, l.mem)
]

-- The guard answers true exactly where the policy lets the write through: the server is not
-- read-only, and no allowlist is set or the call names a namespace that is on it.
pub ns_allowed_iff :
    (s : Settings) (namespace : Option String)
    → (ns_allowed s namespace ≡ true) ↔ MayWrite s namespace
unfolding ns_allowed
ns_allowed_iff s namespace = (
  λ h. record {
    writable = ground arith;
    scoped = ns_allowed_scoped s s.namespace_allowlist namespace refl h;
  },
  ns_allowed_complete s namespace,
)
