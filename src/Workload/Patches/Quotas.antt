-- ===== src/Workload/Patches/Quotas.antt =====
-- What an empty value in a request of `set_resources` does.
use k8s_mcp.Base.{
  String, ◌≡◌, refl, none, some, [], ◌∷◌, lookup, str_eq, eq_iff, arith, if◌then◌else◌,
}
use k8s_mcp.Base.Text.{empty}
use k8s_mcp.ConfigMap.{Data, union}
use k8s_mcp.ConfigMap.Update.{IsDict, lookup-union}
use k8s_mcp.Workload.Patches.{nonempty}

lookup-fresh : (k : String) (d : Data) → lookup k d ≡ none → lookup k (nonempty d) ≡ none
unfolding nonempty
lookup-fresh k [] h = refl
lookup-fresh k ((j, v) ∷ d) h = ground (arith, lookup-fresh k d)

lookup-nonempty :
    (k : String) (d : Data)
    → IsDict d
    → lookup k (nonempty d)
      ≡ elim (lookup k d) [ none ↦ none | some v ↦ if str_eq v empty then none else some v ]
unfolding nonempty
lookup-nonempty k [] u = refl
lookup-nonempty k ((j, v) ∷ d) (fresh, u) =
    ground (arith, lookup-nonempty k d u, lookup-fresh k d, eq_iff j k, fresh)

nonempty-IsDict : (d : Data) → IsDict d → IsDict (nonempty d)
unfolding nonempty
nonempty-IsDict [] u = u
nonempty-IsDict ((j, v) ∷ d) (fresh, u) =
    ground (arith, nonempty-IsDict d u, lookup-fresh j d fresh)

-- Of the quotas that a container has, merged key by key with those that are sent, an empty value in the
-- request leaves the one of its key as it was, and another value replaces it.
pub empty_keeps_quota :
    (k v : String) (requests old : Data)
    → IsDict requests
    → lookup k requests ≡ some v
    → lookup k (union old (nonempty requests)) ≡ (if str_eq v empty then lookup k old else some v)
empty_keeps_quota k v requests old u h = ground (
  arith,
  lookup-union k old (nonempty requests) (nonempty-IsDict requests u),
  lookup-nonempty k requests u,
)
