-- ===== src/Generic/Writes/Trace.antt =====
-- What the two tools send, what they record, and how they end.
use k8s_mcp.Base.{ℕ, String, ◌≡◌, true, false, Option, List, [], all, All, ◌⊎◌}
use k8s_mcp.Config.{Settings, ns_allowed}
use k8s_mcp.Config.Policy.{MayWrite}
use k8s_mcp.Generic.Writes.{
  Doc, patch, create, replace, Write, Reply, answer, not_found, conflict, api_exception, World,
  WriteError, permission_error, value_error, lookup_error, runtime_error, raised, Action, error,
  Outcome, write_of, stamp,
}
use k8s_mcp.Generic.Writes.Runs.{Treatment, Ran}

-- The error that an answer of the cluster stands for, by tool: `NotFoundError` is passed on by the
-- apply and is a `LookupError` of the replacement.
abbrev pub Fails : {A : Type 0} → WriteError → WriteError → Reply A → WriteError → Type 0
Fails missing clash (answer a) e = ⊥
Fails missing clash not_found e = e ≡ missing
Fails missing clash conflict e = e ≡ clash
Fails missing clash (api_exception status) e = e ≡ raised status

module _ {B : Type 0} (world : World B) where
  -- Applying: a patch, recorded as configured, if the read found the resource; a creation, recorded as
  -- created, if it found none; of the document itself in the namespace that it names.
  pub data ApplyWrite (sent : List (Write B)) (doc : Doc B) : Write B → Action → Type 0 where
    patched :
        (v : Option String)
        → world.read sent doc ≡ answer v
        → ApplyWrite sent doc (write_of patch doc) Action.configured
    made :
        world.read sent doc ≡ not_found → ApplyWrite sent doc (write_of create doc) Action.created

  pub data ApplyStop (sent : List (Write B)) (doc : Doc B) : WriteError → Type 0 where
    unknown_kind : world.serves doc.api_version doc.kind ≡ false → ApplyStop sent doc value_error
    read_clash : world.read sent doc ≡ conflict → ApplyStop sent doc runtime_error
    read_failed :
        (status : ℕ)
        → world.read sent doc ≡ api_exception status
        → ApplyStop sent doc (raised status)

  -- Replacing: the document with the version that was read for it, which is recorded.
  pub data ReplaceWrite (sent : List (Write B)) (doc : Doc B) : Write B → Action → Type 0 where
    stamped :
        (version : Option String)
        → world.read sent doc ≡ answer version
        → ReplaceWrite sent doc (write_of replace (stamp version doc)) (Action.replaced version)

  pub data ReplaceStop (sent : List (Write B)) (doc : Doc B) : WriteError → Type 0 where
    unknown_kind : world.serves doc.api_version doc.kind ≡ false → ReplaceStop sent doc value_error
    missing : world.read sent doc ≡ not_found → ReplaceStop sent doc lookup_error
    read_clash : world.read sent doc ≡ conflict → ReplaceStop sent doc (raised 409)
    read_failed :
        (status : ℕ)
        → world.read sent doc ≡ api_exception status
        → ReplaceStop sent doc (raised status)

  abbrev pub applying : Treatment B
  applying = record {
    Calls = ApplyWrite;
    GivesUp = ApplyStop;
    Refuses = λ sent w e. Fails (raised 404) runtime_error (world.send sent w) e;
    Grants = λ sent w. world.send sent w ≡ answer tt;
  }

  abbrev pub replacing : Treatment B
  replacing = record {
    Calls = ReplaceWrite;
    GivesUp = ReplaceStop;
    Refuses = λ sent w e. Fails lookup_error runtime_error (world.send sent w) e;
    Grants = λ sent w. world.send sent w ≡ answer tt;
  }

-- How a guarded tool ends: it was let through for every document and ran, or it sent nothing because
-- the server is read-only or some document names a namespace that may not be written.
pub data Guarded {B : Type 0} (T : Treatment B) (settings : Settings) (docs : List (Doc B))
    (o : Outcome B) : Type 0 where
  let_through :
      settings.read_only ≡ false
      → All (λ (doc : Doc B). MayWrite settings doc.namespace) docs
      → Ran T [] [] docs o
      → Guarded T settings docs o
  refused :
      (settings.read_only ≡ true)
        ⊎ (all (λ (doc : Doc B). ns_allowed settings doc.namespace) docs ≡ false)
      → o.sent ≡ []
      → o.result ≡ error permission_error
      → Guarded T settings docs o
