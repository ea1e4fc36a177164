-- ===== src/Generic/Writes.antt =====
-- The writes of generic.py on the documents of a manifest: `_apply_yaml_records`, `apply_yaml` and
-- `replace_resource`. Reading the YAML gives the documents; the cluster is a parameter whose answers may
-- depend on the writes sent before.
pub mod Runs
pub mod Trace
use k8s_mcp.Base.{
  ℕ, String, Bool, true, false, ◌&&◌, not, Option, none, some, List, [], ◌∷◌, ◌++◌, all, is_empty,
  if◌then◌else◌,
}
use k8s_mcp.Config.{Settings, ns_allowed}
use k8s_mcp.Deletion.{scope_of}

-- A document: the fields that the tools read, and the rest of it.
pub record Doc (B : Type 0) : Type 0 where
  pub api_version : Option String
  pub kind : Option String
  pub name : Option String
  pub namespace : Option String
  pub resource_version : Option String
  pub rest : B

pub data Verb : Type 0 where
  patch : Verb
  create : Verb
  replace : Verb

-- One request that changes the cluster, with the namespace that it names.
pub record Write (B : Type 0) : Type 0 where
  pub verb : Verb
  pub doc : Doc B
  pub scope : Option String

-- An answer of the dynamic client, or one of its exceptions.
pub data Reply (A : Type 0) : Type 0 where
  answer : A → Reply A
  not_found : Reply A
  conflict : Reply A
  api_exception : ℕ → Reply A

-- What stands outside: which kinds the cluster serves, the version of a resource that is read, and how
-- a write ends after those sent before.
pub record World (B : Type 0) : Type 0 where
  pub serves : Option String → Option String → Bool
  pub read : List (Write B) → Doc B → Reply (Option String)
  pub send : List (Write B) → Write B → Reply (Unit {0})

pub data WriteError : Type 0 where
  permission_error : WriteError
  value_error : WriteError
  lookup_error : WriteError
  runtime_error : WriteError
  raised : ℕ → WriteError

-- What the tool records of a document: that it was created, patched, or replaced at a version.
pub data Action : Type 0 where
  created : Action
  configured : Action
  replaced : Option String → Action

pub record Entry : Type 0 where
  pub kind : Option String
  pub name : Option String
  pub action : Action

-- One turn of a loop over documents, with the writes sent up to its end.
pub data Turn (B : Type 0) : Type 0 where
  ok : List (Write B) → Entry → Turn B
  failed : List (Write B) → WriteError → Turn B

pub data Result : Type 0 where
  done : List Entry → Result
  error : WriteError → Result

-- How a tool ends, and all that it sent.
pub record Outcome (B : Type 0) : Type 0 where
  pub sent : List (Write B)
  pub result : Result

module _ {B : Type 0} where
  abbrev pub write_of : Verb → Doc B → Write B
  write_of verb doc = record { verb = verb; doc = doc; scope = scope_of doc.namespace }

  abbrev pub entry_of : Doc B → Action → Entry
  entry_of doc action = record { kind = doc.kind; name = doc.name; action = action }

  -- A write of `apply`, and its `except ConflictError`.
  unfoldable pub apply_write : World B → List (Write B) → Doc B → Verb → Action → Turn B
  apply_write world sent doc verb action = elim (world.send sent (write_of verb doc)) [
    | answer _ ↦ ok (sent ++ write_of verb doc ∷ []) (entry_of doc action)
    | not_found ↦ failed (sent ++ write_of verb doc ∷ []) (raised 404)
    | conflict ↦ failed (sent ++ write_of verb doc ∷ []) runtime_error
    | api_exception status ↦ failed (sent ++ write_of verb doc ∷ []) (raised status)
  ]

  unfoldable pub apply_doc : World B → List (Write B) → Doc B → Turn B
  apply_doc world sent doc =
      if world.serves doc.api_version doc.kind
      then elim (world.read sent doc) [
        | answer _ ↦ apply_write world sent doc patch configured
        | not_found ↦ apply_write world sent doc create created
        | conflict ↦ failed sent runtime_error
        | api_exception status ↦ failed sent (raised status)
      ]
      else failed sent value_error

  -- `doc["metadata"]["resourceVersion"] = …`
  abbrev pub stamp : Option String → Doc B → Doc B
  stamp version doc = record doc { resource_version = version }

  unfoldable pub replace_at : World B → List (Write B) → Doc B → Option String → Turn B
  replace_at world sent doc version =
      elim (world.send sent (write_of replace (stamp version doc))) [
        | answer _ ↦
            ok (sent ++ write_of replace (stamp version doc) ∷ []) (entry_of doc (replaced version))
        | not_found ↦ failed (sent ++ write_of replace (stamp version doc) ∷ []) lookup_error
        | conflict ↦ failed (sent ++ write_of replace (stamp version doc) ∷ []) runtime_error
        | api_exception status ↦
            failed (sent ++ write_of replace (stamp version doc) ∷ []) (raised status)
      ]

  unfoldable pub replace_doc : World B → List (Write B) → Doc B → Turn B
  replace_doc world sent doc =
      if world.serves doc.api_version doc.kind
      then elim (world.read sent doc) [
        | answer version ↦ replace_at world sent doc version
        | not_found ↦ failed sent lookup_error
        | conflict ↦ failed sent (raised 409)
        | api_exception status ↦ failed sent (raised status)
      ]
      else failed sent value_error

  -- The loop over the documents, which an exception ends.
  unfoldable pub run_docs :
      (List (Write B) → Doc B → Turn B) → List (Write B) → List Entry → List (Doc B) → Outcome B
  run_docs turn sent entries [] = record { sent = sent; result = done entries }
  run_docs turn sent entries (doc ∷ docs) = elim (turn sent doc) [
    | ok sent' entry ↦ run_docs turn sent' (entries ++ entry ∷ []) docs
    | failed sent' e ↦ record { sent = sent'; result = error e }
  ]

  -- The guards of both tools: all documents are checked before the cluster is asked.
  unfoldable pub guarded : Settings → (List (Write B) → Doc B → Turn B) → List (Doc B) → Outcome B
  guarded settings turn docs =
      if settings.read_only
      then record { sent = []; result = error permission_error }
      else if all (λ (doc : Doc B). ns_allowed settings doc.namespace) docs
      then run_docs turn [] [] docs
      else record { sent = []; result = error permission_error }

  unfoldable pub apply_yaml_records : Settings → World B → List (Doc B) → Outcome B
  apply_yaml_records settings world docs = guarded settings (apply_doc world) docs

  unfoldable pub replace_resource : Settings → World B → List (Doc B) → Outcome B
  replace_resource settings world docs = guarded settings (replace_doc world) docs
