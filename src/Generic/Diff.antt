-- ===== src/Generic/Diff.antt =====
-- `_structural_diff` and `diff_resource` of generic.py. Python's `==` on values and the dynamic client are
-- parameters.
pub mod Faithful
use Prim.Native.Nat.{Ordering}
use Prim.Native.String.{compare}
use k8s_mcp.Base.{
  ℕ, String, Bool, true, false, ◌&&◌, not, Option, none, some, List, [], ◌∷◌, ◌++◌, elem, is_empty,
  str_eq, ◌==◌, if◌then◌else◌,
}
use k8s_mcp.Base.Json.{Json, null, obj, Fields, end, field, get, keys, put}
use k8s_mcp.Generic.Yaml.{without_keys, as_metadata}

abbrev pub server_managed_metadata_keys : List String
server_managed_metadata_keys =
    "managedFields" ∷ "resourceVersion" ∷ "uid" ∷ "generation" ∷ "selfLink" ∷ "creationTimestamp"
    ∷ []

-- `strip`
unfoldable pub strip_server : Fields → Fields
strip_server d = elim (as_metadata (get "metadata" d)) [
  | none ↦ d
  | some md ↦ put "metadata" (obj (without_keys server_managed_metadata_keys md)) d
]

-- One more key in a sorted list without repetitions.
unfoldable pub insert_key : String → List String → List String
insert_key k [] = k ∷ []
insert_key k (j ∷ js) =
    let rest = insert_key k js in
    elim (compare k j) [ Ordering.lt ↦ k ∷ j ∷ js | Ordering.eq ↦ j ∷ js | Ordering.gt ↦ j ∷ rest ]

-- `sorted(set(ks) | set(js))`
unfoldable pub sorted_union : List String → List String → List String
sorted_union [] [] = []
sorted_union [] (j ∷ js) = insert_key j (sorted_union [] js)
sorted_union (k ∷ ks) js = insert_key k (sorted_union ks js)

-- `d.get(k)`, where a null is `None` as well.
abbrev pub not_null : Option Json → Option Json
not_null none = none
not_null (some null) = none
not_null (some v) = some v

pub data Line : Type 0 where
  added : String → Json → Line
  removed : String → Json → Line
  changed : String → Json → Json → Line

module _ (same : Json → Json → Bool) where
  -- The line for one key, if its values differ.
  unfoldable pub line_for : String → Option Json → Option Json → List Line
  line_for k none none = []
  line_for k none (some w) = added k w ∷ []
  line_for k (some v) none = removed k v ∷ []
  line_for k (some v) (some w) = if same v w then [] else changed k v w ∷ []

  unfoldable pub diff_keys : Fields → Fields → List String → List Line
  diff_keys old new [] = []
  diff_keys old new (k ∷ ks) =
      let rest = diff_keys old new ks in
      if str_eq k "status"
      then rest
      else line_for k (not_null (get k old)) (not_null (get k new)) ++ rest

  unfoldable pub structural_diff : Fields → Fields → List Line
  structural_diff old new =
      diff_keys (strip_server old) (strip_server new)
        (sorted_union (keys (strip_server old)) (keys (strip_server new)))

  -- One section of the preview.
  pub data Section : Type 0 where
    create : Section
    no_changes : Section
    update : List Line → Section

  pub data Read : Type 0 where
    item : Fields → Read
    not_found : Read
    api_exception : ℕ → Read

  pub data Previewed : Type 0 where
    sections : List Section → Previewed
    value_error : Previewed
    raised : ℕ → Previewed

  unfoldable pub section_for : Fields → Fields → Section
  section_for current doc = elim (structural_diff current doc) [
    | [] ↦ no_changes
    | l ∷ ls ↦ update (l ∷ ls)
  ]

  abbrev pub prepend : Section → Previewed → Previewed
  prepend s (sections ss) = sections (s ∷ ss)
  prepend s value_error = value_error
  prepend s (raised status) = raised status

  module _ (serves : Fields → Bool) (read : Fields → Read) where
    unfoldable pub diff_resource : List Fields → Previewed
    diff_resource [] = sections []
    diff_resource (doc ∷ docs) =
        let rest = diff_resource docs in
        if serves doc
        then elim (read doc) [
          | item current ↦ prepend (section_for current doc) rest
          | not_found ↦ prepend create rest
          | api_exception status ↦ if status == 404 then prepend create rest else raised status
        ]
        else value_error
