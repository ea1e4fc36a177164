-- ===== src/Secret.antt =====
-- src/k8s_mcp/tools/secret.py: `get_secret_value`, `_format_decoded` and `create_secret`. The API, base64, UTF-8 and
-- `str.isprintable` are parameters. The values of a secret are texts, as the API gives them.
pub mod Masked
pub mod RoundTrip
mod Tests
use Prim.Native.String.{◌++◌ as ◌+++◌, compare}
use Prim.Native.Nat.{Ordering}
use k8s_mcp.Base.{
  ℕ, String, ◌≡◌, Bool, true, false, ◌&&◌, ◌||◌, not, Option, none, some, List, [], ◌∷◌, ◌-◌, ◌%◌,
  ◌==◌, ◌++◌, any, map, lookup, is_some, is_empty, str_eq, if◌then◌else◌,
}
use k8s_mcp.Base.Json.{Json, str, obj, Fields, text_fields, dict, when}
use k8s_mcp.Base.Text.{empty}
use k8s_mcp.Base.Text.Decimal.{show}
use k8s_mcp.Base.Text.Search.{count_chars, ends_with}
use k8s_mcp.Config.{Settings}
use k8s_mcp.ConfigMap.{Data, may_write}
use k8s_mcp.Formatters.Table.{repeat}

-- What the libraries do with texts and bytes.
pub record Codec : Type 1 where
  pub Bytes : Type 0
  pub b64decode : String → Option Bytes
  -- The text of the exception where `b64decode` raises one.
  pub b64error : String → String
  pub b64encode : Bytes → String
  pub encode : String → Bytes
  pub decode : Bytes → Option String
  pub isprintable : String → Bool
  pub size : Bytes → ℕ

-- `obj.get("data") or {}` and `obj.get("stringData") or {}`.
pub record Stored : Type 0 where
  pub data_of : Data
  pub string_data : Data

pub data Read : Type 0 where
  item : Stored → Read
  api_exception : ℕ → Read

pub data Got : Type 0 where
  -- The number of bytes that are shown in place of the value.
  masked : ℕ → Got
  revealed : String → Got
  not_found : Got
  -- The keys that the secret has, as the message lists them.
  key_missing : List String → Got
  unknown_kind : Got
  -- The text of the error from base64.
  bad_base64 : String → Got
  raised : ℕ → Got

-- `sorted(ks)` of Python, which keeps equal texts.
unfoldable pub insert_sorted : String → List String → List String
insert_sorted k [] = k ∷ []
insert_sorted k (j ∷ js) =
    let rest = insert_sorted k js in elim (compare k j) [ Ordering.gt ↦ j ∷ rest | _ ↦ k ∷ j ∷ js ]

unfoldable pub sorted : List String → List String
sorted [] = []
sorted (k ∷ ks) = insert_sorted k (sorted ks)

-- `sorted(list(data.keys()) + list(string_data.keys()))`
unfoldable pub available : Stored → List String
available s = sorted (map (λ kv. kv.0) s.data_of ++ map (λ kv. kv.0) s.string_data)

-- `s + "=" * (-len(s) % 4)`
unfoldable pub padded : String → String
padded s = s +++ repeat "=" ((4 - count_chars s % 4) % 4)

module _ (codec : Codec) where
  open codec use {Bytes, b64decode, b64error, b64encode, decode, isprintable, size}

  abbrev pub binary : Bytes → String
  binary raw = "<binary, " +++ (show (size raw) +++ (" bytes, base64=" +++ (b64encode raw +++ ">")))

  unfoldable pub format_decoded : String → Bytes → String
  format_decoded key raw = elim (decode raw) [
    | none ↦ binary raw
    | some text ↦ if isprintable text || ends_with ".txt" key then text else binary raw
  ]

  -- The answer for what is under the key in the two dictionaries, of a secret with these keys.
  abbrev pub mask_at : List String → Option String → Option String → Got
  mask_at names (some raw) plain = elim (b64decode (padded raw)) [
    | none ↦ bad_base64 (b64error (padded raw))
    | some bytes ↦ masked (size bytes)
  ]
  mask_at names none (some text) = masked (count_chars text)
  mask_at names none none = key_missing names

  unfoldable pub mask_value : String → Stored → Got
  mask_value key s = mask_at (available s) (lookup key s.data_of) (lookup key s.string_data)

  unfoldable pub reveal_value : String → Stored → Got
  reveal_value key s = elim (lookup key s.data_of) [
    | some raw ↦ elim (b64decode (padded raw)) [
      | none ↦ bad_base64 (b64error (padded raw))
      | some bytes ↦ revealed (format_decoded key bytes)
    ]
    | none ↦ elim (lookup key s.string_data) [
      | none ↦ key_missing (available s)
      | some text ↦ revealed text
    ]
  ]

  abbrev pub after_read : String → Bool → Read → Got
  after_read key reveal (item s) = if not reveal then mask_value key s else reveal_value key s
  after_read key reveal (api_exception status) = if status == 404 then not_found else raised status

  -- Where the cluster serves secrets at all, with their reads.
  unfoldable pub get_secret_value :
      Option (String → String → Read) → String → String → String → Bool → Got
  get_secret_value resource name namespace key reveal = elim resource [
    | none ↦ unknown_kind
    | some read ↦ after_read key reveal (read name namespace)
  ]

  -- A value to store is missing or empty.
  abbrev pub is_missing : Option String → Bool
  is_missing none = true
  is_missing (some v) = str_eq v empty

  pub data Created : Type 0 where
    permission_error : Created
    invalid : Created
    applied : Data → Fields → Created

  abbrev pub text_of : Option String → String
  text_of none = empty
  text_of (some v) = v

  -- The loop over the values, with what is done to each.
  unfoldable pub encode_all : (String → String) → List (String × Option String) → Option Data
  encode_all f [] = some []
  encode_all f ((k, v) ∷ d) =
      let rest = encode_all f d in
      if is_missing v
      then none
      else elim rest [ none ↦ none | some m ↦ some ((k, f (text_of v)) ∷ m) ]

  abbrev pub encoded_of : (String → String) → List (String × Option String) → Option Data
  encoded_of f [] = none
  encoded_of f (kv ∷ d) = encode_all f (kv ∷ d)

  -- Exactly one of the two dictionaries, encoded.
  abbrev pub encoded_input :
      Option (List (String × Option String)) → Option (List (String × Option String)) → Option Data
  encoded_input none none = none
  encoded_input (some d) (some e) = none
  encoded_input (some d) none = encoded_of (λ v. v) d
  encoded_input none (some e) = encoded_of (λ v. b64encode (codec.encode v)) e

  abbrev pub given_labels : Option Data → Data
  given_labels none = []
  given_labels (some d) = d

  abbrev pub secret_manifest : String → String → String → Option Data → Data → Fields
  secret_manifest name namespace secret_type labels encoded = dict (
      ("apiVersion", str "v1")
      ∷ ("kind", str "Secret")
      ∷ (
        "metadata",
        obj (
            dict (
              ("name", str name)
              ∷ ("namespace", str namespace)
              ∷ when (not (is_empty (given_labels labels))) "labels"
                  (obj (text_fields (given_labels labels))))),
      )
      ∷ ("type", str secret_type)
      ∷ ("data", obj (text_fields encoded))
      ∷ [])

  -- Up to the call of `apply_yaml` on the manifest, which is given with its data.
  unfoldable pub create_secret :
      Settings
      → String
      → String
      → Option (List (String × Option String))
      → Option (List (String × Option String))
      → String
      → Option Data
      → Created
  create_secret settings name namespace data_ string_data secret_type labels =
      if may_write settings namespace
      then elim (encoded_input data_ string_data) [
        | none ↦ invalid
        | some encoded ↦ applied encoded (secret_manifest name namespace secret_type labels encoded)
      ]
      else permission_error
