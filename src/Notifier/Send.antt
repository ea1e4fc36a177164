-- ===== src/Notifier/Send.antt =====
-- `_validate_notifier`, `_post` and `notify`. What the HTTP session answers a request, the size of a payload in
-- bytes and the time stamp are parameters. A notifier whose type is a list or a dictionary, for which the
-- test of the type raises TypeError, is left out.
pub mod Requests
use k8s_mcp.Base.{
  ℕ, String, Bool, true, false, ◌&&◌, not, Option, none, some, List, [], ◌∷◌, ◌++◌, ◌*◌, elem,
  lookup, is_some, is_empty, select, map, ltb, str_eq, if◌then◌else◌,
}
use k8s_mcp.Base.Json.{Json, null, boolean, int, float, str, arr, obj, Fields, get, as_dict, items}
use k8s_mcp.Base.Text.{empty}
use k8s_mcp.Config.{Settings, default_settings}
use k8s_mcp.Notifier.Url.{UrlTools, UrlError, validate_notifier_url}
use k8s_mcp.Notifier.Payload.{level_prefix, build_payload}

abbrev pub type_byte_limits : List (String × ℕ)
type_byte_limits =
    ("feishu", 30 * 1024)
    ∷ ("feishu_post", 30 * 1024)
    ∷ ("feishu_card", 30 * 1024)
    ∷ ("slack", 40 * 1024)
    ∷ ("wecom", 4 * 1024)
    ∷ ("generic", 30 * 1024)
    ∷ []

abbrev pub notifier_types : List String
notifier_types = "feishu" ∷ "feishu_post" ∷ "feishu_card" ∷ "slack" ∷ "wecom" ∷ "generic" ∷ []

pub data NotifierError : Type 0 where
  no_name : NotifierError
  bad_type : NotifierError
  no_url : NotifierError
  bad_url : UrlError → NotifierError

-- A text under a key, or the empty text.
abbrev pub text_at : String → Fields → String
text_at k n = text_of (get k n)
  where
    text_of : Option Json → String
    text_of (some (str s)) = s
    text_of _ = empty

abbrev pub chosen : Option String → List Fields → List Fields
chosen none ns = ns
chosen (some name) ns = select (λ n. str_eq (text_at "name" n) name) ns

module _ (tools : UrlTools) (settings : Settings) where
  unfoldable pub validate_notifier : Fields → Option NotifierError
  validate_notifier n =
      if str_eq (text_at "name" n) empty
      then some no_name
      else if not (elem (text_at "type" n) notifier_types)
      then some bad_type
      else if str_eq (text_at "url" n) empty
      then some no_url
      else elim (validate_notifier_url tools settings (text_at "url" n)) [
        | none ↦ none
        | some e ↦ some (bad_url e)
      ]

  unfoldable pub errors_of : List Fields → List NotifierError
  errors_of [] = []
  errors_of (n ∷ ns) =
      let rest = errors_of ns in elim (validate_notifier n) [ none ↦ rest | some e ↦ e ∷ rest ]

  abbrev pub is_valid : Fields → Bool
  is_valid n = not (is_some (validate_notifier n))

  abbrev pub valid_notifiers : Option String → List Fields → List Fields
  valid_notifiers notifier_name ns = chosen notifier_name (select is_valid ns)

-- One POST, without redirects.
pub record Request : Type 0 where
  pub url : String
  pub payload : Fields

-- What becomes of a payload: too large to be sent, or sent, with the answer's success.
pub data Posted : Type 0 where
  too_large : ℕ → Posted
  answered : Bool → Posted

pub record Row : Type 0 where
  pub name : String
  pub type_of : String
  pub posted : Posted

pub data Answer : Type 0 where
  no_notifiers : Answer
  not_found : Answer
  invalid_level : Answer
  all_invalid : List NotifierError → Answer
  -- An exception while a payload was built.
  attribute_error : Answer
  table : List NotifierError → List Row → Answer

-- How a call ends, and all that it sent.
pub record Outcome : Type 0 where
  pub sent : List Request
  pub answer : Answer

abbrev pub unsent : Answer → Outcome
unsent a = record { sent = []; answer = a }

abbrev pub too_big : Option ℕ → ℕ → Bool
too_big none size = false
too_big (some limit) size = ltb limit size

module _ (size : Fields → ℕ) (post : Request → Bool) (ts : String) where
  -- What a payload of a type has sent, and its row.
  unfoldable pub post_payload : String → String → Fields → List Request × Posted
  post_payload url typ payload =
      if too_big (lookup typ type_byte_limits) (size payload)
      then ([], too_large (size payload))
      else (
        record { url = url; payload = payload } ∷ [],
        answered (post (record { url = url; payload = payload })),
      )

  -- The submissions, in order, which an exception ends, and the rows of their results.
  unfoldable pub send_all :
      String
      → String
      → Option String
      → List Fields
      → List Request
      → List Row
      → List NotifierError
      → Outcome
  send_all message level title [] sent rows errors = record {
    sent = sent;
    answer = table errors rows;
  }
  send_all message level title (n ∷ ns) sent rows errors =
      elim (build_payload ts (text_at "type" n) n message level title) [
        | none ↦ record { sent = sent; answer = attribute_error }
        | some payload ↦
            send_all message level title ns
              (sent ++ (post_payload (text_at "url" n) (text_at "type" n) payload).0)
              (rows
                ++ record {
                  name = text_at "name" n;
                  type_of = text_at "type" n;
                  posted = (post_payload (text_at "url" n) (text_at "type" n) payload).1;
                }
                  ∷ [])
              errors
      ]

  module _ (tools : UrlTools) (settings : Settings) where
    -- `notify` with the dictionaries that `_parse_notifiers` found.
    unfoldable pub notify : List Fields → String → String → Option String → Option String → Outcome
    notify notifiers message level notifier_name title =
        let valid = valid_notifiers tools settings notifier_name notifiers in
        if is_empty notifiers
        then unsent no_notifiers
        else if is_some notifier_name && is_empty valid
        then unsent not_found
        else if not (is_some (lookup level level_prefix))
        then unsent invalid_level
        else if not (is_empty (errors_of tools settings notifiers)) && is_empty valid
        then unsent (all_invalid (errors_of tools settings notifiers))
        else send_all message level title valid [] [] (errors_of tools settings notifiers)

-- `_parse_notifiers` on the setting as `json.loads` reads it, which is nothing if it is malformed.
unfoldable pub parse_notifiers : (String → Option Json) → Option String → List Fields
parse_notifiers loads none = []
parse_notifiers loads (some raw) = if str_eq raw empty then [] else listed (loads raw)
  where
    dicts : List Json → List Fields
    dicts [] = []
    dicts (v ∷ vs) = elim (as_dict v) [ none ↦ dicts vs | some fs ↦ fs ∷ dicts vs ]

    listed : Option Json → List Fields
    listed (some (arr vs)) = dicts (items vs)
    listed _ = []
