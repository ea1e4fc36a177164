-- ===== src/Nodes/TaintSpec.antt =====
-- `_parse_taint_spec`, `_validate_node_name` and the rendering of a taint, in node_ops.py.
pub mod RoundTrip
use Prim.Native.Char.{code}
use Prim.Native.String.{◌++◌}
use k8s_mcp.Base.{
  ℕ, String, Bool, true, false, ◌&&◌, ◌||◌, not, List, [], ◌∷◌, all, elem, leb, ltb, ◌==◌, str_eq,
  if◌then◌else◌,
}
use k8s_mcp.Base.Text.{empty, cons, split, strip}
use k8s_mcp.Base.Text.Search.{
  contains, all_chars, count_chars, before, after, before_last, after_last,
}

-- `[a-z0-9]`
abbrev pub is_alnum : ℕ → Bool
is_alnum c = (leb b'a' c && leb c b'z') || (leb b'0' c && leb c b'9')

-- `[-a-z0-9]`
abbrev pub is_name_char : ℕ → Bool
is_name_char c = c == b'-' || is_alnum c

unfoldable pub starts_alnum : String → Bool
starts_alnum String.[] = false
starts_alnum (String.◌∷◌ c s) = is_alnum (code c)

unfoldable pub ends_alnum : String → Bool
ends_alnum String.[] = false
ends_alnum (String.◌∷◌ c String.[]) = is_alnum (code c)
ends_alnum (String.◌∷◌ c (String.◌∷◌ d s)) = ends_alnum (String.◌∷◌ d s)

-- `[a-z0-9]([-a-z0-9]{0,61}[a-z0-9])?`, the whole of a text.
unfoldable pub is_label : String → Bool
unfolding starts_alnum ends_alnum all_chars count_chars
is_label s =
    (all_chars is_name_char s && leb (count_chars s) 63) && (starts_alnum s && ends_alnum s)

-- `$` also matches before a newline that ends the text.
unfoldable pub drop_newline : String → String
drop_newline String.[] = empty
drop_newline (String.◌∷◌ c String.[]) = if code c == 10 then empty else cons c empty
drop_newline (String.◌∷◌ c (String.◌∷◌ d s)) = cons c (drop_newline (String.◌∷◌ d s))

-- `_NODE_NAME_RE.match(name)`: labels with dots between them.
unfoldable pub is_node_name : String → Bool
unfolding drop_newline is_label split
is_node_name name = all is_label (split b'.' (drop_newline name))

abbrev pub valid_taint_effects : List String
valid_taint_effects = "NoSchedule" ∷ "PreferNoSchedule" ∷ "NoExecute" ∷ []

pub record Taint : Type 0 where
  pub key : String
  pub value : String
  pub effect : String

pub data Parsed {ℓ} (A : Type ℓ) : Type ℓ where
  ok : A → Parsed A
  value_error : Parsed A

-- The check of the key, which is the one for node names.
unfoldable pub checked_key : String → String → String → Parsed Taint
checked_key key value effect =
    if not (str_eq key empty) && is_node_name key
    then ok (record { key = key; value = value; effect = effect })
    else value_error

unfoldable pub parse_taint_spec : String → Parsed Taint
parse_taint_spec spec =
    if contains b':' spec
    then (let key_part = before_last b':' spec in
        let effect = strip (after_last b':' spec) in
        if elem effect valid_taint_effects
        then (if contains b'=' key_part
            then checked_key (strip (before b'=' key_part)) (strip (after b'=' key_part)) effect
            else checked_key (strip key_part) empty effect)
        else value_error)
    else value_error

-- `rendered` in `taint_node` and `untaint_node`.
unfoldable pub render_taint : Taint → String
render_taint t =
    if str_eq t.value empty
    then t.key ++ (":" ++ t.effect)
    else t.key ++ ("=" ++ (t.value ++ (":" ++ t.effect)))
