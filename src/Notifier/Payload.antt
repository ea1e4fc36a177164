-- ===== src/Notifier/Payload.antt =====
-- `_build_feishu_card`, `_build_feishu_post` and `_build_payload`. The time stamp is a parameter.
pub mod Preamble
use Prim.Native.String.{◌++◌ as ◌+++◌}
use k8s_mcp.Base.{
  ℕ, String, Bool, true, false, not, Option, none, some, List, [], ◌∷◌, ◌++◌, zero, suc, select,
  map, lookup, is_empty, str_eq, if◌then◌else◌,
}
use k8s_mcp.Base.Json.{
  Json, null, boolean, int, float, str, arr, obj, Fields, nil, get, items_of, entry, dict,
}
use k8s_mcp.Base.Text.{empty, strip}
use k8s_mcp.Logs.Lines.{splitlines, take_chars}
use k8s_mcp.Notifier.Message.{is_blank, parse_markdown_sections, compose_title}

abbrev pub level_header_color : List (String × String)
level_header_color = ("info", "blue") ∷ ("warning", "orange") ∷ ("critical", "red") ∷ []

abbrev pub level_prefix : List (String × String)
level_prefix =
    ("info", "ℹ\u{fe0f}  [INFO]")
    ∷ ("warning", "⚠\u{fe0f}  [WARNING]")
    ∷ ("critical", "❌ [CRITICAL]")
    ∷ []

abbrev pub found_or : Option String → String → String
found_or none t = t
found_or (some s) t = s

abbrev pub markdown_div : String → Json
markdown_div content = obj (
    dict (
      ("tag", str "div")
      ∷ ("text", obj (dict (("tag", str "lark_md") ∷ ("content", str content) ∷ [])))
      ∷ []))

-- The sections, with a rule before each but the first.
unfoldable pub section_elements : List String → List Json
section_elements [] = []
section_elements (s ∷ []) = markdown_div (take_chars 2000 s) ∷ []
section_elements (s ∷ t ∷ ss) =
    markdown_div (take_chars 2000 s) ∷ entry "tag" (str "hr") ∷ section_elements (t ∷ ss)

abbrev pub body_text : String → String
body_text message = if str_eq (strip message) empty then "(empty)" else strip message

unfoldable pub card_elements : String → List String → List Json
card_elements message [] = markdown_div (take_chars 2000 (body_text message)) ∷ []
card_elements message (s ∷ ss) = section_elements (s ∷ ss)

unfoldable pub build_feishu_card : String → Option String → String → String → Fields
build_feishu_card message title level cluster_label = dict (
    ("msg_type", str "interactive")
    ∷ (
      "card",
      obj (
          dict (
            ("config", entry "wide_screen_mode" (boolean true))
            ∷ (
              "header",
              obj (
                  dict (
                    (
                      "title",
                      obj (
                          dict (
                            ("tag", str "plain_text")
                            ∷ ("content", str (compose_title title message cluster_label))
                            ∷ [])),
                    )
                    ∷ ("template", str (found_or (lookup level level_header_color) "blue"))
                    ∷ [])),
            )
            ∷ (
              "elements",
              arr (items_of (card_elements message (parse_markdown_sections message).1)),
            )
            ∷ [])),
    )
    ∷ [])

abbrev pub text_line : String → Json
text_line s = arr (items_of (obj (dict (("tag", str "text") ∷ ("text", str s) ∷ [])) ∷ []))

abbrev pub line_paragraphs : List String → List Json
line_paragraphs ls =
    map (λ l. text_line (take_chars 200 (strip l))) (select (λ l. not (is_blank l)) ls)

unfoldable pub paragraphs : List String → List Json
paragraphs [] = []
paragraphs (b ∷ bs) = line_paragraphs (splitlines b) ++ paragraphs bs

abbrev pub or_message : String → List String → List String
or_message message [] = message ∷ []
or_message message (s ∷ ss) = s ∷ ss

abbrev pub or_empty : List Json → List Json
or_empty [] = text_line "(empty)" ∷ []
or_empty (p ∷ ps) = p ∷ ps

abbrev pub take_items : ℕ → List Json → List Json
take_items zero ps = []
take_items (suc n) [] = []
take_items (suc n) (p ∷ ps) = p ∷ take_items n ps

unfoldable pub build_feishu_post : String → Option String → String → Fields
build_feishu_post message title cluster_label =
    let content = or_empty (paragraphs (or_message message (parse_markdown_sections message).1)) in
    dict (
      ("msg_type", str "post")
      ∷ (
        "content",
        entry "post" (
            entry "zh_cn" (
              obj (
                dict (
                  ("title", str (compose_title title message cluster_label))
                  ∷ ("content", arr (items_of (take_items 50 content)))
                  ∷ [])))),
      )
      ∷ [])

-- `notifier.get("cluster_label", "").strip()`, which raises an exception if that is no text.
unfoldable pub cluster_label_of : Fields → Option String
cluster_label_of n = label_text (get "cluster_label" n)
  where
    label_text : Option Json → Option String
    label_text none = some empty
    label_text (some (str s)) = some (strip s)
    label_text (some _) = none

abbrev pub titled : String → Option String → String → String
titled typ none body = body
titled typ (some title) body =
    if str_eq title empty
    then body
    else if str_eq typ "slack"
    then "**" +++ (title +++ ("**\n" +++ body))
    else title +++ ("\n" +++ body)

abbrev pub text_body : String → String → String → Option String → String → String → String
text_body ts level cluster_label title typ message =
    let prefix = found_or (lookup level level_prefix) "[INFO]" in
    let label = if str_eq cluster_label empty then empty else " [" +++ (cluster_label +++ "]") in
    titled typ title (prefix +++ (label +++ (" " +++ (ts +++ ("\n" +++ message)))))

abbrev pub text_payload : String → String → String → String → String → Fields
text_payload typ ts level cluster_label body =
    if str_eq typ "feishu"
    then dict (("msg_type", str "text") ∷ ("content", entry "text" (str body)) ∷ [])
    else if str_eq typ "wecom"
    then dict (
        ("msgtype", str "text")
        ∷ ("text", obj (dict (("content", str body) ∷ ("mentioned_list", arr nil) ∷ [])))
        ∷ [])
    else if str_eq typ "slack"
    then dict (("text", str body) ∷ [])
    else dict (
        ("text", str body)
        ∷ ("level", str level)
        ∷ ("cluster_label", str cluster_label)
        ∷ ("timestamp", str ts)
        ∷ [])

-- The payload of a notifier of a type, unless its label is no text.
unfoldable pub build_payload :
    String → String → Fields → String → String → Option String → Option Fields
build_payload ts typ notifier message level title = elim (cluster_label_of notifier) [
  | none ↦ none
  | some cluster_label ↦ some (
      if str_eq typ "feishu_card"
      then build_feishu_card message title level cluster_label
      else if str_eq typ "feishu_post"
      then build_feishu_post message title cluster_label
      else text_payload typ ts level cluster_label
          (text_body ts level cluster_label title typ message))
]
