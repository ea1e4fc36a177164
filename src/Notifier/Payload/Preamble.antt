-- ===== src/Notifier/Payload/Preamble.antt =====
-- What a card shows of the text before the first heading.
use k8s_mcp.Base.{String, ◌≡◌, refl, sym, ◌∙◌, false, some, List, [], ◌∷◌, is_empty, str_eq}
use k8s_mcp.Base.Text.{empty, strip}
use k8s_mcp.Logs.Lines.{splitlines}
use k8s_mcp.Notifier.Message.{
  drop_blank, from_heading, sections_of, parse_markdown_sections, chosen_title, compose_title,
}
use k8s_mcp.Notifier.Payload.{card_elements, build_feishu_card}

abbrev pub headed_lines : String → List String
headed_lines message = from_heading (drop_blank (splitlines message))

sections_same :
    (a b : List String)
    → from_heading a ≡ from_heading b
    → is_empty (sections_of a).1 ≡ false
    → (sections_of a).1 ≡ (sections_of b).1
unfolding sections_of
sections_same a b h s =
    elim (from_heading a) as (λ f. from_heading a ≡ f → (sections_of a).1 ≡ (sections_of b).1) [
      | [] ↦ λ e. rw (sections_of, e, sym h ∙ e) refl
      | l ∷ ls ↦ λ e. rw (sections_of, e, sym h ∙ e) refl
    ]
      refl

parsed_same :
    (message message' : String)
    → headed_lines message ≡ headed_lines message'
    → is_empty (parse_markdown_sections message).1 ≡ false
    → (parse_markdown_sections message).1 ≡ (parse_markdown_sections message').1
unfolding parse_markdown_sections
parsed_same message message' h s =
    sections_same (drop_blank (splitlines message)) (drop_blank (splitlines message')) h s

elements_same :
    (message message' : String) (ss : List String)
    → is_empty ss ≡ false
    → card_elements message ss ≡ card_elements message' ss
unfolding card_elements
elements_same message message' [] h = cc
elements_same message message' (s ∷ ss) h = refl

-- Two messages with the same lines from the first heading on, of which one section at least has a text, and
-- a title that is not blank, make the same card.
pub card_drops_preamble :
    (message message' title level cluster_label : String)
    → str_eq (strip title) empty ≡ false
    → headed_lines message ≡ headed_lines message'
    → is_empty (parse_markdown_sections message).1 ≡ false
    → build_feishu_card message (some title) level cluster_label
      ≡ build_feishu_card message' (some title) level cluster_label
unfolding build_feishu_card compose_title chosen_title
card_drops_preamble message message' title level cluster_label t h s =
    let same : (parse_markdown_sections message).1 ≡ (parse_markdown_sections message').1 =
      parsed_same message message' h s in
    rw (t, ← same, elements_same message message' (parse_markdown_sections message).1 s) refl
