-- ===== src/Notifier/Message.antt =====
-- `_parse_markdown_sections` and `_compose_title`. The lines are those of `str.splitlines`.
pub mod Sections
use Prim.Native.String.{◌++◌ as ◌+++◌}
use k8s_mcp.Base.{
  ℕ, String, Bool, true, false, not, Option, none, some, List, [], ◌∷◌, ◌++◌, select, map, is_empty,
  str_eq, if◌then◌else◌,
}
use k8s_mcp.Base.Text.{empty, strip}
use k8s_mcp.Base.Text.Search.{starts_with}
use k8s_mcp.Logs.Lines.{splitlines, take_chars}

abbrev pub is_heading : String → Bool
is_heading ln = starts_with "## " ln

abbrev pub is_blank : String → Bool
is_blank ln = str_eq (strip ln) empty

-- The lines from the first that is not blank on.
unfoldable pub drop_blank : List String → List String
drop_blank [] = []
drop_blank (l ∷ ls) = let rest = drop_blank ls in if is_blank l then rest else l ∷ ls

-- The lines before the first heading, and those from it on.
unfoldable pub before_heading : List String → List String
before_heading [] = []
before_heading (l ∷ ls) = let rest = before_heading ls in if is_heading l then [] else l ∷ rest

unfoldable pub from_heading : List String → List String
from_heading [] = []
from_heading (l ∷ ls) = let rest = from_heading ls in if is_heading l then l ∷ ls else rest

-- `"\n".join(ls)`
unfoldable pub join_lines : List String → String
join_lines [] = empty
join_lines (l ∷ []) = l
join_lines (l ∷ m ∷ ls) = l +++ ("\n" +++ join_lines (m ∷ ls))

-- The loop that starts a new block at each heading, with the block so far.
unfoldable pub blocks : List String → List String → List (List String)
blocks [] [] = []
blocks (c ∷ cs) [] = (c ∷ cs) ∷ []
blocks [] (l ∷ ls) = blocks (l ∷ []) ls
blocks (c ∷ cs) (l ∷ ls) =
    let next = blocks (l ∷ []) ls in
    let same = blocks ((c ∷ cs) ++ l ∷ []) ls in if is_heading l then (c ∷ cs) ∷ next else same

abbrev pub first_stripped : List String → String
first_stripped [] = empty
first_stripped (l ∷ ls) = strip l

-- The text before the first heading and the sections.
unfoldable pub sections_of : List String → String × List String
sections_of content = elim (from_heading content) [
  | [] ↦ (first_stripped content, [])
  | l ∷ ls ↦ (
    strip (join_lines (before_heading content)),
    select (λ s. not (str_eq s empty)) (map (λ b. strip (join_lines b)) (blocks [] (l ∷ ls))),
  )
]

unfoldable pub parse_markdown_sections : String → String × List String
parse_markdown_sections message = sections_of (drop_blank (splitlines message))

-- `title or ""`, stripped, or else what stands before the sections.
abbrev pub own_title : Option String → String
own_title none = empty
own_title (some t) = strip t

unfoldable pub chosen_title : Option String → String → String
chosen_title title message =
    if str_eq (own_title title) empty
    then strip (parse_markdown_sections message).0
    else strip (own_title title)

abbrev pub with_label : String → String → String
with_label cluster_label chosen =
    if str_eq cluster_label empty
    then chosen
    else if str_eq chosen empty
    then "[" +++ (cluster_label +++ "]")
    else "[" +++ (cluster_label +++ ("] " +++ chosen))

unfoldable pub compose_title : Option String → String → String → String
compose_title title message cluster_label =
    let short = take_chars 60 (with_label cluster_label (chosen_title title message)) in
    if str_eq short empty then "Notification" else short
