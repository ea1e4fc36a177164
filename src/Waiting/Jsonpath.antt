-- ===== src/Waiting/Jsonpath.antt =====
-- `_jsonpath` of wait_tool.py. Which characters `\d` matches, and the digit that `int` reads each as, is a
-- parameter.
pub mod RoundTrip
use Prim.Native.Char.{Char, code}
use Prim.Native.String.{◌++◌ as ◌+++◌}
use k8s_mcp.Base.{
  ℕ, String, Bool, true, false, ◌||◌, Option, none, some, List, [], ◌∷◌, ◌++◌, zero, suc, ◌+◌, ◌*◌,
  ◌-◌, ltb, ◌==◌, str_eq, length, if◌then◌else◌,
}
use k8s_mcp.Base.Json.{Json, arr, Fields, get, as_dict, items}
use k8s_mcp.Base.Text.{empty, cons}
use k8s_mcp.Base.Text.Search.{before, after}

-- A match of the pattern: `.name`, or `[n]` with its sign and number.
pub data Token : Type 0 where
  key : String → Token
  index : Bool → ℕ → Token

-- How far `re.findall` is in a match.
pub data Mark : Type 0 where
  between : Mark
  name : String → Mark
  bracket : Mark
  minus : Mark
  number : Bool → ℕ → Mark

abbrev pub fresh : ℕ → Mark
fresh c = if c == b'.' then name empty else if c == b'[' then bracket else between

-- The match that ends here, if there is one.
abbrev pub flush : Mark → List Token
flush (name s) = if str_eq s empty then [] else key s ∷ []
flush _ = []

module _ (decimal : ℕ → Option ℕ) where
  unfoldable pub advance : Mark → Char → List Token × Mark
  advance between c = ([], fresh (code c))
  advance (name s) c =
      if code c == b'.' || code c == b'['
      then (flush (name s), fresh (code c))
      else ([], name (s +++ cons c empty))
  advance bracket c =
      if code c == b'-'
      then ([], minus)
      else elim (decimal (code c)) [ none ↦ ([], fresh (code c)) | some d ↦ ([], number false d) ]
  advance minus c = elim (decimal (code c)) [
    | none ↦ ([], fresh (code c))
    | some d ↦ ([], number true d)
  ]
  advance (number negative n) c =
      if code c == b']' then (index negative n ∷ [], between) else elim (decimal (code c)) [
        | none ↦ ([], fresh (code c))
        | some d ↦ ([], number negative (n * 10 + d))
      ]

  -- `re.findall(r"\.[^.\[]+|\[\-?\d+\]", s)`
  unfoldable pub scan : Mark → String → List Token
  scan m String.[] = flush m
  scan m (String.◌∷◌ c s) = (advance m c).0 ++ scan (advance m c).1 s

-- A value, or `LookupError`, of which `IndexError` is a kind.
pub data Found : Type 0 where
  value : Json → Found
  lookup_error : Found

abbrev pub as_found : Option Json → Found
as_found none = lookup_error
as_found (some v) = value v

abbrev pub as_list : Json → Option (List Json)
as_list (arr vs) = some (items vs)
as_list _ = none

abbrev pub nth : List Json → ℕ → Option Json
nth [] n = none
nth (v ∷ vs) zero = some v
nth (v ∷ vs) (suc n) = nth vs n

-- `cur[idx]` on a list, from the end if the index is negative.
unfoldable pub at_index : List Json → Bool → ℕ → Option Json
at_index vs false n = nth vs n
at_index vs true zero = nth vs 0
at_index vs true (suc n) = if ltb n (length vs) then nth vs (length vs - suc n) else none

unfoldable pub step : Json → Token → Found
step cur (key k) = elim (as_dict cur) [ none ↦ lookup_error | some fs ↦ as_found (get k fs) ]
step cur (index negative n) = elim (as_list cur) [
  | none ↦ lookup_error
  | some vs ↦ as_found (at_index vs negative n)
]

-- The loop over the tokens.
unfoldable pub walk : Json → List Token → Found
walk cur [] = value cur
walk cur (t ∷ ts) = elim (step cur t) [ lookup_error ↦ lookup_error | value v ↦ walk v ts ]

abbrev pub starts_with_dot : String → Bool
starts_with_dot String.[] = false
starts_with_dot (String.◌∷◌ c s) = code c == b'.'

unfoldable pub jsonpath : (ℕ → Option ℕ) → Json → String → Found
jsonpath decimal o expr =
    if starts_with_dot expr
    then walk o (scan decimal between expr)
    else let rest = scan decimal between ("." +++ after b'.' expr) in
      if str_eq (before b'.' expr) empty
      then walk o rest
      else walk o (key (before b'.' expr) ∷ rest)
