-- ===== src/Metrics.antt =====
-- src/k8s_mcp/tools/metrics.py: quantities of memory, the sorted rows of `top_pods`, the merge of two queries
-- and the guard of `bootstrap_metrics_server`. Arithmetic on floats is a parameter.
pub mod Small
mod Tests
use Prim.Native.String.{◌++◌ as ◌+++◌}
use k8s_mcp.Base.{
  ℕ, String, Bool, true, false, not, Option, none, some, List, [], ◌∷◌, ◌*◌, ◌-◌, ◌/◌, ◌==◌, map,
  lookup, ltb, leb, str_eq, if◌then◌else◌,
}
use k8s_mcp.Base.Text.{empty}
use k8s_mcp.Base.Text.Decimal.{show}
use k8s_mcp.Base.Text.Search.{count_chars, ends_with, before, after, replace_char}
use k8s_mcp.Config.{Settings}
use k8s_mcp.Generic.Diff.{sorted_union}
use k8s_mcp.Logs.Lines.{take_chars}

abbrev pub units : List (String × ℕ)
units =
    ("Ki", 1024)
    ∷ ("Mi", 1048576)
    ∷ ("Gi", 1073741824)
    ∷ ("Ti", 1099511627776)
    ∷ ("K", 1000)
    ∷ ("M", 1000000)
    ∷ ("G", 1000000000)
    ∷ ("T", 1000000000000)
    ∷ []

pub data Parsed : Type 0 where
  bytes : ℕ → Parsed
  value_error : Parsed
  key_error : Parsed

abbrev pub as_bytes : Option ℕ → Parsed
as_bytes none = value_error
as_bytes (some n) = bytes n

-- The first of the suffixes that a text ends with.
unfoldable pub suffix_of : String → List String → Option String
suffix_of v [] = none
suffix_of v (u ∷ us) = let rest = suffix_of v us in if ends_with u v then some u else rest

abbrev pub long_suffixes : List String
long_suffixes = "Ei" ∷ "Pi" ∷ "Ti" ∷ "Gi" ∷ "Mi" ∷ "Ki" ∷ []

abbrev pub short_suffixes : List String
short_suffixes = "E" ∷ "P" ∷ "T" ∷ "G" ∷ "M" ∷ "K" ∷ []

-- `int(float(num) * unit)`, without a result where `float` raises ValueError.
module _ (scaled : String → ℕ → Option ℕ) where
  abbrev pub with_unit : String → String → Parsed
  with_unit v u = elim (lookup u units) [
    | none ↦ key_error
    | some unit ↦ as_bytes (scaled (take_chars (count_chars v - count_chars u) v) unit)
  ]

  unfoldable pub parse_mem : String → Parsed
  parse_mem v = elim (suffix_of v long_suffixes) [
    | some u ↦ with_unit v u
    | none ↦ elim (suffix_of v short_suffixes) [
      | some u ↦ with_unit v u
      | none ↦ as_bytes (scaled v 1)
    ]
  ]

-- The text of a number of bytes; that of gibibytes with one decimal is a parameter.
unfoldable pub fmt_mem : (ℕ → String) → ℕ → String
fmt_mem gibibytes n =
    if n == 0
    then "0"
    else if ltb n 1024
    then show n +++ "B"
    else if ltb n 1048576
    then show (n / 1024) +++ "Ki"
    else if ltb n 1073741824
    then show (n / 1048576) +++ "Mi"
    else gibibytes n +++ "Gi"

pub record Row : Type 0 where
  pub name : String
  pub namespace : String
  pub cpu : String
  pub memory : String

-- A pod with the text of its CPU use and its bytes of memory.
pub record Usage : Type 0 where
  pub name : String
  pub namespace : String
  pub cpu : String
  pub memory_bytes : ℕ

abbrev pub row_of : (ℕ → String) → Usage → Row
row_of gibibytes u = record {
  name = u.name;
  namespace = u.namespace;
  cpu = u.cpu;
  memory = fmt_mem gibibytes u.memory_bytes;
}

-- The keys of the sort, which reads the texts of the rows again.
unfoldable pub keyed : (String → ℕ → Option ℕ) → List Row → Option (List (ℕ × Row))
keyed scaled [] = some []
keyed scaled (r ∷ rs) =
    let rest = keyed scaled rs in
    elim (parse_mem scaled r.memory) [
      | bytes n ↦ elim rest [ none ↦ none | some ks ↦ some ((n, r) ∷ ks) ]
      | value_error ↦ none
      | key_error ↦ none
    ]

-- A stable sort by the keys, upwards or downwards.
unfoldable pub insert_row : Bool → ℕ × Row → List (ℕ × Row) → List (ℕ × Row)
insert_row down k [] = k ∷ []
insert_row down k (j ∷ js) =
    let rest = insert_row down k js in
    if (if down then leb j.0 k.0 else leb k.0 j.0) then k ∷ j ∷ js else j ∷ rest

unfoldable pub sort_rows : Bool → List (ℕ × Row) → List (ℕ × Row)
sort_rows down [] = []
sort_rows down (k ∷ ks) = insert_row down k (sort_rows down ks)

-- The rows of `top_pods`, if the sort does not raise an exception.
unfoldable pub top_rows :
    (String → ℕ → Option ℕ) → (ℕ → String) → String → List Usage → Option (List Row)
top_rows scaled gibibytes sort_by us = elim (keyed scaled (map (row_of gibibytes) us)) [
  | none ↦ none
  | some ks ↦ some (map (λ k. k.1) (sort_rows (str_eq sort_by "memory") ks))
]

-- The rows of a query, as `dict` keeps them: the last for each key.
abbrev pub last_of : String → List (String × String) → Option String
last_of k [] = none
last_of k ((j, v) ∷ rows) = elim (last_of k rows) [
  | some w ↦ some w
  | none ↦ if str_eq j k then some v else none
]

abbrev pub or_zero_text : Option String → String
or_zero_text none = "0"
or_zero_text (some v) = v

abbrev pub row_keys : List (String × String) → List String
row_keys rows = map (λ r. r.0) rows

-- Pod, namespace, CPU and memory of each key of either query, in order.
unfoldable pub merge_by_pod :
    List (String × String) → List (String × String) → List (String × (String × (String × String)))
merge_by_pod cpu_rows mem_rows =
    map
      (λ k. (
        after b'/' k,
        (before b'/' k, (or_zero_text (last_of k cpu_rows), or_zero_text (last_of k mem_rows))),
      ))
      (sorted_union (row_keys cpu_rows) (row_keys mem_rows))

unfoldable pub merge_by_node :
    List (String × String) → List (String × String) → List (String × (String × String))
merge_by_node cpu_rows mem_rows =
    map (λ k. (k, (or_zero_text (last_of k cpu_rows), or_zero_text (last_of k mem_rows))))
      (sorted_union (row_keys cpu_rows) (row_keys mem_rows))

unfoldable pub promql_escape : String → String
promql_escape s = replace_char b'"' "\\\"" (replace_char b'\\' "\\\\" s)

unfoldable pub write_permitted : Settings → Bool
write_permitted settings =
    if settings.read_only
    then false
    else elim settings.namespace_allowlist [ none ↦ true | some l ↦ false ]
