-- ===== src/Formatters/Tests.antt =====
-- Runs of the formatters, and the theorems at concrete values.
use k8s_mcp.Base.{String, ◌≡◌, refl, List, [], ◌∷◌}
use k8s_mcp.Base.Text.Decimal.{show}
use k8s_mcp.Base.Json.{Json, str, Fields, end, field}
use k8s_mcp.Nodes.Drain.{pos, negsuc}
use k8s_mcp.Formatters.Age.{ago, scale, format_age, format_relative_time}
use k8s_mcp.Formatters.Table.{short_table, display_value, ljust, join_cells, repeat, widest, width}
use k8s_mcp.Base.Text.Search.{count_chars}

age_run :
    (format_age (ago (pos 7300)) ≡ "2h")
    × (format_relative_time (ago (pos 59)) ≡ "59s ago")
    × (format_age (ago (negsuc 4)) ≡ "0s")
unfolding format_age format_relative_time scale show
age_run = (refl, refl, refl)

abbrev plain : Json → String
plain (str s) = s
plain _ = "?"

abbrev rows : List Fields
rows = field "NAME" (str "web") end ∷ field "NAME" (str "db-1") (field "AGE" (str "5m") end) ∷ []

table_run :
    short_table plain plain rows ("NAME" ∷ "AGE" ∷ [])
    ≡ "NAME  AGE" ∷ "----  ---" ∷ "web      " ∷ "db-1  5m " ∷ []
unfolding short_table display_value ljust join_cells repeat widest width count_chars
table_run = refl
