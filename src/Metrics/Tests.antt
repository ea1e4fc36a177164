-- ===== src/Metrics/Tests.antt =====
-- Runs of the quantities of memory.
use k8s_mcp.Base.{
  ℕ, String, ◌≡◌, refl, true, Option, none, some, [], ◌∷◌, here, there, arith, if◌then◌else◌,
}
use k8s_mcp.Base.Text.Search.{ends_with}
use k8s_mcp.Metrics.{Usage, key_error, parse_mem, suffix_of, top_rows}
use k8s_mcp.Metrics.Small.{small_pod_fails}

-- A reading of numbers that refuses a text that ends with the letter B.
abbrev scaled : String → ℕ → Option ℕ
scaled s unit = if ends_with "B" s then none else some unit

pebibytes_run : parse_mem scaled "2Pi" ≡ key_error
unfolding parse_mem suffix_of ends_with
pebibytes_run = refl

abbrev tiny : Usage
tiny = record { name = "tiny"; namespace = "shop"; cpu = "1m"; memory_bytes = 512 }

abbrev large : Usage
large = record { name = "large"; namespace = "shop"; cpu = "1m"; memory_bytes = 5000000 }

refused_text : (s : String) → ends_with "B" s ≡ true → scaled s 1 ≡ none
refused_text s h = rw h refl

small_pod_fails_example : top_rows scaled (λ n. "1.0") "cpu" (large ∷ tiny ∷ []) ≡ none
small_pod_fails_example =
    small_pod_fails scaled (λ n. "1.0") refused_text "cpu" (large ∷ tiny ∷ [])
      (there (here (omega arith, omega arith)))
