-- ===== src/Usage/MixedUnits.antt =====
-- How the audit compares a number of cores with one of millicores.
use k8s_mcp.Base.{ℕ, String, ◌≡◌, refl, true, false, Option, some, ◌<◌, lt→ltb, str_eq}
use k8s_mcp.Base.Json.{Json, end, field}
use k8s_mcp.Base.Text.{strip}
use k8s_mcp.Base.Text.Search.{ends_with}
use k8s_mcp.Usage.{front, quantity, cpu_or_mem_to_millicpus, any_below}

module _ (print : Json → String) (int_of : String → Option ℕ) where
  -- A container whose request is a number of millicores and whose limit is a number of whole cores is reported
  -- as one whose limit is below its request whenever the two numbers are in that order, as with a request
  -- of 500 millicores and a limit of one core.
  pub cores_below_millicores :
      (request limit : Json) (n k : ℕ)
      → str_eq (print limit) (print request) ≡ false
      → ends_with "m" (strip (print request)) ≡ true
      → int_of (front 1 (strip (print request))) ≡ some n
      → ends_with "m" (strip (print limit)) ≡ false
      → ends_with "Gi" (strip (print limit)) ≡ false
      → ends_with "Mi" (strip (print limit)) ≡ false
      → ends_with "G" (strip (print limit)) ≡ false
      → ends_with "M" (strip (print limit)) ≡ false
      → int_of (strip (print limit)) ≡ some k
      → k < n
      → any_below print int_of (field "cpu" request end) (field "cpu" limit end) ≡ true
  unfolding any_below cpu_or_mem_to_millicpus quantity
  cores_below_millicores request limit n k other millis n_is a b c d e k_is less =
      rw
        (
          any_below,
          cpu_or_mem_to_millicpus,
          quantity,
          other,
          millis,
          n_is,
          a,
          b,
          c,
          d,
          e,
          k_is,
          lt→ltb k n less,
        )
        refl
