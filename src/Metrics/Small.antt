-- ===== src/Metrics/Small.antt =====
-- Pods that use less than a kibibyte of memory.
use Prim.Native.Char.{code}
use Prim.Native.String.{◌++◌ as ◌+++◌}
use Prim.Native.String.append
use k8s_mcp.Base.{
  ℕ, String, ◌≡◌, refl, sym, ap, ◌∙◌, ◌<◌, true, false, Option, none, some, Bool-cases, inl, inr,
  List, [], ◌∷◌, map, Any, here, there, lt→ltb, ◌==◌, str_eq, eq_iff, arith,
}
use k8s_mcp.Base.Text.{empty, cons}
use k8s_mcp.Base.Text.Decimal.{show}
use k8s_mcp.Base.Text.Search.{ends_with}
use k8s_mcp.Metrics.{
  Parsed, bytes, key_error, value_error, suffix_of, long_suffixes, short_suffixes, parse_mem,
  fmt_mem, Usage, row_of, keyed, top_rows,
}

-- The code of a text's last character.
abbrev pub or_code : ℕ → Option ℕ → Option ℕ
or_code c none = some c
or_code c (some d) = some d

last_code : String → Option ℕ
last_code String.[] = none
last_code (String.◌∷◌ c s) = or_code (code c) (last_code s)

last_code-ends_with :
    (p s : String) (y : ℕ) → last_code p ≡ some y → ends_with p s ≡ true → last_code s ≡ some y
unfolding last_code ends_with
last_code-ends_with p String.[] y f h = ap (λ t. last_code t) (sym ((eq_iff p empty).0 h)) ∙ f
last_code-ends_with p (String.◌∷◌ c s) y f h = elim (Bool-cases (str_eq p (cons c s))) [
  | inl e ↦ ap (λ t. last_code t) (sym ((eq_iff p (cons c s)).0 e)) ∙ f
  | inr e ↦ rw (last_code-ends_with p s y f (ground (arith, e, h))) refl
]

last_code-append : (s u : String) (y : ℕ) → last_code u ≡ some y → last_code (s +++ u) ≡ some y
unfolding last_code
last_code-append String.[] u y f = rw append.nil f
last_code-append (String.◌∷◌ c s) u y f = rw (append.cons, last_code-append s u y f) refl

-- No suffix with another last character is found.
other_suffix :
    (p s : String) (x y : ℕ)
    → last_code p ≡ some x
    → last_code s ≡ some y
    → (x == y) ≡ false
    → ends_with p s ≡ false
other_suffix p s x y f g h = elim (Bool-cases (ends_with p s)) [
  | inr e ↦ e
  | inl e ↦
      let same : some x ≡ some y = sym (last_code-ends_with p s x f e) ∙ g in
      ground (arith, h, same)
]

no_suffix :
    (s : String)
    → last_code s ≡ some b'B'
    → (suffix_of s long_suffixes ≡ none) × (suffix_of s short_suffixes ≡ none)
unfolding suffix_of last_code
no_suffix s g = (
  rw
      (
        other_suffix "Ei" s b'i' b'B' refl g refl,
        other_suffix "Pi" s b'i' b'B' refl g refl,
        other_suffix "Ti" s b'i' b'B' refl g refl,
        other_suffix "Gi" s b'i' b'B' refl g refl,
        other_suffix "Mi" s b'i' b'B' refl g refl,
        other_suffix "Ki" s b'i' b'B' refl g refl,
      )
      refl,
  rw
      (
        other_suffix "E" s b'E' b'B' refl g refl,
        other_suffix "P" s b'P' b'B' refl g refl,
        other_suffix "T" s b'T' b'B' refl g refl,
        other_suffix "G" s b'G' b'B' refl g refl,
        other_suffix "M" s b'M' b'B' refl g refl,
        other_suffix "K" s b'K' b'B' refl g refl,
      )
      refl,
)

module _ (scaled : String → ℕ → Option ℕ) (gibibytes : ℕ → String)
    (refuses : (s : String) → ends_with "B" s ≡ true → scaled s 1 ≡ none) where
  ends_with_B : (s : String) → ends_with "B" (s +++ "B") ≡ true
  unfolding ends_with
  ends_with_B String.[] = refl
  ends_with_B (String.◌∷◌ c s) = rw (append.cons, ends_with_B s) (ground arith)

  parse_mem-refused :
      (s : String)
      → last_code s ≡ some b'B'
      → ends_with "B" s ≡ true
      → parse_mem scaled s ≡ value_error
  unfolding parse_mem
  parse_mem-refused s g h =
      let (long, short) = no_suffix s g in rw (parse_mem, long, short, refuses s h) refl

  fmt_mem-small : (n : ℕ) → 0 < n → n < 1024 → fmt_mem gibibytes n ≡ show n +++ "B"
  unfolding fmt_mem
  fmt_mem-small n low high =
      let filled : (n == 0) ≡ false = ground arith in rw (fmt_mem, filled, lt→ltb n 1024 high) refl

  parse_mem-fmt_mem :
      (n : ℕ) → 0 < n → n < 1024 → parse_mem scaled (fmt_mem gibibytes n) ≡ value_error
  unfolding last_code
  parse_mem-fmt_mem n low high = rw (fmt_mem-small n low high) (
      parse_mem-refused (show n +++ "B") (last_code-append (show n) "B" b'B' refl)
        (ends_with_B (show n)))

  later_fails :
      (u : Usage) (us : List Usage)
      → keyed scaled (map (row_of gibibytes) us) ≡ none
      → (p : Parsed) → parse_mem scaled (fmt_mem gibibytes u.memory_bytes) ≡ p
      → keyed scaled (map (row_of gibibytes) (u ∷ us)) ≡ none
  unfolding keyed
  later_fails u us rest (bytes n) e = rw (keyed, e, rest) refl
  later_fails u us rest value_error e = rw (keyed, e) refl
  later_fails u us rest key_error e = rw (keyed, e) refl

  keyed-fails :
      (us : List Usage)
      → Any (λ (u : Usage). (0 < u.memory_bytes) × (u.memory_bytes < 1024)) us
      → keyed scaled (map (row_of gibibytes) us) ≡ none
  unfolding keyed
  keyed-fails [] h = elim h [ ]
  keyed-fails (u ∷ us) (here (low, high)) =
      rw (keyed, parse_mem-fmt_mem u.memory_bytes low high) refl
  keyed-fails (u ∷ us) (there h) =
      later_fails u us (keyed-fails us h) (parse_mem scaled (fmt_mem gibibytes u.memory_bytes)) refl

  -- If float refuses a text that ends with the letter B, then top_pods raises an exception, whatever the order
  -- asked for, as soon as one of its pods uses some memory but less than 1024 bytes.
  pub small_pod_fails :
      (sort_by : String) (us : List Usage)
      → Any (λ (u : Usage). (0 < u.memory_bytes) × (u.memory_bytes < 1024)) us
      → top_rows scaled gibibytes sort_by us ≡ none
  unfolding top_rows
  small_pod_fails sort_by us h = rw (top_rows, keyed-fails us h) refl
