-- ===== src/Logs/Context.antt =====
-- `_filter_with_context` of logs.py. The search for the pattern in a line is a parameter.
use k8s_mcp.Base.{
  ℕ, ◌+◌, ◌-◌, ◌≤◌, ◌<◌, min, String, ◌≡◌, refl, sym, ◌∙◌, Bool, false, ◌&&◌, List, [], ◌∷◌, length,
  any, select, leb, ltb, ◌==◌, ==_iff, if◌then◌else◌, Bool-cases, inl, inr, arith,
}
use k8s_mcp.Logs.{Record}

-- `[records[i] for i in range(base, ...) if p(i)]`
abbrev pub pick : (ℕ → Bool) → ℕ → List Record → List Record
pick p i [] = []
pick p i (r ∷ records) = let rest = pick p (i + 1) records in if p i then r ∷ rest else rest

-- `i in keep`, for the ranges that `keep` was updated with.
abbrev pub in_ranges : List (ℕ × ℕ) → ℕ → Bool
in_ranges ranges i = any (λ (range : ℕ × ℕ). leb range.0 i && ltb i range.1) ranges

-- What the lines around a match mean: a position is near if a match is at most `context` away.
abbrev pub near : ℕ → List ℕ → ℕ → Bool
near context matches i = any (λ j. leb j (i + context) && leb i (j + context)) matches

pick-pick :
    (p q : ℕ → Bool) (i : ℕ) (records : List Record)
    → ((k : ℕ) → i ≤ k → k < i + length records → p k ≡ q k)
    → pick p i records ≡ pick q i records
pick-pick p q i [] agree = refl
pick-pick p q i (r ∷ records) agree =
    let here_ = agree i (omega arith) (omega arith) in
    let rest =
      pick-pick p q (i + 1) records
        (λ k low high. agree k (omega (arith, low)) (omega (arith, high))) in
    rw (here_, rest) refl

module _ (search : String → Bool) where
  -- The positions of the records whose line matches.
  abbrev pub matches : ℕ → List Record → List ℕ
  matches i [] = []
  matches i (r ∷ records) =
      let rest = matches (i + 1) records in if search r.line then i ∷ rest else rest

  -- The loop over `enumerate(records)`; `total` is `len(records)`.
  unfoldable pub ranges : ℕ → ℕ → ℕ → List Record → List (ℕ × ℕ)
  ranges total context i [] = []
  ranges total context i (r ∷ records) =
      let rest = ranges total context (i + 1) records in
      if search r.line then (i - context, min total (i + context + 1)) ∷ rest else rest

  -- A negative `context_lines` does what zero does.
  unfoldable pub filter_with_context : List Record → ℕ → List Record
  filter_with_context records context =
      if context == 0
      then select (λ (r : Record). search r.line) records
      else pick (in_ranges (ranges (length records) context 0 records)) 0 records

  ranges-near :
      (total context i k : ℕ) (records : List Record)
      → k < total
      → in_ranges (ranges total context i records) k ≡ near context (matches i records) k
  unfolding ranges
  ranges-near total context i k [] inside = refl
  ranges-near total context i k (r ∷ records) inside =
      let rest = ranges-near total context (i + 1) k records inside in
      elim (Bool-cases (search r.line)) [
        | inl hit ↦ rw (hit, rest) (ground arith)
        | inr miss ↦ rw (miss, rest) refl
      ]

  no_match_before : (i k : ℕ) (records : List Record) → k < i → near 0 (matches i records) k ≡ false
  no_match_before i k [] h = refl
  no_match_before i k (r ∷ records) h =
      ground (arith, no_match_before (i + 1) k records (omega (arith, h)))

  match_here :
      (i : ℕ) (r : Record) (records : List Record)
      → near 0 (matches i (r ∷ records)) i ≡ search r.line
  match_here i r records = ground (arith, no_match_before (i + 1) i records (omega arith))

  match_later :
      (i k : ℕ) (r : Record) (records : List Record)
      → i + 1 ≤ k
      → near 0 (matches i (r ∷ records)) k ≡ near 0 (matches (i + 1) records) k
  match_later i k r records low = ground (arith, low)

  select-pick :
      (p : ℕ → Bool) (i : ℕ) (records : List Record)
      → ((k : ℕ) → i ≤ k → p k ≡ near 0 (matches i records) k)
      → pick p i records ≡ select (λ (r : Record). search r.line) records
  select-pick p i [] agree = refl
  select-pick p i (r ∷ records) agree =
      let later : (k : ℕ) → i + 1 ≤ k → p k ≡ near 0 (matches (i + 1) records) k =
        λ k low. agree k (omega (arith, low)) ∙ match_later i k r records low in
      rw (agree i (omega arith) ∙ match_here i r records, select-pick p (i + 1) records later) refl

  -- The filter keeps, in order, exactly the records within `context` positions of one whose line
  -- matches; with no context, exactly those whose line matches.
  pub filter_with_context_lem :
      (records : List Record) (context : ℕ)
      → filter_with_context records context ≡ pick (near context (matches 0 records)) 0 records
  unfolding filter_with_context
  filter_with_context_lem records context = elim (Bool-cases (context == 0)) [
    | inl none_ ↦
        rw (none_, (==_iff context 0).0 none_)
          (sym (select-pick (near 0 (matches 0 records)) 0 records (λ k low. refl)))
    | inr some_ ↦ rw some_ (
        pick-pick (in_ranges (ranges (length records) context 0 records))
          (near context (matches 0 records)) 0 records
          (λ k low high. ranges-near (length records) context 0 k records (omega (arith, high))))
  ]
