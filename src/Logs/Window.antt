-- ===== src/Logs/Window.antt =====
-- `_parse_rfc3339`, `_record_dt` and `_filter_by_time` of logs.py. `datetime.fromisoformat` is a
-- parameter. Moments are counted from a fixed one.
use Prim.Native.String.{◌++◌ as ◌&◌}
use k8s_mcp.Base.{
  ℕ, String, ◌≡◌, ◌↔◌, inl, inr, refl, sym, ◌∙◌, Bool, true, false, ◌&&◌, ◌||◌, not, Option, none,
  some, List, [], ◌∷◌, select, str_eq, ◌==◌, ltb, ◌≤◌, if◌then◌else◌, Option-cases, Bool-cases,
  and-eq-true, is_some, arith,
}
use k8s_mcp.Base.Text.{empty, cons, strip}
use k8s_mcp.Base.Text.Search.{contains}
use k8s_mcp.Logs.{Record}
use Prim.Native.Char.{code}

-- What `datetime.fromisoformat` reads: a wall time without a zone, or one with its zone, of which
-- only the moment in UTC is used.
pub data IsoTime : Type 0 where
  naive : ℕ → IsoTime
  aware : ℕ → IsoTime

-- `s.replace(" ", "T", 1)`
unfoldable pub replace_first_space : String → String
replace_first_space String.[] = empty
replace_first_space (String.◌∷◌ c s) =
    let rest = replace_first_space s in if code c == b' ' then "T" & s else cons c rest

-- The text with a final `Z` written as an offset.
unfoldable pub zulu_as_offset : String → String
zulu_as_offset String.[] = empty
zulu_as_offset (String.◌∷◌ c String.[]) = if code c == b'Z' then "+00:00" else cons c empty
zulu_as_offset (String.◌∷◌ c (String.◌∷◌ d s)) = cons c (zulu_as_offset (String.◌∷◌ d s))

unfoldable pub normalized_time : String → String
normalized_time value =
    let s = strip value in
    zulu_as_offset (if contains b' ' s && not (contains b'T' s) then replace_first_space s else s)

module _ (fromisoformat : String → Option IsoTime) where
  -- `none` is the `ValueError`.
  unfoldable pub parse_rfc3339 : String → Option ℕ
  parse_rfc3339 value =
      if str_eq value empty then none else elim (fromisoformat (normalized_time value)) [
        | none ↦ none
        | some (naive t) ↦ some t
        | some (aware t) ↦ some t
      ]

  unfoldable pub record_dt : Record → Option ℕ
  record_dt r = let ts = strip r.time in if str_eq ts empty then none else parse_rfc3339 ts

  -- The two tests against the bounds.
  abbrev pub before_since : Option ℕ → ℕ → Bool
  before_since none dt = false
  before_since (some since) dt = ltb dt since

  abbrev pub after_until : Option ℕ → ℕ → Bool
  after_until none dt = false
  after_until (some until) dt = ltb until dt

  -- The loop of `_filter_by_time`.
  unfoldable pub filter_loop : Option ℕ → Option ℕ → Bool → List Record → List Record
  filter_loop since until strict [] = []
  filter_loop since until strict (r ∷ records) =
      let out = filter_loop since until strict records in
      elim (record_dt r) [
        | none ↦ if strict then out else r ∷ out
        | some dt ↦
            if before_since since dt then out else if after_until until dt then out else r ∷ out
      ]

  unfoldable pub filter_by_time : List Record → Option ℕ → Option ℕ → Bool → List Record
  filter_by_time records since until strict =
      if not (is_some since) && not (is_some until)
      then records
      else filter_loop since until strict records

  -- What the caller asked of a record: a readable time within the bounds, both included, or no
  -- readable time where that is let pass.
  pub data Within (since until : Option ℕ) (strict : Bool) (r : Record) : Type 0 where
    unbounded : since ≡ none → until ≡ none → Within since until strict r
    unstamped : record_dt r ≡ none → strict ≡ false → Within since until strict r
    stamped :
        (dt : ℕ)
        → record_dt r ≡ some dt
        → ((low : ℕ) → since ≡ some low → low ≤ dt)
        → ((high : ℕ) → until ≡ some high → dt ≤ high)
        → Within since until strict r

  abbrev low_ok : Option ℕ → ℕ → Bool
  low_ok since dt = not (before_since since dt)

  abbrev high_ok : Option ℕ → ℕ → Bool
  high_ok until dt = not (after_until until dt)

  low_iff :
      (since : Option ℕ) (dt : ℕ)
      → (low_ok since dt ≡ true) ↔ ((low : ℕ) → since ≡ some low → low ≤ dt)
  low_iff none dt = (λ h low e. cc e, λ h. refl)
  low_iff (some a) dt = (λ h low e. ground (arith, h, e), λ h. ground (arith, h a refl))

  high_iff :
      (until : Option ℕ) (dt : ℕ)
      → (high_ok until dt ≡ true) ↔ ((high : ℕ) → until ≡ some high → dt ≤ high)
  high_iff none dt = (λ h high e. cc e, λ h. refl)
  high_iff (some a) dt = (λ h high e. ground (arith, h, e), λ h. ground (arith, h a refl))

  module _ (since until : Option ℕ) (strict : Bool) where
    -- Whether a record passes, where there is a bound.
    abbrev passes_at : Option ℕ → Bool
    passes_at none = not strict
    passes_at (some dt) = low_ok since dt && high_ok until dt

    abbrev passes : Record → Bool
    passes r = passes_at (record_dt r)

    filter_loop-select :
        (records : List Record) → filter_loop since until strict records ≡ select passes records
    unfolding filter_loop
    filter_loop-select [] = refl
    filter_loop-select (r ∷ records) =
        let rest = filter_loop-select records in
        elim (Option-cases (record_dt r)) [
          | inl e ↦ rw (filter_loop, e, rest) (ground arith)
          | inr (dt, e) ↦ rw (filter_loop, e, rest) (ground arith)
        ]

    abbrev keeps : Record → Bool
    keeps r = (not (is_some since) && not (is_some until)) || passes r

    select_all :
        (p : Record → Bool) (records : List Record)
        → ((r : Record) → p r ≡ true)
        → select p records ≡ records
    select_all p [] h = refl
    select_all p (r ∷ records) h = rw (h r, select_all p records h) refl

    select_same :
        (p q : Record → Bool) (records : List Record)
        → ((r : Record) → p r ≡ q r)
        → select p records ≡ select q records
    select_same p q [] h = refl
    select_same p q (r ∷ records) h = rw (h r, select_same p q records h) refl

    keeps_sound : (r : Record) → keeps r ≡ true → Within since until strict r
    keeps_sound r h = elim (Bool-cases (not (is_some since) && not (is_some until))) [
      | inl open_ ↦ unbounded (ground arith) (ground arith)
      | inr bounded ↦ elim (Option-cases (record_dt r)) [
        | inl e ↦ unstamped e (ground (arith, e, h, bounded))
        | inr (dt, e) ↦
            let both : (low_ok since dt ≡ true) × (high_ok until dt ≡ true) =
              and-eq-true _ _ (rw (bounded, e) at h) in
            stamped dt e ((low_iff since dt).0 both.0) ((high_iff until dt).0 both.1)
      ]
    ]

    keeps_complete : (r : Record) → Within since until strict r → keeps r ≡ true
    keeps_complete r (unbounded s u) = rw (s, u) refl
    keeps_complete r (unstamped e l) = rw (e, l) (ground arith)
    keeps_complete r (stamped dt e low high) =
        rw (e, (low_iff since dt).1 low, (high_iff until dt).1 high) (ground arith)

    -- The filter keeps, in their order, exactly the records whose time is within the bounds, and
    -- those without a readable time unless it is strict; without bounds it keeps all.
    pub filter_by_time_lem :
        (records : List Record)
        → (keep : Record → Bool) × ((r : Record) → (keep r ≡ true) ↔ Within since until strict r)
          × (filter_by_time records since until strict ≡ select keep records)
    unfolding filter_by_time
    filter_by_time_lem records = (
      keeps,
      λ r. (keeps_sound r, keeps_complete r),
      elim (Bool-cases (not (is_some since) && not (is_some until))) [
        | inl open_ ↦ rw open_ (sym (select_all keeps records (λ r. ground (arith, open_))))
        | inr bounded ↦ rw bounded (
            filter_loop-select records
            ∙ select_same passes keeps records (λ r. ground (arith, bounded)))
      ],
    )
