-- ===== src/Formatters/Age.antt =====
-- `format_age` and `format_relative_time` of formatters.py. The time since the stamp, in whole seconds
-- and with its sign, is a parameter, as is what a stamp that cannot be read is printed as.
use Prim.Native.String.{◌++◌}
use k8s_mcp.Base.{
  ℕ, ◌+◌, ◌*◌, ◌/◌, ◌≤◌, ◌<◌, String, ◌≡◌, refl, inl, inr, ltb, if◌then◌else◌, Bool-cases, ltb→lt,
  arith,
}
use k8s_mcp.Base.Text.Decimal.{show}
use k8s_mcp.Nodes.Drain.{ℤ, pos, negsuc}

pub data AgeUnit : Type 0 where
  seconds : AgeUnit
  minutes : AgeUnit
  hours : AgeUnit
  days : AgeUnit

abbrev pub letter : AgeUnit → String
letter seconds = "s"
letter minutes = "m"
letter hours = "h"
letter days = "d"

-- The number and the unit that the four ranges choose.
unfoldable pub scale : ℕ → ℕ × AgeUnit
scale secs =
    if ltb secs 60
    then (secs, seconds)
    else if ltb secs 3600
    then (secs / 60, minutes)
    else if ltb secs 86400
    then (secs / 3600, hours)
    else (secs / 86400, days)

abbrev pub compact : ℕ × AgeUnit → String
compact (n, u) = show n ++ letter u

-- A stamp: missing or empty, with no readable time, or so many seconds ago.
pub data Stamp : Type 0 where
  missing : Stamp
  unreadable : String → Stamp
  ago : ℤ → Stamp

unfoldable pub format_age : Stamp → String
format_age missing = ""
format_age (unreadable text) = text
format_age (ago (negsuc n)) = "0s"
format_age (ago (pos secs)) = compact (scale secs)

unfoldable pub format_relative_time : Stamp → String
format_relative_time missing = ""
format_relative_time (unreadable text) = ""
format_relative_time (ago (negsuc n)) = "now"
format_relative_time (ago (pos secs)) = compact (scale secs) ++ " ago"

-- The length of a unit in seconds, and how many of it make the next one.
abbrev pub length_of : AgeUnit → ℕ
length_of seconds = 1
length_of minutes = 60
length_of hours = 3600
length_of days = 86400

abbrev pub Fits : AgeUnit → ℕ → Type 0
Fits seconds n = n < 60
Fits minutes n = (1 ≤ n) × (n < 60)
Fits hours n = (1 ≤ n) × (n < 24)
Fits days n = 1 ≤ n

scale_lem :
    (secs : ℕ)
    → ((scale secs).0 * length_of (scale secs).1 ≤ secs)
      × (secs < ((scale secs).0 + 1) * length_of (scale secs).1)
      × Fits (scale secs).1 (scale secs).0
unfolding scale
scale_lem secs = elim (Bool-cases (ltb secs 60)) [
  | inl a ↦ rw a (omega (arith, ltb→lt secs 60 a))
  | inr a ↦ elim (Bool-cases (ltb secs 3600)) [
    | inl b ↦ rw (a, b) (ground (arith, a, b))
    | inr b ↦ elim (Bool-cases (ltb secs 86400)) [
      | inl c ↦ rw (a, b, c) (ground (arith, a, b, c))
      | inr c ↦ rw (a, b, c) (ground (arith, a, b, c))
    ]
  ]
]

-- For a stamp of a past time the age is the number of whole units since, in the largest unit of which
-- one has passed, and the relative phrase is that text with "ago" after it.
pub format_age_lem :
    (secs : ℕ)
    → (n : ℕ) × (u : AgeUnit) × (format_age (ago (pos secs)) ≡ show n ++ letter u)
      × (format_relative_time (ago (pos secs)) ≡ (show n ++ letter u) ++ " ago")
      × (n * length_of u ≤ secs)
      × (secs < (n + 1) * length_of u)
      × Fits u n
unfolding format_age format_relative_time
format_age_lem secs =
    let (low, high, fits) = scale_lem secs in
    ((scale secs).0, (scale secs).1, refl, refl, low, high, fits)
