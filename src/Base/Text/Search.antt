-- ===== src/Base/Text/Search.antt =====
-- `in`, `str.partition` and `str.rpartition` for one character, and tests on all characters.
use Prim.Native.Nat.{ℕ, suc}
use Prim.Native.Char.{code}
use Prim.Native.String.{String, ◌++◌}
use mathlib.Core.Bool.{Bool, true, false, ◌&&◌, ◌||◌}
use text.Mathlib.Text.{◌==◌ as str_eq}
use k8s_mcp.Base.Tests.{if◌then◌else◌, ◌==◌}
use k8s_mcp.Base.Text.{empty, cons}

-- `chr(c) in s`
unfoldable pub contains : ℕ → String → Bool
contains c String.[] = false
contains c (String.◌∷◌ d s) = code d == c || contains c s

unfoldable pub all_chars : (ℕ → Bool) → String → Bool
all_chars p String.[] = true
all_chars p (String.◌∷◌ d s) = p (code d) && all_chars p s

-- `len(s)`
unfoldable pub count_chars : String → ℕ
count_chars String.[] = 0
count_chars (String.◌∷◌ d s) = suc (count_chars s)

-- What is before the first `chr(c)` and what is after it, where it occurs.
unfoldable pub before : ℕ → String → String
before c String.[] = empty
before c (String.◌∷◌ d s) = let rest = before c s in if code d == c then empty else cons d rest

unfoldable pub after : ℕ → String → String
after c String.[] = empty
after c (String.◌∷◌ d s) = let rest = after c s in if code d == c then s else rest

-- What is before the last `chr(c)` and what is after it, where it occurs.
unfoldable pub before_last : ℕ → String → String
unfolding contains
before_last c String.[] = empty
before_last c (String.◌∷◌ d s) =
    let rest = before_last c s in if contains c s then cons d rest else empty

unfoldable pub after_last : ℕ → String → String
unfolding contains
after_last c String.[] = empty
after_last c (String.◌∷◌ d s) = let rest = after_last c s in if contains c s then rest else s

-- `replace(chr(c), t)`
unfoldable pub replace_char : ℕ → String → String → String
replace_char c t String.[] = empty
replace_char c t (String.◌∷◌ d s) =
    let rest = replace_char c t s in if code d == c then t ++ rest else cons d rest

-- `s.startswith(p)`
unfoldable pub starts_with : String → String → Bool
starts_with String.[] s = true
starts_with (String.◌∷◌ c p) String.[] = false
starts_with (String.◌∷◌ c p) (String.◌∷◌ d s) = code c == code d && starts_with p s

-- `s.endswith(p)`
unfoldable pub ends_with : String → String → Bool
ends_with p String.[] = str_eq p empty
ends_with p (String.◌∷◌ c s) = str_eq p (cons c s) || ends_with p s
