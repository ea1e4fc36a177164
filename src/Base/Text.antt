-- ===== src/Base/Text.antt =====
-- Texts as the program walks them: `str.split`, `str.strip`, `str.replace` of one character.
pub mod Decimal
pub mod Search
pub mod Laws
use Prim.Native.Nat.{ℕ}
use Prim.Native.Char.{Char, code}
use Prim.Native.String.{String}
use mathlib.Core.Bool.{Bool, ◌&&◌, ◌||◌}
use mathlib.Core.List.{List, [], ◌∷◌}
use k8s_mcp.Base.Tests.{if◌then◌else◌, leb, ◌==◌}

-- `str.isspace` of one character.
unfoldable pub is_space : ℕ → Bool
is_space c =
    (leb 9 c && leb c 13)
    || (leb 28 c && leb c 32)
    || c == 133
    || c == 160
    || c == 5760
    || (leb 8192 c && leb c 8202)
    || c == 8232
    || c == 8233
    || c == 8239
    || c == 8287
    || c == 12288

abbrev pub empty : String
empty = String.[]

abbrev pub cons : Char → String → String
cons c s = String.◌∷◌ c s

abbrev pub on_head : Char → List String → List String
on_head c [] = cons c empty ∷ []
on_head c (s ∷ ss) = cons c s ∷ ss

-- `s.split(sep)` for a separator of one character.
unfoldable pub split : ℕ → String → List String
split sep String.[] = empty ∷ []
split sep (String.◌∷◌ c s) =
    let rest = split sep s in if code c == sep then empty ∷ rest else on_head c rest

-- `s.lstrip()`
unfoldable pub lstrip : String → String
unfolding is_space
lstrip String.[] = empty
lstrip (String.◌∷◌ c s) = let rest = lstrip s in if is_space (code c) then rest else cons c s

-- One character put before a text whose end is stripped already.
abbrev keep_unless_blank : Char → String → String
keep_unless_blank c String.[] = if is_space (code c) then empty else cons c empty
keep_unless_blank c (String.◌∷◌ d s) = cons c (cons d s)

-- `s.rstrip()`
unfoldable pub rstrip : String → String
unfolding is_space
rstrip String.[] = empty
rstrip (String.◌∷◌ c s) = keep_unless_blank c (rstrip s)

-- `s.strip()`
unfoldable pub strip : String → String
unfolding lstrip rstrip
strip s = rstrip (lstrip s)
