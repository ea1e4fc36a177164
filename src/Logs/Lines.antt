-- ===== src/Logs/Lines.antt =====
-- `_parse_lines` of logs.py. `str.isdigit` of one character is a parameter.
use Prim.Native.Char.{Char, code}
use Prim.Native.String.{◌++◌ as ◌&◌}
use Prim.Native.String.append
use text.Mathlib.TextEquality.{Char-path}
use k8s_mcp.Base.{
  ℕ, zero, suc, ◌+◌, String, ◌≡◌, sym, ap, Bool, true, false, ◌&&◌, ◌||◌, Option, none, some, List,
  [], ◌∷◌, map, str_eq, eq_iff, eq_refl, ◌==◌, leb, ltb, if◌then◌else◌, Bool-cases, and-eq-true,
  Option-cases, inl, inr, arith, ==_iff,
}
use k8s_mcp.Base.Text.{empty, cons, on_head}
use k8s_mcp.Base.Text.Search.{contains}
use k8s_mcp.Logs.{Record}

-- The characters at which `str.splitlines` splits.
abbrev pub is_line_break : ℕ → Bool
is_line_break c =
    (leb 10 c && leb c 13) || (leb 28 c && leb c 30) || c == 133 || c == 8232 || c == 8233

-- A line feed in front, which makes one break with the carriage return before it.
unfoldable pub starts_line_feed : String → Bool
starts_line_feed String.[] = false
starts_line_feed (String.◌∷◌ c s) = code c == 10

-- `text.splitlines()`
unfoldable pub splitlines : String → List String
splitlines String.[] = []
splitlines (String.◌∷◌ c s) =
    let rest = splitlines s in
    if code c == 13 && starts_line_feed s
    then rest
    else if is_line_break (code c)
    then empty ∷ rest
    else on_head c rest

-- `s[:n]` and `s[n:]`
unfoldable pub take_chars : ℕ → String → String
take_chars zero s = empty
take_chars (suc n) String.[] = empty
take_chars (suc n) (String.◌∷◌ c s) = cons c (take_chars n s)

unfoldable pub drop_chars : ℕ → String → String
drop_chars zero s = s
drop_chars (suc n) String.[] = empty
drop_chars (suc n) (String.◌∷◌ c s) = drop_chars n s

-- `s.find(chr(c))`
unfoldable pub find_char : ℕ → String → Option ℕ
find_char c String.[] = none
find_char c (String.◌∷◌ d s) =
    let rest = find_char c s in
    if code d == c then some 0 else elim rest [ none ↦ none | some i ↦ some (suc i) ]

-- The text that a timestamp and a line came from.
abbrev pub rejoin : String × String → String
rejoin (ts, line) = if str_eq ts empty then line else ts & (" " & line)

module _ (is_digit : ℕ → Bool) where
  -- `line[0:1].isdigit()`
  abbrev pub digit_first : String → Bool
  digit_first String.[] = false
  digit_first (String.◌∷◌ c s) = is_digit (code c)

  -- `line and line[0:1].isdigit() and "T" in line[:30]`
  abbrev pub looks_stamped : String → Bool
  looks_stamped line = digit_first line && contains b'T' (take_chars 30 line)

  -- One line: its timestamp, which may be empty, and the rest.
  unfoldable pub parse_line : String → String × String
  parse_line raw =
      if looks_stamped raw
      then elim (find_char b' ' raw) [
        | none ↦ (empty, raw)
        | some space ↦
            if ltb 0 space && ltb space 35
            then (take_chars space raw, drop_chars (space + 1) raw)
            else (empty, raw)
      ]
      else (empty, raw)

  unfoldable pub parse_lines : String → String → String → List Record
  parse_lines text pod container =
      map
        (λ raw.
          let (ts, line) = parse_line raw in
          record { pod = pod; container = container; time = ts; line = line })
        (splitlines text)

  blank_cons : (x : Char) (s : String) → (code x == b' ') ≡ true → " " & s ≡ cons x s
  blank_cons x s h =
      rw (append.cons, append.nil)
        (ap (λ (c : Char). cons c s) (Char-path _ x (sym ((==_iff (code x) b' ').0 h))))

  take-drop-find :
      (n : ℕ) (s : String)
      → find_char b' ' s ≡ some n
      → take_chars n s & (" " & drop_chars (suc n) s) ≡ s
  unfolding find_char take_chars drop_chars
  take-drop-find n String.[] h = cc
  take-drop-find zero (String.◌∷◌ x s) h = elim (Bool-cases (code x == b' ')) [
    | inl blank ↦ rw append.nil (blank_cons x s blank)
    | inr other ↦ elim (Option-cases (find_char b' ' s)) [
      | inl e ↦ cc (rw (find_char, other, e) at h)
      | inr (i, e) ↦ ground (arith, rw (find_char, other, e) at h)
    ]
  ]
  take-drop-find (suc n) (String.◌∷◌ x s) h = elim (Bool-cases (code x == b' ')) [
    | inl blank ↦ ground (arith, rw (find_char, blank) at h)
    | inr other ↦ elim (Option-cases (find_char b' ' s)) [
      | inl e ↦ cc (rw (find_char, other, e) at h)
      | inr (i, e) ↦
          let same : i ≡ n = ground (arith, rw (find_char, other, e) at h) in
          rw append.cons (ap (cons x) (take-drop-find n s (rw same at e)))
    ]
  ]

  cons-not-empty : (x : Char) (s : String) → str_eq (cons x s) empty ≡ false
  cons-not-empty x s = elim (Bool-cases (str_eq (cons x s) empty)) [
    | inl e ↦ cc ((eq_iff (cons x s) empty).0 e)
    | inr e ↦ e
  ]

  take_chars_nonempty :
      (n : ℕ) (s : String)
      → ltb 0 n ≡ true
      → find_char b' ' s ≡ some n
      → str_eq (take_chars n s) empty ≡ false
  unfolding find_char take_chars
  take_chars_nonempty zero s inside h = ground (arith, inside)
  take_chars_nonempty (suc n) String.[] inside h = cc
  take_chars_nonempty (suc n) (String.◌∷◌ x s) inside h = cons-not-empty x (take_chars n s)

  -- No character of a line is lost or changed: the timestamp that was split off, a space and the rest
  -- are the line, which starts with a digit then; without a timestamp the rest is the line.
  pub rejoin-parse_line : (raw : String) → rejoin (parse_line raw) ≡ raw
  unfolding parse_line
  rejoin-parse_line raw = elim (Bool-cases (looks_stamped raw)) [
    | inr other ↦ rw other (ground (arith, eq_refl empty))
    | inl stamped ↦ elim (Option-cases (find_char b' ' raw)) [
      | inl e ↦ rw (stamped, e) (ground (arith, eq_refl empty))
      | inr (n, e) ↦ elim (Bool-cases (ltb 0 n && ltb n 35)) [
        | inl inside ↦
            let next : n + 1 ≡ suc n = omega arith in
            rw (stamped, e, inside, take_chars_nonempty n raw (and-eq-true _ _ inside).0 e, next)
              (take-drop-find n raw e)
        | inr outside ↦ rw (stamped, e, outside) (ground (arith, eq_refl empty))
      ]
    ]
  ]
