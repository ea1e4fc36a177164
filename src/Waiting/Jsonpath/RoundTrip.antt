-- ===== src/Waiting/Jsonpath/RoundTrip.antt =====
-- A path written out from its tokens, and what `_jsonpath` makes of it.
use Prim.Native.Char.{Char, code}
use Prim.Native.String.{◌++◌ as ◌+++◌}
use Prim.Native.String.append
use text.Mathlib.TextLemmas.{append_assoc, append-nil}
use text.Mathlib.TextPositions.{eq_refl}
use mathlib.Core.List.{append-nil as list_append-nil}
use k8s_mcp.Base.{
  ℕ, String, ◌≡◌, ◌⊎◌, refl, sym, ap, ◌∙◌, Bool, true, false, Option, none, some, List, [], ◌∷◌,
  ◌++◌, ◌+◌, ◌*◌, ◌/◌, ◌%◌, ◌<◌, ltb, ltb→lt, ◌==◌, zero, suc, or-eq-false, str_eq, All, arith,
  Bool-cases, inl, inr,
}
use k8s_mcp.Base.Json.{Json}
use k8s_mcp.Base.Text.{empty, cons}
use k8s_mcp.Base.Text.Search.{contains}
use k8s_mcp.Base.Text.Laws.{before-none, after-none, before-append, after-append}
use k8s_mcp.Base.Text.Decimal.{show, digit, digits}
use k8s_mcp.Waiting.Jsonpath.{
  Token, key, index, Mark, between, name, bracket, minus, number, flush, advance, scan, walk,
  jsonpath, starts_with_dot,
}

abbrev pub render : List Token → String
render [] = empty
render (key k ∷ ts) = "." +++ (k +++ render ts)
render (index false n ∷ ts) = "[" +++ (show n +++ ("]" +++ render ts))
render (index true n ∷ ts) = "[-" +++ (show n +++ ("]" +++ render ts))

-- A key that is not empty and has neither of the characters that begin a token.
abbrev pub IsPlain : Token → Type 0
IsPlain (key k) = (str_eq k empty ≡ false) × (contains b'.' k ≡ false) × (contains b'[' k ≡ false)
IsPlain (index negative n) = Unit {0}

abbrev pub leads_with_index : List Token → Bool
leads_with_index (index negative n ∷ ts) = true
leads_with_index _ = false

-- The code of a text's only character.
code_of : String → Option ℕ
code_of (String.◌∷◌ c String.[]) = some (code c)
code_of _ = none

code-digit : (d : ℕ) → d < 10 → code_of (digit d) ≡ some (48 + d)
unfolding code_of digit
code-digit zero h = refl
code-digit (suc zero) h = refl
code-digit (suc (suc zero)) h = refl
code-digit (suc (suc (suc zero))) h = refl
code-digit (suc (suc (suc (suc zero)))) h = refl
code-digit (suc (suc (suc (suc (suc zero))))) h = refl
code-digit (suc (suc (suc (suc (suc (suc zero)))))) h = refl
code-digit (suc (suc (suc (suc (suc (suc (suc zero))))))) h = refl
code-digit (suc (suc (suc (suc (suc (suc (suc (suc zero)))))))) h = refl
code-digit (suc (suc (suc (suc (suc (suc (suc (suc (suc zero))))))))) h = refl
code-digit (suc (suc (suc (suc (suc (suc (suc (suc (suc (suc d)))))))))) h = absurd (omega arith)

module _ (decimal : ℕ → Option ℕ) where
  scan_name :
      (k s r : String)
      → contains b'.' k ≡ false
      → contains b'[' k ≡ false
      → scan decimal (name s) (k +++ r) ≡ scan decimal (name (s +++ k)) r
  unfolding scan contains advance
  scan_name String.[] s r dot square =
      rw append.nil (ap (λ u. scan decimal (name u) r) (sym (append-nil s)))
  scan_name (String.◌∷◌ c k) s r dot square =
      let (d, ds) = or-eq-false (code c == b'.') (contains b'.' k) dot in
      let (q, qs) = or-eq-false (code c == b'[') (contains b'[' k) square in
      let moved : (s +++ cons c empty) +++ k ≡ s +++ cons c k =
        append_assoc s (cons c empty) k ∙ rw (append.cons, append.nil) refl in
      rw (append.cons, d, q)
        (scan_name k (s +++ cons c empty) r ds qs ∙ ap (λ u. scan decimal (name u) r) moved)

  -- What `\d` and `int` do with the ten digits of ASCII.
  module _ (ascii : (d : ℕ) → d < 10 → decimal (48 + d) ≡ some d) where
    reads :
        (m n : Mark) (u r : String) (k : ℕ)
        → code_of u ≡ some k
        → ((c : Char) → code c ≡ k → advance decimal m c ≡ ([], n))
        → scan decimal m (u +++ r) ≡ scan decimal n r
    unfolding scan code_of
    reads m n String.[] r k h a = cc
    reads m n (String.◌∷◌ c String.[]) r k h a = rw (append.cons, append.nil, a c cc) refl
    reads m n (String.◌∷◌ c (String.◌∷◌ b s)) r k h a = cc

    is_digit : (c : Char) (d : ℕ) → d < 10 → code c ≡ 48 + d → decimal (code c) ≡ some d
    is_digit c d h e = rw e (ascii d h)

    first_digit :
        (d : ℕ)
        → d < 10
        → (c : Char) → code c ≡ 48 + d
        → advance decimal bracket c ≡ ([], number false d)
    unfolding advance
    first_digit d h c e =
        let other : (code c == b'-') ≡ false = ground arith in rw (other, is_digit c d h e) refl

    first_of_negative :
        (d : ℕ)
        → d < 10
        → (c : Char) → code c ≡ 48 + d
        → advance decimal minus c ≡ ([], number true d)
    unfolding advance
    first_of_negative d h c e = rw (advance, is_digit c d h e) refl

    next_digit :
        (negative : Bool) (n d : ℕ)
        → d < 10
        → (c : Char) → code c ≡ 48 + d
        → advance decimal (number negative n) c ≡ ([], number negative (n * 10 + d))
    unfolding advance
    next_digit negative n d h c e =
        let other : (code c == b']') ≡ false = ground arith in rw (other, is_digit c d h e) refl

    -- The digits of a number after a bracket, or after a bracket and a minus sign.
    reads_digits :
        (m : Mark) (negative : Bool)
        → ((d : ℕ)
            → d < 10
            → (c : Char) → code c ≡ 48 + d
            → advance decimal m c ≡ ([], number negative d))
        → (fuel n : ℕ) (r : String) → n < fuel
        → scan decimal m (digits fuel n +++ r) ≡ scan decimal (number negative n) r
    unfolding digits
    reads_digits m negative start zero n r h = absurd (omega arith)
    reads_digits m negative start (suc fuel) n r h = elim (Bool-cases (ltb n 10)) [
      | inl e ↦
          let small = ltb→lt n 10 e in
          rw e
            (reads m (number negative n) (digit n) r (48 + n) (code-digit n small) (start n small))
      | inr e ↦
          let low : n % 10 < 10 = omega arith in
          let front =
            reads_digits m negative start fuel (n / 10) (digit (n % 10) +++ r)
              (ground (arith, e)) in
          let back =
            reads (number negative (n / 10)) (number negative (n / 10 * 10 + n % 10))
              (digit (n % 10)) r (48 + n % 10) (code-digit (n % 10) low)
              (next_digit negative (n / 10) (n % 10) low) in
          let same : n / 10 * 10 + n % 10 ≡ n = omega arith in
          rw (e, append_assoc) (front ∙ back ∙ ap (λ k. scan decimal (number negative k) r) same)
    ]

  scan-flush :
      (s : String) (ts : List Token)
      → scan decimal (name s) (render ts) ≡ flush (name s) ++ scan decimal between (render ts)
  unfolding scan advance
  scan-flush s [] = sym (list_append-nil (flush (name s)))
  scan-flush s (key k ∷ ts) = rw (append.cons, append.nil) refl
  scan-flush s (index false n ∷ ts) = rw (append.cons, append.nil) refl
  scan-flush s (index true n ∷ ts) = rw (append.cons, append.cons, append.nil) refl

  module _ (ascii : (d : ℕ) → d < 10 → decimal (48 + d) ≡ some d) where
    closes :
        (negative : Bool) (n : ℕ) (r : String)
        → scan decimal (number negative n) ("]" +++ r) ≡ index negative n ∷ scan decimal between r
    unfolding scan advance
    closes negative n r = rw (append.cons, append.nil) refl

    reads_number :
        (m : Mark) (negative : Bool)
        → ((d : ℕ)
            → d < 10
            → (c : Char) → code c ≡ 48 + d
            → advance decimal m c ≡ ([], number negative d))
        → (n : ℕ) (r : String)
        → scan decimal m (show n +++ ("]" +++ r)) ≡ index negative n ∷ scan decimal between r
    unfolding show
    reads_number m negative start n r =
        reads_digits ascii m negative start (suc n) n ("]" +++ r) (omega arith)
        ∙ closes negative n r

    -- Reading back a written path gives its tokens.
    scan-render : (ts : List Token) → All IsPlain ts → scan decimal between (render ts) ≡ ts
    unfolding scan advance
    scan-render [] h = refl
    scan-render (key k ∷ ts) ((filled, dot, square), h) =
        let named : scan decimal (name (empty +++ k)) (render ts)
            ≡ flush (name k) ++ scan decimal between (render ts) =
          rw append.nil (scan-flush k ts) in
        let whole = scan_name k empty (render ts) dot square ∙ named in
        rw (append.cons, append.nil) (whole ∙ rw (filled, scan-render ts h) refl)
    scan-render (index false n ∷ ts) (_, h) =
        rw (append.cons, append.nil)
          (reads_number bracket false (first_digit ascii) n (render ts)
            ∙ ap (λ us. index false n ∷ us) (scan-render ts h))
    scan-render (index true n ∷ ts) (_, h) =
        rw (append.cons, append.cons, append.nil)
          (reads_number minus true (first_of_negative ascii) n (render ts)
            ∙ ap (λ us. index true n ∷ us) (scan-render ts h))

    leads_plain :
        (k r : String)
        → str_eq k empty ≡ false
        → contains b'.' k ≡ false
        → starts_with_dot (k +++ r) ≡ false
    unfolding contains
    leads_plain String.[] r filled dot = cc (filled, eq_refl empty)
    leads_plain (String.◌∷◌ c k) r filled dot =
        rw append.cons (or-eq-false (code c == b'.') (contains b'.' k) dot).0

    undotted_alone :
        (o : Json) (k : String)
        → str_eq k empty ≡ false
        → contains b'.' k ≡ false
        → jsonpath decimal o (k +++ empty) ≡ walk o (key k ∷ [])
    unfolding jsonpath
    undotted_alone o k filled dot =
        rw
          (
            leads_plain k empty filled dot,
            append-nil k,
            before-none b'.' k dot,
            after-none b'.' k dot,
            filled,
            append.cons,
            append.nil,
          )
          (unfold scan advance in refl)

    undotted_dotted :
        (o : Json) (k r u : String)
        → code_of u ≡ some b'.'
        → str_eq k empty ≡ false
        → contains b'.' k ≡ false
        → jsonpath decimal o (k +++ (u +++ r)) ≡ walk o (key k ∷ scan decimal between ("." +++ r))
    unfolding jsonpath code_of
    undotted_dotted o k r String.[] e filled dot = cc
    undotted_dotted o k r (String.◌∷◌ c String.[]) e filled dot =
        let same : code c ≡ b'.' = cc in
        let joined : cons c empty +++ r ≡ cons c r = rw (append.cons, append.nil) refl in
        rw
          (
            joined,
            leads_plain k (cons c r) filled dot,
            before-append b'.' c same k r dot,
            after-append b'.' c same k r dot,
            filled,
          )
          refl
    undotted_dotted o k r (String.◌∷◌ c (String.◌∷◌ b s)) e filled dot = cc

    undotted :
        (o : Json) (k : String) (ts : List Token)
        → All IsPlain (key k ∷ ts)
        → leads_with_index ts ≡ false
        → jsonpath decimal o (k +++ render ts) ≡ walk o (key k ∷ ts)
    unfolding code_of
    undotted o k [] ((filled, dot, _), h) e = undotted_alone o k filled dot
    undotted o k (key j ∷ ts) ((filled, dot, _), h) e =
        undotted_dotted o k (j +++ render ts) "." refl filled dot
        ∙ ap (λ us. walk o (key k ∷ us)) (scan-render (key j ∷ ts) h)
    undotted o k (index negative n ∷ ts) h e = cc

    -- The path that is written out from tokens leads where the tokens lead, with the dot before its first
    -- key and, if no index follows the first key, without it, if the keys are plain and the ten digits of
    -- ASCII are read as they are.
    pub jsonpath-render :
        (o : Json) (k : String) (ts : List Token) (path : String)
        → All IsPlain (key k ∷ ts)
        → (path ≡ render (key k ∷ ts)) ⊎ ((path ≡ k +++ render ts) × (leads_with_index ts ≡ false))
        → jsonpath decimal o path ≡ walk o (key k ∷ ts)
    unfolding jsonpath
    jsonpath-render o k ts path h (inl e) =
        let dotted : starts_with_dot ("." +++ (k +++ render ts)) ≡ true = rw append.cons refl in
        rw (e, dotted) (ap (λ us. walk o us) (scan-render (key k ∷ ts) h))
    jsonpath-render o k ts path h (inr (e, plain)) = rw e (undotted o k ts h plain)
