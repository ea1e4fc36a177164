-- ===== src/Generic/Labels/Pointer.antt =====
-- The path that a label patch names, read as RFC 6901 says.
use Prim.Native.Char.{Char, code}
use Prim.Native.String.{◌++◌}
use Prim.Native.String.append
use text.Mathlib.TextEquality.{Char-path}
use k8s_mcp.Base.{
  String, ◌≡◌, refl, sym, ap, ◌∙◌, true, false, ◌&&◌, if◌then◌else◌, ◌==◌, ==_iff, Bool-cases, inl,
  inr,
}
use k8s_mcp.Base.Text.{empty, cons}
use k8s_mcp.Base.Text.Search.{replace_char, contains}
use k8s_mcp.Generic.Labels.{jsonpatch_escape}

-- A reference token decoded in one pass: `~0` is a tilde and `~1` a slash. A tilde before anything
-- else stays as it is.
pub decode : String → String
decode String.[] = empty
decode (String.◌∷◌ c String.[]) = cons c empty
decode (String.◌∷◌ c (String.◌∷◌ d s)) =
    let tilde = "~" ++ decode s in
    let slash = "/" ++ decode s in
    let plain = cons c (decode (String.◌∷◌ d s)) in
    if code c == b'~' && code d == b'0'
    then tilde
    else if code c == b'~' && code d == b'1'
    then slash
    else plain

replace-slash_tilde :
    (r : String) → replace_char b'/' "~1" ("~0" ++ r) ≡ "~0" ++ replace_char b'/' "~1" r
unfolding replace_char
replace-slash_tilde r =
    rw (append.cons, append.cons, append.nil, append.cons, append.cons, append.nil) refl

-- The escape character by character.
escape_tilde :
    (c : Char) (s : String)
    → (code c == b'~') ≡ true
    → jsonpatch_escape (cons c s) ≡ "~0" ++ jsonpatch_escape s
unfolding jsonpatch_escape
escape_tilde c s e = unfold replace_char in rw e (replace-slash_tilde (replace_char b'~' "~0" s))

escape_slash :
    (c : Char) (s : String)
    → (code c == b'~') ≡ false
    → (code c == b'/') ≡ true
    → jsonpatch_escape (cons c s) ≡ "~1" ++ jsonpatch_escape s
unfolding jsonpatch_escape replace_char
escape_slash c s n e = rw (n, e) refl

escape_plain :
    (c : Char) (s : String)
    → (code c == b'~') ≡ false
    → (code c == b'/') ≡ false
    → jsonpatch_escape (cons c s) ≡ cons c (jsonpatch_escape s)
unfolding jsonpatch_escape replace_char
escape_plain c s n e = rw (n, e) refl

decode_tilde : (s : String) → decode ("~0" ++ s) ≡ "~" ++ decode s
unfolding decode
decode_tilde s = rw (append.cons, append.cons, append.nil) refl

decode_slash : (s : String) → decode ("~1" ++ s) ≡ "/" ++ decode s
unfolding decode
decode_slash s = rw (append.cons, append.cons, append.nil) refl

decode_plain :
    (c : Char) (s : String) → (code c == b'~') ≡ false → decode (cons c s) ≡ cons c (decode s)
unfolding decode
decode_plain c String.[] n = refl
decode_plain c (String.◌∷◌ d s) n = rw n refl

tilde_cons : (c : Char) (s : String) → (code c == b'~') ≡ true → "~" ++ s ≡ cons c s
tilde_cons c s h =
    rw (append.cons, append.nil)
      (ap (λ (x : Char). cons x s) (Char-path _ c (sym ((==_iff (code c) b'~').0 h))))

slash_cons : (c : Char) (s : String) → (code c == b'/') ≡ true → "/" ++ s ≡ cons c s
slash_cons c s h =
    rw (append.cons, append.nil)
      (ap (λ (x : Char). cons x s) (Char-path _ c (sym ((==_iff (code c) b'/').0 h))))

no_slash :
    (s : String)
    → contains b'/' s ≡ false
    → (contains b'/' ("~0" ++ s) ≡ false) × (contains b'/' ("~1" ++ s) ≡ false)
unfolding contains
no_slash s h =
    (rw (append.cons, append.cons, append.nil) h, rw (append.cons, append.cons, append.nil) h)

contains_plain :
    (c : Char) (s : String)
    → (code c == b'/') ≡ false
    → contains b'/' s ≡ false
    → contains b'/' (cons c s) ≡ false
unfolding contains
contains_plain c s o h = rw o h

-- The token that a label's key is escaped to has no slash, so it is one step of the path, and decoding
-- it gives back the key, for every key.
pub decode-jsonpatch_escape :
    (key : String)
    → (decode (jsonpatch_escape key) ≡ key) × (contains b'/' (jsonpatch_escape key) ≡ false)
decode-jsonpatch_escape String.[] = (
  unfold decode jsonpatch_escape replace_char in refl,
  unfold jsonpatch_escape replace_char contains in refl,
)
decode-jsonpatch_escape (String.◌∷◌ c s) =
    let (back, single) = decode-jsonpatch_escape s in
    elim (Bool-cases (code c == b'~')) [
      | inl t ↦ (
        rw (escape_tilde c s t)
            (decode_tilde (jsonpatch_escape s) ∙ ap (λ r. "~" ++ r) back ∙ tilde_cons c s t),
        rw (escape_tilde c s t) (no_slash (jsonpatch_escape s) single).0,
      )
      | inr n ↦ elim (Bool-cases (code c == b'/')) [
        | inl l ↦ (
          rw (escape_slash c s n l)
              (decode_slash (jsonpatch_escape s) ∙ ap (λ r. "/" ++ r) back ∙ slash_cons c s l),
          rw (escape_slash c s n l) (no_slash (jsonpatch_escape s) single).1,
        )
        | inr o ↦ (
          rw (escape_plain c s n o) (decode_plain c (jsonpatch_escape s) n ∙ ap (cons c) back),
          rw (escape_plain c s n o) (contains_plain c (jsonpatch_escape s) o single),
        )
      ]
    ]
