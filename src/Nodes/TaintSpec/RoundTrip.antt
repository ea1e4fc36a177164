-- ===== src/Nodes/TaintSpec/RoundTrip.antt =====
-- Rendering a taint and parsing it again; keys with a domain.
use Prim.Native.Char.{code}
use Prim.Native.String.{◌++◌}
use Prim.Native.String.append
use k8s_mcp.Base.{
  ℕ, String, ◌≡◌, ◌≢◌, refl, sym, ap, ◌∙◌, Bool, true, false, ◌||◌, List, [], ◌∷◌, any, all, elem,
  ◌==◌, str_eq, eq_iff, if◌then◌else◌, arith, Bool-cases, inl, inr,
}
use k8s_mcp.Base.Text.{empty, cons, split, strip}
use k8s_mcp.Base.Text.Search.{contains, before, after}
use k8s_mcp.Base.Text.Laws.{
  contains-middle, before_last-append, after_last-append, before-append, after-append,
  contains-split, contains-all_chars,
}
use k8s_mcp.Nodes.TaintSpec.{
  is_name_char, is_label, drop_newline, is_node_name, valid_taint_effects, Taint, ok, value_error,
  checked_key, parse_taint_spec, render_taint,
}

contains-is_label :
    (c : ℕ) (s : String) → is_name_char c ≡ false → is_label s ≡ true → contains c s ≡ false
unfolding is_label
contains-is_label c s h k = contains-all_chars c is_name_char s h (ground arith)

labels_lack :
    (c : ℕ) (ss : List String)
    → is_name_char c ≡ false
    → all is_label ss ≡ true
    → any (contains c) ss ≡ false
labels_lack c [] h k = refl
labels_lack c (s ∷ ss) h k = ground (arith, contains-is_label c s h, labels_lack c ss h)

contains-drop_newline : (c : ℕ) (s : String) → c ≢ 10 → contains c s ≡ contains c (drop_newline s)
unfolding contains drop_newline
contains-drop_newline c String.[] h = refl
contains-drop_newline c (String.◌∷◌ d String.[]) h = elim (Bool-cases (code d == 10)) [
  | inl e ↦ rw e (ground arith)
  | inr e ↦ rw e refl
]
contains-drop_newline c (String.◌∷◌ d (String.◌∷◌ e s)) h =
    ap (λ (b : Bool). code d == c || b) (contains-drop_newline c (String.◌∷◌ e s) h)

-- A node name holds only letters, digits, dashes, dots and perhaps a newline.
pub contains-is_node_name :
    (c : ℕ) (s : String)
    → is_name_char c ≡ false
    → c ≢ b'.'
    → c ≢ 10
    → is_node_name s ≡ true
    → contains c s ≡ false
unfolding is_node_name
contains-is_node_name c s h dot newline k =
    contains-drop_newline c s newline
    ∙ contains-split c b'.' (drop_newline s) dot
    ∙ labels_lack c (split b'.' (drop_newline s)) h k

-- What is needed of a taint that `_parse_taint_spec` can give.
pub record IsWellFormed (t : Taint) : Type 0 where
  pub key_stripped : strip t.key ≡ t.key
  pub key_nonempty : t.key ≢ empty
  pub key_valid : is_node_name t.key ≡ true
  pub value_stripped : strip t.value ≡ t.value
  pub effect_valid : elem t.effect valid_taint_effects ≡ true

effect_cases :
    (e : String) → elem e valid_taint_effects ≡ true → (strip e ≡ e) × (contains b':' e ≡ false)
unfolding strip contains
effect_cases e h = elim (Bool-cases (str_eq e "NoSchedule")) [
  | inl a ↦ rw ((eq_iff e "NoSchedule").0 a) (refl, refl)
  | inr a ↦ elim (Bool-cases (str_eq e "PreferNoSchedule")) [
    | inl b ↦ rw ((eq_iff e "PreferNoSchedule").0 b) (refl, refl)
    | inr b ↦
        let d : e ≡ "NoExecute" = ground (arith, a, b, h, eq_iff e "NoExecute") in rw d (refl, refl)
  ]
]

-- The text in front of the effect.
abbrev key_part : Taint → String
key_part t = if str_eq t.value empty then t.key else t.key ++ ("=" ++ t.value)

append_assoc_text : (r s t : String) → (r ++ s) ++ t ≡ r ++ (s ++ t)
append_assoc_text String.[] s t = simp append.nil
append_assoc_text (String.◌∷◌ c r) s t = simp append.cons (ap (cons c) (append_assoc_text r s t))

render-key_part : (t : Taint) → render_taint t ≡ key_part t ++ (":" ++ t.effect)
unfolding render_taint
render-key_part t = elim (Bool-cases (str_eq t.value empty)) [
  | inl e ↦ rw e refl
  | inr e ↦ rw e (
      sym (
        append_assoc_text t.key ("=" ++ t.value) (":" ++ t.effect)
        ∙ ap (λ (s : String). t.key ++ s) (append_assoc_text "=" t.value (":" ++ t.effect))))
]

-- A text of one character in front of another.
colon : (s : String) → ":" ++ s ≡ cons ":" s
colon s = rw (append.cons, append.nil) refl

equals : (s : String) → "=" ++ s ≡ cons "=" s
equals s = rw (append.cons, append.nil) refl

parse_rendered :
    (t : Taint) (part : String)
    → elem t.effect valid_taint_effects ≡ true
    → contains b':' t.effect ≡ false
    → strip t.effect ≡ t.effect
    → parse_taint_spec (part ++ (":" ++ t.effect)) ≡ (
        if contains b'=' part
        then checked_key (strip (before b'=' part)) (strip (after b'=' part)) t.effect
        else checked_key (strip part) empty t.effect)
unfolding parse_taint_spec
parse_rendered t part valid h k =
    rw
      (
        colon t.effect,
        contains-middle b':' ":" refl part t.effect,
        before_last-append b':' ":" refl part t.effect h,
        after_last-append b':' ":" refl part t.effect h,
        k,
        valid,
      )
      refl

module _ (t : Taint) (w : IsWellFormed t) where
  no_equals : contains b'=' t.key ≡ false
  no_equals = contains-is_node_name b'=' t.key refl (omega arith) (omega arith) w.key_valid

  checked : checked_key t.key t.value t.effect ≡ ok t
  unfolding checked_key
  checked = ground (arith, w.key_valid, w.key_nonempty, eq_iff t.key empty)

  -- The part in front of the effect is read back as key and value.
  parse_key_part :
      (if contains b'=' (key_part t)
        then checked_key
            (strip (before b'=' (key_part t)))
            (strip (after b'=' (key_part t)))
            t.effect
        else checked_key (strip (key_part t)) empty t.effect)
      ≡ ok t
  parse_key_part = elim (Bool-cases (str_eq t.value empty)) [
    | inl e ↦ rw (e, no_equals, w.key_stripped, ← ((eq_iff t.value empty).0 e)) checked
    | inr e ↦
        rw
          (
            e,
            equals t.value,
            contains-middle b'=' "=" refl t.key t.value,
            before-append b'=' "=" refl t.key t.value no_equals,
            after-append b'=' "=" refl t.key t.value no_equals,
            w.key_stripped,
            w.value_stripped,
          )
          checked
  ]

-- Parsing undoes rendering: the text that `taint_node` and `untaint_node` print for a taint is parsed
-- to that taint, for every taint with an accepted, stripped key, a stripped value, which may be
-- empty or hold colons and equals signs, and one of the three effects.
pub parse-render : (t : Taint) → IsWellFormed t → parse_taint_spec (render_taint t) ≡ ok t
parse-render t w =
    let (stripped, no_colon) = effect_cases t.effect w.effect_valid in
    rw render-key_part
      (parse_rendered t (key_part t) w.effect_valid no_colon stripped ∙ parse_key_part t w)

slash_key :
    (key value effect : String)
    → contains b'/' key ≡ true
    → checked_key key value effect ≡ value_error
unfolding checked_key
slash_key key value effect slash = elim (Bool-cases (is_node_name key)) [
  | inl named ↦ cc (slash, contains-is_node_name b'/' key refl (omega arith) (omega arith) named)
  | inr other ↦ ground (arith, other)
]

qualified_key_part :
    (t : Taint)
    → contains b'/' t.key ≡ true
    → strip t.key ≡ t.key
    → contains b'=' t.key ≡ false
    → (if contains b'=' (key_part t)
        then checked_key
            (strip (before b'=' (key_part t)))
            (strip (after b'=' (key_part t)))
            t.effect
        else checked_key (strip (key_part t)) empty t.effect)
      ≡ value_error
qualified_key_part t slash stripped plain = elim (Bool-cases (str_eq t.value empty)) [
  | inl e ↦ rw (e, plain, stripped) (slash_key t.key empty t.effect slash)
  | inr e ↦
      rw
        (
          e,
          equals t.value,
          contains-middle b'=' "=" refl t.key t.value,
          before-append b'=' "=" refl t.key t.value plain,
          stripped,
        )
        (slash_key t.key (strip (after b'=' (t.key ++ cons "=" t.value))) t.effect slash)
]

-- No taint whose key has a slash, as `node.kubernetes.io/unreachable` has, can be written or removed:
-- its rendering is refused with a `ValueError`, if the key is stripped and has no equals sign and the effect is one
-- of the three.
pub qualified_key_refused :
    (t : Taint)
    → contains b'/' t.key ≡ true
    → strip t.key ≡ t.key
    → contains b'=' t.key ≡ false
    → elem t.effect valid_taint_effects ≡ true
    → parse_taint_spec (render_taint t) ≡ value_error
qualified_key_refused t slash stripped plain valid =
    let (trimmed, no_colon) = effect_cases t.effect valid in
    rw render-key_part (
      parse_rendered t (key_part t) valid no_colon trimmed
      ∙ qualified_key_part t slash stripped plain)
