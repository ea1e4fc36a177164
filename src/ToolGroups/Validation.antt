-- ===== src/ToolGroups/Validation.antt =====
-- The validators of `enabled_groups`, and a value for which `doctor` misreports the registration.
use k8s_mcp.Base.{
  String, ◌≡◌, refl, ◌≢◌, inl, inr, Bool, true, false, not, some, List, [], ◌∷◌, elem, all,
  is_empty, select, arith, Bool-cases, eq_iff, str_eq, if◌then◌else◌, sym, ◌∙◌, bool_iff_eq,
}
use k8s_mcp.Base.Text.{split, strip, empty}
use k8s_mcp.Config.{Settings, ok, value_error, text, fromkeys}
use k8s_mcp.Config.Allowlist.{elem-fromkeys}
use k8s_mcp.ToolGroups.{
  all_tool_groups, sorted, insert_sorted, split_enabled_groups, validate_enabled_groups, registered,
  register_tools, all_groups, reported_groups,
}

is_empty-insert_sorted : (x : String) (xs : List String) → is_empty (insert_sorted x xs) ≡ false
unfolding insert_sorted
is_empty-insert_sorted x [] = refl
is_empty-insert_sorted x (y ∷ ys) = ground arith

is_empty-sorted : (xs : List String) → is_empty (sorted xs) ≡ is_empty xs
unfolding sorted
is_empty-sorted [] = refl
is_empty-sorted (x ∷ xs) = is_empty-insert_sorted x (sorted xs)

module _ (p : String → Bool) where
  is_empty-select : (xs : List String) → is_empty (select (λ x. not (p x)) xs) ≡ all p xs
  is_empty-select [] = refl
  is_empty-select (x ∷ xs) = ground (arith, is_empty-select xs)

  all_mem : (k : String) (xs : List String) → all p xs ≡ true → elem k xs ≡ true → p k ≡ true
  all_mem k [] h m = cc
  all_mem k (x ∷ xs) h m = elim (Bool-cases (str_eq k x)) [
    | inl e ↦ rw ((eq_iff k x).0 e) (ground arith)
    | inr e ↦ all_mem k xs (ground arith) (ground arith)
  ]

  all_of_mem : (xs : List String) → ((k : String) → elem k xs ≡ true → p k ≡ true) → all p xs ≡ true
  all_of_mem [] h = refl
  all_of_mem (x ∷ xs) h = ground (arith, eq_iff x x, h x, all_of_mem xs (λ k m. h k (ground arith)))

  all-fromkeys : (xs : List String) → all p (fromkeys xs) ≡ all p xs
  all-fromkeys xs =
      bool_iff_eq _ _
        (λ h. all_of_mem xs (λ k m. all_mem k (fromkeys xs) h (elem-fromkeys k xs ∙ m)))
        (λ h. all_of_mem (fromkeys xs) (λ k m. all_mem k xs h (sym (elem-fromkeys k xs) ∙ m)))

-- The validator accepts a list of groups, unchanged, exactly if the catalog has every one of them,
-- and refuses it with a `ValueError` otherwise.
pub validate_enabled_groups_lem :
    (v : List String)
    → validate_enabled_groups (some v)
      ≡ (if all (λ g. elem g all_tool_groups) v then ok (some v) else value_error)
unfolding validate_enabled_groups
validate_enabled_groups_lem v = rw (
  is_empty-sorted,
  is_empty-select (λ g. elem g all_tool_groups),
  all-fromkeys (λ g. elem g all_tool_groups),
)

no_pieces :
    (ss : List String)
    → all (λ s. str_eq (strip s) empty) ss ≡ true
    → select (λ s. not (str_eq (strip s) empty)) ss ≡ []
no_pieces [] h = refl
no_pieces (s ∷ ss) h = ground (arith, no_pieces ss)

abbrev is_blank : String → Bool
is_blank v = all (λ s. str_eq (strip s) empty) (split b',' v)

register_nothing : (s : Settings) → s.enabled_groups ≡ some [] → register_tools s ≡ registered []
unfolding register_tools
register_nothing s e = rw e refl

report_all : (s : Settings) → s.enabled_groups ≡ some [] → reported_groups s ≡ all_groups
unfolding reported_groups
report_all s e = ground arith

module _ (lower : String → String) (v : String) where
  split_blank : v ≢ empty → is_blank v ≡ true → split_enabled_groups lower (text v) ≡ some []
  unfolding split_enabled_groups
  split_blank filled blank = rw (no_pieces (split b',' v) blank) (ground (arith, eq_iff v empty))

-- A value of `enabled_groups` that is not empty and holds only commas and blanks is accepted; no
-- tool module is registered under it, and `doctor` reports that all groups are enabled.
pub blank_groups_misreported :
    (lower : String → String) (v : String) (s : Settings)
    → v ≢ empty
    → is_blank v ≡ true
    → s.enabled_groups ≡ split_enabled_groups lower (text v)
    → (validate_enabled_groups s.enabled_groups ≡ ok (some []))
      × (register_tools s ≡ registered [])
      × (reported_groups s ≡ all_groups)
unfolding validate_enabled_groups
blank_groups_misreported lower v s filled blank e =
    let none_left = e ∙ split_blank lower v filled blank in
    (rw none_left, register_nothing s none_left, report_all s none_left)
