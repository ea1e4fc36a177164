-- ===== src/Formatters/Mask.antt =====
-- `mask_secret_data` of formatters.py, and what it hides.
use k8s_mcp.Base.{
  String, ◌≡◌, refl, ap, true, false, ◌||◌, none, some, str_eq, eq_iff, if◌then◌else◌, Bool-cases,
  inl, inr, arith,
}
use k8s_mcp.Base.Json.{Json, obj, str, Fields, end, field, get, is_str, as_dict}

abbrev pub secret_mask : String
secret_mask = "***"

-- `{k: SECRET_MASK for k in d}`
unfoldable pub mask_values : Fields → Fields
mask_values end = end
mask_values (field k v fs) = field k (str secret_mask) (mask_values fs)

-- The value of a key of the masked copy.
abbrev pub masked_value : String → Json → Json
masked_value k v =
    if str_eq k "data" || str_eq k "stringData"
    then elim (as_dict v) [ none ↦ v | some d ↦ obj (mask_values d) ]
    else v

unfoldable pub mask_fields : Fields → Fields
mask_fields end = end
mask_fields (field k v fs) = field k (masked_value k v) (mask_fields fs)

-- On the entries of an object, of any kind.
unfoldable pub mask_secret_data : Fields → Fields
mask_secret_data o = if is_str (get "kind" o) "Secret" then mask_fields o else o

-- Two dictionaries with the same keys in the same order.
pub data SameKeys : Fields → Fields → Type 0 where
  no_keys : SameKeys end end
  next_key :
      {k : String} {v w : Json} {fs gs : Fields}
      → SameKeys fs gs
      → SameKeys (field k v fs) (field k w gs)

-- Two objects that differ only in the values under the entries of a secret.
pub data Veiled : Fields → Fields → Type 0 where
  all_veiled : Veiled end end
  shown :
      {k : String} {v : Json} {fs gs : Fields} → Veiled fs gs → Veiled (field k v fs) (field k v gs)
  hidden :
      {k : String} {d e : Fields} {fs gs : Fields}
      → (str_eq k "data" || str_eq k "stringData") ≡ true
      → SameKeys d e
      → Veiled fs gs
      → Veiled (field k (obj d) fs) (field k (obj e) gs)

mask_values-SameKeys : {d e : Fields} → SameKeys d e → mask_values d ≡ mask_values e
unfolding mask_values
mask_values-SameKeys no_keys = refl
mask_values-SameKeys (next_key {k} s) = ap (field k (str secret_mask)) (mask_values-SameKeys s)

pub mask_fields-Veiled : {o p : Fields} → Veiled o p → mask_fields o ≡ mask_fields p
unfolding mask_fields
mask_fields-Veiled all_veiled = refl
mask_fields-Veiled (shown {k} {v} s) = ap (field k (masked_value k v)) (mask_fields-Veiled s)
mask_fields-Veiled (hidden {k} {d} {e} {fs} {gs} in_secret same s) =
    rw (in_secret, mask_values-SameKeys same, mask_fields-Veiled s) refl

-- The entries that are not hidden are the same.
pub get-Veiled :
    {o p : Fields} (j : String)
    → (str_eq j "data" || str_eq j "stringData") ≡ false
    → Veiled o p
    → get j o ≡ get j p
get-Veiled j open_ all_veiled = refl
get-Veiled j open_ (shown {k} {v} s) = elim (Bool-cases (str_eq k j)) [
  | inl e ↦ rw e refl
  | inr e ↦ rw e (get-Veiled j open_ s)
]
get-Veiled j open_ (hidden {k} in_secret same s) = elim (Bool-cases (str_eq k j)) [
  | inl e ↦ ground (arith, rw ((eq_iff k j).0 e) at in_secret, open_)
  | inr e ↦ rw e (get-Veiled j open_ s)
]
