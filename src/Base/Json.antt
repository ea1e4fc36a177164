-- ===== src/Base/Json.antt =====
-- Values as YAML and JSON give them, and Python's reads of dictionaries and lists.
use Prim.Native.Nat.{ℕ}
use Prim.Native.String.{String}
use mathlib.Core.Bool.{Bool, true, false, ◌||◌, not}
use mathlib.Core.Option.{Option, none, some}
use mathlib.Core.List.{List, [], ◌∷◌}
use text.Mathlib.Text.{◌==◌ as str_eq}
use k8s_mcp.Base.Tests.{if◌then◌else◌, ◌==◌}

-- An integer is its sign and its size; a float is kept as its text.
mutual
  pub data Json : Type 0 where
    null : Json
    boolean : Bool → Json
    int : Bool → ℕ → Json
    float : String → Json
    str : String → Json
    arr : Items → Json
    obj : Fields → Json

  pub data Items : Type 0 where
    nil : Items
    cons : Json → Items → Items

  pub data Fields : Type 0 where
    end : Fields
    field : String → Json → Fields → Fields

-- `d.get(k)` on the entries of a dictionary.
abbrev pub get : String → Fields → Option Json
get k end = none
get k (field j v fs) = let rest = get k fs in if str_eq j k then some v else rest

-- `k in d`
abbrev pub has_key : String → Fields → Bool
has_key k end = false
has_key k (field j v fs) = str_eq j k || has_key k fs

abbrev pub keys : Fields → List String
keys end = []
keys (field k v fs) = k ∷ keys fs

-- `d[k] = v`
abbrev pub put : String → Json → Fields → Fields
put k v end = field k v end
put k v (field j w fs) =
    let rest = put k v fs in if str_eq j k then field k v fs else field j w rest

abbrev pub items : Items → List Json
items nil = []
items (cons v vs) = v ∷ items vs

-- Python's truth of a value.
abbrev pub truthy : Json → Bool
truthy null = false
truthy (boolean b) = b
truthy (int negative n) = not (n == 0)
truthy (float text) = not (str_eq text "0.0" || str_eq text "-0.0")
truthy (str s) = not (str_eq s "")
truthy (arr nil) = false
truthy (arr (cons v vs)) = true
truthy (obj end) = false
truthy (obj (field k v fs)) = true

-- `isinstance(v, dict)`, with the entries.
abbrev pub as_dict : Json → Option Fields
as_dict (obj fs) = some fs
as_dict null = none
as_dict (boolean b) = none
as_dict (int negative n) = none
as_dict (float text) = none
as_dict (str s) = none
as_dict (arr vs) = none

-- `(d.get(k) or {})` where what is there is a dictionary, null or missing.
abbrev pub dict_or_empty : Option Json → Fields
dict_or_empty none = end
dict_or_empty (some v) = elim (as_dict v) [ none ↦ end | some fs ↦ fs ]

-- `(d.get(k) or [])` where what is there is a list, null or missing.
abbrev pub list_or_empty : Option Json → List Json
list_or_empty (some (arr vs)) = items vs
list_or_empty _ = []

-- `d.get(k) == t` for a text.
abbrev pub is_str : Option Json → String → Bool
is_str (some (str s)) t = str_eq s t
is_str _ t = false

-- A list, and a dictionary of texts, as values.
abbrev pub items_of : List Json → Items
items_of [] = nil
items_of (v ∷ vs) = cons v (items_of vs)

abbrev pub text_fields : List (String × String) → Fields
text_fields [] = end
text_fields ((k, v) ∷ d) = field k (str v) (text_fields d)

-- A dictionary with one entry.
abbrev pub entry : String → Json → Json
entry k v = obj (field k v end)

-- A dictionary from its entries, and an entry that is there under a condition.
abbrev pub dict : List (String × Json) → Fields
dict [] = end
dict ((k, v) ∷ d) = field k v (dict d)

abbrev pub when : Bool → String → Json → List (String × Json)
when true k v = (k, v) ∷ []
when false k v = []
