-- ===== src/Secret/Tests.antt =====
-- Runs of the tools for secrets, with a codec that leaves texts as they are.
use k8s_mcp.Base.{String, ◌≡◌, refl, Bool, true, false, some, [], ◌∷◌, str_eq, if◌then◌else◌}
use k8s_mcp.Base.Text.Search.{count_chars}
use k8s_mcp.Formatters.Table.{repeat}
use k8s_mcp.Secret.{
  Codec, Read, item, key_missing, mask_value, available, sorted, insert_sorted, padded,
  get_secret_value,
}
use k8s_mcp.Secret.Masked.{get_secret_value_masked}

abbrev plain : Codec
plain = record {
  Bytes = String;
  b64decode = λ s. some s;
  b64error = λ s. s;
  b64encode = λ s. s;
  encode = λ s. s;
  decode = λ s. some s;
  isprintable = λ s. true;
  size = count_chars;
}

abbrev holding : String → String → String → Read
holding password name namespace =
    item (record { data_of = ("password", password) ∷ []; string_data = [] })

get_secret_value_masked_example :
    get_secret_value plain (some (holding "swordfish")) "db" "shop" "password" false
    ≡ get_secret_value plain (some (holding "hunter2hu")) "db" "shop" "password" false
unfolding padded repeat count_chars
get_secret_value_masked_example =
    get_secret_value_masked plain "password" (holding "swordfish") (holding "hunter2hu") "db" "shop"
      refl

missing_run :
    get_secret_value plain
      (some (λ name namespace.
        item (record { data_of = ("b", "1") ∷ ("a", "2") ∷ []; string_data = ("a", "3") ∷ [] })))
      "db"
      "shop"
      "password"
      false
    ≡ key_missing ("a" ∷ "a" ∷ "b" ∷ [])
unfolding get_secret_value mask_value available sorted insert_sorted
missing_run = refl

-- A codec that undoes the padding of the only text that it meets.
abbrev known : Codec
known = record {
  Bytes = Bool;
  b64decode = λ s. some (str_eq s "eWVz");
  b64error = λ s. s;
  b64encode = λ b. if b then "eWVz" else "bm8=";
  encode = λ s. str_eq s "yes";
  decode = λ b. some (if b then "yes" else "no");
  isprintable = λ s. true;
  size = λ b. if b then 3 else 2;
}
