-- ===== src/Waiting/Wait.antt =====
-- `wait_resource` of wait_tool.py. Discovery, the reads of the resource, the clock, the sleeps between the
-- rounds, which are seen in the clock only, and the printing of a value are parameters. Time is in
-- milliseconds, and a negative timeout, which is over at once like zero, is left out.
pub mod Ending
use k8s_mcp.Base.{
  ℕ, String, Bool, true, false, ◌&&◌, not, Option, none, some, ◌+◌, ◌*◌, ◌==◌, any, str_eq,
  if◌then◌else◌,
}
use k8s_mcp.Base.Json.{Json, boolean, str, obj, Fields, get, dict_or_empty, list_or_empty, is_str}
use k8s_mcp.Base.Text.{empty}
use k8s_mcp.Generic.Kinds.{
  Discovery, Found, one, resource_not_found, resource_not_unique, api_version_for,
}
use k8s_mcp.Waiting.Jsonpath.{Found as Walked, value, lookup_error as missing, jsonpath}
use k8s_mcp.Waiting.Poll.{Round, finish, again, poll}

-- `str(v) == "True"`
abbrev pub prints_true : Option Json → Bool
prints_true (some (boolean b)) = b
prints_true (some (str s)) = str_eq s "True"
prints_true _ = false

-- One entry of `status.conditions`, a dictionary.
abbrev pub is_condition : String → Json → Bool
is_condition condition c =
    is_str (get "type" (dict_or_empty (some c))) condition
    && prints_true (get "status" (dict_or_empty (some c)))

unfoldable pub check_condition : Fields → String → Bool
check_condition o condition =
    any (is_condition condition) (list_or_empty (get "conditions" (dict_or_empty (get "status" o))))

-- A read of the resource.
pub data Read : Type 0 where
  item : Fields → Read
  api_exception : ℕ → Read

pub data Waited : Type 0 where
  condition_met : Waited
  jsonpath_met : Json → Waited
  value_error : Waited
  lookup_error : Waited
  timeout_error : Waited
  raised : ℕ → Waited

-- What to wait for, once the arguments have been checked.
pub data Goal : Type 0 where
  condition : String → Goal
  path : String → String → Goal

-- A text argument that is given and not empty.
abbrev pub given : Option String → Option String
given none = none
given (some s) = if str_eq s empty then none else some s

abbrev pub checked_goal : Option String → Option String → Option String → Option Goal
checked_goal none none jsonpath_value = none
checked_goal (some c) (some p) jsonpath_value = none
checked_goal none (some p) none = none
checked_goal none (some p) (some v) = some (path p v)
checked_goal (some c) none jsonpath_value = some (condition c)

module _ (decimal : ℕ → Option ℕ) (print : Json → String) where
  unfoldable pub look : Goal → Fields → Round Waited
  look (condition c) o = if check_condition o c then finish condition_met else again timeout_error
  look (path p v) o = elim (jsonpath decimal (obj o) p) [
    | missing ↦ finish lookup_error
    | value actual ↦
        if str_eq (print actual) v then finish (jsonpath_met actual) else again timeout_error
  ]

  abbrev pub after_read : Goal → Read → Round Waited
  after_read goal (item o) = look goal o
  after_read goal (api_exception status) =
      if status == 404 then finish lookup_error else finish (raised status)

  module _ {H : Type 0} (d : Discovery H) (read : H → String → Option String → ℕ → Read)
      (clock : ℕ → ℕ) where
    abbrev pub ask : H → String → Option String → Goal → ℕ → Round Waited
    ask h name namespace goal i = after_read goal (read h name namespace i)

    -- `dc.resources.get(api_version=…, kind=…)`, any exception of which is a `ValueError`.
    abbrev pub served : String → Option H
    served kind =
        as_served (elim (api_version_for kind) [
          | none ↦ d.anywhere kind
          | some version ↦ d.at version kind
        ])
      where
        as_served : Found H → Option H
        as_served (one h) = some h
        as_served resource_not_found = none
        as_served resource_not_unique = none

    -- The tool that starts at a moment, on fuel; without an answer the fuel ran out.
    unfoldable pub wait_resource :
        ℕ
        → ℕ
        → String
        → String
        → Option String
        → Option String
        → Option String
        → Option String
        → ℕ
        → Option Waited
    wait_resource fuel start kind name namespace for_condition for_jsonpath jsonpath_value
          timeout_seconds =
        elim (checked_goal (given for_condition) (given for_jsonpath) jsonpath_value) [
          | none ↦ some value_error
          | some goal ↦ elim (served kind) [
            | none ↦ some value_error
            | some h ↦
                elim (poll (ask h name namespace goal) clock (start + timeout_seconds * 1000) fuel
                  0) [ none ↦ none | some (i, r) ↦ some r ]
          ]
        ]
