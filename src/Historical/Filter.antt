-- ===== src/Historical/Filter.antt =====
-- ParseFilterNode of internal/services/duckdb.go: the filter tree of a rule as a WHERE condition.
pub mod Parts
pub mod Conditions
pub mod Sound
pub mod Depth
pub mod Meaning
use velocity_engine_backend.Prelude.{
  ℕ, zero, suc, ◌+◌, String, Bool, true, false, ◌&&◌, ◌||◌, not, List, [], ◌∷◌, ◌++◌, map, Option,
  none, some, if◌then◌else◌, ◌==◌, comparable_string, str_append, replicate, length,
}
use velocity_engine_backend.Prelude.Maps.{Map, lookup}
use velocity_engine_backend.Prelude.Text.{join, concat}
use velocity_engine_backend.Json.{
  Value, Elements, Members, null, str, arr, obj, no_elements, element, no_members, member,
  as_string, get_field, elements_to_list,
}
use velocity_engine_backend.Historical.{
  Strings, Fragment, no_fragment, translate_field, validate_identifier,
}
use velocity_engine_backend.Historical.Aua.{financial_aua_codes}

-- As many question marks, with commas between them.
unfoldable pub placeholder_list : List Value → String
placeholder_list items = join ", " (map (λ _. "?") items)

-- financialAuaCodesAsAny
unfoldable pub financial_aua_codes_as_any : List Value
financial_aua_codes_as_any = map str financial_aua_codes

unfoldable pub op_map : Map String String
op_map =
    ("EQUALS", "=")
    ∷ ("NOT_EQUALS", "!=")
    ∷ ("GREATER_THAN", ">")
    ∷ ("GREATER_THAN_EQUAL", ">=")
    ∷ ("LESS_THAN", "<")
    ∷ ("LESS_THAN_EQUAL", "<=")
    ∷ []

unfoldable pub date_op_map : Map String String
date_op_map = ("DATE_BEFORE", "<") ∷ ("DATE_AFTER", ">") ∷ ("DATE_EQUALS", "=") ∷ []

unfoldable pub in_list : String → List Value → Fragment
unfolding placeholder_list
in_list field [] = no_fragment
in_list field (item ∷ items) = record {
  sql = concat (field ∷ " IN (" ∷ placeholder_list (item ∷ items) ∷ ")" ∷ []);
  params = item ∷ items;
}

abbrev pub one_param : List String → Value → Fragment
one_param parts value = record { sql = concat parts; params = value ∷ [] }

abbrev pub as_array : Value → List Value
as_array (arr items) = elements_to_list items
as_array _ = []

module _ (lib : Strings) where
  -- resolveDateFilterValue; `none` is an error.
  unfoldable pub resolve_date_filter_value : Value → String → Option String
  resolve_date_filter_value raw format =
      let text = lib.trim_space (lib.sprint raw) in
      if format == "EPOCH_MILLIS"
      then elim (lib.parse_int text) [ none ↦ none | some ms ↦ some (lib.millis_utc ms) ]
      else if format == "ISO_STRING" || format == ""
      then lib.rfc3339_utc text
      else none

  -- The items of IN: an array, or the parts of a text between commas.
  unfoldable pub in_items : Value → List Value
  in_items (arr items) = elements_to_list items
  in_items (str text) = map (λ part. str (lib.trim_space part)) (lib.split text ",")
  in_items _ = []

  unfoldable pub date_condition : String → String → Value → String → Fragment
  unfolding resolve_date_filter_value
  date_condition field sql_op value format = elim (resolve_date_filter_value value format) [
    | none ↦ no_fragment
    | some resolved ↦
        one_param
          ("try_cast(" ∷ field ∷ " AS TIMESTAMP) " ∷ sql_op ∷ " try_cast(? AS TIMESTAMP)" ∷ [])
          (str resolved)
  ]

  -- The operators other than comparisons, on a field that has been validated.
  unfoldable pub other_condition : String → String → Value → String → Fragment
  unfolding in_list in_items date_condition lookup date_op_map
  other_condition op field value format =
      if op == "IN"
      then in_list field (in_items value)
      else if op == "REGEX"
      then one_param ("regexp_matches(" ∷ field ∷ ", ?)" ∷ []) value
      else if op == "CONTAINS"
      then one_param ("contains(CAST(" ∷ field ∷ " AS VARCHAR), CAST(? AS VARCHAR))" ∷ []) value
      else if op == "NOT_CONTAINS"
      then one_param ("NOT contains(CAST(" ∷ field ∷ " AS VARCHAR), CAST(? AS VARCHAR))" ∷ []) value
      else if op == "STARTS_WITH"
      then one_param ("starts_with(CAST(" ∷ field ∷ " AS VARCHAR), CAST(? AS VARCHAR))" ∷ []) value
      else if op == "ENDS_WITH"
      then one_param ("ends_with(CAST(" ∷ field ∷ " AS VARCHAR), CAST(? AS VARCHAR))" ∷ []) value
      else if op == "IS_NULL"
      then record { sql = concat (field ∷ " IS NULL" ∷ []); params = [] }
      else if op == "IS_NOT_NULL"
      then record { sql = concat (field ∷ " IS NOT NULL" ∷ []); params = [] }
      else elim (lookup op date_op_map) [
        | none ↦ no_fragment
        | some sql_op ↦ date_condition field sql_op value format
      ]

  unfoldable pub field_condition : String → String → Value → String → Fragment
  unfolding other_condition lookup op_map
  field_condition op field value format = elim (lookup op op_map) [
    | some sql_op ↦ one_param (field ∷ " " ∷ sql_op ∷ " ?" ∷ []) value
    | none ↦ other_condition op field value format
  ]

  -- IS_FINANCIAL_AUA: the column and the codes are fixed.
  unfoldable pub financial_condition : Fragment
  unfolding in_list translate_field validate_identifier financial_aua_codes_as_any
  financial_condition = elim (validate_identifier lib (translate_field lib "_data.aua")) [
    | none ↦ no_fragment
    | some field ↦ in_list field financial_aua_codes_as_any
  ]

  unfoldable pub parse_condition : Members → Fragment
  unfolding financial_condition field_condition translate_field validate_identifier get_field
  parse_condition node =
      let op = as_string (get_field "operator" node) in
      if op == "IS_FINANCIAL_AUA"
      then financial_condition
      else elim (validate_identifier lib
          (translate_field lib (as_string (get_field "field" node)))) [
            | none ↦ no_fragment
            | some field ↦
                field_condition op field (get_field "value" node)
                  (as_string (get_field "format" node))
          ]

-- The loop over the conditions of a group: those that are objects and give some SQL.
unfoldable pub parse_conditions : (Members → Fragment) → Elements → List Fragment
parse_conditions parse no_elements = []
parse_conditions parse (element (obj node) rest) =
    let others = parse_conditions parse rest in
    let part = parse node in if part.sql == "" then others else part ∷ others
parse_conditions parse (element _ rest) = parse_conditions parse rest

unfoldable pub all_params : List Fragment → List Value
all_params [] = []
all_params (p ∷ ps) = p.params ++ all_params ps

abbrev pub sql_of : Fragment → String
sql_of p = p.sql

-- A group of one part is that part.
unfoldable pub combine : String → List Fragment → Fragment
unfolding all_params
combine logic [] = no_fragment
combine logic (p ∷ []) = p
combine logic (p ∷ q ∷ ps) = record {
  sql =
      concat
        ("(" ∷ join (str_append " " (str_append logic " ")) (map sql_of (p ∷ q ∷ ps)) ∷ ")" ∷ []);
  params = all_params (p ∷ q ∷ ps);
}

abbrev pub as_elements : Value → Elements
as_elements (arr items) = items
as_elements _ = no_elements

-- Any logic but AND and OR is read as AND.
unfoldable pub logic_of : Members → String
unfolding get_field
logic_of node =
    let logic = as_string (get_field "logic" node) in
    if logic == "AND" || logic == "OR" then logic else "AND"

-- ParseFilterNode, with the function that its loop calls.
unfoldable pub parse_step : Strings → (Members → Fragment) → Members → Fragment
unfolding get_field parse_condition parse_conditions combine logic_of
parse_step lib parse node =
    let parts = parse_conditions parse (as_elements (get_field "conditions" node)) in
    let kind = as_string (get_field "type" node) in
    if kind == "group"
    then combine (logic_of node) parts
    else if kind == "condition"
    then parse_condition lib node
    else no_fragment

-- The recursion, with fuel for the depth of the tree.
unfoldable pub parse_with : Strings → ℕ → Members → Fragment
unfolding parse_step
parse_with lib zero node = no_fragment
parse_with lib (suc fuel) node = parse_step lib (parse_with lib fuel) node

-- The number of objects in a value.
unfoldable mutual
  pub size : Value → ℕ
  size (arr items) = size_elements items
  size (obj node) = suc (size_members node)
  size _ = 0

  pub size_elements : Elements → ℕ
  size_elements no_elements = 0
  size_elements (element v rest) = size v + size_elements rest

  pub size_members : Members → ℕ
  size_members no_members = 0
  size_members (member k v rest) = size v + size_members rest

-- ParseFilterNode. An absent or empty node gives nothing.
unfoldable pub parse_filter_node : Strings → Members → Fragment
unfolding parse_with size
parse_filter_node lib node = parse_with lib (suc (size_members node)) node
