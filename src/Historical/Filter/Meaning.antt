-- ===== src/Historical/Filter/Meaning.antt =====
-- What ParseFilterNode of internal/services/duckdb.go makes of a filter tree, as a relation between trees
-- and SQL: how the parts of a group are joined, which are left out, and what a comparison becomes.
use velocity_engine_backend.Prelude.{
  ℕ, zero, suc, ◌<◌, String, ◌≡◌, ◌≢◌, refl, ap, inl, inr, Bool, true, false, List, [], ◌∷◌, map,
  str_append, ◌||◌, none, some, if◌then◌else◌, ◌==◌, ==_iff, Bool-cases, Option-cases,
  comparable_string, arith,
}
use velocity_engine_backend.Prelude.Maps.{Map, lookup}
use velocity_engine_backend.Prelude.Text.{join, concat}
use velocity_engine_backend.Json.{
  Value, Elements, Members, null, bool, float, int64, str, arr, obj, foreign, no_elements, element,
  as_string, get_field,
}
use velocity_engine_backend.Historical.{Strings, Fragment, translate_field, validate_identifier}
use velocity_engine_backend.Historical.Filter.{
  op_map, field_condition, parse_condition, parse_conditions, all_params, sql_of, combine,
  as_elements, logic_of, parse_step, parse_with, parse_filter_node, size, size_elements,
  size_members,
}
use velocity_engine_backend.Historical.Filter.Depth.{size-get_field, size-as_elements}

abbrev pub text_at : String → Members → String
text_at k node = as_string (get_field k node)

-- The comparisons and their SQL
abbrev pub comparisons : Map String String
comparisons =
    ("EQUALS", "=")
    ∷ ("NOT_EQUALS", "!=")
    ∷ ("GREATER_THAN", ">")
    ∷ ("GREATER_THAN_EQUAL", ">=")
    ∷ ("LESS_THAN", "<")
    ∷ ("LESS_THAN_EQUAL", "<=")
    ∷ []

-- Several parts stand in parentheses, a single one as it is.
abbrev pub joined : String → List Fragment → Fragment
joined separator [] = record { sql = ""; params = [] }
joined separator (p ∷ []) = p
joined separator (p ∷ q ∷ ps) = record {
  sql = concat ("(" ∷ join separator (map sql_of (p ∷ q ∷ ps)) ∷ ")" ∷ []);
  params = all_params (p ∷ q ∷ ps);
}

abbrev pub separator_of : Members → String
separator_of node = if text_at "logic" node == "OR" then " OR " else " AND "

abbrev pub is_object : Value → Bool
is_object (obj _) = true
is_object _ = false

-- `Translates` relates a node to its SQL, `Parts` the list of a group to the SQL of its members. A
-- condition whose operator is no comparison is the one of `parse_condition`.
mutual
  pub data Translates (lib : Strings) : Members → Fragment → Type 0 where
    group :
        {node : Members} {parts : List Fragment}
        → text_at "type" node ≡ "group"
        → Parts lib (as_elements (get_field "conditions" node)) parts
        → Translates lib node (joined (separator_of node) parts)
    comparison :
        {node : Members} {sql_op column : String}
        → text_at "type" node ≡ "condition"
        → lookup (text_at "operator" node) comparisons ≡ some sql_op
        → validate_identifier lib (translate_field lib (text_at "field" node)) ≡ some column
        → Translates lib node (record {
          sql = concat (column ∷ " " ∷ sql_op ∷ " ?" ∷ []);
          params = get_field "value" node ∷ [];
        })
    unknown_field :
        {node : Members} {sql_op : String}
        → text_at "type" node ≡ "condition"
        → lookup (text_at "operator" node) comparisons ≡ some sql_op
        → validate_identifier lib (translate_field lib (text_at "field" node)) ≡ none
        → Translates lib node (record { sql = ""; params = [] })
    special :
        {node : Members}
        → text_at "type" node ≡ "condition"
        → lookup (text_at "operator" node) comparisons ≡ none
        → Translates lib node (parse_condition lib node)
    unknown_type :
        {node : Members}
        → text_at "type" node ≢ "group"
        → text_at "type" node ≢ "condition"
        → Translates lib node (record { sql = ""; params = [] })

  pub data Parts (lib : Strings) : Elements → List Fragment → Type 0 where
    ended : Parts lib no_elements []
    kept :
        {node : Members} {rest : Elements} {p : Fragment} {ps : List Fragment}
        → Translates lib node p
        → p.sql ≢ ""
        → Parts lib rest ps
        → Parts lib (element (obj node) rest) (p ∷ ps)
    blank :
        {node : Members} {rest : Elements} {p : Fragment} {ps : List Fragment}
        → Translates lib node p
        → p.sql ≡ ""
        → Parts lib rest ps
        → Parts lib (element (obj node) rest) ps
    passed :
        {v : Value} {rest : Elements} {ps : List Fragment}
        → is_object v ≡ false
        → Parts lib rest ps
        → Parts lib (element v rest) ps

ne_of_test : (s t : String) → (s == t) ≡ false → s ≢ t
ne_of_test s t h e = ground (arith, (==_iff s t).1 e)

separator-logic :
    (logic : String)
    → str_append " " (str_append (if logic == "AND" || logic == "OR" then logic else "AND") " ")
      ≡ (if logic == "OR" then " OR " else " AND ")
separator-logic logic = elim (Bool-cases (logic == "OR")) [
  | inl o ↦ let e : logic ≡ "OR" = (==_iff logic "OR").0 o in rw e refl
  | inr o ↦ elim (Bool-cases (logic == "AND")) [
    | inl a ↦ let e : logic ≡ "AND" = (==_iff logic "AND").0 a in rw e refl
    | inr a ↦ rw (o, a) refl
  ]
]

combine-joined :
    (node : Members) (parts : List Fragment)
    → combine (logic_of node) parts ≡ joined (separator_of node) parts
unfolding combine logic_of
combine-joined node [] = refl
combine-joined node (p ∷ []) = refl
combine-joined node (p ∷ q ∷ ps) =
    ap (λ separator. joined separator (p ∷ q ∷ ps)) (separator-logic (text_at "logic" node))

module _ (lib : Strings) where
  parse_conditions-Parts :
      (parse : Members → Fragment) (items : Elements)
      → ((node : Members)
          → size_members node < size_elements items
          → Translates lib node (parse node))
      → Parts lib items (parse_conditions parse items)
  unfolding parse_conditions size
  parse_conditions-Parts parse no_elements h = ended
  parse_conditions-Parts parse (element (obj node) rest) h =
      let here = h node (omega arith) in
      let later = parse_conditions-Parts parse rest (λ n l. h n (omega (arith, l))) in
      elim (Bool-cases ((parse node).sql == "")) [
        | inl q ↦ rw q (blank here ((==_iff (parse node).sql "").0 q) later)
        | inr q ↦ rw q (kept here (ne_of_test (parse node).sql "" q) later)
      ]
  parse_conditions-Parts parse (element null rest) h =
      passed refl (parse_conditions-Parts parse rest (λ n l. h n (omega (arith, l))))
  parse_conditions-Parts parse (element (bool b) rest) h =
      passed refl (parse_conditions-Parts parse rest (λ n l. h n (omega (arith, l))))
  parse_conditions-Parts parse (element (float x) rest) h =
      passed refl (parse_conditions-Parts parse rest (λ n l. h n (omega (arith, l))))
  parse_conditions-Parts parse (element (int64 x) rest) h =
      passed refl (parse_conditions-Parts parse rest (λ n l. h n (omega (arith, l))))
  parse_conditions-Parts parse (element (str s) rest) h =
      passed refl (parse_conditions-Parts parse rest (λ n l. h n (omega (arith, l))))
  parse_conditions-Parts parse (element (arr items) rest) h =
      passed refl (parse_conditions-Parts parse rest (λ n l. h n (omega (arith, l))))
  parse_conditions-Parts parse (element (foreign x) rest) h =
      passed refl (parse_conditions-Parts parse rest (λ n l. h n (omega (arith, l))))

  -- A comparison is not IS_FINANCIAL_AUA.
  comparison-ordinary :
      (op sql_op : String)
      → lookup op comparisons ≡ some sql_op
      → (op == "IS_FINANCIAL_AUA") ≡ false
  unfolding lookup
  comparison-ordinary op sql_op found = elim (Bool-cases (op == "IS_FINANCIAL_AUA")) [
    | inr q ↦ q
    | inl q ↦
        let e : op ≡ "IS_FINANCIAL_AUA" = (==_iff op "IS_FINANCIAL_AUA").0 q in
        absurd (ground (arith, rw e at found))
  ]

  parse_condition-Translates :
      (node : Members)
      → text_at "type" node ≡ "condition"
      → Translates lib node (parse_condition lib node)
  unfolding parse_condition field_condition op_map
  parse_condition-Translates node kind =
      elim (Option-cases (lookup (text_at "operator" node) comparisons)) [
        | inl q ↦ special kind q
        | inr (sql_op, q) ↦
            let ordinary = comparison-ordinary (text_at "operator" node) sql_op q in
            elim (Option-cases
              (validate_identifier lib (translate_field lib (text_at "field" node)))) [
                | inl v ↦ rw (parse_condition, ordinary, v) (unknown_field kind q v)
                | inr (column, v) ↦
                    rw (parse_condition, ordinary, v, field_condition, q) (comparison kind q v)
              ]
      ]

  parse_step-Translates :
      (parse : Members → Fragment) (node : Members)
      → ((inner : Members)
          → size_members inner < size_members node
          → Translates lib inner (parse inner))
      → Translates lib node (parse_step lib parse node)
  unfolding parse_step
  parse_step-Translates parse node h =
      let items = as_elements (get_field "conditions" node) in
      let parts = parse_conditions-Parts parse items (λ inner l. h inner (
        omega (
          arith,
          l,
          size-as_elements (get_field "conditions" node),
          size-get_field "conditions" node,
        ))) in
      elim (Bool-cases (text_at "type" node == "group")) [
        | inl q ↦
            rw (q, combine-joined node (parse_conditions parse items))
              (group ((==_iff (text_at "type" node) "group").0 q) parts)
        | inr q ↦ elim (Bool-cases (text_at "type" node == "condition")) [
          | inl c ↦
              rw (q, c)
                (parse_condition-Translates node ((==_iff (text_at "type" node) "condition").0 c))
          | inr c ↦
              rw (q, c)
                (unknown_type (ne_of_test (text_at "type" node) "group" q)
                  (ne_of_test (text_at "type" node) "condition" c))
        ]
      ]

  parse_with-Translates :
      (fuel : ℕ) (node : Members)
      → size_members node < fuel
      → Translates lib node (parse_with lib fuel node)
  unfolding parse_with
  parse_with-Translates zero node l = elim l [ ]
  parse_with-Translates (suc fuel) node l =
      parse_step-Translates (parse_with lib fuel) node
        (λ inner m. parse_with-Translates fuel inner (omega (arith, l, m)))

  -- ParseFilterNode ends on every filter tree, however deep. A group becomes the SQL of the members that
  -- are objects and give some SQL, in their order, joined by OR where its logic says so and by AND
  -- otherwise, in parentheses where there are several, with their parameters one after the other; a
  -- comparison becomes its column, its operator and one placeholder for its value, and nothing where the
  -- column is no identifier; any other operator what `parse_condition` gives; and a node of any other
  -- type nothing.
  pub parse_filter_node-Translates :
      (node : Members) → Translates lib node (parse_filter_node lib node)
  unfolding parse_filter_node
  parse_filter_node-Translates node =
      parse_with-Translates (suc (size_members node)) node (omega arith)
