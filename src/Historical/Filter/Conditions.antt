-- ===== src/Historical/Filter/Conditions.antt =====
-- The SQL of one condition of a filter: its characters and its placeholders.
use velocity_engine_backend.Prelude.{
  String, ◌≡◌, refl, sym, Bool, true, false, List, [], ◌∷◌, Option, none, some, if◌then◌else◌, ◌==◌,
  comparable_string, comparable_nat, length, All, inl, inr, Bool-cases, Option-cases, arith,
}
use velocity_engine_backend.Prelude.Maps.{Map, lookup}
use velocity_engine_backend.Prelude.Text.{concat, every, occurrences}
use velocity_engine_backend.Json.{Value, Members, as_string, get_field}
use velocity_engine_backend.Historical.{
  Strings, Fragment, no_fragment, is_word, validate_identifier, translate_field,
}
use velocity_engine_backend.Historical.Filter.{
  financial_aua_codes_as_any, op_map, date_op_map, in_list, one_param, resolve_date_filter_value,
  in_items, date_condition, other_condition, field_condition, financial_condition, parse_condition,
}
use velocity_engine_backend.Historical.Filter.Parts.{
  Marks, Marks-append, Marks-count, Marks-around, IsSound, placeholder_list-Marks,
  validate_identifier-Marks,
}

module _ (lib : Strings) where
  pub if-IsSound :
      (b : Bool) (p q : Fragment) → IsSound lib p → IsSound lib q → IsSound lib (if b then p else q)
  if-IsSound true p q hp hq = hp
  if-IsSound false p q hp hq = hq

  option-IsSound :
      {A : Type 0} (o : Option A) (f : A → Fragment)
      → ((a : A) → o ≡ some a → IsSound lib (f a))
      → IsSound lib (elim o [ none ↦ no_fragment | some a ↦ f a ])
  unfolding every occurrences
  option-IsSound none f h = record { safe = refl; marks = refl }
  option-IsSound (some a) f h = h a refl

  abbrev HasNoMarks : String × String → Type 0
  HasNoMarks (key, value) = Marks lib 0 value

  lookup-Marks :
      (m : Map String String) (k v : String)
      → All HasNoMarks m
      → lookup k m ≡ some v
      → Marks lib 0 v
  unfolding lookup
  lookup-Marks [] k v h e = absurd (ground arith)
  lookup-Marks ((j, w) ∷ m) k v (h, hs) e = elim (Bool-cases (j == k)) [
    | inl q ↦ let same : w ≡ v = ground arith in rw (sym same) h
    | inr q ↦ let later : lookup k m ≡ some v = ground arith in lookup-Marks m k v hs later
  ]

  in_list-IsSound :
      (field : String) (items : List Value) → Marks lib 0 field → IsSound lib (in_list field items)
  unfolding in_list every occurrences
  in_list-IsSound field [] h = record { safe = refl; marks = refl }
  in_list-IsSound field (item ∷ items) h = Marks-count lib (omega arith) (
      Marks-append lib 0 _ field _ h (
        Marks-around lib (length (item ∷ items)) 0 " IN (" _ ")"
          (record { safe = refl; marks = refl }) (placeholder_list-Marks lib item items)
          (record { safe = refl; marks = refl })))

  -- A template with its one placeholder behind the field.
  template-IsSound :
      (before field after : String) (value : Value)
      → Marks lib 0 before
      → Marks lib 0 field
      → Marks lib 1 after
      → IsSound lib (one_param (before ∷ field ∷ after ∷ []) value)
  template-IsSound before field after value b f a = Marks-around lib 0 1 before field after b f a

  date_condition-IsSound :
      (field sql_op : String) (value : Value) (format : String)
      → Marks lib 0 field
      → Marks lib 0 sql_op
      → IsSound lib (date_condition lib field sql_op value format)
  unfolding date_condition every occurrences
  date_condition-IsSound field sql_op value format h k =
      option-IsSound (resolve_date_filter_value lib value format) _ (λ resolved e.
        Marks-append lib 0 1 "try_cast(" _ (record { safe = refl; marks = refl })
          (Marks-append lib 0 1 field _ h (
            Marks-around lib 0 1 " AS TIMESTAMP) " sql_op " try_cast(? AS TIMESTAMP)"
              (record { safe = refl; marks = refl }) k (record { safe = refl; marks = refl }))))

  date_op_map-Marks : All HasNoMarks date_op_map
  unfolding date_op_map every occurrences
  date_op_map-Marks = (
    record { safe = refl; marks = refl },
    (record { safe = refl; marks = refl }, (record { safe = refl; marks = refl }, tt)),
  )

  op_map-Marks : All HasNoMarks op_map
  unfolding op_map every occurrences
  op_map-Marks = (
    record { safe = refl; marks = refl },
    (
      record { safe = refl; marks = refl },
      (
        record { safe = refl; marks = refl },
        (
          record { safe = refl; marks = refl },
          (record { safe = refl; marks = refl }, (record { safe = refl; marks = refl }, tt)),
        ),
      ),
    ),
  )

  -- CAST(? AS VARCHAR) behind the field, in a call whose name is given.
  cast-IsSound :
      (before field : String) (value : Value)
      → Marks lib 0 before
      → Marks lib 0 field
      → IsSound lib (one_param (before ∷ field ∷ " AS VARCHAR), CAST(? AS VARCHAR))" ∷ []) value)
  unfolding every occurrences
  cast-IsSound before field value b h =
      template-IsSound before field " AS VARCHAR), CAST(? AS VARCHAR))" value b h
        (record { safe = refl; marks = refl })

  -- A test behind the field, without a placeholder.
  test-IsSound :
      (field after : String)
      → Marks lib 0 field
      → Marks lib 0 after
      → IsSound lib (record { sql = concat (field ∷ after ∷ []); params = [] })
  unfolding every occurrences
  test-IsSound field after h a =
      Marks-append lib 0 0 field _ h
        (Marks-append lib 0 0 after "" a (record { safe = refl; marks = refl }))

  other_condition-IsSound :
      (op field : String) (value : Value) (format : String)
      → Marks lib 0 field
      → IsSound lib (other_condition lib op field value format)
  unfolding other_condition every occurrences
  other_condition-IsSound op field value format h =
      if-IsSound (op == "IN") _ _ (in_list-IsSound field (in_items lib value) h) (
        if-IsSound (op == "REGEX") _ _
          (template-IsSound "regexp_matches(" field ", ?)" value
            (record { safe = refl; marks = refl }) h (record { safe = refl; marks = refl }))
          (if-IsSound (op == "CONTAINS") _ _
            (cast-IsSound "contains(CAST(" field value (record { safe = refl; marks = refl }) h)
            (if-IsSound (op == "NOT_CONTAINS") _ _
              (cast-IsSound "NOT contains(CAST(" field value (record { safe = refl; marks = refl })
                h)
              (if-IsSound (op == "STARTS_WITH") _ _
                (cast-IsSound "starts_with(CAST(" field value (record { safe = refl; marks = refl })
                  h)
                (if-IsSound (op == "ENDS_WITH") _ _
                  (cast-IsSound "ends_with(CAST(" field value (record { safe = refl; marks = refl })
                    h)
                  (if-IsSound (op == "IS_NULL") _ _
                    (test-IsSound field " IS NULL" h (record { safe = refl; marks = refl }))
                    (if-IsSound (op == "IS_NOT_NULL") _ _
                      (test-IsSound field " IS NOT NULL" h (record { safe = refl; marks = refl }))
                      (option-IsSound (lookup op date_op_map) _ (λ sql_op e.
                        date_condition-IsSound field sql_op value format h
                          (lookup-Marks date_op_map op sql_op date_op_map-Marks e))))))))))

  field_condition-IsSound :
      (op field : String) (value : Value) (format : String)
      → Marks lib 0 field
      → IsSound lib (field_condition lib op field value format)
  unfolding field_condition every occurrences
  field_condition-IsSound op field value format h = elim (Option-cases (lookup op op_map)) [
    | inl e ↦ rw (e, field_condition) (other_condition-IsSound op field value format h)
    | inr (sql_op, e) ↦
        rw (e, field_condition)
          (Marks-append lib 0 1 field _ h (
            Marks-around lib 0 1 " " sql_op " ?" (record { safe = refl; marks = refl })
              (lookup-Marks op_map op sql_op op_map-Marks e)
              (record { safe = refl; marks = refl })))
  ]

  module _ (no_mark : is_word lib b'?' ≡ false) where
    pub parse_condition-IsSound : (node : Members) → IsSound lib (parse_condition lib node)
    unfolding parse_condition financial_condition
    parse_condition-IsSound node =
        if-IsSound (as_string (get_field "operator" node) == "IS_FINANCIAL_AUA") _ _
          (option-IsSound (validate_identifier lib (translate_field lib "_data.aua")) _ (λ field e.
            in_list-IsSound field financial_aua_codes_as_any
              (validate_identifier-Marks lib no_mark _ field e)))
          (option-IsSound
            (validate_identifier lib (translate_field lib (as_string (get_field "field" node)))) _
            (λ field e.
              field_condition-IsSound (as_string (get_field "operator" node)) field
                (get_field "value" node) (as_string (get_field "format" node))
                (validate_identifier-Marks lib no_mark _ field e)))
