-- ===== src/Historical/Filter/Sound.antt =====
-- The SQL of a filter: it has as many placeholders as parameters, and no character of the request but
-- those of validated names.
use velocity_engine_backend.Prelude.{
  ℕ, zero, suc, String, ◌≡◌, refl, false, List, [], ◌∷◌, map, ◌==◌, ==_iff, comparable_string,
  comparable_nat, length, length-append, All, inl, inr, Bool-cases, arith,
}
use velocity_engine_backend.Prelude.Text.{join, every, occurrences, occurrences-every}
use velocity_engine_backend.Json.{
  Elements, Members, obj, no_elements, element, as_string, get_field,
}
use velocity_engine_backend.Historical.{Strings, Fragment, no_fragment, is_word}
use velocity_engine_backend.Historical.Filter.{
  parse_condition, parse_conditions, all_params, sql_of, combine, as_elements, logic_of, parse_step,
  parse_with, parse_filter_node, size_members,
}
use velocity_engine_backend.Historical.Filter.Parts.{
  is_safe, is_plain, Marks, Marks-append, Marks-count, Marks-around, IsSound,
}
use velocity_engine_backend.Historical.Filter.Conditions.{if-IsSound, parse_condition-IsSound}

module _ (lib : Strings) where
  parse_conditions-IsSound :
      (parse : Members → Fragment) (items : Elements)
      → ((node : Members) → IsSound lib (parse node))
      → All (IsSound lib) (parse_conditions parse items)
  unfolding parse_conditions
  parse_conditions-IsSound parse no_elements h = tt
  parse_conditions-IsSound parse (element (obj node) rest) h =
      elim (Bool-cases ((parse node).sql == "")) [
        | inl e ↦ rw e (parse_conditions-IsSound parse rest h)
        | inr e ↦ rw e (h node, parse_conditions-IsSound parse rest h)
      ]
  parse_conditions-IsSound parse (element _ rest) h = parse_conditions-IsSound parse rest h

  join-Marks :
      (sep : String) (p : Fragment) (ps : List Fragment)
      → Marks lib 0 sep
      → All (IsSound lib) (p ∷ ps)
      → Marks lib (length (all_params (p ∷ ps))) (join sep (map sql_of (p ∷ ps)))
  unfolding all_params
  join-Marks sep p [] hs (h, tail) =
      Marks-count lib (omega (arith, length-append {0} p.params [])) h
  join-Marks sep p (q ∷ ps) hs (h, tail) =
      Marks-count lib (omega (arith, length-append {0} p.params (all_params (q ∷ ps)))) (
        Marks-append lib _ _ p.sql _ h
          (Marks-append lib 0 _ sep _ hs (join-Marks sep q ps hs tail)))

  logic_of-Marks : (node : Members) → Marks lib 0 (logic_of node)
  unfolding logic_of every occurrences
  logic_of-Marks node =
      let logic = as_string (get_field "logic" node) in
      elim (Bool-cases (logic == "AND")) [
        | inl e ↦ rw (e, (==_iff logic "AND").0 e) (record { safe = refl; marks = refl })
        | inr e ↦ elim (Bool-cases (logic == "OR")) [
          | inl o ↦ rw (e, o, (==_iff logic "OR").0 o) (record { safe = refl; marks = refl })
          | inr o ↦ rw (e, o) (record { safe = refl; marks = refl })
        ]
      ]

  combine-IsSound :
      (logic : String) (ps : List Fragment)
      → Marks lib 0 logic
      → All (IsSound lib) ps
      → IsSound lib (combine logic ps)
  unfolding combine every occurrences
  combine-IsSound logic [] hl h = record { safe = refl; marks = refl }
  combine-IsSound logic (p ∷ []) hl (h, tail) = h
  combine-IsSound logic (p ∷ q ∷ ps) hl h = Marks-count lib (omega arith) (
      Marks-around lib (length (all_params (p ∷ q ∷ ps))) 0 "(" _ ")"
        (record { safe = refl; marks = refl })
        (join-Marks _ p (q ∷ ps)
          (Marks-append lib 0 0 " " _ (record { safe = refl; marks = refl })
            (Marks-append lib 0 0 logic " " hl (record { safe = refl; marks = refl })))
          h)
        (record { safe = refl; marks = refl }))

  module _ (no_mark : is_word lib b'?' ≡ false) where
    parse_step-IsSound :
        (parse : Members → Fragment) (node : Members)
        → ((inner : Members) → IsSound lib (parse inner))
        → IsSound lib (parse_step lib parse node)
    unfolding parse_step every occurrences
    parse_step-IsSound parse node h =
        let items = as_elements (get_field "conditions" node) in
        let parts = parse_conditions parse items in
        if-IsSound lib (as_string (get_field "type" node) == "group")
          (combine (logic_of node) parts) _
          (combine-IsSound (logic_of node) parts (logic_of-Marks node)
            (parse_conditions-IsSound parse items h))
          (if-IsSound lib (as_string (get_field "type" node) == "condition")
            (parse_condition lib node) no_fragment (parse_condition-IsSound lib no_mark node)
            (record { safe = refl; marks = refl }))

    parse_with-IsSound : (fuel : ℕ) (node : Members) → IsSound lib (parse_with lib fuel node)
    unfolding parse_with every occurrences
    parse_with-IsSound zero node = record { safe = refl; marks = refl }
    parse_with-IsSound (suc fuel) node =
        parse_step-IsSound (parse_with lib fuel) node (parse_with-IsSound fuel)

    parse_filter_node-IsSound : (node : Members) → IsSound lib (parse_filter_node lib node)
    unfolding parse_filter_node
    parse_filter_node-IsSound node = parse_with-IsSound (suc (size_members node)) node

-- Where a question mark is neither a letter nor a digit, the SQL of every filter has exactly as many
-- question marks as the filter gives parameters.
pub parse_filter_node-placeholders :
    (lib : Strings)
    → is_word lib b'?' ≡ false
    → (node : Members)
    → occurrences b'?' (parse_filter_node lib node).sql ≡ length (parse_filter_node lib node).params
parse_filter_node-placeholders lib n node =
    let sound = parse_filter_node-IsSound lib n node in sound.marks

-- A character that is no letter, digit, underscore, space, parenthesis, comma, question mark or sign of
-- a comparison does not stand in the SQL of any filter, whatever names, operators and values the filter
-- carries: no quote, semicolon, dash or slash gets through. A question mark is assumed to be neither a
-- letter nor a digit.
pub parse_filter_node-no_escape :
    (lib : Strings)
    → is_word lib b'?' ≡ false
    → (k : ℕ) → is_plain k ≡ false
    → is_word lib k ≡ false
    → (node : Members) → occurrences k (parse_filter_node lib node).sql ≡ 0
parse_filter_node-no_escape lib n k plain word node =
    let sound = parse_filter_node-IsSound lib n node in
    occurrences-every (is_safe lib) k (parse_filter_node lib node).sql (rw (plain, word) refl)
      sound.safe
