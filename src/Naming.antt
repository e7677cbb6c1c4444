-- ===== src/Naming.antt =====
-- internal/store/naming.go: the name and the description of a rule. fmt's integers and strings.ToLower
-- and strings.Split are parameters.
pub mod Durations
use velocity_engine_backend.Prelude.{
  ℕ, zero, suc, ◌+◌, ◌/◌, ◌%◌, String, Bool, true, false, ◌||◌, List, [], ◌∷◌, map, Option, none,
  some, if◌then◌else◌, ◌==◌, comparable_string, comparable_nat, str_append, ltb, leb,
}
use velocity_engine_backend.Prelude.Int.{ℤ, pos, negsuc}
use velocity_engine_backend.Prelude.Text.{join, concat}
use velocity_engine_backend.Models.{VelocityRule, WindowingConfig, AggregationSpec}

-- What naming.go uses of Go. `prefix n s` is s[:n] of a text of more than n bytes, and s otherwise.
pub record Format : Type 0 where
  pub show_int : ℕ → String
  pub to_lower : String → String
  pub split : String → String → List String
  pub prefix : ℕ → String → String

-- A duration as humanMs shows it: its numbers with their units.
pub data Shown : Type 0 where
  nothing : Shown
  millis : ℕ → Shown
  seconds : ℕ → Shown
  minutes : ℕ → Shown
  minutes_seconds : ℕ → ℕ → Shown
  hours : ℕ → Shown
  hours_minutes : ℕ → ℕ → Shown

abbrev pub show_minutes : ℕ → Shown
show_minutes sec =
    if sec % 60 == 0 then minutes (sec / 60) else minutes_seconds (sec / 60) (sec % 60)

abbrev pub show_hours : ℕ → Shown
show_hours min = if min % 60 == 0 then hours (min / 60) else hours_minutes (min / 60) (min % 60)

-- The branches of humanMs
unfoldable pub shown : ℤ → Shown
shown (negsuc n) = nothing
shown (pos ms) =
    if leb ms 0
    then nothing
    else if ltb ms 1000
    then millis ms
    else if ltb (ms / 1000) 60
    then seconds (ms / 1000)
    else if ltb (ms / 1000 / 60) 60
    then show_minutes (ms / 1000)
    else show_hours (ms / 1000 / 60)

module _ (lib : Format) where
  abbrev pub print : Shown → String
  print nothing = "0ms"
  print (millis n) = str_append (lib.show_int n) "ms"
  print (seconds n) = str_append (lib.show_int n) "s"
  print (minutes n) = str_append (lib.show_int n) "m"
  print (minutes_seconds n k) = concat (lib.show_int n ∷ "m" ∷ lib.show_int k ∷ "s" ∷ [])
  print (hours n) = str_append (lib.show_int n) "h"
  print (hours_minutes n k) = concat (lib.show_int n ∷ "h" ∷ lib.show_int k ∷ "m" ∷ [])

  -- humanMs
  unfoldable pub human_ms : ℤ → String
  unfolding shown
  human_ms ms = print (shown ms)

  -- The last of some texts; strings.Split gives at least one.
  abbrev pub last_of : List String → String
  last_of [] = ""
  last_of (s ∷ []) = s
  last_of (_ ∷ t ∷ rest) = last_of (t ∷ rest)

  unfoldable pub last_path_segment : String → String
  last_path_segment field = if field == "" then "" else last_of (lib.split field ".")

  unfoldable pub format_window_part : WindowingConfig → String
  unfolding human_ms
  format_window_part w =
      if w.window_type == "SLIDING"
      then concat ("SLD_" ∷ human_ms w.size_ms ∷ "_" ∷ human_ms w.slide_ms ∷ [])
      else str_append "TBL_" (human_ms w.size_ms)

  abbrev pub name_part : AggregationSpec → String
  name_part agg = concat (agg.agg_function ∷ "_" ∷ last_path_segment agg.source_field ∷ [])

  abbrev pub first_key : List String → String
  first_key [] = ""
  first_key (key ∷ _) = last_path_segment key

  unfoldable pub named_entity : VelocityRule → String
  unfolding last_path_segment
  named_entity rule =
      let entity = last_path_segment rule.grouping.entity_name in
      let key = first_key rule.grouping.keys in
      if entity == "" then if key == "" || key == "__GLOBAL__" then "GLOBAL" else key else entity

  -- GenerateRuleName; both branches on COUNT_DISTINCT give the function and the field.
  unfoldable pub generate_rule_name : VelocityRule → String
  unfolding last_path_segment format_window_part named_entity
  generate_rule_name rule =
      let summary = join "+" (map name_part rule.aggregations) in
      concat (
        (if summary == "" then "RULE" else summary)
        ∷ "__"
        ∷ named_entity rule
        ∷ "__"
        ∷ format_window_part rule.windowing
        ∷ "__"
        ∷ lib.prefix 8 rule.rule_metadata.rule_id
        ∷ [])

  unfoldable pub describe_function : String → String
  describe_function function =
      if function == "COUNT"
      then "count"
      else if function == "COUNT_DISTINCT"
      then "count of distinct"
      else if function == "SUM"
      then "sum"
      else if function == "AVG"
      then "average"
      else if function == "MIN"
      then "min"
      else if function == "MAX"
      then "max"
      else lib.to_lower function

  -- COUNT_DISTINCT has no further "of".
  abbrev pub describe_aggregation : AggregationSpec → String
  describe_aggregation agg = concat (
      describe_function agg.agg_function
      ∷ (if agg.agg_function == "COUNT_DISTINCT" then " " else " of ")
      ∷ last_path_segment agg.source_field
      ∷ [])

  abbrev pub describe_window : WindowingConfig → String
  describe_window w =
      if w.window_type == "SLIDING"
      then concat (human_ms w.size_ms ∷ " sliding window (slide: " ∷ human_ms w.slide_ms ∷ ")" ∷ [])
      else str_append (human_ms w.size_ms) " tumbling window"

  abbrev pub described_entity : VelocityRule → String
  described_entity rule =
      let entity = last_path_segment rule.grouping.entity_name in
      if entity == "" then "(global)" else entity

  -- GenerateRuleDescription
  unfoldable pub generate_rule_description : VelocityRule → String
  unfolding last_path_segment human_ms describe_function
  generate_rule_description rule = concat (
      "Computes "
      ∷ join ", " (map describe_aggregation rule.aggregations)
      ∷ " over a "
      ∷ describe_window rule.windowing
      ∷ ", monitoring "
      ∷ described_entity rule
      ∷ "."
      ∷ [])
