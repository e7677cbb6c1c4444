-- ===== src/Tests/Historical.antt =====
-- The SQL of a sample rule, and requests that share the query slot.
use velocity_engine_backend.Prelude.{
  ℕ, zero, suc, ◌≡◌, refl, true, false, [], ◌∷◌, Option, none, some, length, All, get_elem?, arith,
}
use velocity_engine_backend.Prelude.Maps.{lookup}
use velocity_engine_backend.Prelude.Text.{every, occurrences}
use velocity_engine_backend.Json.{get_field, elements_to_list}
use velocity_engine_backend.Samples.{sample_strings, sample_filter, sample_rule_dict}
use velocity_engine_backend.Historical.{
  Fragment, no_fragment, is_identifier, validate_identifier, translate_field,
}
use velocity_engine_backend.Historical.Mapping.{iceberg_schema_mapping}
use velocity_engine_backend.Historical.Filter.{parse_filter_node}
use velocity_engine_backend.Historical.Filter.Sound.{parse_filter_node-no_escape}
use velocity_engine_backend.Historical.Filter.Meaning.{Translates, parse_filter_node-Translates}
use velocity_engine_backend.Historical.Query.{flat_keys, grouping_of, aggregates, analysis_query}
use velocity_engine_backend.Historical.Query.Placeholders.{analysis_query-placeholders}
use velocity_engine_backend.Historical.Slot.{
  Phase, waiting, holding, running, ended, Engine, Step, acquire, time_out, cancel, connect,
  fail_to_connect, answer, refuse, fatal, Reachable, start, then_step,
}
use velocity_engine_backend.Historical.Slot.Exclusive.{
  IsExclusive, IsEnded, Reachable-IsExclusive, Reachable-final,
}

-- The value of the filter has a semicolon.
parse_filter_node-no_escape_example :
    occurrences b';' (parse_filter_node sample_strings sample_filter).sql ≡ 0
parse_filter_node-no_escape_example =
    parse_filter_node-no_escape sample_strings refl b';' refl refl sample_filter

parse_filter_node-Translates_example :
    Translates sample_strings sample_filter (parse_filter_node sample_strings sample_filter)
parse_filter_node-Translates_example = parse_filter_node-Translates sample_strings sample_filter

abbrev query_of : Option Fragment → Fragment
query_of none = no_fragment
query_of (some q) = q

abbrev sample_query : Fragment
sample_query = query_of (
    analysis_query sample_strings "s3://lake/auth" "2026-01-01 00:00:00" "2026-01-02 00:00:00"
      sample_rule_dict)

analysis_query-placeholders_example : occurrences b'?' sample_query.sql ≡ length sample_query.params
unfolding analysis_query grouping_of flat_keys aggregates get_field elements_to_list
    validate_identifier is_identifier translate_field lookup every occurrences
    iceberg_schema_mapping
analysis_query-placeholders_example =
    analysis_query-placeholders sample_strings "s3://lake/auth" "2026-01-01 00:00:00"
      "2026-01-02 00:00:00" sample_rule_dict sample_query refl (λ n. refl) refl refl

-- Two requests arrive.
abbrev arrived : Engine
arrived = record { tokens = 0; pinned = false; requests = waiting ∷ waiting ∷ [] }

abbrev taken : Engine
taken = record { tokens = 1; pinned = false; requests = waiting ∷ holding ∷ [] }

abbrev over : Engine
over = record { tokens = 1; pinned = true; requests = waiting ∷ running ∷ [] }

taken-Reachable : Reachable taken
taken-Reachable =
    then_step arrived taken (start arrived refl (refl, (refl, tt)))
      (acquire arrived 1 refl (omega arith))

Reachable-IsExclusive_example : IsExclusive over
Reachable-IsExclusive_example =
    Reachable-IsExclusive (then_step taken over taken-Reachable (connect taken 1 refl))

-- One request is served.
abbrev alone : Engine
alone = record { tokens = 0; pinned = false; requests = waiting ∷ [] }

abbrev held : Engine
held = record { tokens = 1; pinned = false; requests = holding ∷ [] }

abbrev at_work : Engine
at_work = record { tokens = 1; pinned = true; requests = running ∷ [] }

abbrev finished : Engine
finished = record { tokens = 0; pinned = true; requests = ended none ∷ [] }

finished-Reachable : Reachable finished
finished-Reachable =
    then_step at_work finished
      (then_step held at_work
        (then_step alone held (start alone refl (refl, tt)) (acquire alone 0 refl (omega arith)))
        (connect held 0 refl))
      (answer at_work 0 refl)

only_ended : (i : ℕ) (p : Phase) → get_elem? finished.requests i ≡ some p → p ≡ ended none
only_ended zero p h = ground arith
only_ended (suc i) p h = absurd (ground arith)

finished-stuck : (f : Engine) → ¬ Step finished f
finished-stuck f (acquire e i h l) = absurd (ground (arith, only_ended i waiting h))
finished-stuck f (time_out e i h) = absurd (ground (arith, only_ended i waiting h))
finished-stuck f (cancel e i h) = absurd (ground (arith, only_ended i waiting h))
finished-stuck f (connect e i h) = absurd (ground (arith, only_ended i holding h))
finished-stuck f (fail_to_connect e i h n) = absurd (ground (arith, only_ended i holding h))
finished-stuck f (answer e i h) = absurd (ground (arith, only_ended i running h))
finished-stuck f (refuse e i h) = absurd (ground (arith, only_ended i running h))
finished-stuck f (fatal e i h) = absurd (ground (arith, only_ended i running h))

Reachable-final_example : All IsEnded finished.requests × (finished.tokens ≡ 0)
Reachable-final_example = Reachable-final finished finished-Reachable finished-stuck
