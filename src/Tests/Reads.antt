-- ===== src/Tests/Reads.antt =====
-- Reads of ClickHouse and of the anomalies, and changes of users, on sample inputs.
use velocity_engine_backend.Prelude.{
  zero, suc, ◌≤◌, ◌≡◌, refl, true, List, [], ◌∷◌, none, some, ◌==◌, ==_iff, comparable_string,
  comparable_nat, if◌then◌else◌, length, select, arith,
}
use velocity_engine_backend.Prelude.Int.{pos}
use velocity_engine_backend.Prelude.Text.{every}
use velocity_engine_backend.Prelude.Maps.{lookup}
use velocity_engine_backend.Json.{Row, str}
use velocity_engine_backend.Historical.{Fragment}
use velocity_engine_backend.Samples.{sample_row}
use velocity_engine_backend.ClickHouse.{
  ok, no_time, refused, scanned, no_number, Driver, Pool, is_table_name, get_click_house_db,
  conclude, send, read, rows_to_maps, rule_id_of, rows_of, group_by_rule,
}
use velocity_engine_backend.ClickHouse.Grouped.{lookup-group_by_rule}
use velocity_engine_backend.ClickHouse.Recovery.{read-recovers}
use velocity_engine_backend.Admin.{
  AdminUser, UserPatch, State, Answers, count_active_super_admins, update_user,
}
use velocity_engine_backend.Admin.Last.{update_user-keeps_super_admin}
use velocity_engine_backend.Admin.Race.{race, race-none_left}
use velocity_engine_backend.Consumers.{AnomalyStore}
use velocity_engine_backend.Analysis.{Library, Query, trimmed, anomaly_limit, anomaly_analysis}
use velocity_engine_backend.Analysis.Limits.{returned_for, anomaly_analysis-length}
use velocity_engine_backend.Runtime.{object}
use velocity_engine_backend.LiveStore.{LiveStore, new_live_store}
use velocity_engine_backend.Sockets.{WsManager, broadcasted}
use velocity_engine_backend.Sockets.Bounded.{IsValid}
use velocity_engine_backend.Streams.{
  Occurrence, read_failed, timed_out, read_text, elsewhere, Endpoint, live_endpoint, run_stream,
}
use velocity_engine_backend.Streams.Ends.{IsLeft, run_stream-IsLeft}

abbrev other_row : Row
other_row = ("ruleId", str "r2") ∷ []

lookup-group_by_rule_example :
    rows_of (lookup "r1" (group_by_rule (sample_row ∷ other_row ∷ sample_row ∷ []) []))
    ≡ select (λ row. rule_id_of row == "r1") (sample_row ∷ other_row ∷ sample_row ∷ [])
lookup-group_by_rule_example = lookup-group_by_rule "r1" (sample_row ∷ other_row ∷ sample_row ∷ [])

-- The first query is refused, every later message answered.
abbrev sample_driver : Driver
sample_driver = record {
  table = "results";
  ping = λ n. true;
  query = λ n q. elim n [ zero ↦ refused | suc m ↦ scanned (sample_row ∷ []) ];
  wall_clock = λ v. no_time;
  wall_clock_direct = λ v. no_time;
  unmarshal = λ s. none;
  sprint = λ v. "v";
  number = λ v. no_number;
  int_of_float = λ bits. pos bits;
  rate = λ a b. 0;
}

abbrev sample_pool : Pool
sample_pool = record { connected = true; sent = 0 }

abbrev sample_question : Fragment
sample_question = record { sql = "SELECT 1"; params = [] }

read-recovers_example :
    read sample_driver sample_question (read sample_driver sample_question sample_pool).1 ≡ (
      ok (rows_to_maps sample_driver (sample_row ∷ [])),
      record {
        connected = true;
        sent = suc (suc (read sample_driver sample_question sample_pool).1.sent);
      },
    )
unfolding read get_click_house_db send conclude is_table_name every
read-recovers_example =
    read-recovers sample_driver sample_question sample_question sample_pool (sample_row ∷ []) refl
      refl refl refl

abbrev sample_answers : Answers
sample_answers = record {
  connected = true;
  row = true;
  count = true;
  begun = true;
  assigned = true;
  updated = true;
  committed = true;
  recorded = λ action. true;
}

abbrev admin_1 : AdminUser
admin_1 = record { id = 1; role = "SUPER_ADMIN"; status = "ACTIVE" }

abbrev admin_2 : AdminUser
admin_2 = record { id = 2; role = "SUPER_ADMIN"; status = "ACTIVE" }

abbrev two_admins : State
two_admins = record {
  users = admin_1 ∷ admin_2 ∷ [];
  roles = "SUPER_ADMIN" ∷ "ANALYST" ∷ [];
  audit = [];
  cache = [];
}

abbrev disable : UserPatch
disable = record { role = "SUPER_ADMIN"; status = "DISABLED" }

update_user-keeps_super_admin_example :
    1 ≤ count_active_super_admins (update_user sample_answers 1 2 disable two_admins).1.users
unfolding count_active_super_admins
update_user-keeps_super_admin_example =
    update_user-keeps_super_admin sample_answers 1 2 disable two_admins (omega arith)

race-none_left_example :
    count_active_super_admins
      (race sample_answers 1 2 disable (record two_admins { users = admin_1 ∷ admin_2 ∷ [] })).users
    ≡ 0
race-none_left_example =
    race-none_left sample_answers admin_1 admin_2 disable two_admins (omega arith) refl refl refl
      (λ e. absurd (ground (arith, (==_iff disable.status "ACTIVE").1 e))) refl refl

-- Splits the one text of the request into its ids.
abbrev sample_library : Library
sample_library = record {
  split = λ s sep. "r1" ∷ "r2" ∷ [];
  trim_space = λ s. s;
  atoi = λ s. some (pos 1);
  query_unescape = λ s. s;
}

abbrev sample_request : Query
sample_request = λ name default. if name == "limit" then "1" else "r1,r2"

abbrev sample_anomalies : AnomalyStore
sample_anomalies = record { events = sample_row ∷ other_row ∷ []; max_len = 500 }

-- Two events under a limit of one.
anomaly_analysis-length_example :
    (anomaly_limit sample_library sample_request ≤ 500)
    × (length (anomaly_analysis sample_library sample_request (some sample_anomalies))
        ≡ returned_for
            (anomaly_limit sample_library sample_request)
            sample_anomalies
            ("r1" ∷ "r2" ∷ []))
unfolding trimmed
anomaly_analysis-length_example =
    anomaly_analysis-length sample_library sample_request sample_anomalies "r1" ("r2" ∷ []) refl

abbrev sample_endpoint : Endpoint LiveStore
sample_endpoint =
    live_endpoint (λ text. object (("type", str "subscribe") ∷ [])) "heartbeat"
      (λ rows. "bootstrap")

abbrev no_connections : WsManager
no_connections = record { conns = []; active = 0; dropped = 0 }

no_connections-IsValid : IsValid no_connections
no_connections-IsValid = record { unique = tt; bounded = tt; active = refl }

-- A timeout, a subscription, a broadcast, and the end.
abbrev sample_occurrences : List (Occurrence LiveStore)
sample_occurrences =
    timed_out
    ∷ read_text "subscribe" (new_live_store 5000 24)
    ∷ elsewhere (broadcasted "r1" (some "delta"))
    ∷ read_failed
    ∷ []

run_stream-IsLeft_example :
    IsLeft 7 (run_stream sample_endpoint 7 sample_occurrences no_connections)
run_stream-IsLeft_example =
    run_stream-IsLeft sample_endpoint 7 sample_occurrences no_connections no_connections-IsValid
