-- ===== src/Tests/Past.antt =====
-- Requests to the historical endpoints on a sample engine.
use velocity_engine_backend.Prelude.{
  ℕ, true, [], ◌∷◌, none, some, if◌then◌else◌, ◌==◌, comparable_nat, comparable_string,
}
use velocity_engine_backend.Json.{str}
use velocity_engine_backend.Historical.Connection.{Settings, DuckServer}
use velocity_engine_backend.Historical.Run.{Answer, refused, rows, no_time, Engine, Session}
use velocity_engine_backend.Historical.Run.Kept.{IsKept}
use velocity_engine_backend.Analysis.{Query}
use velocity_engine_backend.Rules.{bound}
use velocity_engine_backend.Analysis.Past.{
  PastLibrary, historical_test, historical_analysis, historical_breakdown,
}
use velocity_engine_backend.Analysis.Held.{historical-IsKept}
use velocity_engine_backend.Samples.{sample_strings, sample_rule, sample_rule_dict}

abbrev sample_settings : Settings
sample_settings = record {
  s3_endpoint = "http://minio:9000";
  s3_access_key = "key";
  s3_secret_key = "secret";
  trim_prefix = λ s prefix. s;
  has_prefix = λ s prefix. true;
  replace_all = λ s old new. s;
}

abbrev willing_server : DuckServer
willing_server = record { opens = λ n. true; pins = λ n. true; accepts = λ n accepted stmt. true }

-- The second query meets a dead connection.
abbrev sample_answer : ℕ → Answer
sample_answer n =
    if n == 1 then refused true else rows (some (("groupKey", str "u1") ∷ []) ∷ none ∷ []) true

abbrev sample_engine : Engine
sample_engine = record {
  strings = sample_strings;
  size = λ s. 19;
  parse_ist = λ s. some 5;
  now = 100;
  week_before = λ t. 0;
  format_utc = λ t. "2026-01-01 00:00:00";
  moment = λ v. no_time;
  base_path = "s3://warehouse/auth";
  settings = sample_settings;
  server = willing_server;
  acquired = λ n. none;
  answer = λ n query. sample_answer n;
}

abbrev sample_query : Query
sample_query name default = if name == "days_back" then "30" else "2026-01-01 00:00:00"

abbrev past_library : PastLibrary
past_library = record {
  library = record {
    split = λ s sep. s ∷ [];
    trim_space = λ s. s;
    atoi = λ s. none;
    query_unescape = λ s. s;
  };
  marshal_rule = λ rule. some "rule";
  unmarshal_rule = λ text. some sample_rule_dict;
  last_days = λ n. ("2026-01-01T00:00:00", "2026-01-08T00:00:00");
}

abbrev first_session : Session
first_session = record { tokens = 0; duck = record { conn = none; opened = 0 }; sent = 0 }

historical-IsKept_example :
    IsKept sample_engine first_session
      (historical_test past_library sample_engine sample_query (bound sample_rule) first_session).1
    × IsKept sample_engine first_session
        (historical_analysis past_library sample_engine sample_query
          (bound sample_rule)
          first_session).1
    × IsKept sample_engine first_session
        (historical_breakdown past_library sample_engine sample_query
          (bound sample_rule)
          first_session).1
historical-IsKept_example =
    historical-IsKept past_library sample_engine sample_query (bound sample_rule) first_session
