-- ===== src/Historical/Run/Kept.antt =====
-- Every way out of RunHistoricalAnalysis and RunHistoricalBreakdown of internal/services/duckdb.go gives
-- the slot back.
use velocity_engine_backend.Prelude.{
  suc, String, ◌≡◌, refl, ◌∙◌, inl, inr, List, [], ◌∷◌, Option, none, some, Option-cases, arith,
}
use velocity_engine_backend.Json.{Members, Row}
use velocity_engine_backend.Historical.{Fragment}
use velocity_engine_backend.Historical.Query.{analysis_query}
use velocity_engine_backend.Historical.Query.Breakdown.{breakdown_queries}
use velocity_engine_backend.Historical.Connection.{Connection, Duck, init_duck_db}
use velocity_engine_backend.Historical.Connection.Configured.{
  IsConfigured, init_duck_db-IsConfigured, maybe_reset_on_fatal-IsConfigured,
}
use velocity_engine_backend.Historical.Run.{
  Answer, Engine, Session, Outcome, stopped, done, time_range, take_token, connected, give_back,
  with_iceberg, is_fatal, ask, analyse, run_historical_analysis, modality_mix, categories, ask_all,
  paired, break_down, run_historical_breakdown,
}

module _ (engine : Engine) where
  -- As many tokens as before, and a connection in use that is set up, if the one before was.
  pub record IsKept (s t : Session) : Type 0 where
    pub tokens : t.tokens ≡ s.tokens
    pub configured : IsConfigured engine.settings s.duck → IsConfigured engine.settings t.duck

  pub IsKept-refl : (s : Session) → IsKept s s
  IsKept-refl s = record { tokens = refl; configured = λ v. v }

  IsKept-trans : (s t u : Session) → IsKept s t → IsKept t u → IsKept s u
  IsKept-trans s t u a b = record {
    tokens = b.tokens ∙ a.tokens;
    configured = λ v. b.configured (a.configured v);
  }

  ask-IsKept : (query : Fragment) (s : Session) → IsKept s (ask engine query s).1
  unfolding ask
  ask-IsKept query s = record {
    tokens = refl;
    configured = λ v.
        maybe_reset_on_fatal-IsConfigured engine.server engine.settings
          (is_fatal engine (engine.answer s.sent query)) s.duck v;
  }

  analyse-IsKept :
      (rule : Members) (start_str end_str : String) (s : Session)
      → IsKept s (analyse engine rule start_str end_str s).1
  unfolding analyse
  analyse-IsKept rule start_str end_str s =
      elim (Option-cases (analysis_query engine.strings engine.base_path start_str end_str rule)) [
        | inl q ↦ rw (analyse, q) (IsKept-refl s)
        | inr (query, q) ↦ rw (analyse, q) (ask-IsKept query s)
      ]

  ask_all-IsKept :
      (queries : List (Fragment × (Answer → Option (List Row)))) (s : Session)
      → IsKept s (ask_all engine queries s).1
  unfolding ask_all
  ask_all-IsKept [] s = IsKept-refl s
  ask_all-IsKept ((query, read) ∷ queries) s =
      let first = ask-IsKept query s in
      let both =
        IsKept-trans s (ask engine query s).1 (ask_all engine queries (ask engine query s).1).1
          first (ask_all-IsKept queries (ask engine query s).1) in
      elim (Option-cases (read (ask engine query s).0)) [
        | inl q ↦ rw (ask_all, q) first
        | inr (out, q) ↦ by_rest q both (ask_all engine queries (ask engine query s).1).0 refl
      ]
    where
      by_rest :
          {out : List Row}
          → read (ask engine query s).0 ≡ some out
          → IsKept s (ask_all engine queries (ask engine query s).1).1
          → (rest : Outcome (List (List Row)))
          → (ask_all engine queries (ask engine query s).1).0 ≡ rest
          → IsKept s (ask_all engine ((query, read) ∷ queries) s).1
      by_rest q both (stopped trouble) r = rw (ask_all, q, r) both
      by_rest q both (done outs) r = rw (ask_all, q, r) both

  -- The part between the slot's acquisition and its release
  connected-IsKept :
      {A : Type 0} (body : Session → Outcome A × Session) (s : Session)
      → ((t : Session) → IsKept t (body t).1)
      → (got : Option Connection × Duck)
      → (IsConfigured engine.settings s.duck → IsConfigured engine.settings got.1)
      → IsKept s (give_back engine (connected engine body got (take_token engine s))).1
  connected-IsKept body s keeps (none, d) v = record { tokens = omega arith; configured = v }
  connected-IsKept body s keeps (some c, d) v =
      let k = keeps (record s { tokens = suc s.tokens; duck = d }) in
      record { tokens = omega (arith, k.tokens); configured = λ u. k.configured (v u) }

  with_iceberg-IsKept :
      {A : Type 0} (start_ts end_ts : String)
      (body : String → String → Session → Outcome A × Session) (s : Session)
      → ((start_str end_str : String) (t : Session) → IsKept t (body start_str end_str t).1)
      → IsKept s (with_iceberg engine start_ts end_ts body s).1
  unfolding with_iceberg
  with_iceberg-IsKept start_ts end_ts body s keeps =
      elim (Option-cases (time_range engine start_ts end_ts)) [
        | inl q ↦ rw (with_iceberg, q) (IsKept-refl s)
        | inr ((start_str, end_str), q) ↦ elim (Option-cases (engine.acquired s.tokens)) [
          | inr (failure, a) ↦ rw (with_iceberg, q, a) (IsKept-refl s)
          | inl a ↦
              rw (with_iceberg, q, a)
                (connected-IsKept (body start_str end_str) s (keeps start_str end_str)
                  (init_duck_db engine.server engine.settings s.duck)
                  (λ v. (init_duck_db-IsConfigured engine.server engine.settings s.duck v).0))
        ]
      ]

  -- However a historical analysis or breakdown ends, duckDBSem holds as many tokens as before it, and a
  -- connection that stays in use has accepted the limits, the extensions and the settings for S3, if the
  -- one before it had.
  pub run_historical-IsKept :
      (rule : Members) (start_ts end_ts : String) (s : Session)
      → IsKept s (run_historical_analysis engine rule start_ts end_ts s).1
        × IsKept s (run_historical_breakdown engine rule start_ts end_ts s).1
  unfolding run_historical_analysis run_historical_breakdown break_down
  run_historical-IsKept rule start_ts end_ts s = (
    with_iceberg-IsKept start_ts end_ts (analyse engine rule) s (analyse-IsKept rule),
    with_iceberg-IsKept start_ts end_ts (break_down engine rule) s (λ start_str end_str t.
        ask_all-IsKept
          (paired engine (breakdown_queries engine.strings engine.base_path start_str end_str rule)
            (modality_mix engine ∷ categories engine ∷ categories engine ∷ categories engine ∷ []))
          t),
  )
