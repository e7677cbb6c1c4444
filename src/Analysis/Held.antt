-- ===== src/Analysis/Held.antt =====
-- No endpoint of internal/handlers/analysis.go keeps the slot of the historical engine.
use velocity_engine_backend.Prelude.{
  String, ◌≡◌, refl, ◌||◌, inl, inr, ◌==◌, comparable_string, Bool-cases, Option-cases,
}
use velocity_engine_backend.Json.{Members}
use velocity_engine_backend.Models.{VelocityRule}
use velocity_engine_backend.Rules.{Bound, unbound, bound}
use velocity_engine_backend.Historical.Run.{
  Engine, Session, Outcome, stopped, done, run_historical_analysis, run_historical_breakdown,
}
use velocity_engine_backend.Historical.Run.Kept.{IsKept, IsKept-refl, run_historical-IsKept}
use velocity_engine_backend.Analysis.{Query}
use velocity_engine_backend.Analysis.Past.{
  PastLibrary, past_reply, with_dict, days_back, historical_test, start_ts, end_ts, with_range,
  historical_analysis, historical_breakdown,
}

module _ (lib : PastLibrary) (engine : Engine) where
  past_reply-session :
      {A : Type 0} (outcome : Outcome A × Session) → (past_reply outcome).1 ≡ outcome.1
  unfolding past_reply
  past_reply-session (done out, s) = refl
  past_reply-session (stopped trouble, s) = refl

  with_dict-IsKept :
      {A : Type 0} (rule : VelocityRule) (run : Members → Session → Outcome A × Session)
      (s : Session)
      → ((dict : Members) → IsKept engine s (run dict s).1)
      → IsKept engine s (with_dict lib engine rule (λ dict t. past_reply (run dict t)) s).1
  unfolding with_dict
  with_dict-IsKept rule run s keeps = elim (Option-cases (lib.marshal_rule rule)) [
    | inl q ↦ rw (with_dict, q) (IsKept-refl engine s)
    | inr (text, q) ↦ elim (Option-cases (lib.unmarshal_rule text)) [
      | inl d ↦ rw (with_dict, q, d) (IsKept-refl engine s)
      | inr (dict, d) ↦ rw (with_dict, q, d, past_reply-session (run dict s)) (keeps dict)
    ]
  ]

  with_range-IsKept :
      {A : Type 0} (q : Query) (body : Bound VelocityRule)
      (run : Members → String → String → Session → Outcome A × Session) (s : Session)
      → ((dict : Members) (from to : String) → IsKept engine s (run dict from to s).1)
      → IsKept engine s (with_range lib engine q body run s).1
  unfolding with_range
  with_range-IsKept q (unbound text) run s keeps = IsKept-refl engine s
  with_range-IsKept q (bound rule) run s keeps =
      elim (Bool-cases (start_ts lib engine q == "" || end_ts lib engine q == "")) [
        | inl e ↦ rw (with_range, e) (IsKept-refl engine s)
        | inr e ↦
            rw (with_range, e)
              (with_dict-IsKept rule
                (λ dict. run dict (start_ts lib engine q) (end_ts lib engine q)) s
                (λ dict. keeps dict (start_ts lib engine q) (end_ts lib engine q)))
      ]

  historical_test-IsKept :
      (q : Query) (body : Bound VelocityRule) (s : Session)
      → IsKept engine s (historical_test lib engine q body s).1
  unfolding historical_test
  historical_test-IsKept q (unbound text) s = IsKept-refl engine s
  historical_test-IsKept q (bound rule) s =
      let range = lib.last_days (days_back lib engine q) in
      with_dict-IsKept rule (λ dict. run_historical_analysis engine dict range.0 range.1) s
        (λ dict. (run_historical-IsKept engine dict range.0 range.1 s).0)

  -- However a request to HistoricalTest, HistoricalAnalysis or HistoricalBreakdown ends, duckDBSem holds
  -- as many tokens as before it, and a connection that stays in use has accepted the limits, the
  -- extensions and the settings for S3, if the one before it had.
  pub historical-IsKept :
      (q : Query) (body : Bound VelocityRule) (s : Session)
      → IsKept engine s (historical_test lib engine q body s).1
        × IsKept engine s (historical_analysis lib engine q body s).1
        × IsKept engine s (historical_breakdown lib engine q body s).1
  unfolding historical_analysis historical_breakdown
  historical-IsKept q body s = (
    historical_test-IsKept q body s,
    with_range-IsKept q body (run_historical_analysis engine) s
        (λ dict from to. (run_historical-IsKept engine dict from to s).0),
    with_range-IsKept q body (run_historical_breakdown engine) s
        (λ dict from to. (run_historical-IsKept engine dict from to s).1),
  )
