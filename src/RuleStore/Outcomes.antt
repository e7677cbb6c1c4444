-- ===== src/RuleStore/Outcomes.antt =====
-- The outcome of SaveNewRuleVersion of rule_store.go, from what MySQL answers.
use velocity_engine_backend.Prelude.{
  ℕ, suc, String, ◌≡◌, refl, Bool, true, false, List, [], ◌∷◌, ◌++◌, Option, some, ◌==◌,
  comparable_string, arith, Bool-cases, inl, inr,
}
use velocity_engine_backend.Models.{AggregationSpec, VelocityRule}
use velocity_engine_backend.RuleStore.{
  Mysql, Stmt, begin_tx, insert_window, insert_agg, insert_breach, Answer, done, failed, ok, M,
  ◌>>=◌, pure, exec, exec_optional, insert_aggs, insert_breach_of, write_parts, write_version,
  rolled_back, RuleCodec, RuleColumns, marshal_optional, rule_columns, save_new_rule_version,
  is_missing_schema_error, agg_columns,
}
use velocity_engine_backend.RuleStore.Save.{succeeded, commits, save_by_codec}

-- SaveNewRuleVersion, whatever MySQL answers, only adds statements to the log, and it returns no
-- error exactly when one of them is a commit that MySQL confirmed.
pub save-eq-commits :
    (mysql : Mysql) (codec : RuleCodec) (rule : VelocityRule) (version : ℕ) (log : List Stmt)
    → (issued : List Stmt) × ((save_new_rule_version mysql codec rule version log).1
        ≡ log ++ issued)
      × (succeeded (save_new_rule_version mysql codec rule version log).0
          ≡ commits mysql log issued)
save-eq-commits mysql codec rule version log =
    save_by_codec mysql codec rule version log (codec.marshal_keys rule.grouping.keys)
      (marshal_optional codec rule.filters) refl refl

-- An answer that lets the save go on: the window insert may also meet a missing table.
abbrev pub tolerated : Stmt → Answer → Bool
tolerated stmt (done _) = true
tolerated (insert_window _ _) (failed number) = is_missing_schema_error number
tolerated _ (failed _) = false

module _ (mysql : Mysql)
    (up : (log : List Stmt) (stmt : Stmt) → tolerated stmt (mysql log stmt) ≡ true) where
  record Succeeds {ℓ} {A : Type ℓ} (m : M A) : Type ℓ where
    at : (log : List Stmt) → (a : A) × (end : List Stmt) × (m log ≡ (ok a, end))

  abbrev is_window : Stmt → Bool
  is_window (insert_window _ _) = true
  is_window _ = false

  done_of_tolerated :
      (stmt : Stmt) (answer : Answer)
      → is_window stmt ≡ false
      → tolerated stmt answer ≡ true
      → (id : ℕ) × (answer ≡ done id)
  done_of_tolerated stmt (done id) w h = (id, refl)
  done_of_tolerated stmt (failed number) w h = absurd (ground arith)

  Succeeds-exec : (stmt : Stmt) → is_window stmt ≡ false → Succeeds (exec mysql stmt)
  unfolding exec
  Succeeds-exec stmt w = record {
    at = λ log.
        let (id, e) = done_of_tolerated stmt (mysql log stmt) w (up log stmt) in
        (id, log ++ stmt ∷ [], rw (e, exec) refl);
  }

  Succeeds-exec_optional : (stmt : Stmt) → Succeeds (exec_optional mysql stmt)
  unfolding exec_optional is_missing_schema_error
  Succeeds-exec_optional stmt = record {
    at = λ log. (tt, log ++ stmt ∷ [], ground (arith, up log stmt));
  }

  Succeeds-pure {ℓ} : {A : Type ℓ} (a : A) → Succeeds (pure a)
  Succeeds-pure a = record { at = λ log. (a, log, refl) }

  Succeeds-bind {ℓ κ} :
      {A : Type ℓ} {B : Type κ} (m : M A) (f : A → M B)
      → Succeeds m
      → ((a : A) → Succeeds (f a))
      → Succeeds (m >>= f)
  Succeeds-bind m f km kf = record {
    at =
        λ log. let (a, mid, e) = km.at log in let (b, end, e') = (kf a).at mid in (b, end, rw e e');
  }

  Succeeds-insert_aggs :
      (row_id i : ℕ) (aggs : List AggregationSpec) → Succeeds (insert_aggs mysql row_id i aggs)
  unfolding insert_aggs
  Succeeds-insert_aggs row_id i [] = Succeeds-pure tt
  Succeeds-insert_aggs row_id i (agg ∷ aggs) =
      Succeeds-bind (exec mysql (insert_agg row_id (agg_columns i agg)))
        (λ _. insert_aggs mysql row_id (suc i) aggs)
        (Succeeds-exec (insert_agg row_id (agg_columns i agg)) refl)
        (λ _. Succeeds-insert_aggs row_id (suc i) aggs)

  Succeeds-insert_breach_of :
      (row_id : ℕ) (expr : String) → Succeeds (insert_breach_of mysql row_id expr)
  unfolding insert_breach_of
  Succeeds-insert_breach_of row_id expr = elim (Bool-cases (expr == "")) [
    | inl q ↦ rw q (Succeeds-pure tt)
    | inr q ↦ rw q (
        Succeeds-bind (exec mysql (insert_breach row_id expr)) (λ _. pure tt)
          (Succeeds-exec (insert_breach row_id expr) refl) (λ _. Succeeds-pure tt))
  ]

  Succeeds-write_parts :
      (rule : VelocityRule) (row_id : ℕ) → Succeeds (write_parts mysql rule row_id)
  unfolding write_parts
  Succeeds-write_parts rule row_id = Succeeds-bind _ _ (Succeeds-exec_optional _) λ _.
      Succeeds-bind _ _ (Succeeds-exec _ refl) λ _.
        Succeeds-bind _ _ (Succeeds-insert_aggs row_id 0 rule.aggregations) λ _.
          Succeeds-bind _ _ (Succeeds-insert_breach_of row_id rule.having_thresholds.expression)
            λ _. Succeeds-bind _ _ (Succeeds-exec _ refl) λ _. Succeeds-pure tt

  Succeeds-write_version :
      (rule : VelocityRule) (columns : RuleColumns) → Succeeds (write_version mysql rule columns)
  unfolding write_version
  Succeeds-write_version rule columns =
      Succeeds-bind _ _ (Succeeds-exec _ refl)
        λ _. Succeeds-bind _ _ (Succeeds-exec _ refl) λ row_id. Succeeds-write_parts rule row_id

  -- If every statement is answered, but for window inserts that may find their table or a column
  -- missing, and the rule's keys and filters have a JSON text, the save returns no error.
  pub save_succeeds :
      (codec : RuleCodec) (rule : VelocityRule) (version : ℕ) (log : List Stmt) {keys : String}
      {filters : Option String}
      → codec.marshal_keys rule.grouping.keys ≡ some keys
      → marshal_optional codec rule.filters ≡ some filters
      → (save_new_rule_version mysql codec rule version log).0 ≡ ok tt
  unfolding save_new_rule_version rolled_back
  save_succeeds codec rule version log {keys} {filters} k f =
      let (id, begun, e) = (Succeeds-exec begin_tx refl).at log in
      let (_, end, e') =
        (Succeeds-write_version rule (rule_columns codec rule version keys filters)).at begun in
      rw (k, save_new_rule_version, f, e, e') refl
