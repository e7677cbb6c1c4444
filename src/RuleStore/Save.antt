-- ===== src/RuleStore/Save.antt =====
-- SaveNewRuleVersion of rule_store.go as a transaction: the caller is told of success exactly when
-- MySQL has confirmed the commit.
use velocity_engine_backend.Prelude.{
  ℕ, suc, String, ◌≡◌, refl, sym, ◌∙◌, ap, Bool, true, false, ◌||◌, List, [], ◌∷◌, ◌++◌, Option,
  none, some, ◌==◌, comparable_string, arith, Bool-cases, inl, inr,
}
use mathlib.Core.List.{append_assoc, append-nil}
use velocity_engine_backend.Models.{AggregationSpec, VelocityRule}
use velocity_engine_backend.RuleStore.{
  Mysql, Stmt, begin_tx, commit, rollback, insert_agg, insert_breach, Answer, done, failed, Outcome,
  ok, err, M, proceed, ◌>>=◌, ◌>>◌, pure, exec, exec_optional, insert_aggs, insert_breach_of,
  write_parts, write_version, rolled_back, RuleCodec, RuleColumns, marshal_optional, rule_columns,
  save_new_rule_version, agg_columns,
}

abbrev pub is_commit : Stmt → Bool
is_commit commit = true
is_commit _ = false

abbrev pub is_done : Answer → Bool
is_done (done _) = true
is_done (failed _) = false

abbrev pub succeeded {ℓ} : {A : Type ℓ} → Outcome A → Bool
succeeded (ok _) = true
succeeded err = false

module _ (mysql : Mysql) where
  confirms : List Stmt → Stmt → Bool
  confirms log commit = is_done (mysql log commit)
  confirms log _ = false

  -- Is there, among the statements issued after `log`, a commit that MySQL confirmed?
  unfoldable pub commits : List Stmt → List Stmt → Bool
  unfolding confirms
  commits log [] = false
  commits log (stmt ∷ stmts) = confirms log stmt || commits (log ++ stmt ∷ []) stmts

  commits-append :
      (log a b : List Stmt) → commits log (a ++ b) ≡ (commits log a || commits (log ++ a) b)
  unfolding commits
  commits-append log [] b = rw append-nil refl
  commits-append log (stmt ∷ a) b =
      ground (arith, commits-append (log ++ stmt ∷ []) a b, append_assoc log (stmt ∷ []) a)

  -- An action only issues more statements; with no confirmed commit among them.
  record NoCommit {ℓ} {A : Type ℓ} (m : M A) : Type ℓ where
    at :
        (log : List Stmt)
        → (issued : List Stmt) × ((m log).1 ≡ log ++ issued) × (commits log issued ≡ false)

  -- An action that succeeds exactly when a commit among its statements is confirmed.
  pub record Decides {ℓ} {A : Type ℓ} (m : M A) : Type ℓ where
    pub at :
        (log : List Stmt)
        → (issued : List Stmt) × ((m log).1 ≡ log ++ issued)
          × (succeeded (m log).0 ≡ commits log issued)

  NoCommit-exec : (stmt : Stmt) → is_commit stmt ≡ false → NoCommit (exec mysql stmt)
  unfolding exec commits
  NoCommit-exec stmt h = record { at = λ log. (stmt ∷ [], ground arith, ground arith) }

  NoCommit-exec_optional :
      (stmt : Stmt) → is_commit stmt ≡ false → NoCommit (exec_optional mysql stmt)
  unfolding exec_optional commits
  NoCommit-exec_optional stmt h = record { at = λ log. (stmt ∷ [], ground arith, ground arith) }

  NoCommit-pure {ℓ} : {A : Type ℓ} (a : A) → NoCommit (pure a)
  unfolding commits
  NoCommit-pure a = record { at = λ log. ([], sym (append-nil log), refl) }

  module _ {ℓ κ} {A : Type ℓ} {B : Type κ} where
    NoCommit-after :
        (r : Outcome A × List Stmt) (f : A → M B) (log issued : List Stmt)
        → r.1 ≡ log ++ issued
        → commits log issued ≡ false
        → ((a : A) → NoCommit (f a))
        → (all : List Stmt) × ((proceed r f).1 ≡ log ++ all) × (commits log all ≡ false)
    NoCommit-after (err, end) f log issued e n kf = (issued, e, n)
    NoCommit-after (ok a, end) f log issued e n kf =
        let (more, e', n') = (kf a).at end in
        (
          issued ++ more,
          e' ∙ ap (λ h. h ++ more) e ∙ append_assoc log issued more,
          ground (arith, commits-append log issued more, n, rw e at n'),
        )

    NoCommit-bind :
        (m : M A) (f : A → M B) → NoCommit m → ((a : A) → NoCommit (f a)) → NoCommit (m >>= f)
    NoCommit-bind m f km kf = record {
      at = λ log. let (issued, e, n) = km.at log in NoCommit-after (m log) f log issued e n kf;
    }

    Decides-after :
        (r : Outcome A × List Stmt) (f : A → M B) (log issued : List Stmt)
        → r.1 ≡ log ++ issued
        → commits log issued ≡ false
        → ((a : A) → Decides (f a))
        → (all : List Stmt) × ((proceed r f).1 ≡ log ++ all)
          × (succeeded (proceed r f).0 ≡ commits log all)
    Decides-after (err, end) f log issued e n kf = (issued, e, sym n)
    Decides-after (ok a, end) f log issued e n kf =
        let (more, e', n') = (kf a).at end in
        (
          issued ++ more,
          e' ∙ ap (λ h. h ++ more) e ∙ append_assoc log issued more,
          n' ∙ ground (arith, commits-append log issued more, n, e),
        )

    Decides-bind :
        (m : M A) (f : A → M B) → NoCommit m → ((a : A) → Decides (f a)) → Decides (m >>= f)
    Decides-bind m f km kf = record {
      at = λ log. let (issued, e, n) = km.at log in Decides-after (m log) f log issued e n kf;
    }

  NoCommit-insert_aggs :
      (row_id i : ℕ) (aggs : List AggregationSpec) → NoCommit (insert_aggs mysql row_id i aggs)
  unfolding insert_aggs
  NoCommit-insert_aggs row_id i [] = NoCommit-pure tt
  NoCommit-insert_aggs row_id i (agg ∷ aggs) =
      NoCommit-bind (exec mysql (insert_agg row_id (agg_columns i agg)))
        (λ _. insert_aggs mysql row_id (suc i) aggs)
        (NoCommit-exec (insert_agg row_id (agg_columns i agg)) refl)
        (λ _. NoCommit-insert_aggs row_id (suc i) aggs)

  NoCommit-insert_breach_of :
      (row_id : ℕ) (expr : String) → NoCommit (insert_breach_of mysql row_id expr)
  unfolding insert_breach_of
  NoCommit-insert_breach_of row_id expr = elim (Bool-cases (expr == "")) [
    | inl q ↦ rw q (NoCommit-pure tt)
    | inr q ↦ rw q (
        NoCommit-bind (exec mysql (insert_breach row_id expr)) (λ _. pure tt)
          (NoCommit-exec (insert_breach row_id expr) refl) (λ _. NoCommit-pure tt))
  ]

  Decides-commit : Decides {0} (do exec mysql commit; pure tt)
  unfolding exec commits
  Decides-commit = record { at = λ log. (commit ∷ [], ground arith, ground arith) }

  pub Decides-write_parts :
      (rule : VelocityRule) (row_id : ℕ) → Decides (write_parts mysql rule row_id)
  unfolding write_parts
  Decides-write_parts rule row_id = Decides-bind _ _ (NoCommit-exec_optional _ refl) λ _.
      Decides-bind _ _ (NoCommit-exec _ refl) λ _.
        Decides-bind _ _ (NoCommit-insert_aggs row_id 0 rule.aggregations) λ _.
          Decides-bind _ _ (NoCommit-insert_breach_of row_id rule.having_thresholds.expression)
            λ _. Decides-commit

  Decides-write_version :
      (rule : VelocityRule) (columns : RuleColumns) → Decides (write_version mysql rule columns)
  unfolding write_version
  Decides-write_version rule columns =
      Decides-bind _ _ (NoCommit-exec _ refl)
        λ _. Decides-bind _ _ (NoCommit-exec _ refl) λ row_id. Decides-write_parts rule row_id

  rolled_back_lem :
      (r : Outcome (Unit {0}) × List Stmt) (log issued : List Stmt)
      → r.1 ≡ log ++ issued
      → succeeded r.0 ≡ commits log issued
      → ((rolled_back mysql r).1 ≡ log ++ (issued ++ rollback ∷ []))
        × (succeeded (rolled_back mysql r).0 ≡ commits log (issued ++ rollback ∷ []))
  unfolding rolled_back commits
  rolled_back_lem (result, end) log issued e d = (
    ap (λ h. h ++ rollback ∷ []) e ∙ append_assoc log issued (rollback ∷ []),
    ground (arith, commits-append log issued (rollback ∷ [])),
  )

  begun_lem :
      (r : Outcome ℕ × List Stmt) (log : List Stmt) (columns : RuleColumns) (rule : VelocityRule)
      → r.1 ≡ log ++ begin_tx ∷ []
      → (issued : List Stmt) × ((proceed r
            (λ _ begun. rolled_back mysql (write_version mysql rule columns begun))).1
          ≡ log ++ issued)
        × (succeeded
              (proceed r (λ _ begun. rolled_back mysql (write_version mysql rule columns begun))).0
            ≡ commits log issued)
  unfolding commits
  begun_lem (err, end) log columns rule e = (begin_tx ∷ [], e, refl)
  begun_lem (ok _, end) log columns rule e =
      let (issued, e', d) = (Decides-write_version rule columns).at end in
      let (l, c) = rolled_back_lem (write_version mysql rule columns end) end issued e' d in
      (
        begin_tx ∷ (issued ++ rollback ∷ []),
        ground (arith, l, append_assoc log (begin_tx ∷ []) (issued ++ rollback ∷ [])),
        ground (arith, c, e),
      )

  pub save_by_codec :
      (codec : RuleCodec) (rule : VelocityRule) (version : ℕ) (log : List Stmt)
      (keys : Option String) (filters : Option (Option String))
      → codec.marshal_keys rule.grouping.keys ≡ keys
      → marshal_optional codec rule.filters ≡ filters
      → (issued : List Stmt) × ((save_new_rule_version mysql codec rule version log).1
          ≡ log ++ issued)
        × (succeeded (save_new_rule_version mysql codec rule version log).0 ≡ commits log issued)
  unfolding save_new_rule_version commits exec
  save_by_codec codec rule version log none filters k f =
      rw (k, save_new_rule_version) ([], sym (append-nil log), refl)
  save_by_codec codec rule version log (some keys) none k f =
      rw (k, save_new_rule_version, f) ([], sym (append-nil log), refl)
  save_by_codec codec rule version log (some keys) (some filters) k f =
      rw (k, save_new_rule_version, f)
        (begun_lem (exec mysql begin_tx log) log (rule_columns codec rule version keys filters) rule
          (begun_log log))
    where
      begun_log : (log : List Stmt) → (exec mysql begin_tx log).1 ≡ log ++ begin_tx ∷ []
      begun_log log = ground arith
