-- ===== src/RuleStore/Written.antt =====
-- Which transaction SaveNewRuleVersion of rule_store.go has committed once it returns no error.
use velocity_engine_backend.Prelude.{
  ℕ, String, ◌≡◌, refl, sym, ◌∙◌, ap, ◌⊎◌, inl, inr, true, List, [], ◌∷◌, ◌++◌, Option, none, some,
  arith,
}
use mathlib.Core.List.{append_assoc}
use velocity_engine_backend.Models.{VelocityRule}
use velocity_engine_backend.RuleStore.{
  Mysql, Stmt, begin_tx, deactivate_previous, insert_rule, rollback, Answer, done, failed, ok, err,
  exec, write_version, rolled_back, RuleCodec, RuleColumns, marshal_optional, rule_columns,
  save_new_rule_version,
}
use velocity_engine_backend.RuleStore.Save.{succeeded, commits, Decides-write_parts}
use velocity_engine_backend.RuleStore.Outcomes.{save-eq-commits}

-- The transaction begins, deactivates the rule's rows, and inserts one row of that version.
abbrev pub IsVersion : VelocityRule → ℕ → List Stmt → Type 0
IsVersion rule version issued =
    (columns : RuleColumns) × (rest : List Stmt) × (issued
      ≡ begin_tx ∷ deactivate_previous rule.rule_metadata.rule_id ∷ insert_rule columns ∷ rest)
    × (columns.rule_id ≡ rule.rule_metadata.rule_id)
    × (columns.version ≡ version)
    × (columns.status ≡ rule.rule_metadata.status)

append_cancel_left : (l a b : List Stmt) → l ++ a ≡ l ++ b → a ≡ b
append_cancel_left [] a b e = e
append_cancel_left (x ∷ l) a b e = append_cancel_left l a b (ground (arith, e))

module _ (mysql : Mysql) where
  exec_by :
      (stmt : Stmt) (log : List Stmt) (answer : Answer)
      → mysql log stmt ≡ answer
      → (exec mysql stmt log ≡ (err, log ++ stmt ∷ []))
        ⊎ ((id : ℕ) × (exec mysql stmt log ≡ (ok id, log ++ stmt ∷ [])))
  unfolding exec
  exec_by stmt log (done id) e = inr (id, rw (e, exec) refl)
  exec_by stmt log (failed number) e = inl (rw (e, exec) refl)

  exec_lem :
      (stmt : Stmt) (log : List Stmt)
      → (exec mysql stmt log ≡ (err, log ++ stmt ∷ []))
        ⊎ ((id : ℕ) × (exec mysql stmt log ≡ (ok id, log ++ stmt ∷ [])))
  exec_lem stmt log = exec_by stmt log (mysql log stmt) refl

  write_version-log :
      (rule : VelocityRule) (columns : RuleColumns) (log : List Stmt)
      → succeeded (write_version mysql rule columns log).0 ≡ true
      → (rest : List Stmt) × ((write_version mysql rule columns log).1
          ≡ log ++ deactivate_previous rule.rule_metadata.rule_id ∷ insert_rule columns ∷ rest)
  unfolding write_version
  write_version-log rule columns log h =
      let gone = deactivate_previous rule.rule_metadata.rule_id in
      elim (exec_lem gone log) [
        | inl e ↦ absurd (ground (arith, rw (e, write_version) at h))
        | inr (n, e) ↦ elim (exec_lem (insert_rule columns) (log ++ gone ∷ [])) [
          | inl d ↦ absurd (ground (arith, rw (e, d, write_version) at h))
          | inr (row_id, d) ↦
              let (rest, q, _) =
                (Decides-write_parts mysql rule row_id).at
                  ((log ++ gone ∷ []) ++ insert_rule columns ∷ []) in
              (
                rest,
                rw (e, d, write_version)
                    (q
                      ∙ append_assoc (log ++ gone ∷ []) (insert_rule columns ∷ []) rest
                      ∙ append_assoc log (gone ∷ []) (insert_rule columns ∷ rest)),
              )
        ]
      ]

  save-log :
      (codec : RuleCodec) (rule : VelocityRule) (version : ℕ) (log : List Stmt)
      (keys : Option String) (filters : Option (Option String))
      → codec.marshal_keys rule.grouping.keys ≡ keys
      → marshal_optional codec rule.filters ≡ filters
      → succeeded (save_new_rule_version mysql codec rule version log).0 ≡ true
      → (issued : List Stmt) × ((save_new_rule_version mysql codec rule version log).1
          ≡ log ++ issued)
        × IsVersion rule version issued
  unfolding save_new_rule_version rolled_back rule_columns
  save-log codec rule version log none filters k f h =
      absurd (ground (arith, rw (k, save_new_rule_version) at h))
  save-log codec rule version log (some keys) none k f h =
      absurd (ground (arith, rw (k, f, save_new_rule_version) at h))
  save-log codec rule version log (some keys) (some filters) k f h =
      let columns = rule_columns codec rule version keys filters in
      elim (exec_lem begin_tx log) [
        | inl e ↦ absurd (ground (arith, rw (k, f, e, save_new_rule_version) at h))
        | inr (n, e) ↦
            let (rest, q) =
              write_version-log rule columns (log ++ begin_tx ∷ [])
                (rw (k, f, e, save_new_rule_version) at h) in
            let gone = deactivate_previous rule.rule_metadata.rule_id in
            (
              begin_tx ∷ gone ∷ insert_rule columns ∷ (rest ++ rollback ∷ []),
              rw (k, f, e, save_new_rule_version)
                  (ap (λ l. l ++ rollback ∷ []) q
                    ∙ append_assoc (log ++ begin_tx ∷ []) (gone ∷ insert_rule columns ∷ rest)
                        (rollback ∷ [])
                    ∙ append_assoc log (begin_tx ∷ [])
                        (gone ∷ insert_rule columns ∷ (rest ++ rollback ∷ []))),
              (columns, rest ++ rollback ∷ [], refl, refl, refl, refl),
            )
      ]

  -- A save that returns no error has issued the transaction of its version, and MySQL confirmed a commit.
  pub save-IsVersion :
      (codec : RuleCodec) (rule : VelocityRule) (version : ℕ) (log : List Stmt)
      → (issued : List Stmt) × ((save_new_rule_version mysql codec rule version log).1
          ≡ log ++ issued)
        × (succeeded (save_new_rule_version mysql codec rule version log).0
            ≡ commits mysql log issued)
        × (commits mysql log issued ≡ true → IsVersion rule version issued)
  save-IsVersion codec rule version log =
      let (issued, e, c) = save-eq-commits mysql codec rule version log in
      (
        issued,
        e,
        c,
        λ confirmed.
            let (same, q, written) =
              save-log codec rule version log (codec.marshal_keys rule.grouping.keys)
                (marshal_optional codec rule.filters) refl refl (c ∙ confirmed) in
            rw (append_cancel_left log same issued (sym q ∙ e)) at written,
      )
