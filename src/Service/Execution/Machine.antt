-- ===== src/Service/Execution/Machine.antt =====
-- The status of an execution as a state machine that the reports drive.
use ework_runner.Prelude.{
  ℤ, ◌==ℤ◌, false, ◌≡◌, refl, sym, ap, ◌∙◌, some, List, [], ◌∷◌, arith, ==ℤ_iff, inl, inr,
  Bool-cases,
}
use ework_runner.Domain.Errors.{Error}
use ework_runner.Domain.Status.{is_terminal_status}
use ework_runner.Domain.Execution.{ExecutionState, Report}
use ework_runner.Action.{Result, ok, err, panic, ◌>>=◌}
use ework_runner.Database.{row_at}
use ework_runner.Rows.{ExecutionRow}
use ework_runner.Env.{Env, World}
use ework_runner.Schema.{EnvLaws, execution_key}
use ework_runner.Repository.Execution.{to_domain}
use ework_runner.Service.Execution.{update_state, handle_reports, handle_from, collect}
use ework_runner.Service.Execution.Reports.{update_state-cases, read, dispatch-Spares}
use ework_runner.Service.Execution.Steps.{
  Step, stays, Steps, here, next, Stepped, dispatch-Stepped, Steps-open,
}

module _ (env : Env) (laws : EnvLaws env) where
  update_state-Stepped :
      (state : ExecutionState) (w : World) (id : ℤ) (r : ExecutionRow)
      → row_at execution_key id w.executions ≡ some r
      → Stepped id r (update_state env state w)
  update_state-Stepped state w id r found = elim (update_state-cases env laws state w) [
    | inl e ↦ (r, rw e found, stays)
    | inr (inl (_, _, _, e)) ↦ (r, rw e found, stays)
    | inr (inr (s, found_s, open_, e)) ↦ elim (Bool-cases (id ==ℤ state.id)) [
      | inl same ↦
          let under : id ≡ state.id = (==ℤ_iff id state.id).0 same in
          let found' = ap (λ k. row_at execution_key k w.executions) (sym under) ∙ found in
          let is_s : s ≡ r = ground (arith, found_s, found') in
          let (r', row, step) =
            dispatch-Stepped env laws state.status (to_domain s) state (read w) r refl found'
              (ap (λ x. is_terminal_status x.status) (sym is_s) ∙ open_) in
          (r', rw (e, under) row, step)
      | inr other ↦ (
        r,
        rw e (
            (dispatch-Spares env laws state.status (to_domain s) state (read w)).others id
              (λ same. cc ((==ℤ_iff id state.id).1 same, other))
            ∙ found),
        stays,
      )
    ]
  ]

  handle_from-Steps :
      (errors : List (ℤ × ℤ × Error)) (reports : List Report) (w : World) (id : ℤ)
      (r : ExecutionRow)
      → row_at execution_key id w.executions ≡ some r
      → (r' : ExecutionRow) × (row_at execution_key id
            (handle_from env errors reports w).1.executions
          ≡ some r')
        × Steps r.status r'.status
  unfolding handle_from
  handle_from-Steps errors [] w id r found = (r, found, here)
  handle_from-Steps errors (report ∷ reports) w id r found =
      let (r₁, found₁, step) = update_state-Stepped report.execution_state w id r found in
      rest (update_state env report.execution_state w).0
        (update_state env report.execution_state w).1 r₁ found₁ step
        (λ errors'.
          handle_from-Steps errors' reports (update_state env report.execution_state w).1 id r₁
            found₁)
    where
      rest :
          (result : Result (Unit {0})) (w' : World) (r₁ : ExecutionRow)
          → row_at execution_key id w'.executions ≡ some r₁
          → Step r.status r₁.status
          → ((errors' : List (ℤ × ℤ × Error))
              → (r' : ExecutionRow) × (row_at execution_key id
                    (handle_from env errors' reports w').1.executions
                  ≡ some r')
                × Steps r₁.status r'.status)
          → (r' : ExecutionRow) × (row_at execution_key id
                ((collect env report result errors >>= λ errors'. handle_from env errors' reports)
                  w').1.executions
              ≡ some r')
            × Steps r.status r'.status
      rest (ok _) w' r₁ found₁ step ih =
          let (r', found', steps) = ih errors in (r', found', next step steps)
      rest (err e) w' r₁ found₁ step ih =
          let (r', found', steps) = ih _ in (r', found', next step steps)
      rest panic w' r₁ found₁ step ih = (r₁, found₁, next step here)

  -- A batch of reports, valid or not, failing or not, loses no execution of the table, and takes
  -- the status of each along steps of the state machine: to RUNNING from PREPARE, FAILED_RETRYABLE
  -- or FAILED_RESCHEDULED, and to the latter two from any status that is not terminal.
  pub handle_reports-Steps :
      (reports : List Report) (w : World) (id : ℤ) (r : ExecutionRow)
      → row_at execution_key id w.executions ≡ some r
      → (r' : ExecutionRow) × (row_at execution_key id (handle_reports env reports w).1.executions
          ≡ some r')
        × Steps r.status r'.status
  unfolding handle_reports
  handle_reports-Steps = handle_from-Steps []

  -- No batch of reports ends an execution, not even one that reports its success or failure: an
  -- execution of the table that is neither SUCCESS nor FAILED is still there and neither afterwards.
  pub handle_reports-open :
      (reports : List Report) (w : World) (id : ℤ) (r : ExecutionRow)
      → row_at execution_key id w.executions ≡ some r
      → is_terminal_status r.status ≡ false
      → (r' : ExecutionRow) × (row_at execution_key id (handle_reports env reports w).1.executions
          ≡ some r')
        × (is_terminal_status r'.status ≡ false)
  handle_reports-open reports w id r found open_ =
      let (r', found', steps) = handle_reports-Steps reports w id r found in
      (r', found', Steps-open r.status r'.status steps open_)
