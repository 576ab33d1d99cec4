-- ===== src/Service/Execution/Reports.antt =====
-- What a report can change: only the execution that it names, and that only while it is not ended.
use ework_runner.Prelude.{
  suc, ℤ, true, false, ◌≡◌, ◌≢◌, refl, ap, ◌∙◌, Option, none, some, List, [], ◌∷◌, arith, inl, inr,
  ◌⊎◌, Bool-cases,
}
use ework_runner.Domain.Errors.{Error, execution_not_found, invalid_task_execution_status}
use ework_runner.Domain.Status.{
  TaskExecutionStatus, running, success, failed, failed_retryable, failed_rescheduled, unknown,
  prepare, no_status, is_running, is_terminal_status,
}
use ework_runner.Domain.Task.{RetryConfig}
use ework_runner.Domain.Execution.{TaskExecution, ExecutionState, Report}
use ework_runner.Action.{Result, ok, err, panic, handle_result, pure, ◌>>=◌}
use ework_runner.Database.{row_at}
use ework_runner.Rows.{ExecutionRow}
use ework_runner.Env.{Env, World}
use ework_runner.Schema.{EnvLaws, execution_key}
use ework_runner.Dao.Execution as dao
use ework_runner.Dao.Execution.{has_id}
use ework_runner.Dao.Execution.Frames.{
  Elsewhere, update_progress-Elsewhere, update_schedule_result-Elsewhere,
  update_retry_result-Elsewhere, set_running_state-Elsewhere,
}
use ework_runner.Repository.Execution as repo
use ework_runner.Repository.Execution.{to_domain}
use ework_runner.Service.Execution.{
  dispatch, update_state, update_retry_state, update_schedule_state, send_completed_event,
  handle_reports, handle_from, collect, write_retry, retry_with, next_retry, after_retry_error,
}

-- What every branch of UpdateState leaves alone.
pub record Spares (id : ℤ) (w w' : World) : Type 0 where
  pub tasks : w'.tasks ≡ w.tasks
  pub invocations : w'.invocations ≡ w.invocations
  pub others :
      (j : ℤ) → j ≢ id → row_at execution_key j w'.executions ≡ row_at execution_key j w.executions

-- The steps before the write, from `w₀` to `w`, touch no table.
Elsewhere-Spares :
    {id : ℤ} (w₀ : World) {w w' : World}
    → Elsewhere id w w'
    → w.tasks ≡ w₀.tasks
    → w.invocations ≡ w₀.invocations
    → w.executions ≡ w₀.executions
    → Spares id w₀ w'
Elsewhere-Spares w₀ e t i x = record {
  tasks = e.tasks ∙ t;
  invocations = e.invocations ∙ i;
  others = λ j other. e.others j other ∙ ap (row_at execution_key j) x;
}

-- The read at the start of UpdateState.
abbrev pub read : World → World
read w = record w { tick = suc w.tick }

module _ (env : Env) (laws : EnvLaws env) where
  send-Spares :
      (state : ExecutionState) (execution : TaskExecution) (id : ℤ) (w : World)
      → Spares id w (send_completed_event env state execution w).1
  unfolding send_completed_event
  send-Spares state execution id w = record {
    tasks = ground arith;
    invocations = ground arith;
    others = λ j other. ground arith;
  }

  write_retry-Spares :
      (execution : TaskExecution) (state : ExecutionState) (duration : ℤ) (w : World)
      → Spares state.id w (write_retry env execution state duration w).1
  unfolding repo.update_retry_result
  write_retry-Spares execution state duration w =
      Elsewhere-Spares w (update_retry_result-Elsewhere env laws state.id _ _ _ _ _ _ _ _) refl refl
        refl

  retry-Spares :
      (execution : TaskExecution) (state : ExecutionState) (c : Option RetryConfig) (w : World)
      → Spares state.id w (retry_with env execution state c w).1
  retry-Spares execution state none w = record {
    tasks = refl;
    invocations = refl;
    others = λ j other. refl;
  }
  retry-Spares execution state (some c) w = elim (Bool-cases (next_retry env c execution).1) [
    | inl more ↦ rw more (write_retry-Spares execution state (next_retry env c execution).0 w)
    | inr spent ↦ rw spent (record { tasks = refl; invocations = refl; others = λ j other. refl })
  ]

  -- The handling of the retry's error touches no table.
  after_retry-Spares :
      (execution : TaskExecution) (state : ExecutionState) (r : Result (Unit {0})) (w' w : World)
      → Spares state.id w w'
      → Spares state.id w (handle_result r pure (after_retry_error env state execution) w').1
  unfolding send_completed_event
  after_retry-Spares execution state r w' w e = record {
    tasks = ground (arith, e.tasks);
    invocations = ground (arith, e.invocations);
    others = λ j other. ground (arith, e.others j other);
  }

  pub dispatch-Spares :
      (s : TaskExecutionStatus) (execution : TaskExecution) (state : ExecutionState) (w : World)
      → Spares state.id w (dispatch env s execution state w).1
  unfolding dispatch repo.update_running_progress repo.set_running_state
  dispatch-Spares running execution state w = elim (Bool-cases (is_running execution.status)) [
    | inl y ↦
        rw y (Elsewhere-Spares w (update_progress-Elsewhere env laws state.id _ w) refl refl refl)
    | inr n ↦
        rw n
          (Elsewhere-Spares w (set_running_state-Elsewhere env laws state.id _ _ w) refl refl refl)
  ]
  dispatch-Spares failed_retryable execution state w =
      after_retry-Spares execution state (update_retry_state env execution state w).0 _ w
        (unfold update_retry_state in retry-Spares execution state execution.task.retry_config w)
  dispatch-Spares failed_rescheduled execution state w =
      unfold update_schedule_state repo.update_schedule_result in
      Elsewhere-Spares w
        (update_schedule_result-Elsewhere env laws state.id _ _ _ _ _
          (record w { tick = suc w.tick }))
        refl refl refl
  dispatch-Spares success execution state w = send-Spares state execution state.id w
  dispatch-Spares failed execution state w = send-Spares state execution state.id w
  dispatch-Spares unknown execution state w = record {
    tasks = refl;
    invocations = refl;
    others = λ j other. refl;
  }
  dispatch-Spares prepare execution state w = record {
    tasks = refl;
    invocations = refl;
    others = λ j other. refl;
  }
  dispatch-Spares no_status execution state w = record {
    tasks = refl;
    invocations = refl;
    others = λ j other. refl;
  }

  -- An error or a missing row ends the report; otherwise the row decides.
  pub update_state-cases :
      (state : ExecutionState) (w : World)
      → (update_state env state w ≡ (err execution_not_found, read w))
        ⊎ ((r : ExecutionRow) × (row_at execution_key state.id w.executions ≡ some r)
            × (is_terminal_status r.status ≡ true)
            × (update_state env state w ≡ (err invalid_task_execution_status, read w)))
        ⊎ ((r : ExecutionRow) × (row_at execution_key state.id w.executions ≡ some r)
            × (is_terminal_status r.status ≡ false)
            × (update_state env state w ≡ dispatch env state.status (to_domain r) state (read w)))
  unfolding update_state repo.get_by_id dao.get_by_id to_domain
  update_state-cases state w =
      elim (laws.executions.first_law w.tick (has_id state.id) w.executions) [
        | inl e ↦ inl (rw e)
        | inr (r, e, found) ↦ elim (Bool-cases (is_terminal_status r.status)) [
          | inl ended ↦ inr (inl (r, found, ended, rw (e, ended)))
          | inr open_ ↦ inr (inr (r, found, open_, rw (e, open_)))
        ]
      ]

  -- UpdateState, whatever it is told, keeps every other row and every ended one.
  update_state-ended :
      (state : ExecutionState) (w : World) (id : ℤ) (r : ExecutionRow)
      → row_at execution_key id w.executions ≡ some r
      → is_terminal_status r.status ≡ true
      → row_at execution_key id (update_state env state w).1.executions ≡ some r
  update_state-ended state w id r found ended = elim (update_state-cases state w) [
    | inl e ↦ rw e found
    | inr (inl (_, _, _, e)) ↦ rw e found
    | inr (inr (s, found_s, open_, e)) ↦ rw e (
        (dispatch-Spares state.status (to_domain s) state (read w)).others id (λ same.
          cc (ap (λ k. row_at execution_key k w.executions) same, found, found_s, ended, open_))
        ∙ found)
  ]

  pub update_state-tasks :
      (state : ExecutionState) (w : World) → (update_state env state w).1.tasks ≡ w.tasks
  update_state-tasks state w = elim (update_state-cases state w) [
    | inl e ↦ rw e
    | inr (inl (_, _, _, e)) ↦ rw e
    | inr (inr (s, _, _, e)) ↦
        rw e (dispatch-Spares state.status (to_domain s) state (read w)).tasks
  ]

  handle_from-ended :
      (errors : List (ℤ × ℤ × Error)) (reports : List Report) (w : World) (id : ℤ)
      (r : ExecutionRow)
      → row_at execution_key id w.executions ≡ some r
      → is_terminal_status r.status ≡ true
      → row_at execution_key id (handle_from env errors reports w).1.executions ≡ some r
  unfolding handle_from
  handle_from-ended errors [] w id r found ended = found
  handle_from-ended errors (report ∷ reports) w id r found ended =
      let w' = (update_state env report.execution_state w).1 in
      let kept = update_state-ended report.execution_state w id r found ended in
      rest (update_state env report.execution_state w).0 w' kept
        (λ errors'. handle_from-ended errors' reports w' id r kept ended)
    where
      rest :
          (result : Result (Unit {0})) (w' : World)
          → row_at execution_key id w'.executions ≡ some r
          → ((errors' : List (ℤ × ℤ × Error))
              → row_at execution_key id (handle_from env errors' reports w').1.executions ≡ some r)
          → row_at execution_key id
              ((collect env report result errors >>= λ errors'. handle_from env errors' reports)
                w').1.executions
            ≡ some r
      rest (ok _) w' kept ih = ih errors
      rest (err e) w' kept ih = ih _
      rest panic w' kept ih = kept

  -- No batch of reports, valid or not, failing or not, changes the row of an execution that has
  -- succeeded or failed.
  pub handle_reports-ended :
      (reports : List Report) (w : World) (id : ℤ) (r : ExecutionRow)
      → row_at execution_key id w.executions ≡ some r
      → is_terminal_status r.status ≡ true
      → row_at execution_key id (handle_reports env reports w).1.executions ≡ some r
  unfolding handle_reports
  handle_reports-ended = handle_from-ended []
