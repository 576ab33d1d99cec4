-- ===== src/Cluster/Reports.antt =====
-- The execution service: what a report does to the shared state.
use ework_runner.Prelude.{
  suc, ℤ, pos, ◌+ℤ◌, int64, true, false, ◌≡◌, refl, inl, inr, Option, none, some, List, [], ◌∷◌,
  arith, Bool-cases,
}
use ework_runner.Domain.Errors.{Error}
use ework_runner.Domain.Status.{
  TaskExecutionStatus, running, success, failed, failed_retryable, failed_rescheduled, unknown,
  prepare, no_status, is_running, is_terminal_status,
}
use ework_runner.Domain.Task.{RetryConfig}
use ework_runner.Domain.Execution.{TaskExecution, ExecutionState, Report}
use ework_runner.Action.{Result, ok, err, panic, handle_result, pure, ◌>>=◌}
use ework_runner.Database.{row_at, row_at_key}
use ework_runner.Rows.{ExecutionRow}
use ework_runner.Env.{Env, World}
use ework_runner.Schema.{EnvLaws, execution_key}
use ework_runner.Repository.Execution as repo
use ework_runner.Repository.Execution.{to_domain}
use ework_runner.Service.Execution.{
  dispatch, update_state, update_retry_state, update_schedule_state, send_completed_event,
  handle_reports, handle_from, collect, write_retry, retry_with, next_retry, after_retry_error,
  rescheduled, time_after,
}
use ework_runner.Service.Execution.Reports.{update_state-cases, read}
use ework_runner.Service.Execution.Steps.{fails_retryable, fails_rescheduled}
use ework_runner.Service.Execution.Effects.{end_event, dispatch-terminal}
use ework_runner.Cluster.Kept.{
  reported, HasExecution, Kept, Kept-refl, Kept-same, Kept-event, Kept-trans,
}
use ework_runner.Cluster.Executions.{
  update_progress-Kept, set_running_state-Kept, update_retry_result-Kept,
  update_schedule_result-Kept,
}

-- The execution under `id`, if it is there, has not ended.
abbrev pub Open : ℤ → World → Type 0
Open id w =
    (r : ExecutionRow)
    → row_at execution_key id w.executions ≡ some r
    → is_terminal_status r.status ≡ false

module _ (env : Env) where
  -- The retry of a report sends no event.
  after_retry-world :
      (execution : TaskExecution) (state : ExecutionState) (o : Result (Unit {0})) (w : World)
      → state.status ≡ failed_retryable
      → (handle_result o pure (after_retry_error env state execution) w).1 ≡ w
  unfolding send_completed_event
  after_retry-world execution state o w status = ground arith

module _ (env : Env) (laws : EnvLaws env) where
  write_retry-Kept :
      (execution : TaskExecution) (state : ExecutionState) (duration : ℤ) (w : World)
      → state.status ≡ failed_retryable
      → Open state.id w
      → Kept w (write_retry env execution state duration w).1
  unfolding repo.update_retry_result
  write_retry-Kept execution state duration w status open_ =
      let w₃ = record w { tick = suc (suc (suc w.tick)) } in
      Kept-trans {b = w₃} (Kept-same w w₃ refl refl refl refl) (
        update_retry_result-Kept env laws state.id (int64 (execution.retry_count +ℤ pos 1))
          (time_after (env.clock w.tick) (env.nanos (suc w.tick)) duration) state.status
          state.running_progress (env.clock (suc (suc w.tick))) execution.task.schedule_params
          state.executor_node_id w₃ (rw status refl)
          (λ r found. reported (rw status (fails_retryable (open_ r found)))))

  retry_with-Kept :
      (execution : TaskExecution) (state : ExecutionState) (c : Option RetryConfig) (w : World)
      → state.status ≡ failed_retryable
      → Open state.id w
      → Kept w (retry_with env execution state c w).1
  retry_with-Kept execution state none w status open_ = Kept-refl w
  retry_with-Kept execution state (some c) w status open_ =
      elim (Bool-cases (next_retry env c execution).1) [
        | inl more ↦
            rw more (write_retry-Kept execution state (next_retry env c execution).0 w status open_)
        | inr spent ↦ rw spent (Kept-refl w)
      ]

  end-Kept :
      (s : TaskExecutionStatus) (r : ExecutionRow) (state : ExecutionState) (w : World)
      → state.status ≡ s
      → is_terminal_status s ≡ true
      → HasExecution r.id r.task_id w
      → Kept w (dispatch env s (to_domain r) state w).1
  end-Kept s r state w status ends known =
      rw (dispatch-terminal env s r state w status ends)
        (elim (Bool-cases (env.delivers w.tick (end_event s r))) [
          | inl sent ↦ rw sent (Kept-event w (end_event s r) (suc w.tick) known ends)
          | inr lost ↦ rw lost (Kept-same w _ refl refl refl refl)
        ])

  pub dispatch-Kept :
      (s : TaskExecutionStatus) (r : ExecutionRow) (state : ExecutionState) (w : World)
      → state.status ≡ s
      → HasExecution r.id r.task_id w
      → Open state.id w
      → Kept w (dispatch env s (to_domain r) state w).1
  unfolding dispatch repo.update_running_progress repo.set_running_state update_retry_state
      update_schedule_state repo.update_schedule_result
  dispatch-Kept running r state w status known open_ =
      elim (Bool-cases (is_running (to_domain r).status)) [
        | inl y ↦ rw y (update_progress-Kept env laws state.id state.running_progress w)
        | inr n ↦ rw n (
            set_running_state-Kept env laws state.id state.running_progress state.executor_node_id
              w)
      ]
  dispatch-Kept failed_retryable r state w status known open_ =
      let (o, w') = retry_with env (to_domain r) state (to_domain r).task.retry_config w in
      rw (after_retry-world env (to_domain r) state o w' status)
        (retry_with-Kept (to_domain r) state (to_domain r).task.retry_config w status open_)
  dispatch-Kept failed_rescheduled r state w status known open_ =
      let w₁ = record w { tick = suc w.tick } in
      Kept-trans {b = w₁} (Kept-same w w₁ refl refl refl refl) (
        update_schedule_result-Kept env laws state.id state.status state.running_progress
          (env.clock w.tick) (rescheduled env (to_domain r) state).task.schedule_params
          state.executor_node_id w₁ (λ over. ground (arith, status, over))
          (λ x found. reported (rw status (fails_rescheduled (open_ x found)))))
  dispatch-Kept success r state w status known open_ = end-Kept success r state w status refl known
  dispatch-Kept failed r state w status known open_ = end-Kept failed r state w status refl known
  dispatch-Kept unknown r state w status known open_ = Kept-refl w
  dispatch-Kept prepare r state w status known open_ = Kept-refl w
  dispatch-Kept no_status r state w status known open_ = Kept-refl w

  pub update_state-Kept : (state : ExecutionState) (w : World) → Kept w (update_state env state w).1
  update_state-Kept state w =
      let looked = Kept-same w (read w) refl refl refl refl in
      elim (update_state-cases env laws state w) [
        | inl e ↦ rw e looked
        | inr (inl (_, _, _, e)) ↦ rw e looked
        | inr (inr (r, found, open_, e)) ↦ rw e (
            Kept-trans {b = read w} looked (
              dispatch-Kept state.status r state (read w) refl
                (r, row_at_key execution_key state.id r.id r w.executions found refl, refl)
                (λ x there. ground (arith, found, there, open_))))
      ]

  handle_from-Kept :
      (errors : List (ℤ × ℤ × Error)) (reports : List Report) (w : World)
      → Kept w (handle_from env errors reports w).1
  unfolding handle_from
  handle_from-Kept errors [] w = Kept-refl w
  handle_from-Kept errors (report ∷ reports) w =
      let (result, w') = update_state env report.execution_state w in
      Kept-trans {b = w'} (update_state-Kept report.execution_state w)
        (rest result w' (λ errors'. handle_from-Kept errors' reports w'))
    where
      rest :
          (result : Result (Unit {0})) (w' : World)
          → ((errors' : List (ℤ × ℤ × Error)) → Kept w' (handle_from env errors' reports w').1)
          → Kept w'
              ((collect env report result errors >>= λ errors'. handle_from env errors' reports)
                w').1
      rest (ok _) w' ih = ih errors
      rest (err e) w' ih = ih _
      rest panic w' ih = Kept-refl w'

  pub handle_reports-Kept :
      (reports : List Report) (w : World) → Kept w (handle_reports env reports w).1
  unfolding handle_reports
  handle_reports-Kept = handle_from-Kept []
