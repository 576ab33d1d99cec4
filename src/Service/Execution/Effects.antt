-- ===== src/Service/Execution/Effects.antt =====
-- What single reports lead to: an event, or nothing.
use ework_runner.Prelude.{
  suc, ℤ, pos, NilParams, true, false, ◌≡◌, refl, ap, ◌∙◌, Option, none, some, [], ◌∷◌, ◌++◌, arith,
  inl, inr, ◌⊎◌, if◌then◌else◌,
}
use ework_runner.Domain.Errors.{execution_not_found, update_execution_retry_result_failed}
use ework_runner.Domain.Status.{
  TaskExecutionStatus, running, success, failed, failed_retryable, failed_rescheduled, unknown,
  prepare, no_status, is_terminal_status,
}
use ework_runner.Domain.Task.{RetryConfig}
use ework_runner.Domain.Execution.{TaskExecution, ExecutionState}
use ework_runner.Action.{ok, err}
use ework_runner.Database.{row_at}
use ework_runner.Rows.{ExecutionRow}
use ework_runner.Env.{Env, World, Event}
use ework_runner.Schema.{EnvLaws, execution_key}
use ework_runner.Dao.Execution as dao
use ework_runner.Repository.Execution as repo
use ework_runner.Repository.Execution.{to_domain}
use ework_runner.Service.Execution.{
  dispatch, update_state, update_retry_state, send_completed_event, write_retry, retry_with,
  next_retry,
}
use ework_runner.Service.Execution.Steps.{after_retry-executions}
use ework_runner.Service.Execution.Reports.{update_state-cases, read}

-- The event of the end of the execution in row `r`.
abbrev pub end_event : TaskExecutionStatus → ExecutionRow → Event
end_event s r = record {
  task_id = r.task_id;
  exec_id = r.id;
  version = pos 0;
  schedule_node_id = r.task_schedule_node_id;
  exec_status = s;
  name = r.task_name;
}

module _ (env : Env) where
  pub dispatch-terminal :
      (s : TaskExecutionStatus) (r : ExecutionRow) (state : ExecutionState) (w : World)
      → state.status ≡ s
      → is_terminal_status s ≡ true
      → dispatch env s (to_domain r) state w ≡ (
        ok tt,
        record w {
          events =
              if env.delivers w.tick (end_event s r)
              then w.events ++ end_event s r ∷ []
              else w.events;
          tick = suc w.tick;
        },
      )
  unfolding dispatch send_completed_event to_domain
  dispatch-terminal success r state w status ends = rw status refl
  dispatch-terminal failed r state w status ends = rw status refl
  dispatch-terminal running r state w status ends = cc
  dispatch-terminal failed_retryable r state w status ends = cc
  dispatch-terminal failed_rescheduled r state w status ends = cc
  dispatch-terminal unknown r state w status ends = cc
  dispatch-terminal prepare r state w status ends = cc
  dispatch-terminal no_status r state w status ends = cc

  write_retry-refused :
      (execution : TaskExecution) (state : ExecutionState) (duration : ℤ) (w : World)
      → ((m : NilParams) → env.driver_map m ≡ none)
      → ((write_retry env execution state duration w).0 ≡ err update_execution_retry_result_failed)
        × ((write_retry env execution state duration w).1.executions ≡ w.executions)
  unfolding repo.update_retry_result dao.update_retry_result
  write_retry-refused execution state duration w refuses =
      rw (refuses execution.task.schedule_params) (refl, refl)

  retry_with-refused :
      (execution : TaskExecution) (state : ExecutionState) (c : Option RetryConfig) (w : World)
      → ((m : NilParams) → env.driver_map m ≡ none)
      → (retry_with env execution state c w).1.executions ≡ w.executions
  retry_with-refused execution state none w refuses = refl
  retry_with-refused execution state (some c) w refuses =
      ground (arith, write_retry-refused execution state (next_retry env c execution).0 w refuses)

  dispatch-refused :
      (s : TaskExecutionStatus) (execution : TaskExecution) (state : ExecutionState) (w : World)
      → s ≡ failed_retryable
      → ((m : NilParams) → env.driver_map m ≡ none)
      → (dispatch env s execution state w).1.executions ≡ w.executions
  unfolding dispatch update_retry_state
  dispatch-refused s execution state w retryable refuses =
      let (o, w') = retry_with env execution state execution.task.retry_config w in
      simp retryable (
        after_retry-executions env execution state o w'
        ∙ retry_with-refused execution state execution.task.retry_config w refuses)

module _ (env : Env) (laws : EnvLaws env) where
  -- A report that an open execution has succeeded or failed succeeds, writes no table and starts
  -- nothing, and hands one event to the broker, which keeps it if it delivers, with the execution,
  -- its task, its scheduler node and the outcome; or the row is not read, and the report is an
  -- error that does nothing.
  pub terminal_report :
      (state : ExecutionState) (w : World) (r : ExecutionRow)
      → row_at execution_key state.id w.executions ≡ some r
      → is_terminal_status r.status ≡ false
      → is_terminal_status state.status ≡ true
      → (update_state env state w ≡ (err execution_not_found, read w))
        ⊎ (update_state env state w ≡ (
          ok tt,
          record w {
            events =
                if env.delivers (suc w.tick) (end_event state.status r)
                then w.events ++ end_event state.status r ∷ []
                else w.events;
            tick = suc (suc w.tick);
          },
        ))
  terminal_report state w r found open_ ends = elim (update_state-cases env laws state w) [
    | inl e ↦ inl e
    | inr (inl (s, found_s, ended, e)) ↦ cc
    | inr (inr (s, found_s, _, e)) ↦
        let same : s ≡ r = ground (arith, found_s, found) in
        inr (
          e
          ∙ ap (λ x. dispatch env state.status (to_domain x) state (read w)) same
          ∙ dispatch-terminal env state.status r state (read w) refl ends)
  ]

  -- Where the database driver takes no Go map as an argument, a report of a retryable failure
  -- leaves the table of the executions as it was, whatever the state of the execution.
  pub retry_refused :
      (state : ExecutionState) (w : World)
      → ((m : NilParams) → env.driver_map m ≡ none)
      → state.status ≡ failed_retryable
      → (update_state env state w).1.executions ≡ w.executions
  retry_refused state w refuses retryable = elim (update_state-cases env laws state w) [
    | inl e ↦ rw e refl
    | inr (inl (_, _, _, e)) ↦ rw e refl
    | inr (inr (s, _, _, e)) ↦
        rw e (dispatch-refused env state.status (to_domain s) state (read w) retryable refuses)
  ]
