-- ===== src/Service/Execution.antt =====
-- internal/service/task/execution_service.go: what a report of an executor does.
pub mod Reports
pub mod Retries
pub mod Steps
pub mod Machine
pub mod Effects
use ework_runner.Prelude.{
  ℕ, suc, ◌/◌, ℤ, pos, negsuc, ◌+ℤ◌, ◌*ℤ◌, int32, int64, String, NilParams, Bool, true, false,
  Option, none, some, List, [], ◌∷◌, ◌++◌, if◌then◌else◌,
}
use ework_runner.Domain.Errors.{
  Error, execution_not_found, invalid_task_execution_status, execution_max_retries_exceeded,
}
use ework_runner.Domain.Status.{
  TaskExecutionStatus, running, success, failed, failed_retryable, failed_rescheduled, unknown,
  prepare, no_status, is_running, is_terminal_status,
}
use ework_runner.Domain.Task.{Task, RetryConfig, to_retry_component_config}
use ework_runner.Domain.Execution.{
  TaskExecution, ExecutionState, Report, merge_task_schedule_params,
}
use ework_runner.Action.{Result, ok, err, panic, pure, raise, panics, on_result, ◌>>=◌, ◌>>◌}
use ework_runner.Env.{Env, World, Act, Event, now, ask}
use ework_runner.Retry.{exponential, next_with_retries, Next}
use ework_runner.Repository.Execution as repo
use ework_runner.Service.Task as tasks

-- UnixMilli of a time that lies `n` nanoseconds after the epoch: rounded down.
unfoldable pub floor_millis : ℤ → ℤ
floor_millis (pos n) = pos (n / 1_000_000)
floor_millis (negsuc n) = negsuc (n / 1_000_000)

-- time.Now().Add(duration).UnixMilli()
unfoldable pub time_after : ℤ → ℕ → ℤ → ℤ
unfolding floor_millis
time_after millis nanos duration = floor_millis (millis *ℤ pos 1_000_000 +ℤ pos nanos +ℤ duration)

abbrev pub completed_event : TaskExecutionStatus → TaskExecution → Event
completed_event status execution = record {
  task_id = execution.task.id;
  exec_id = execution.id;
  version = pos 0;
  schedule_node_id = execution.task.schedule_node_id;
  exec_status = status;
  name = execution.task.name;
}

module _ (env : Env) where
  -- Produce: an error of the broker is logged and dropped.
  abbrev pub produce : Event → Act (Unit {0})
  produce event w = (
    ok tt,
    record w {
      events = if env.delivers w.tick event then w.events ++ event ∷ [] else w.events;
      tick = suc w.tick;
    },
  )

  abbrev pub create : TaskExecution → Act TaskExecution
  create execution = repo.create env execution

  abbrev find_by_id : ℤ → Act TaskExecution
  find_by_id id = repo.get_by_id env id

  abbrev pub find_retryable_executions : ℤ → Act (List TaskExecution)
  find_retryable_executions limit = repo.find_retryable_executions env limit

  abbrev pub find_reschedulable_executions : ℤ → Act (List TaskExecution)
  find_reschedulable_executions limit = repo.find_reschedulable_executions env limit

  abbrev pub find_timeout_executions : ℤ → Act (List TaskExecution)
  find_timeout_executions limit = repo.find_timeout_executions env limit

  -- SetRunningState and setRunningState, which logs the error and returns it.
  abbrev set_running_state : ExecutionState → Act (Unit {0})
  set_running_state state =
      repo.set_running_state env state.id state.running_progress state.executor_node_id

  -- UpdateRunningProgress and updateRunningProgress, in the same way.
  abbrev update_running_progress : ExecutionState → Act (Unit {0})
  update_running_progress state = repo.update_running_progress env state.id state.running_progress

  abbrev update_retry_result :
      ℤ → ℤ → ℤ → TaskExecutionStatus → ℤ → ℤ → NilParams → String → Act (Unit {0})
  update_retry_result id = repo.update_retry_result env id

  abbrev pub update_schedule_result :
      ℤ → TaskExecutionStatus → ℤ → ℤ → NilParams → String → Act (Unit {0})
  update_schedule_result id = repo.update_schedule_result env id

  -- releaseTask, which nothing calls: an error of the release is logged and dropped.
  abbrev release_task : String → Task → Act (Unit {0})
  release_task node_id task = on_result (tasks.release env task.id node_id) pure (λ e. pure tt)

  unfoldable pub send_completed_event : ExecutionState → TaskExecution → Act (Unit {0})
  send_completed_event state execution =
      if is_terminal_status state.status
      then produce (completed_event state.status execution)
      else pure tt

  -- The retry strategy's answer for the next retry of the execution.
  abbrev pub next_retry : RetryConfig → TaskExecution → Next
  next_retry c execution =
      (next_with_retries env.out_of_range (exponential (to_retry_component_config c))
        (int32 (int64 (execution.retry_count +ℤ pos 1)))).0

  abbrev pub write_retry : TaskExecution → ExecutionState → ℤ → Act (Unit {0})
  write_retry execution state duration = do
    moment ← now env
    nanos ← ask env.nanos
    end_time ← now env
    update_retry_result state.id (int64 (execution.retry_count +ℤ pos 1))
        (time_after moment nanos duration) state.status state.running_progress end_time
        execution.task.schedule_params state.executor_node_id

  -- A nil retry configuration is dereferenced: a panic.
  abbrev pub retry_with : TaskExecution → ExecutionState → Option RetryConfig → Act (Unit {0})
  retry_with execution state none = panics
  retry_with execution state (some c) =
      let (duration, should_retry) = next_retry c execution in
      if should_retry
      then write_retry execution state duration
      else raise execution_max_retries_exceeded

  unfoldable pub update_retry_state : TaskExecution → ExecutionState → Act (Unit {0})
  update_retry_state execution state = retry_with execution state execution.task.retry_config

  -- `errors.Is(err, errs.ErrExecutionMaxRetriesExceeded)`
  abbrev pub after_retry_error : ExecutionState → TaskExecution → Error → Act (Unit {0})
  after_retry_error state execution execution_max_retries_exceeded =
      send_completed_event state execution
  after_retry_error state execution e = raise e

  abbrev pub rescheduled : TaskExecution → ExecutionState → TaskExecution
  rescheduled execution state =
      if state.request_reschedule
      then merge_task_schedule_params execution state.reschedule_params
      else execution

  unfoldable pub update_schedule_state : TaskExecution → ExecutionState → Act (Unit {0})
  update_schedule_state execution state = do
    end_time ← now env
    update_schedule_result state.id state.status state.running_progress end_time
        execution.task.schedule_params state.executor_node_id

  -- The `switch` of UpdateState, by the reported status.
  unfoldable pub dispatch : TaskExecutionStatus → TaskExecution → ExecutionState → Act (Unit {0})
  dispatch running execution state =
      if is_running execution.status then update_running_progress state else set_running_state state
  dispatch failed_retryable execution state =
      on_result (update_retry_state execution state) pure (after_retry_error state execution)
  dispatch failed_rescheduled execution state =
      update_schedule_state (rescheduled execution state) state
  dispatch success execution state = send_completed_event state execution
  dispatch failed execution state = send_completed_event state execution
  dispatch unknown execution state = raise invalid_task_execution_status
  dispatch prepare execution state = raise invalid_task_execution_status
  dispatch no_status execution state = raise invalid_task_execution_status

  unfoldable pub update_state : ExecutionState → Act (Unit {0})
  update_state state = do
    execution ← on_result (find_by_id state.id) pure (λ e. raise execution_not_found)
    if is_terminal_status execution.status
        then raise invalid_task_execution_status
        else dispatch state.status execution state

  -- The errors of HandleReports, in the order of the reports; no error is the empty list.
  abbrev pub collect :
      Report → Result (Unit {0}) → List (ℤ × ℤ × Error) → Act (List (ℤ × ℤ × Error))
  collect r (ok _) errors = pure errors
  collect r (err e) errors =
      pure (errors ++ (r.execution_state.task_id, r.execution_state.id, e) ∷ [])
  collect r panic errors = panics

  unfoldable pub handle_from : List (ℤ × ℤ × Error) → List Report → Act (List (ℤ × ℤ × Error))
  handle_from errors [] w = (ok errors, w)
  handle_from errors (r ∷ reports) w =
      let (result, w') = update_state r.execution_state w in
      (collect r result errors >>= λ errors'. handle_from errors' reports) w'

  unfoldable pub handle_reports : List Report → Act (List (ℤ × ℤ × Error))
  unfolding handle_from
  handle_reports = handle_from []
