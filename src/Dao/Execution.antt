-- ===== src/Dao/Execution.antt =====
-- internal/repository/dao/task_execution.go
pub mod Frames
pub mod Outcomes
use ework_runner.Prelude.{
  ℤ, pos, ◌+ℤ◌, ◌-ℤ◌, ◌*ℤ◌, negsuc, ◌==ℤ◌, leb_ℤ, int64, String, NilParams, Option, none, some,
  Bool, true, false, ◌&&◌, ◌||◌, List, [], ◌∷◌,
}
use ework_runner.Domain.Errors.{
  Error, database_failed, execution_not_found, set_execution_state_running_failed,
  update_execution_status_failed, update_execution_status_and_end_time_failed,
  update_execution_running_progress_failed, update_execution_retry_result_failed,
}
use ework_runner.Domain.Status.{
  TaskExecutionStatus, running, is_prepare, is_running, is_failed_retryable, is_failed_rescheduled,
}
use ework_runner.Action.{pure, raise, ◌>>=◌, ◌>>◌}
use ework_runner.Rows.{ExecutionRow, JsonColumn, nullable}
use ework_runner.Env.{
  Env, Act, now, update_executions, first_execution, select_executions, insert_execution, or_error,
  affected, transaction,
}
use ework_runner.Dao.Task.{json_params}

abbrev pub has_id : ℤ → ExecutionRow → Bool
has_id id r = r.id ==ℤ id

-- status = PREPARE OR status = FAILED_RETRYABLE OR status = FAILED_RESCHEDULED
abbrev pub can_start : TaskExecutionStatus → Bool
can_start s = is_prepare s || is_failed_retryable s || is_failed_rescheduled s

-- now + TaskMaxExecutionSeconds * milliseconds, in int64
unfoldable pub deadline_at : ℤ → ℤ → ℤ
deadline_at t max_execution_seconds = int64 (t +ℤ max_execution_seconds *ℤ pos 1000)

-- The columns that UpdateScheduleResult assigns.
abbrev pub schedule_result :
    TaskExecutionStatus → ℤ → ℤ → NilParams → String → ℤ → ExecutionRow → ExecutionRow
schedule_result status progress end_time params node t r = record r {
  status = status;
  running_progress = progress;
  etime = end_time;
  task_schedule_params = json_params params;
  executor_node_id = nullable node;
  utime = t;
}

abbrev pub retry_result :
    ℤ
    → ℤ
    → TaskExecutionStatus
    → ℤ
    → ℤ
    → JsonColumn NilParams
    → String
    → ℤ
    → ExecutionRow
    → ExecutionRow
retry_result count next status progress end_time column node t r = record r {
  retry_count = count;
  next_retry_time = next;
  status = status;
  running_progress = progress;
  etime = end_time;
  task_schedule_params = column;
  executor_node_id = nullable node;
  utime = t;
}

abbrev pub started : ℤ → String → ℤ → ℤ → ExecutionRow → ExecutionRow
started progress node t deadline r = record r {
  status = running;
  running_progress = progress;
  stime = t;
  deadline = deadline;
  utime = t;
  executor_node_id = nullable node;
}

-- A driver that refuses an argument fails the statement before it is sent.
abbrev or_refused : Option (JsonColumn NilParams) → Act (JsonColumn NilParams)
or_refused none = raise update_execution_retry_result_failed
or_refused (some c) = pure c

module _ (env : Env) where
  unfoldable pub create : ExecutionRow → Act ExecutionRow
  create r = do
    t ← now env
    reply ←
        insert_execution env
          (record r { utime = t; ctime = t; deadline = deadline_at t r.task_max_execution_seconds })
    or_error database_failed reply

  unfoldable pub get_by_id : ℤ → Act ExecutionRow
  get_by_id id = do reply ← first_execution env (has_id id); or_error execution_not_found reply

  unfoldable pub update_status : ℤ → TaskExecutionStatus → Act (Unit {0})
  update_status id status = do
    t ← now env
    reply ← update_executions env (has_id id) (λ r. record r { status = status; utime = t })
    affected update_execution_status_failed update_execution_status_failed reply

  -- No ORDER BY: the engine is asked for no particular order.
  unfoldable pub find_retryable_executions : ℤ → Act (List ExecutionRow)
  find_retryable_executions limit = do
    t ← now env
    reply ←
        select_executions env
          (λ r.
            is_failed_retryable r.status && leb_ℤ r.next_retry_time t && leb_ℤ r.next_retry_time t)
          (λ r. pos 0) limit
    or_error database_failed reply

  unfoldable pub update_retry_result :
      ℤ → ℤ → ℤ → TaskExecutionStatus → ℤ → ℤ → NilParams → String → Act (Unit {0})
  update_retry_result id count next status progress end_time params node = do
    t ← now env
    column ← or_refused (env.driver_map params)
    reply ←
        update_executions env (has_id id)
          (retry_result count next status progress end_time column node t)
    affected update_execution_retry_result_failed update_execution_retry_result_failed reply

  unfoldable pub set_running_state : ℤ → ℤ → String → Act (Unit {0})
  set_running_state id progress node = do
    t ← now env
    reply ← first_execution env (has_id id)
    execution ← or_error set_execution_state_running_failed reply
    let deadline = deadline_at t execution.task_max_execution_seconds
    written ←
        update_executions env (λ r. r.id ==ℤ id && can_start r.status)
          (started progress node t deadline)
    affected set_execution_state_running_failed set_execution_state_running_failed written

  unfoldable pub update_progress : ℤ → ℤ → Act (Unit {0})
  update_progress id progress = do
    t ← now env
    reply ←
        update_executions env (λ r. r.id ==ℤ id && is_running r.status)
          (λ r. record r { running_progress = progress; utime = t })
    affected update_execution_running_progress_failed update_execution_running_progress_failed reply

  unfoldable pub update_schedule_result :
      ℤ → TaskExecutionStatus → ℤ → ℤ → NilParams → String → Act (Unit {0})
  update_schedule_result id status progress end_time params node = do
    t ← now env
    reply ←
        update_executions env (has_id id) (schedule_result status progress end_time params node t)
    affected update_execution_status_and_end_time_failed update_execution_status_and_end_time_failed
        reply

  unfoldable pub find_reschedulable_executions : ℤ → Act (List ExecutionRow)
  find_reschedulable_executions limit = do
    reply ← select_executions env (λ r. is_failed_rescheduled r.status) (λ r. r.utime) limit
    or_error database_failed reply

  unfoldable pub find_timeout_executions : ℤ → Act (List ExecutionRow)
  find_timeout_executions limit = do
    t ← now env
    reply ←
        select_executions env (λ r. leb_ℤ r.deadline t && is_running r.status) (λ r. r.deadline)
          limit
    or_error database_failed reply

  -- One INSERT of all rows, in GORM's own transaction; the deadline stays as it is given.
  unfoldable pub create_all : ℤ → List ExecutionRow → Act (List ExecutionRow)
  create_all t [] = pure []
  create_all t (r ∷ rows) = do
    reply ← insert_execution env (record r { utime = t; ctime = t })
    created ← or_error database_failed reply
    others ← create_all t rows
    pure (created ∷ others)

  unfoldable pub batch_create : List ExecutionRow → Act (List ExecutionRow)
  batch_create rows = do t ← now env; transaction env (create_all t rows)

  -- ORDER BY ctime DESC, without a limit
  unfoldable pub find_by_task_id : ℤ → Act (List ExecutionRow)
  find_by_task_id task_id = do
    reply ← select_executions env (λ r. r.task_id ==ℤ task_id) (λ r. pos 0 -ℤ r.ctime) (negsuc 0)
    or_error database_failed reply
