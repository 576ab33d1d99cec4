-- ===== src/Repository/Execution.antt =====
-- internal/repository/task_execution.go
use ework_runner.Prelude.{ℤ, pos, ◌==ℤ◌, String, NilParams, List, map, if◌then◌else◌}
use ework_runner.Domain.Errors.{task_id_missing}
use ework_runner.Domain.Status.{TaskExecutionStatus, no_task_status}
use ework_runner.Domain.Task.{Task}
use ework_runner.Domain.Execution.{TaskExecution}
use ework_runner.Action.{pure, raise, ◌>>=◌}
use ework_runner.Rows.{ExecutionRow, nullable, no_grpc, no_http, no_retry}
use ework_runner.Env.{Env, Act}
use ework_runner.Dao.Task.{json_params}
use ework_runner.Dao.Execution as dao
use ework_runner.Repository.{to_column, from_column, params_from}
use ework_runner.Repository.Task as tasks

unfoldable pub to_entity : TaskExecution → ExecutionRow
to_entity e = record {
  id = e.id;
  task_id = e.task.id;
  task_name = e.task.name;
  task_type = e.task.type;
  task_cron_expr = e.task.cron_expr;
  task_grpc_config = to_column no_grpc e.task.grpc_config;
  task_http_config = to_column no_http e.task.http_config;
  task_retry_config = to_column no_retry e.task.retry_config;
  task_max_execution_seconds = e.task.max_execution_seconds;
  task_version = e.task.version;
  task_schedule_node_id = e.task.schedule_node_id;
  task_schedule_params = json_params e.task.schedule_params;
  executor_node_id = nullable e.executor_node_id;
  deadline = e.deadline;
  stime = e.start_time;
  etime = e.end_time;
  retry_count = e.retry_count;
  next_retry_time = e.next_retry_time;
  running_progress = e.running_progress;
  status = e.status;
  ctime = e.ctime;
  utime = e.utime;
}

unfoldable pub to_domain : ExecutionRow → TaskExecution
to_domain r = record {
  id = r.id;
  deadline = r.deadline;
  executor_node_id = if r.executor_node_id.valid then r.executor_node_id.text else "";
  start_time = r.stime;
  end_time = r.etime;
  retry_count = r.retry_count;
  next_retry_time = r.next_retry_time;
  running_progress = r.running_progress;
  status = r.status;
  ctime = r.ctime;
  utime = r.utime;
  task = record {
    id = r.task_id;
    name = r.task_name;
    type = r.task_type;
    cron_expr = r.task_cron_expr;
    grpc_config = from_column r.task_grpc_config;
    http_config = from_column r.task_http_config;
    retry_config = from_column r.task_retry_config;
    max_execution_seconds = r.task_max_execution_seconds;
    schedule_node_id = r.task_schedule_node_id;
    schedule_params = params_from r.task_schedule_params.valid r.task_schedule_params.val;
    next_time = pos 0;
    status = no_task_status;
    version = r.task_version;
    ctime = pos 0;
    utime = pos 0;
  };
}

module _ (env : Env) where
  -- The end of Create, with the task as it was read.
  abbrev pub create_of : TaskExecution → Task → Act TaskExecution
  create_of e complete_task = do
    created ← dao.create env (to_entity (record e { task = complete_task }))
    pure (to_domain created)

  unfoldable pub create : TaskExecution → Act TaskExecution
  create e =
      if e.task.id ==ℤ pos 0
      then raise task_id_missing
      else do complete_task ← tasks.get_by_id env e.task.id; create_of e complete_task

  unfoldable pub update_status : ℤ → TaskExecutionStatus → Act (Unit {0})
  update_status id status = dao.update_status env id status

  unfoldable pub get_by_id : ℤ → Act TaskExecution
  get_by_id id = do r ← dao.get_by_id env id; pure (to_domain r)

  unfoldable pub find_retryable_executions : ℤ → Act (List TaskExecution)
  find_retryable_executions limit = do
    rows ← dao.find_retryable_executions env limit
    pure (map to_domain rows)

  unfoldable pub find_reschedulable_executions : ℤ → Act (List TaskExecution)
  find_reschedulable_executions limit = do
    rows ← dao.find_reschedulable_executions env limit
    pure (map to_domain rows)

  unfoldable pub find_timeout_executions : ℤ → Act (List TaskExecution)
  find_timeout_executions limit = do
    rows ← dao.find_timeout_executions env limit
    pure (map to_domain rows)

  unfoldable pub update_retry_result :
      ℤ → ℤ → ℤ → TaskExecutionStatus → ℤ → ℤ → NilParams → String → Act (Unit {0})
  update_retry_result = dao.update_retry_result env

  unfoldable pub set_running_state : ℤ → ℤ → String → Act (Unit {0})
  set_running_state = dao.set_running_state env

  unfoldable pub update_running_progress : ℤ → ℤ → Act (Unit {0})
  update_running_progress = dao.update_progress env

  unfoldable pub update_schedule_result :
      ℤ → TaskExecutionStatus → ℤ → ℤ → NilParams → String → Act (Unit {0})
  update_schedule_result = dao.update_schedule_result env

  unfoldable pub find_by_task_id : ℤ → Act (List TaskExecution)
  find_by_task_id task_id = do rows ← dao.find_by_task_id env task_id; pure (map to_domain rows)
