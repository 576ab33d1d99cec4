-- ===== src/Schema.antt =====
-- What an INSERT stores, by the `default:` tags of the structs of internal/repository/dao, and the
-- behaviour that the DAOs rely on, for both tables.
use ework_runner.Prelude.{ℤ, pos, ◌==ℤ◌, ◌==ˢ◌, if◌then◌else◌}
use ework_runner.Domain.Status.{
  TaskStatus, active, no_task_status, TaskType, recurring, unlisted, TaskExecutionStatus, prepare,
  no_status,
}
use ework_runner.Database.{Laws}
use ework_runner.Rows.{TaskRow, ExecutionRow}
use ework_runner.Env.{Env}

abbrev or_default : ℤ → ℤ → ℤ
or_default n d = if n ==ℤ pos 0 then d else n

abbrev type_or_default : TaskType → TaskType
type_or_default (unlisted s) = if s ==ˢ "" then recurring else unlisted s
type_or_default t = t

abbrev status_or_default : TaskStatus → TaskStatus
status_or_default no_task_status = active
status_or_default s = s

abbrev execution_status_or_default : TaskExecutionStatus → TaskExecutionStatus
execution_status_or_default no_status = prepare
execution_status_or_default s = s

abbrev pub stored_task : ℤ → TaskRow → TaskRow
stored_task k r = record r {
  id = k;
  type = type_or_default r.type;
  max_execution_seconds = or_default r.max_execution_seconds (pos 86400);
  status = status_or_default r.status;
  version = or_default r.version (pos 1);
}

abbrev pub stored_execution : ℤ → ExecutionRow → ExecutionRow
stored_execution k r = record r {
  id = k;
  task_type = type_or_default r.task_type;
  task_max_execution_seconds = or_default r.task_max_execution_seconds (pos 86400);
  status = execution_status_or_default r.status;
}

abbrev pub task_key : TaskRow → ℤ
task_key r = r.id

abbrev pub execution_key : ExecutionRow → ℤ
execution_key r = r.id

pub record EnvLaws (env : Env) : Type 0 where
  pub tasks : Laws task_key stored_task env.task_table
  pub executions : Laws execution_key stored_execution env.execution_table
