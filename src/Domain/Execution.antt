-- ===== src/Domain/Execution.antt =====
-- internal/domain/task_execution.go and report.go.
pub mod Merging
use ework_runner.Prelude.{
  ℤ, String, NilParams, Params, is_empty, entries, insert, merge, Option, none, some, Bool, false,
  List, [], if◌then◌else◌, pos,
}
use ework_runner.Domain.Status.{TaskExecutionStatus, no_status, ExecutionStatus, status_from_proto}
use ework_runner.Domain.Task.{Task, GrpcConfig}

pub record TaskExecution : Type 0 where
  pub id : ℤ
  pub deadline : ℤ
  pub executor_node_id : String
  pub start_time : ℤ
  pub end_time : ℤ
  pub retry_count : ℤ
  pub next_retry_time : ℤ
  pub running_progress : ℤ  -- int32
  pub status : TaskExecutionStatus
  pub ctime : ℤ
  pub utime : ℤ
  pub task : Task

pub record ExecutionState : Type 0 where
  pub id : ℤ
  pub task_id : ℤ
  pub task_name : String
  pub status : TaskExecutionStatus
  pub running_progress : ℤ  -- int32
  pub request_reschedule : Bool
  pub reschedule_params : NilParams
  pub executor_node_id : String

pub record Report : Type 0 where
  pub execution_state : ExecutionState

unfoldable pub merge_task_schedule_params : TaskExecution → NilParams → TaskExecution
merge_task_schedule_params te params =
    if is_empty params
    then te
    else if is_empty te.task.schedule_params
    then record te { task = record te.task { schedule_params = params } }
    else record te {
      task = record te.task {
        schedule_params = some (merge (entries te.task.schedule_params) (entries params));
      };
    }

-- The business parameters of a gRPC configuration; a nil pointer has none.
abbrev pub business_params : Option GrpcConfig → Params
business_params none = []
business_params (some c) = entries c.params

-- `format_int` is strconv.FormatInt in base 10.
unfoldable pub grpc_params : (ℤ → String) → TaskExecution → Params
grpc_params format_int te =
    insert "max_execution_seconds" (format_int te.task.max_execution_seconds)
      (merge (merge [] (business_params te.task.grpc_config)) (entries te.task.schedule_params))

-- The message of the executor protocol.
pub record ProtoState : Type 0 where
  pub id : ℤ
  pub task_id : ℤ
  pub task_name : String
  pub status : ExecutionStatus
  pub running_progress : ℤ
  pub request_reschedule : Bool
  pub rescheduled_params : NilParams
  pub executor_node_id : String

unfoldable pub execution_state_from_proto : Option ProtoState → ExecutionState
execution_state_from_proto none = record {
  id = pos 0;
  task_id = pos 0;
  task_name = "";
  status = no_status;
  running_progress = pos 0;
  request_reschedule = false;
  reschedule_params = none;
  executor_node_id = "";
}
execution_state_from_proto (some p) = record {
  id = p.id;
  task_id = p.task_id;
  task_name = p.task_name;
  status = status_from_proto p.status;
  running_progress = p.running_progress;
  request_reschedule = p.request_reschedule;
  reschedule_params = p.rescheduled_params;
  executor_node_id = p.executor_node_id;
}
