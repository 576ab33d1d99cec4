-- ===== src/Web.antt =====
-- internal/web/task: the HTTP interface that creates tasks.
pub mod Created
pub mod Policy
use ework_runner.Prelude.{ℤ, pos, String, NilParams, Option, none, some, ◌==ˢ◌, if◌then◌else◌}
use ework_runner.Domain.Errors.{Error}
use ework_runner.Domain.Status.{TaskType, recurring, one_time, unlisted, active}
use ework_runner.Domain.Task.{Task, GrpcConfig, HttpConfig, RetryConfig}
use ework_runner.Action.{Result, ok, err, panic, on_result, pure, raise}
use ework_runner.Env.{Env, Act}
use ework_runner.Service.Task as tasks

-- A JSON object that is missing is a nil pointer.
pub record CreateTaskReq : Type 0 where
  pub name : String
  pub type : String
  pub cron_expr : String
  pub grpc_config : Option GrpcConfig
  pub http_config : Option HttpConfig
  pub retry_config : Option RetryConfig
  pub max_execution_seconds : ℤ
  pub schedule_params : NilParams

-- ginx.Result, with the error that is handed to the framework.
pub record Answer : Type 0 where
  pub code : ℤ
  pub msg : String
  pub created : Option Task
  pub error : Option Error

abbrev pub system_error_result : Error → Answer
system_error_result e = record { code = pos 502001; msg = "系统错误"; created = none; error = some e }

-- domain.TaskType(s)
abbrev pub task_type : String → TaskType
task_type s =
    if s ==ˢ "RECURRING" then recurring else if s ==ˢ "ONE_TIME" then one_time else unlisted s

-- The configurations are read through their pointers.
abbrev pub with_configs :
    CreateTaskReq → Option GrpcConfig → Option HttpConfig → Option RetryConfig → Result Task
with_configs req (some grpc) (some http) (some retry) = ok (record {
  id = pos 0;
  name = req.name;
  type = task_type req.type;
  cron_expr = req.cron_expr;
  grpc_config = some grpc;
  http_config = some http;
  retry_config = some retry;
  max_execution_seconds = req.max_execution_seconds;
  schedule_node_id = "";
  schedule_params = req.schedule_params;
  next_time = pos 0;
  status = active;
  version = pos 1;
  ctime = pos 0;
  utime = pos 0;
})
with_configs req (some grpc) (some http) none = panic
with_configs req (some grpc) none retry = panic
with_configs req none http retry = panic

unfoldable pub to_domain : CreateTaskReq → Result Task
to_domain req = with_configs req req.grpc_config req.http_config req.retry_config

module _ (env : Env) where
  abbrev pub create_task : Result Task → Act Answer
  create_task panic w = (panic, w)
  create_task (err e) w = (err e, w)
  create_task (ok t) w =
      on_result (tasks.create env t)
        (λ created.
          pure (record { code = pos 0; msg = "success"; created = some created; error = none }))
        (λ e. pure (system_error_result e)) w

  unfoldable pub create : CreateTaskReq → Act Answer
  create req = create_task (to_domain req)
