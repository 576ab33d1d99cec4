-- ===== src/Rows.antt =====
-- The rows of the two tables: the structs of internal/repository/dao, sqlx.JSONColumn and
-- sql.NullString.
use ework_runner.Prelude.{ℤ, pos, String, NilParams, Bool, false, none, ◌&&◌, ◌==ˢ◌, not}
use ework_runner.Domain.Status.{TaskStatus, TaskType, TaskExecutionStatus}
use ework_runner.Domain.Task.{GrpcConfig, HttpConfig, RetryConfig}

pub record JsonColumn (A : Type 0) : Type 0 where
  pub val : A
  pub valid : Bool

-- `text` is the field String of the Go struct.
pub record NullString : Type 0 where
  pub text : String
  pub valid : Bool

abbrev pub null_string : NullString
null_string = record { text = ""; valid = false }

-- sql.NullString{String: s, Valid: s != ""}
abbrev pub nullable : String → NullString
nullable s = record { text = s; valid = not (s ==ˢ "") }

-- column = 'node' in SQL, which NULL never passes
unfoldable pub column_is : NullString → String → Bool
column_is c node = c.valid && c.text ==ˢ node

pub record TaskRow : Type 0 where
  pub id : ℤ
  pub biz_id : ℤ
  pub name : String
  pub type : TaskType
  pub cron_expr : String
  pub grpc_config : JsonColumn GrpcConfig
  pub http_config : JsonColumn HttpConfig
  pub retry_config : JsonColumn RetryConfig
  pub schedule_params : JsonColumn NilParams
  pub max_execution_seconds : ℤ
  pub schedule_node_id : NullString
  pub next_time : ℤ
  pub status : TaskStatus
  pub version : ℤ
  pub ctime : ℤ
  pub utime : ℤ

pub record ExecutionRow : Type 0 where
  pub id : ℤ
  pub task_id : ℤ
  pub task_name : String
  pub task_type : TaskType
  pub task_cron_expr : String
  pub task_grpc_config : JsonColumn GrpcConfig
  pub task_http_config : JsonColumn HttpConfig
  pub task_retry_config : JsonColumn RetryConfig
  pub task_max_execution_seconds : ℤ
  pub task_version : ℤ
  pub task_schedule_node_id : String
  pub task_schedule_params : JsonColumn NilParams
  pub executor_node_id : NullString
  pub deadline : ℤ
  pub stime : ℤ
  pub etime : ℤ
  pub retry_count : ℤ
  pub next_retry_time : ℤ
  pub running_progress : ℤ
  pub status : TaskExecutionStatus
  pub ctime : ℤ
  pub utime : ℤ

-- The zero structs that an invalid column holds.
abbrev pub no_grpc : GrpcConfig
no_grpc = record { service_name = ""; handler_name = ""; params = none }

abbrev pub no_http : HttpConfig
no_http = record { endpoint = ""; params = none }

abbrev pub no_retry : RetryConfig
no_retry = record { max_retries = pos 0; initial_interval = pos 0; max_interval = pos 0 }
