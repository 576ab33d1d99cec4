-- ===== src/Domain/Task.antt =====
-- internal/domain/task.go. A nil pointer is `none`; `Time` is Go's time.Time to the millisecond.
use ework_runner.Prelude.{
  ℤ, pos, ◌*ℤ◌, int64, String, NilParams, is_empty, entries, merge, Option, none, some, ◌&&◌, [],
  ◌==ˢ◌, if◌then◌else◌,
}
use ework_runner.Domain.Status.{TaskStatus, TaskType, is_one_time, is_inactive}

pub record GrpcConfig : Type 0 where
  pub service_name : String
  pub handler_name : String
  pub params : NilParams

pub record HttpConfig : Type 0 where
  pub endpoint : String
  pub params : NilParams

pub record RetryConfig : Type 0 where
  pub max_retries : ℤ  -- int32
  pub initial_interval : ℤ  -- int64, milliseconds
  pub max_interval : ℤ  -- int64, milliseconds

pub record Task : Type 0 where
  pub id : ℤ
  pub name : String
  pub type : TaskType
  pub cron_expr : String
  pub grpc_config : Option GrpcConfig
  pub http_config : Option HttpConfig
  pub retry_config : Option RetryConfig
  pub max_execution_seconds : ℤ
  pub schedule_node_id : String
  pub schedule_params : NilParams
  pub next_time : ℤ
  pub status : TaskStatus
  pub version : ℤ
  pub ctime : ℤ
  pub utime : ℤ

pub data Time : Type 0 where
  zero_time : Time
  at : ℤ → Time

-- What the cron library makes of an expression: `none` if it does not parse, and else the next
-- time after a given one, which is the zero time if there is none.
abbrev pub Cron : Type 0
Cron = String → Option (ℤ → Time)

-- `none` is the parser's error.
unfoldable pub calculate_next_time : Cron → ℤ → Task → Option Time
calculate_next_time cron now t =
    if is_one_time t.type && is_inactive t.status
    then some zero_time
    else if t.cron_expr ==ˢ ""
    then some zero_time
    else elim (cron t.cron_expr) [ none ↦ none | some next ↦ some (next now) ]

unfoldable pub update_schedule_params : Task → NilParams → Task
update_schedule_params t none = t
update_schedule_params t (some params) =
    if is_empty (some params)
    then record t { schedule_params = some [] }
    else record t { schedule_params = some (merge (entries t.schedule_params) params) }

pub record ExponentialBackoffConfig : Type 0 where
  pub initial_interval : ℤ  -- time.Duration, nanoseconds
  pub max_interval : ℤ  -- time.Duration, nanoseconds
  pub max_retries : ℤ

-- time.Millisecond, in nanoseconds
abbrev pub millisecond : ℤ
millisecond = pos 1_000_000

unfoldable pub to_retry_component_config : RetryConfig → ExponentialBackoffConfig
to_retry_component_config r = record {
  initial_interval = int64 (r.initial_interval *ℤ millisecond);
  max_interval = int64 (r.max_interval *ℤ millisecond);
  max_retries = r.max_retries;
}
