-- ===== src/Tests/Samples.antt =====
-- A small world: a database that never fails, two tasks, two executions, and executors that answer.
use ework_runner.Prelude.{ℤ, pos, String, true, false, none, some, [], ◌∷◌, refl}
use ework_runner.Domain.Status.{
  recurring, one_time, TaskStatus, TaskType, active, preempted, TaskExecutionStatus, running,
  success, proto_running,
}
use ework_runner.Domain.Task.{RetryConfig, at}
use ework_runner.Domain.Execution.{ExecutionState}
use ework_runner.Rows.{TaskRow, ExecutionRow, NullString, null_string, no_grpc, no_http}
use ework_runner.Env.{Env, World}
use ework_runner.Schema.{EnvLaws, task_key, execution_key, stored_task, stored_execution}
use ework_runner.Tests.Memory.{memory, memory-Laws}

abbrev pub now_ms : ℤ
now_ms = pos 5000

-- Every answer is the same at all moments. Cron expressions fire a minute later, and the driver
-- refuses Go maps.
abbrev pub env : Env
env = record {
  clock = λ t. now_ms;
  task_table = memory task_key stored_task;
  execution_table = memory execution_key stored_execution;
  commits = λ t. true;
  delivers = λ t event. true;
  cron = λ expression. some (λ t. at (pos 65000));
  driver_map = λ m. none;
  nanos = λ t. 0;
  out_of_range = λ k. pos 0;
  format_int = λ n. "86400";
  execute = λ t routing request. some (
      some (record {
        id = request.eid;
        task_id = request.task_id;
        task_name = request.task_name;
        status = proto_running;
        running_progress = pos 0;
        request_reschedule = false;
        rescheduled_params = none;
        executor_node_id = "executor";
      }));
  interrupt = λ t service eid. some (false, none);
  http_post = λ t e. true;
  local_functions = λ name. none;
  list_services = λ t service. some ("executor" ∷ []);
  random = λ t n. 0;
}

pub env-EnvLaws : EnvLaws env
env-EnvLaws = record {
  tasks = memory-Laws task_key stored_task (λ k r. refl);
  executions = memory-Laws execution_key stored_execution (λ k r. refl);
}

-- The same with a driver that takes Go maps.
abbrev pub kind_env : Env
kind_env = record env { driver_map = λ m. some (record { val = m; valid = true }) }

pub kind_env-EnvLaws : EnvLaws kind_env
kind_env-EnvLaws = record {
  tasks = memory-Laws task_key stored_task (λ k r. refl);
  executions = memory-Laws execution_key stored_execution (λ k r. refl);
}

abbrev pub retry_thrice : RetryConfig
retry_thrice = record { max_retries = pos 3; initial_interval = pos 100; max_interval = pos 1000 }

abbrev pub task_row : ℤ → TaskType → TaskStatus → NullString → TaskRow
task_row id type status node = record {
  id = id;
  biz_id = pos 0;
  name = "backup";
  type = type;
  cron_expr = "@every 1m";
  grpc_config = record { val = no_grpc; valid = true };
  http_config = record { val = no_http; valid = false };
  retry_config = record { val = retry_thrice; valid = true };
  schedule_params = record { val = none; valid = false };
  max_execution_seconds = pos 86400;
  schedule_node_id = node;
  next_time = pos 4000;
  status = status;
  version = pos 7;
  ctime = pos 1000;
  utime = pos 1000;
}

abbrev pub held_by : String → NullString
held_by node = record { text = node; valid = true }

abbrev pub execution_row : ℤ → TaskExecutionStatus → ℤ → ExecutionRow
execution_row id status retries = record {
  id = id;
  task_id = pos 2;
  task_name = "backup";
  task_type = recurring;
  task_cron_expr = "@every 1m";
  task_grpc_config = record { val = no_grpc; valid = true };
  task_http_config = record { val = no_http; valid = false };
  task_retry_config = record { val = retry_thrice; valid = true };
  task_max_execution_seconds = pos 86400;
  task_version = pos 7;
  task_schedule_node_id = "a";
  task_schedule_params = record { val = none; valid = false };
  executor_node_id = null_string;
  deadline = pos 90000;
  stime = pos 4500;
  etime = pos 0;
  retry_count = retries;
  next_retry_time = pos 0;
  running_progress = pos 0;
  status = status;
  ctime = pos 4500;
  utime = pos 4500;
}

-- Task 1 is free; node a holds task 2; node a holds task 3, a one-time task.
abbrev pub free_task : TaskRow
free_task = task_row (pos 1) recurring active null_string

abbrev pub held_task : TaskRow
held_task = task_row (pos 2) recurring preempted (held_by "a")

abbrev pub last_task : TaskRow
last_task = task_row (pos 3) one_time preempted (held_by "a")

-- Execution 1 runs and has used up its retries; execution 2 has succeeded.
abbrev pub running_row : ExecutionRow
running_row = execution_row (pos 1) running (pos 3)

abbrev pub fresh_row : ExecutionRow
fresh_row = execution_row (pos 3) running (pos 0)

abbrev pub ended_row : ExecutionRow
ended_row = execution_row (pos 2) success (pos 0)

abbrev pub world : World
world = record {
  tasks = free_task ∷ held_task ∷ last_task ∷ [];
  executions = running_row ∷ ended_row ∷ fresh_row ∷ [];
  events = [];
  invocations = [];
  tick = 0;
}

abbrev pub report : ℤ → TaskExecutionStatus → ExecutionState
report id status = record {
  id = id;
  task_id = pos 2;
  task_name = "backup";
  status = status;
  running_progress = pos 50;
  request_reschedule = false;
  reschedule_params = none;
  executor_node_id = "executor";
}
