-- ===== src/Tests/Nodes.antt =====
-- The picker, an executor, the retry strategies, the parameters and the rows, on small inputs.
use ework_runner.Prelude.{
  ℕ, int32, int64, ◌*ℤ◌, ◌-ℤ◌, pos, ◌≤ℤ◌, ◌<ℤ◌, ◌==ˢ◌, ◌≡◌, refl, true, false, none, some, [], ◌∷◌,
  lookup, entries, arith, if◌then◌else◌,
}
use ework_runner.Domain.Status.{recurring, active, prepare}
use ework_runner.Domain.Task.{Task, ExponentialBackoffConfig}
use ework_runner.Domain.Execution.{TaskExecution, grpc_params, business_params}
use ework_runner.Domain.Execution.Merging.{first_of, lookup-grpc_params}
use ework_runner.Env.{Routing, ExecuteRequest}
use ework_runner.Balancer.{RoutingPicker, pick}
use ework_runner.Balancer.Picks.{IsConnOf, pick_excluded_node}
use ework_runner.Sdk.{Executor, execute, query}
use ework_runner.Sdk.Once.{interrupts, happen_all, execute_once}
use ework_runner.Retry.{
  ExponentialBackoff, FixedIntervalConfig, next_with_retries, interval_at, power_of_two,
}
use ework_runner.Retry.Backoff.{wait_bounds, wait_doubles, wait_wraps}
use ework_runner.Repository.Task as tasks
use ework_runner.Repository.RoundTrip.{task_round_trip}

abbrev picker : RoutingPicker ℕ
picker = record { sub_conns = 10 ∷ 20 ∷ []; node_ids = "a" ∷ "b" ∷ []; next = 5 }

abbrev to_b : Routing
to_b = record { specific_node_id = some "b"; excluded_node_id = none }

abbrev not_a : Routing
not_a = record { specific_node_id = none; excluded_node_id = some "a" }

pick_excluded_node_example : IsConnOf picker (λ id. (id ==ˢ "a") ≡ false) (pick not_a picker).0
pick_excluded_node_example = pick_excluded_node not_a picker "a" 1 "b" refl refl refl refl refl

abbrev executor : Executor
executor = record {
  service_id = "executor";
  states = λ k. none;
  cancels = λ k. none;
  cancelled = λ c. false;
  jobs = [];
  reported = [];
}

abbrev request : ExecuteRequest
request = record {
  service_name = "backups";
  eid = pos 1;
  task_id = pos 2;
  task_name = "backup";
  task_handler_name = "run";
  params = [];
}

execute_once_example :
    let later = happen_all (interrupts (pos 1) ∷ []) (execute request executor).1 in
    execute request later ≡ (query (pos 1) later, later)
execute_once_example = execute_once request request (interrupts (pos 1) ∷ []) executor refl

-- 100 ms, doubled up to 1000 ms, three times at most.
abbrev backoff : ExponentialBackoff
backoff = record {
  initial_interval = pos 100_000_000;
  max_interval = pos 1_000_000_000;
  max_retries = pos 3;
  retries = pos 0;
  max_interval_reached = false;
}

second_granted : (next_with_retries (λ k. pos 0) backoff (pos 2)).0.1 ≡ true
unfolding next_with_retries interval_at int64 ◌*ℤ◌ power_of_two int32 ◌-ℤ◌
second_granted = refl

wait_bounds_example :
    let wait = (next_with_retries (λ k. pos 0) backoff (pos 2)).0.0 in
    (pos 0 <ℤ wait) × (wait ≤ℤ pos 1_000_000_000)
wait_bounds_example = wait_bounds (λ k. pos 0) backoff (pos 2) (omega arith) second_granted

wait_doubles_example : (next_with_retries (λ k. pos 0) backoff (pos 2)).0 ≡ (pos 200_000_000, true)
wait_doubles_example =
    wait_doubles (λ k. pos 0) backoff 1 100_000_000 1_000_000_000 refl refl refl (omega arith)
      (omega arith) (omega arith) refl

-- 5 * 2^62 leaves 2^62 modulo 2^64, which the maximal interval admits.
abbrev wide : ExponentialBackoff
wide = record {
  initial_interval = pos 5;
  max_interval = pos 0x5000000000000000;
  max_retries = pos 100;
  retries = pos 0;
  max_interval_reached = false;
}

wait_wraps_example :
    (next_with_retries (λ k. pos 0) wide (pos 63)).0 ≡ (pos 0x4000000000000000, true)
wait_wraps_example =
    wait_wraps (λ k. pos 0) wide 62 5 0x5000000000000000 refl refl refl (omega arith) (omega arith)
      (omega arith) (omega arith) (omega arith) refl

abbrev limits : ExponentialBackoffConfig
limits = record { initial_interval = pos 5; max_interval = pos 50; max_retries = pos 3 }

abbrev steady : FixedIntervalConfig
steady = record { max_retries = pos 3; interval = pos 7 }

abbrev task : Task
task = record {
  id = pos 2;
  name = "backup";
  type = recurring;
  cron_expr = "@every 1m";
  grpc_config = some (record {
    service_name = "backups";
    handler_name = "run";
    params = some (("mode", "full") ∷ ("bucket", "x") ∷ []);
  });
  http_config = none;
  retry_config = none;
  max_execution_seconds = pos 60;
  schedule_node_id = "a";
  schedule_params = some (("mode", "quick") ∷ []);
  next_time = pos 4000;
  status = active;
  version = pos 7;
  ctime = pos 1000;
  utime = pos 1000;
}

abbrev execution : TaskExecution
execution = record {
  id = pos 1;
  deadline = pos 0;
  executor_node_id = "executor";
  start_time = pos 4500;
  end_time = pos 0;
  retry_count = pos 0;
  next_retry_time = pos 0;
  running_progress = pos 0;
  status = prepare;
  ctime = pos 0;
  utime = pos 0;
  task = task;
}

task_round_trip_example : tasks.to_domain (tasks.to_entity task) ≡ task
task_round_trip_example = task_round_trip task

lookup-grpc_params_example : lookup "mode" (grpc_params (λ n. "60") execution) ≡ (
    if "max_execution_seconds" ==ˢ "mode"
    then some "60"
    else first_of
        (lookup "mode" (entries task.schedule_params))
        (lookup "mode" (business_params task.grpc_config)))
lookup-grpc_params_example = lookup-grpc_params (λ n. "60") execution "mode"
