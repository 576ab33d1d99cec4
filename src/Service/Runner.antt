-- ===== src/Service/Runner.antt =====
-- internal/service/runner/normal_task.go
pub mod Once
use ework_runner.Prelude.{
  ℤ, pos, String, Option, none, some, List, [], ◌∷◌, ◌++◌, ◌==ˢ◌, if◌then◌else◌,
}
use ework_runner.Domain.Errors.{Error}
use ework_runner.Domain.Status.{prepare}
use ework_runner.Domain.Task.{Task}
use ework_runner.Domain.Execution.{TaskExecution, ExecutionState}
use ework_runner.Action.{Result, ok, err, panic, pure, raise, on_result, ◌>>=◌, ◌>>◌}
use ework_runner.Env.{Env, World, Act, Routing, Invocation, now}
use ework_runner.Service.Execution as executions
use ework_runner.Service.Task as tasks
use ework_runner.Service.Execution.{update_state}
use ework_runner.Invoker as invoker

abbrev pub no_routing : Routing
no_routing = record { specific_node_id = none; excluded_node_id = none }

-- balancer.WithSpecificNodeID and WithExcludedNodeID: an empty id changes nothing.
unfoldable pub with_specific_node_id : Routing → String → Routing
with_specific_node_id r node = if node ==ˢ "" then r else record r { specific_node_id = some node }

unfoldable pub with_excluded_node_id : Routing → String → Routing
with_excluded_node_id r node = if node ==ˢ "" then r else record r { excluded_node_id = some node }

-- `go func() { … }()`: the goroutine runs later.
abbrev pub spawn : Routing → TaskExecution → Act (Unit {0})
spawn routing execution w = (
  ok tt,
  record w {
    invocations = w.invocations ++ (record { routing = routing; execution = execution }) ∷ [];
  },
)

-- A new execution of a task, as the runner writes it down.
abbrev pub new_execution : Task → ℤ → TaskExecution
new_execution task start = record {
  id = pos 0;
  deadline = pos 0;
  executor_node_id = "";
  start_time = start;
  end_time = pos 0;
  retry_count = pos 0;
  next_retry_time = pos 0;
  running_progress = pos 0;
  status = prepare;
  ctime = pos 0;
  utime = pos 0;
  task = task;
}

module _ (env : Env) (node : String) where
  -- An error of the release is logged and dropped.
  unfoldable pub release_task : Task → Act (Unit {0})
  release_task task = on_result (tasks.release env task.id node) pure (λ e. pure tt)

  unfoldable pub handle_normal_task : Routing → Task → Act (Unit {0})
  unfolding release_task
  handle_normal_task routing task = do
    start ← now env
    on_result (executions.create env (new_execution task start)) (spawn routing)
        (λ e. release_task task >> raise e)

  unfoldable pub run : Routing → Task → Act (Unit {0})
  unfolding handle_normal_task
  run routing task = do
    acquired_task ← tasks.acquire env task.id task.version node
    handle_normal_task routing acquired_task

  unfoldable pub retry : TaskExecution → Act (Unit {0})
  retry execution = spawn (with_excluded_node_id no_routing execution.executor_node_id) execution

  unfoldable pub reschedule : TaskExecution → Act (Unit {0})
  reschedule execution =
      spawn (with_specific_node_id no_routing execution.executor_node_id) execution

  -- The body of the three goroutines: call the executor, hand its answer to the service. Errors are
  -- logged.
  unfoldable pub run_invocation : Invocation → Act (Unit {0})
  run_invocation i =
      on_result (invoker.run env i.routing i.execution)
        (λ state. on_result (update_state env state) pure (λ e. pure tt)) (λ e. pure tt)
