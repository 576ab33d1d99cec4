-- ===== src/Scheduler.antt =====
-- internal/service/scheduler/scheduler.go, internal/service/picker/random.go and the rounds of the
-- compensators of internal/compensator.
pub mod Rounds
pub mod Loops
pub mod Node
pub mod Crash
use ework_runner.Prelude.{
  ℕ, zero, suc, ◌+◌, ◌%◌, ℤ, String, Bool, true, false, Option, none, some, List, [], ◌∷◌,
  get_elem?, length, ◌==ˢ◌, if◌then◌else◌,
}
use ework_runner.Domain.Errors.{
  Error, no_executor_node, call_failed, no_grpc_config, interrupt_task_execution_failed,
}
use ework_runner.Domain.Task.{Task, GrpcConfig}
use ework_runner.Domain.Execution.{TaskExecution, ProtoState, execution_state_from_proto}
use ework_runner.Action.{Result, ok, err, panic, pure, raise, panics, on_result, ◌>>=◌, ◌>>◌}
use ework_runner.Env.{Env, Act, Routing, ask}
use ework_runner.Repository.Execution as executions
use ework_runner.Service.Task as tasks
use ework_runner.Service.Runner as runner
use ework_runner.Service.Runner.{no_routing, with_specific_node_id}
use ework_runner.Service.Execution.{update_state}

pub record Config : Type 0 where
  pub batch_size : ℤ
  pub preempted_timeout : ℤ  -- milliseconds

module _ (env : Env) where
  abbrev pick_of : Option (List String) → Act String
  pick_of none = raise call_failed
  pick_of (some []) = raise no_executor_node
  pick_of (some (s ∷ services)) = do
    idx ← ask (λ t. env.random t (length (s ∷ services)) % length (s ∷ services))
    elim (get_elem? (s ∷ services) idx) [ none ↦ panics | some id ↦ pure id ]

  -- RandomPicker.Pick; a task with no gRPC configuration has its nil pointer dereferenced.
  abbrev pick_for : Option GrpcConfig → Act String
  pick_for none = panics
  pick_for (some c) = do services ← ask (λ t. env.list_services t c.service_name); pick_of services

  unfoldable pub pick : Task → Act String
  pick t = pick_for t.grpc_config

  -- newContext
  unfoldable pub new_context : Task → Act Routing
  new_context t =
      on_result (pick t) (λ node. pure (with_specific_node_id no_routing node))
        (λ e. pure no_routing)

  -- The number of tasks that a round has started.
  unfoldable pub schedule_from : String → ℕ → List Task → Act ℕ
  schedule_from node successes [] w = (ok successes, w)
  schedule_from node successes (t ∷ rest) w =
      (do
        routing ← new_context t
        started ← on_result (runner.run env node routing t) (λ _. pure true) (λ e. pure false)
        schedule_from node (if started then suc successes else successes) rest)
        w

  -- One turn of scheduleLoop: an error of the query is logged, and the turn starts nothing.
  unfoldable pub schedule_round : String → Config → Act ℕ
  unfolding schedule_from
  schedule_round node c = do
    batch ←
        on_result (tasks.schedulable_tasks env c.preempted_timeout c.batch_size) pure (λ e. pure [])
    schedule_from node 0 batch

  -- One tick of renewLoop.
  unfoldable pub renew_round : String → Act (Unit {0})
  renew_round node = on_result (tasks.renew env node) pure (λ e. pure tt)
