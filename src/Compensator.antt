-- ===== src/Compensator.antt =====
-- internal/compensator: one round of each compensator.
pub mod Loops
pub mod Rounds
use ework_runner.Prelude.{ℤ, String, Bool, Option, none, some, List, [], ◌∷◌, if◌then◌else◌}
use ework_runner.Domain.Errors.{Error, call_failed, no_grpc_config, interrupt_task_execution_failed}
use ework_runner.Domain.Task.{GrpcConfig}
use ework_runner.Domain.Execution.{TaskExecution, ProtoState, execution_state_from_proto}
use ework_runner.Action.{Result, ok, err, panic, pure, raise, on_result, ◌>>=◌, ◌>>◌}
use ework_runner.Env.{Env, Act, ask}
use ework_runner.Service.Execution as executions
use ework_runner.Service.Runner as runner
use ework_runner.Service.Execution.{update_state}

-- An error of one execution is logged, and the round goes on with the next.
unfoldable pub for_each : (TaskExecution → Act (Unit {0})) → List TaskExecution → Act (Unit {0})
for_each m [] w = (ok tt, w)
for_each m (e ∷ rest) w = (on_result (m e) pure (λ x. pure tt) >> for_each m rest) w

module _ (env : Env) where
  unfoldable pub retry_round : String → ℤ → Act (Unit {0})
  retry_round node batch_size = do
    found ← executions.find_retryable_executions env batch_size
    for_each (runner.retry env node) found

  unfoldable pub reschedule_round : String → ℤ → Act (Unit {0})
  reschedule_round node batch_size = do
    found ← executions.find_reschedulable_executions env batch_size
    for_each (runner.reschedule env node) found

  -- The answer of an executor to an interrupt request.
  abbrev pub interrupted : Option (Bool × Option ProtoState) → Act (Unit {0})
  interrupted none = raise call_failed
  interrupted (some (success, state)) =
      if success
      then update_state env (execution_state_from_proto state)
      else raise interrupt_task_execution_failed

  abbrev pub interrupt_at : TaskExecution → Option GrpcConfig → Act (Unit {0})
  interrupt_at execution none = raise no_grpc_config
  interrupt_at execution (some c) = do
    reply ← ask (λ t. env.interrupt t c.service_name execution.id)
    interrupted reply

  unfoldable pub interrupt_task_execution : TaskExecution → Act (Unit {0})
  interrupt_task_execution execution = interrupt_at execution execution.task.grpc_config

  unfoldable pub interrupt_round : ℤ → Act (Unit {0})
  interrupt_round batch_size = do
    found ← executions.find_timeout_executions env batch_size
    for_each interrupt_task_execution found
