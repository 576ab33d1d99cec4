-- ===== src/Invoker.antt =====
-- internal/service/invoker: the call of the executor that a task is configured for.
pub mod Preparation
use ework_runner.Prelude.{Bool, true, false, Option, none, some}
use ework_runner.Domain.Errors.{not_registered, call_failed}
use ework_runner.Domain.Task.{GrpcConfig, HttpConfig}
use ework_runner.Domain.Execution.{
  TaskExecution, ExecutionState, ProtoState, grpc_params, execution_state_from_proto,
}
use ework_runner.Action.{pure, raise, ◌>>=◌}
use ework_runner.Env.{Env, Act, Routing, ExecuteRequest, ask}

abbrev replied : Option (Option ProtoState) → Act ExecutionState
replied none = raise call_failed
replied (some state) = pure (execution_state_from_proto state)

abbrev posted : Bool → Act ExecutionState
posted true = pure (execution_state_from_proto none)
posted false = raise call_failed

abbrev returned : Option ExecutionState → Act ExecutionState
returned none = raise call_failed
returned (some state) = pure state

abbrev pub execute_request : Env → GrpcConfig → TaskExecution → ExecuteRequest
execute_request env c e = record {
  service_name = c.service_name;
  eid = e.id;
  task_id = e.task.id;
  task_name = e.task.name;
  task_handler_name = c.handler_name;
  params = grpc_params env.format_int e;
}

module _ (env : Env) where
  abbrev grpc_run : Routing → GrpcConfig → TaskExecution → Act ExecutionState
  grpc_run routing c e = do
    reply ← ask (λ t. env.execute t routing (execute_request env c e))
    replied reply

  -- The body of the response is not read: the state is the zero value.
  abbrev http_run : TaskExecution → Act ExecutionState
  http_run e = do sent ← ask (λ t. env.http_post t e); posted sent

  abbrev local_run : TaskExecution → Act ExecutionState
  local_run e = elim (env.local_functions e.task.name) [
    | none ↦ raise not_registered
    | some fn ↦ do state ← ask (λ t. fn t e); returned state
  ]

  dispatch : Routing → TaskExecution → Option GrpcConfig → Option HttpConfig → Act ExecutionState
  dispatch routing e (some c) _ = grpc_run routing c e
  dispatch routing e none (some c) = http_run e
  dispatch routing e none none = local_run e

  -- Dispatcher.Run
  unfoldable pub run : Routing → TaskExecution → Act ExecutionState
  unfolding dispatch
  run routing e = dispatch routing e e.task.grpc_config e.task.http_config
