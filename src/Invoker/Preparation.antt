-- ===== src/Invoker/Preparation.antt =====
-- internal/service/invoker: Prepare, which asks an executor for the parameters of an execution.
use ework_runner.Prelude.{ℕ, ℤ, String, Params, Option, none, some, ◌≡◌, refl}
use ework_runner.Domain.Errors.{not_registered, call_failed}
use ework_runner.Domain.Task.{GrpcConfig, HttpConfig}
use ework_runner.Domain.Execution.{TaskExecution, grpc_params}
use ework_runner.Action.{pure, raise, panics, panic, ◌>>=◌}
use ework_runner.Env.{Env, World, Act, ask}

-- The request of the executor protocol, with the service that it goes to.
pub record PrepareRequest : Type 0 where
  pub service_name : String
  pub eid : ℤ
  pub task_id : ℤ
  pub task_name : String
  pub params : Params

-- The executors' answers: `none` is an error of the call.
module _ (env : Env) (answers : ℕ → PrepareRequest → Option Params)
    (functions : String → Option (ℕ → TaskExecution → Option Params)) where
  abbrev pub prepared : Option Params → Act Params
  prepared none = raise call_failed
  prepared (some params) = pure params

  abbrev pub prepare_request : GrpcConfig → TaskExecution → PrepareRequest
  prepare_request c e = record {
    service_name = c.service_name;
    eid = e.id;
    task_id = e.task.id;
    task_name = e.task.name;
    params = grpc_params env.format_int e;
  }

  abbrev pub grpc_prepare : GrpcConfig → TaskExecution → Act Params
  grpc_prepare c e = do reply ← ask (λ t. answers t (prepare_request c e)); prepared reply

  -- `panic("implement me")`
  abbrev pub http_prepare : TaskExecution → Act Params
  http_prepare e = panics

  abbrev pub local_prepare_by :
      Option (ℕ → TaskExecution → Option Params) → TaskExecution → Act Params
  local_prepare_by none e = raise not_registered
  local_prepare_by (some fn) e = do reply ← ask (λ t. fn t e); prepared reply

  abbrev pub local_prepare : TaskExecution → Act Params
  local_prepare e = local_prepare_by (functions e.task.name) e

  abbrev pub dispatch : TaskExecution → Option GrpcConfig → Option HttpConfig → Act Params
  dispatch e (some c) _ = grpc_prepare c e
  dispatch e none (some c) = http_prepare e
  dispatch e none none = local_prepare e

  -- Dispatcher.Prepare
  unfoldable pub prepare : TaskExecution → Act Params
  prepare e = dispatch e e.task.grpc_config e.task.http_config

  -- Every task with an HTTP configuration and no gRPC configuration panics.
  prepare-panic :
      (e : TaskExecution) (c : HttpConfig) (w : World)
      → e.task.grpc_config ≡ none
      → e.task.http_config ≡ some c
      → (prepare e w).0 ≡ panic
  unfolding prepare
  prepare-panic e c w no_grpc http = rw (no_grpc, http) refl
