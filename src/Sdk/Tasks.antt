-- ===== src/Sdk/Tasks.antt =====
-- sdk/executor/executor.go: the handlers of an executor, and a task from its call to its report.
use ework_runner.Prelude.{
  ℤ, ◌==ˢ◌, String, Bool, true, false, ◌≡◌, Option, none, some, List, [], ◌∷◌, if◌then◌else◌, arith,
  Params,
}
use ework_runner.Prelude.Table.{get, put}
use ework_runner.Env.{ExecuteRequest}
use ework_runner.Server.{Config, Server}
use ework_runner.Server as server
use ework_runner.Sdk.{Executor, Job, finish_task}

-- Run of a handler, with the parameters of its context: whether it returns an error.
abbrev pub Handlers : Type 0
Handlers = List (String × (ExecuteRequest → Bool))

-- NewExecutor: the text of the error, or an executor of no task.
unfoldable pub new_executor : Config → Option String × Executor
new_executor cfg =
    let empty : Executor = record {
      service_id = cfg.service_id;
      states = λ eid. none;
      cancels = λ eid. none;
      cancelled = λ context. false;
      jobs = [];
      reported = [];
    } in
    (
      elim (server.validate cfg) [
        | some text ↦ some text
        | none ↦ if cfg.service_id ==ˢ "" then some "service_id is required" else none
      ],
      empty,
    )

-- InitComponents: the server of the executor, if grpc.NewClient makes the connection to the
-- scheduler.
unfoldable pub init_components : Config → Bool → Option Server
init_components cfg connects =
    if connects
    then some (server.new_server cfg true (server.with_jwt_auth cfg.auth_token ∷ []))
    else none

-- The server of an executor asks for tokens of its configured key, or for none if there is no key.
init_components-key :
    (cfg : Config) (s : Server)
    → init_components cfg true ≡ some s
    → s.interceptor_key ≡ (if cfg.auth_token ==ˢ "" then none else some cfg.auth_token)
unfolding init_components server.new_server
init_components-key cfg s h = ground arith

-- RegisterHandler: a second handler of a name takes the place of the first.
unfoldable pub register_handler : String → (ExecuteRequest → Bool) → Handlers → Handlers
register_handler name handler handlers = put ◌==ˢ◌ name handler handlers

-- Whether executeTask has an error: there is no handler of the name, or it returned one.
abbrev pub fails_by : Option (ExecuteRequest → Bool) → ExecuteRequest → Bool
fails_by none req = true
fails_by (some handler) req = handler req

unfoldable pub fails : Handlers → ExecuteRequest → Bool
fails handlers req = fails_by (get ◌==ˢ◌ req.task_handler_name handlers) req

-- executeTask, from the return of the handler on.
unfoldable pub execute_task : Handlers → Job → Executor → Executor
execute_task handlers job e = finish_task job (fails handlers job.request) e

-- Prepare asks for nothing.
unfoldable pub prepare : ℤ → Params
prepare eid = []
