-- ===== src/Env.antt =====
-- The shared state that the components act on, and the environment that answers them.
use ework_runner.Prelude.{
  ℕ, suc, ℤ, String, NilParams, Params, Bool, Option, List, if◌then◌else◌, ◌==◌,
}
use ework_runner.Domain.Errors.{Error, database_failed}
use ework_runner.Domain.Status.{TaskExecutionStatus}
use ework_runner.Domain.Task.{Cron}
use ework_runner.Domain.Execution.{TaskExecution, ExecutionState, ProtoState}
use ework_runner.Action.{Action, Result, ok, err, panic, pure, raise}
use ework_runner.Database.{Engine, Reply, failed, done}
use ework_runner.Rows.{TaskRow, ExecutionRow, JsonColumn}

-- internal/event/complete.go
pub record Event : Type 0 where
  pub task_id : ℤ
  pub exec_id : ℤ
  pub version : ℤ
  pub schedule_node_id : String
  pub exec_status : TaskExecutionStatus
  pub name : String

-- The routing values that a context carries to the load balancer.
pub record Routing : Type 0 where
  pub specific_node_id : Option String
  pub excluded_node_id : Option String

-- The request of the executor protocol that GRPCInvoker.Run sends to a service.
pub record ExecuteRequest : Type 0 where
  pub service_name : String
  pub eid : ℤ
  pub task_id : ℤ
  pub task_name : String
  pub task_handler_name : String
  pub params : Params

-- A goroutine that was started: it will run the executor on this execution.
pub record Invocation : Type 0 where
  pub routing : Routing
  pub execution : TaskExecution

pub record World : Type 0 where
  pub tasks : List TaskRow
  pub executions : List ExecutionRow
  pub events : List Event  -- delivered to the broker, oldest first
  pub invocations : List Invocation  -- goroutines started, oldest first
  pub tick : ℕ  -- how many questions the environment has answered

-- Each answer of the environment may depend on the moment, `World.tick`.
pub record Env : Type 0 where
  pub clock : ℕ → ℤ  -- time.Now().UnixMilli()
  pub task_table : Engine TaskRow
  pub execution_table : Engine ExecutionRow
  pub commits : ℕ → Bool  -- whether a COMMIT succeeds
  pub delivers : ℕ → Event → Bool  -- whether the broker takes a message
  pub cron : Cron
  -- a Go map where the MySQL driver wants a column value; `none` is the driver's refusal
  pub driver_map : NilParams → Option (JsonColumn NilParams)
  pub nanos : ℕ → ℕ  -- the nanoseconds of time.Now() within its millisecond
  -- time.Duration of a float64 that no int64 holds, by its power of two
  pub out_of_range : ℤ → ℤ
  pub format_int : ℤ → String  -- strconv.FormatInt in base 10
  -- The gRPC executors, by the routing of the call: `none` is an error of the call.
  pub execute : ℕ → Routing → ExecuteRequest → Option (Option ProtoState)
  pub interrupt : ℕ → String → ℤ → Option (Bool × Option ProtoState)
  pub http_post : ℕ → TaskExecution → Bool  -- whether the HTTP call goes through
  -- The functions of the local executor by name; `none` from one is its error.
  pub local_functions : String → Option (ℕ → TaskExecution → Option ExecutionState)
  -- The ids of the registered executor nodes of a service.
  pub list_services : ℕ → String → Option (List String)
  pub random : ℕ → ℕ → ℕ  -- rand.Intn

abbrev pub Act : Type 0 → Type 0
Act = Action World

-- The state after `m` with the tables as they were before it.
abbrev pub rollback : World → World → World
rollback before after = record after { tasks = before.tasks; executions = before.executions }

-- An answer of the environment at the moment.
abbrev pub ask : {A : Type 0} → (ℕ → A) → Act A
ask f w = (ok (f w.tick), record w { tick = suc w.tick })

module _ (env : Env) where
  -- time.Now().UnixMilli()
  abbrev pub now : Act ℤ
  now w = (ok (env.clock w.tick), record w { tick = suc w.tick })

  abbrev end_of_transaction : {A : Type 0} → World → Result A × World → Result A × World
  end_of_transaction before (ok a, w) =
      if env.commits w.tick
      then (ok a, record w { tick = suc w.tick })
      else (err database_failed, record (rollback before w) { tick = suc w.tick })
  end_of_transaction before (err e, w) = (err e, rollback before w)
  end_of_transaction before (panic, w) = (panic, rollback before w)

  -- db.Transaction(m): an error, a panic or a COMMIT that fails leaves the tables as they were.
  abbrev pub transaction : {A : Type 0} → Act A → Act A
  transaction m w = end_of_transaction w (m w)

  abbrev pub update_tasks : (TaskRow → Bool) → (TaskRow → TaskRow) → Act (Reply ℕ)
  update_tasks p f w =
      let (reply, rows) = env.task_table.update w.tick p f w.tasks in
      (ok reply, record w { tasks = rows; tick = suc w.tick })

  abbrev pub first_task : (TaskRow → Bool) → Act (Reply TaskRow)
  first_task p w = (ok (env.task_table.first w.tick p w.tasks), record w { tick = suc w.tick })

  abbrev pub select_tasks : (TaskRow → Bool) → (TaskRow → ℤ) → ℤ → Act (Reply (List TaskRow))
  select_tasks p order limit w =
      (ok (env.task_table.select w.tick p order limit w.tasks), record w { tick = suc w.tick })

  abbrev pub insert_task : TaskRow → Act (Reply TaskRow)
  insert_task r w =
      let (reply, rows) = env.task_table.insert w.tick r w.tasks in
      (ok reply, record w { tasks = rows; tick = suc w.tick })

  abbrev pub update_executions :
      (ExecutionRow → Bool) → (ExecutionRow → ExecutionRow) → Act (Reply ℕ)
  update_executions p f w =
      let (reply, rows) = env.execution_table.update w.tick p f w.executions in
      (ok reply, record w { executions = rows; tick = suc w.tick })

  abbrev pub first_execution : (ExecutionRow → Bool) → Act (Reply ExecutionRow)
  first_execution p w =
      (ok (env.execution_table.first w.tick p w.executions), record w { tick = suc w.tick })

  abbrev pub select_executions :
      (ExecutionRow → Bool) → (ExecutionRow → ℤ) → ℤ → Act (Reply (List ExecutionRow))
  select_executions p order limit w = (
    ok (env.execution_table.select w.tick p order limit w.executions),
    record w { tick = suc w.tick },
  )

  abbrev pub insert_execution : ExecutionRow → Act (Reply ExecutionRow)
  insert_execution r w =
      let (reply, rows) = env.execution_table.insert w.tick r w.executions in
      (ok reply, record w { executions = rows; tick = suc w.tick })

-- `if result.Error != nil { … }` with the error `e`
abbrev pub or_error : {A : Type 0} → Error → Reply A → Act A
or_error e failed = raise e
or_error e (done a) = pure a

-- The same, and `if result.RowsAffected == 0 { … }` with the error `none_affected`.
abbrev pub affected : Error → Error → Reply ℕ → Act (Unit {0})
affected e none_affected failed = raise e
affected e none_affected (done n) = if n == 0 then raise none_affected else pure tt
