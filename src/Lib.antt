-- ===== src/Lib.antt =====
-- The distributed task scheduler: scheduler nodes claim due tasks in a shared database, write an
-- execution for each, and call executors over gRPC, over HTTP or in their own process. Executors report
-- what became of an execution; the end of one is an event, whose consumer writes the outcome down,
-- computes the task's next time and releases the task. Compensators start failed executions again.
--
-- Which file models which part (paths from the repository's root):
-- - Prelude and its children: the integers of Go (`int32` and `int64` wrap around where the source
--   computes in them), strings, Go maps as association lists, and shared lemmas.
-- - Domain: internal/domain and internal/errs. Domain/Status holds the enums, Domain/Task and
--   Domain/Execution the structs and their methods, Domain/Execution/Merging what is shown of parameters.
-- - Rows, Database, Schema: the structs of internal/repository/dao and the database behind GORM.
--   An `Engine` answers UPDATE, SELECT and INSERT; `Laws` are what its documentation promises: a statement
--   fails and changes nothing, or has its effect on the rows that the condition selects.
-- - Env: the shared state `World` (both tables, the events of the broker, the goroutines started) and the
--   environment `Env`: the clock, the database, the broker, the cron parser, the executors, the registry.
--   All of these are parameters. Each answer may depend on the moment, so calls may fail at any time.
--   `EnvLaws` are the laws of the two tables, which the theorems about them assume.
-- - Action: Go functions that return an error or panic, in state-passing style.
-- - Dao/Task and Dao/Execution: internal/repository/dao, one definition per operation under the name of
--   the method. Dao/Task/Calls has sequences of calls by any number of nodes.
-- - Repository: internal/repository, the conversions between rows and the domain.
-- - Service/Task: internal/service/task/service.go and internal/service/acquirer.
-- - Service/Execution: internal/service/task/execution_service.go; `update_state` is UpdateState and
--   `dispatch` its switch over the reported status.
-- - Service/Runner: internal/service/runner; a goroutine is started by an entry of `World.invocations`,
--   and `run_invocation` is its body.
-- - Invoker: internal/service/invoker. Complete: internal/event/complete. Reporter:
--   internal/grpc/reporter.go. Compensator: internal/compensator. Scheduler: internal/service/scheduler
--   and internal/service/picker.
-- - Invoker/Preparation: Prepare of the invokers. Compensator/Loops and Scheduler/Loops: the endless loops.
--   Scheduler/Node: a node with both loops, from Start to Stop; a panic ends its process.
-- - Clients: pkg/grpc/clients.go, as atomic accesses to the map of the clients. Column: pkg/sqlx.
-- - Web/Policy: pkg/ginx. Execute/Workers: the goroutines that ExecuteConsumer.Start begins.
-- - Retry: pkg/retry. Sdk: sdk/executor; Sdk/Context has the parameters that a
--   handler reads, Sdk/Tasks the handlers and executeTask.
-- - Dao/Task/Lease: the lease of a task as an abstract machine, and Dao/Task/Lease/Refinement the proof
--   that the task DAO implements it.
-- - Balancer: pkg/grpc/balancer. Balancer itself is the picker, Balancer/Connections the maps between
--   addresses and connections, as Prelude/Table; `perform` is a call of gRPC.
-- - Registry: pkg/grpc/registry, over a client of etcd whose laws are in `IsStore`; Registry/Watch is
--   the goroutine of a subscription, and Registry/Closing the contexts of the watches, both also for
--   pkg/registry. Resolver: pkg/grpc/resolver.go; the addresses that it makes are those that the
--   balancer is called with.
-- - Server: pkg/grpc/server.go and pkg/netx; the machine's network and environment are `Machine`.
-- - Jwt: pkg/grpc/interceptors/jwt, over the JWT library; Jwt/Float has the conversions of float64.
-- - Files: the operating system as the scripts call it. Scripts: internal/grpc/scripts. Execute and its
--   children: internal/execute. Demo: internal/grpc/executor.go.
-- - Web: internal/web/task. Queue: pkg/mpx. Workers: pkg/registry. Runner: internal/runner.
-- - Cluster: the parts at work together. `Turn` says who acts next, and `take_turn` what it does to the
--   shared state; Cluster/Kept is what every turn keeps, and its siblings prove it, layer by layer.
--   Cluster/Loops, Cluster/Nodes and Cluster/Delivery are about the endless loops, a whole scheduler
--   node and the loop of the completion consumer, as sequences of turns.
-- - Tests: a database in memory that satisfies the laws, and runs of the theorems on small inputs.
--
-- Loops over batches are recursion on the list. Only the loop of Demo runs on fuel, and the
-- distance from its start to its end is enough; the rounding of Jwt/Float doubles a unit eleven
-- times, up to 2^64. The loops of the scheduler, the queue, the compensators and the watches run
-- over the list of what they meet. A transaction is one step, as the database isolates it; single
-- statements of different nodes interleave as sequences of calls. A turn of Cluster runs to its end
-- before the next begins, which the code does not ensure for the check and the write of
-- UpdateState; Cluster/Interleaved has the two apart, with turns in between, and Cluster/Races the
-- case in which the execution ends in between. A task's version is taken not to reach 2^63. Times
-- are in milliseconds as the source stores them.
--
-- A Go map is a list of entries with a Boolean test on keys; no theorem depends on the order in
-- which a loop meets them. A refresh of the resolver, a call of the balancer and a request to an
-- executor are one step each.
--
-- Not modelled: the routes of the web library, the generated protocol code and the wiring; and the
-- queries by plan of the DAOs, which select on columns that the tables do not have.
pub mod Prelude
pub mod Domain
pub mod Action
pub mod Database
pub mod Rows
pub mod Env
pub mod Dao
pub mod Schema
pub mod Retry
pub mod Repository
pub mod Service
pub mod Clients
pub mod Cluster
pub mod Column
pub mod Complete
pub mod Scheduler
pub mod Invoker
pub mod Compensator
pub mod Reporter
pub mod Balancer
pub mod Sdk
pub mod Tests
pub mod Registry
pub mod Files
pub mod Scripts
pub mod Execute
pub mod Demo
pub mod Web
pub mod Queue
pub mod Workers
pub mod Runner
pub mod Jwt
pub mod Server
pub mod Resolver
