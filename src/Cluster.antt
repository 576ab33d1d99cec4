-- ===== src/Cluster.antt =====
-- The whole system at work: scheduler nodes with their compensators, the executors' answers and
-- reports, the consumers of completion events, and the web handlers, on one database and broker.
pub mod Kept
pub mod Writes
pub mod Executions
pub mod Reports
pub mod Tasks
pub mod Starts
pub mod Runs
pub mod Rounds
pub mod Sound
pub mod Ending
pub mod Loops
pub mod Races
pub mod Interleaved
pub mod Nodes
pub mod Stopped
pub mod Delivery
use ework_runner.Prelude.{ℕ, ℤ, String, Option, none, some, List, [], ◌∷◌, get_elem?}
use ework_runner.Domain.Task.{Task}
use ework_runner.Domain.Execution.{Report}
use ework_runner.Env.{Env, World, Event, Invocation}
use ework_runner.Service.Task as tasks
use ework_runner.Service.Execution.{handle_reports}
use ework_runner.Service.Runner.{run_invocation}
use ework_runner.Scheduler.{Config, schedule_round, renew_round}
use ework_runner.Compensator.{retry_round, reschedule_round, interrupt_round}
use ework_runner.Complete.{handle_task}

-- Who takes the next turn, on which node. A turn runs to its end before the next begins.
pub data Turn : Type 0 where
  adds : Task → Turn  -- a task is created over HTTP
  schedules : String → Config → Turn
  renews : String → Turn
  retries : String → ℤ → Turn
  reschedules : String → ℤ → Turn
  interrupts : ℤ → Turn
  invokes : String → ℕ → Turn  -- the goroutine with that number calls its executor
  reports : List Report → Turn
  consumes : ℕ → Turn  -- the broker delivers the event with that number, perhaps again

module _ (env : Env) where
  abbrev pub invoked : String → Option Invocation → World → World
  invoked node none w = w
  invoked node (some i) w = (run_invocation env node i w).1

  abbrev pub consumed : Option Event → World → World
  consumed none w = w
  consumed (some e) w = (handle_task env e w).1

  unfoldable pub take_turn : Turn → World → World
  take_turn (adds t) w = (tasks.create env t w).1
  take_turn (schedules node c) w = (schedule_round env node c w).1
  take_turn (renews node) w = (renew_round env node w).1
  take_turn (retries node batch_size) w = (retry_round env node batch_size w).1
  take_turn (reschedules node batch_size) w = (reschedule_round env node batch_size w).1
  take_turn (interrupts batch_size) w = (interrupt_round env batch_size w).1
  take_turn (invokes node n) w = invoked node (get_elem? w.invocations n) w
  take_turn (reports rs) w = (handle_reports env rs w).1
  take_turn (consumes n) w = consumed (get_elem? w.events n) w

  unfoldable pub take_turns : List Turn → World → World
  take_turns [] w = w
  take_turns (t ∷ ts) w = take_turns ts (take_turn t w)
