-- ===== src/Scheduler/Crash.antt =====
-- A scheduling turn that meets a task with no gRPC configuration.
use ework_runner.Prelude.{ℕ, zero, suc, String, Bool, true, false, none, ◌≡◌, refl, List, ◌∷◌, ap}
use ework_runner.Domain.Task.{Task}
use ework_runner.Action.{ok, panic}
use ework_runner.Env.{Env, World}
use ework_runner.Service.Task as tasks
use ework_runner.Scheduler.{schedule_round, schedule_from, new_context, pick}
use ework_runner.Scheduler.Node.{
  Scheduler, schedule_turn, crash, unless_panic, schedule_turn_of, step,
}

module _ (env : Env) where
  new_context-panic :
      (t : Task) (w : World) → t.grpc_config ≡ none → new_context env t w ≡ (panic, w)
  unfolding new_context pick
  new_context-panic t w no_grpc = rw no_grpc refl

  schedule_from-panic :
      (node : String) (n : ℕ) (t : Task) (rest : List Task) (w : World)
      → t.grpc_config ≡ none
      → schedule_from env node n (t ∷ rest) w ≡ (panic, w)
  unfolding schedule_from
  schedule_from-panic node n t rest w no_grpc = rw (new_context-panic t w no_grpc) refl

  -- If the first task of a batch has no gRPC configuration, then the scheduling turn ends the
  -- process: both goroutines are gone, and nothing is done for this or any other task.
  pub step-panic :
      (s : Scheduler) (n : ℕ) (t : Task) (rest : List Task) (w w₁ : World)
      → s.schedule_loops ≡ suc n
      → s.canceled ≡ false
      → tasks.schedulable_tasks env s.config.preempted_timeout s.config.batch_size w
        ≡ (ok (t ∷ rest), w₁)
      → t.grpc_config ≡ none
      → step env schedule_turn s w ≡ (crash s, w₁)
  unfolding step schedule_round
  step-panic s n t rest w w₁ loops alive found no_grpc =
      turn s.schedule_loops s.canceled loops alive
    where
      round : schedule_round env s.node_id s.config w ≡ (panic, w₁)
      round = rw found (schedule_from-panic s.node_id 0 t rest w₁ no_grpc)

      turn :
          (m : ℕ) (c : Bool) → m ≡ suc n → c ≡ false → schedule_turn_of env m c s w ≡ (crash s, w₁)
      turn zero c e f = cc e
      turn (suc m) true e f = cc f
      turn (suc m) false e f = ap (unless_panic s) round
