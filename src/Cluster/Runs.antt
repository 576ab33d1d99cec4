-- ===== src/Cluster/Runs.antt =====
-- The turns of the scheduler nodes.
use ework_runner.Prelude.{ℕ, suc, String, true, false, refl, List, [], ◌∷◌, arith, if◌then◌else◌}
use ework_runner.Domain.Task.{Task}
use ework_runner.Action.{pure, raise, on_result, ◌>>=◌, ◌>>◌}
use ework_runner.Env.{Env, World, Routing, Invocation}
use ework_runner.Schema.{EnvLaws}
use ework_runner.Repository.Execution as repo
use ework_runner.Repository.Execution.{to_domain}
use ework_runner.Service.Task as tasks
use ework_runner.Invoker as invoker
use ework_runner.Service.Execution.{update_state}
use ework_runner.Service.Runner.{
  new_execution, release_task, handle_normal_task, run, run_invocation, spawn,
}
use ework_runner.Scheduler.{Config, new_context, pick, schedule_from, schedule_round, renew_round}
use ework_runner.Cluster.Kept.{Kept, Kept-refl, Kept-same, Kept-spawn, Kept-trans}
use ework_runner.Cluster.Reports.{update_state-Kept}
use ework_runner.Cluster.Tasks.{
  bind-Kept, on_result-Kept, acquire-Kept, release-Kept, renew-Kept, schedulable_tasks-Kept, ticked,
}
use ework_runner.Cluster.Starts.{create-Kept, created}

module _ (env : Env) (laws : EnvLaws env) where
  release_task-Kept : (node : String) (t : Task) (w : World) → Kept w (release_task env node t w).1
  unfolding release_task
  release_task-Kept node t w =
      on_result-Kept (tasks.release env t.id node) w (release-Kept env laws t.id node w) pure
        (λ x. pure tt) (λ a e. Kept-refl _) (λ x. Kept-refl _)

  handle_normal_task-Kept :
      (node : String) (routing : Routing) (t : Task) (w : World)
      → Kept w (handle_normal_task env node routing t w).1
  unfolding handle_normal_task
  handle_normal_task-Kept node routing t w =
      let w₁ = record w { tick = suc w.tick } in
      let new = new_execution t (env.clock w.tick) in
      Kept-trans {b = w₁} (ticked w) (
        on_result-Kept (repo.create env new) w₁ (create-Kept env laws new w₁ refl) (spawn routing)
          (λ x. release_task env node t >> raise x)
          (λ e ran.
            Kept-spawn _ (record { routing = routing; execution = e })
              (created env laws new e w₁ ran))
          (λ x.
            bind-Kept (release_task env node t) _ (release_task-Kept node t _) (λ _. raise x)
              (λ a ran. Kept-refl _)))

  run-Kept :
      (node : String) (routing : Routing) (t : Task) (w : World)
      → Kept w (run env node routing t w).1
  unfolding run
  run-Kept node routing t w =
      bind-Kept (tasks.acquire env t.id t.version node) w
        (acquire-Kept env laws t.id t.version node w) (handle_normal_task env node routing)
        (λ a ran. handle_normal_task-Kept node routing a _)

  new_context-Kept : (t : Task) (w : World) → Kept w (new_context env t w).1
  unfolding new_context pick
  new_context-Kept t w = Kept-same w _ (ground arith) (ground arith) (ground arith) (ground arith)

  schedule_from-Kept :
      (node : String) (n : ℕ) (batch : List Task) (w : World)
      → Kept w (schedule_from env node n batch w).1
  unfolding schedule_from
  schedule_from-Kept node n [] w = Kept-refl w
  schedule_from-Kept node n (t ∷ batch) w =
      bind-Kept (new_context env t) w (new_context-Kept t w)
        (λ routing. do
          started ← on_result (run env node routing t) (λ _. pure true) (λ e. pure false)
          schedule_from env node (if started then suc n else n) batch)
        (λ routing _.
          bind-Kept (on_result (run env node routing t) (λ _. pure true) (λ e. pure false)) _
            (on_result-Kept (run env node routing t) _ (run-Kept node routing t _) (λ _. pure true)
              (λ e. pure false) (λ a ran. Kept-refl _) (λ x. Kept-refl _))
            (λ started. schedule_from env node (if started then suc n else n) batch)
            (λ started _. schedule_from-Kept node (if started then suc n else n) batch _))

  pub schedule_round-Kept :
      (node : String) (c : Config) (w : World) → Kept w (schedule_round env node c w).1
  unfolding schedule_round
  schedule_round-Kept node c w =
      bind-Kept
        (on_result (tasks.schedulable_tasks env c.preempted_timeout c.batch_size) pure
          (λ e. pure []))
        w
        (on_result-Kept (tasks.schedulable_tasks env c.preempted_timeout c.batch_size) w
          (schedulable_tasks-Kept env laws c.preempted_timeout c.batch_size w) pure (λ e. pure [])
          (λ a ran. Kept-refl _) (λ x. Kept-refl _))
        (schedule_from env node 0) (λ batch ran. schedule_from-Kept node 0 batch _)

  pub renew_round-Kept : (node : String) (w : World) → Kept w (renew_round env node w).1
  unfolding renew_round
  renew_round-Kept node w =
      on_result-Kept (tasks.renew env node) w (renew-Kept env laws node w) pure (λ e. pure tt)
        (λ a ran. Kept-refl _) (λ x. Kept-refl _)

  invoke-Kept : (i : Invocation) (w : World) → Kept w (invoker.run env i.routing i.execution w).1
  unfolding invoker.run
  invoke-Kept i w = Kept-same w _ (ground arith) (ground arith) (ground arith) (ground arith)

  pub run_invocation-Kept :
      (node : String) (i : Invocation) (w : World) → Kept w (run_invocation env node i w).1
  unfolding run_invocation
  run_invocation-Kept node i w =
      on_result-Kept (invoker.run env i.routing i.execution) w (invoke-Kept i w)
        (λ state. on_result (update_state env state) pure (λ e. pure tt)) (λ e. pure tt)
        (λ state ran.
          on_result-Kept (update_state env state) _ (update_state-Kept env laws state _) pure
            (λ e. pure tt) (λ a ran'. Kept-refl _) (λ x. Kept-refl _))
        (λ x. Kept-refl _)
